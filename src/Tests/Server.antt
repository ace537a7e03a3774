-- ===== src/Tests/Server.antt =====
-- Examples for the server: workers and the accept loops.
use simple_serv.Common.{
  ℕ, suc, ◌≡◌, ◌≢◌, refl, true, false, Option, none, some, [], ◌∷◌, ◌++◌, arith, Bytes, codes,
}
use simple_serv.Common.Outcome.{Outcome, returns}
use simple_serv.Utility.LockFreeQueue.{LockFreeQueue}
use simple_serv.Utility.LockFreeQueue.Fifo.{IsValid, contents}
use simple_serv.Http.Headers.{header_name, location, date, if_none_match}
use simple_serv.Http.Message.{crlf}
use simple_serv.Server.Connection.{HttpConnection, queue_capacity, worker_rounds}
use simple_serv.Server.Connection.Fifo.{seen, all_served, serve_all, worker_rounds-serve_all}
use simple_serv.Server.Accept.{
  again, arrived, Arrival, AcceptState, c_string, receive, accept_incoming,
}
use simple_serv.Server.Pipeline.{taken, worker_rounds-accept_incoming}
use simple_serv.Server.Accept.Requests.{IsServing, accept_incoming-IsServing}
use simple_serv.Server.Tls
use simple_serv.Server.Tls.{TlsArrival, TlsState}
use simple_serv.Server.Tls.Requests.{IsTlsServing, accept_incoming-IsTlsServing}

-- Location has the name of another field, and a name that is looked up is not in the table.
location_name :
    (header_name location ≡ header_name date) × (header_name if_none_match ≢ codes "If-None-Match")
unfolding header_name
location_name = (refl, λ e. cc e)

abbrev pub page_connection : HttpConnection
page_connection = record { client_fd = 5; request = codes "GET /a.html HTTP/1.1" ++ (crlf ++ crlf) }

abbrev two_waiting : LockFreeQueue HttpConnection
two_waiting = record { arr = λ _. page_connection; head = 99; tail = 1; size = 2 }

two_waiting-IsValid : IsValid queue_capacity two_waiting
two_waiting-IsValid = record {
  head_lt = omega arith;
  tail_lt = omega arith;
  capacity_lt = omega arith;
}

-- A handler that answers with the number of requests so far
abbrev counter : Bytes → ℕ → Outcome (Option Bytes × ℕ)
counter request n = returns (some (n ∷ []), suc n)

worker_rounds-serve_all_example :
    seen counter (worker_rounds counter (true ∷ false ∷ false ∷ []) two_waiting 0)
    ≡ all_served counter (serve_all counter (contents queue_capacity two_waiting) 0)
worker_rounds-serve_all_example =
    worker_rounds-serve_all counter (true ∷ false ∷ false ∷ []) two_waiting 0 two_waiting-IsValid
      (omega arith)

abbrev idle : AcceptState
idle = record {
  client_fd = none;
  queue = record { arr = λ _. page_connection; head = 0; tail = 0; size = 0 };
}

idle-IsServing : IsServing idle
idle-IsServing = record {
  valid = record { head_lt = omega arith; tail_lt = omega arith; capacity_lt = omega arith };
  requests = tt;
}

abbrev one_arrival : Arrival
one_arrival = record {
  stop_requested = false;
  accepted = some 5;
  errno_eagain = false;
  received = again ∷ arrived page_connection.request ∷ [];
}

accept_incoming-IsServing_example : IsServing (accept_incoming (one_arrival ∷ []) idle).1
accept_incoming-IsServing_example = accept_incoming-IsServing (one_arrival ∷ []) idle idle-IsServing

fetched_in_order :
    taken (one_arrival ∷ record one_arrival { accepted = some 6 } ∷ [])
    ≡ page_connection ∷ record page_connection { client_fd = 6 } ∷ []
unfolding receive c_string
fetched_in_order = refl

worker_rounds-accept_incoming_example :
    (let arrivals = one_arrival ∷ record one_arrival { accepted = some 6 } ∷ [] in
      seen counter (
        worker_rounds counter (false ∷ true ∷ false ∷ []) (accept_incoming arrivals idle).1.queue 0)
      ≡ all_served counter (serve_all counter (taken arrivals) 0))
unfolding receive
worker_rounds-accept_incoming_example =
    worker_rounds-accept_incoming counter
      (one_arrival ∷ record one_arrival { accepted = some 6 } ∷ []) idle 0
      (false ∷ true ∷ false ∷ []) idle-IsServing.valid (omega arith) (omega arith)

abbrev idle_tls : TlsState
idle_tls = record {
  client_fd = none;
  ssl = none;
  queue = record {
    arr = λ _. record { client_fd = 0; ssl = none; request = [] };
    head = 0;
    tail = 0;
    size = 0;
  };
}

idle_tls-IsTlsServing : IsTlsServing idle_tls
idle_tls-IsTlsServing = record {
  valid = record { head_lt = omega arith; tail_lt = omega arith; capacity_lt = omega arith };
  requests = tt;
}

abbrev tls_arrival : TlsArrival
tls_arrival = record {
  stop_requested = false;
  accepted = some 6;
  errno_eagain = false;
  session = some 1;
  reads = (Tls.failed, true) ∷ (Tls.arrived page_connection.request, false) ∷ [];
}

accept_incoming-IsTlsServing_example :
    IsTlsServing (Tls.accept_incoming (tls_arrival ∷ []) idle_tls).1
accept_incoming-IsTlsServing_example =
    accept_incoming-IsTlsServing (tls_arrival ∷ []) idle_tls idle_tls-IsTlsServing
