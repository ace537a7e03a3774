-- ===== src/Server/Tls/Requests.antt =====
-- What the accept loop of the TLS server puts into the queue.
use simple_serv.Common.{
  ℕ, ◌-◌, ◌<◌, arith, Bool, true, false, Bool-cases, inl, inr, Option, none, some, List, [], ◌∷◌,
  Lacks, All, length,
}
use simple_serv.Utility.LockFreeQueue.Fifo.{IsValid, contents, push-All}
use simple_serv.Server.Connection.{queue_capacity}
use simple_serv.Server.Accept.{maxbuflen, Received, waiting, broken, bytes, c_string}
use simple_serv.Server.Accept.Requests.{
  Lacks-c_string, length-c_string, length-take, Fits, after_round_keeps,
}
use simple_serv.Server.Tls.{
  HttpsConnection, ReadResult, failed, arrived, TlsArrival, TlsState, read_request, finish_read,
  take_connection, accept_round, accept_incoming,
}

abbrev pub IsRequest : HttpsConnection → Type 0
IsRequest c = Lacks 0 c.request × (length c.request < maxbuflen)

pub record IsTlsServing (s : TlsState) : Type 0 where
  pub valid : IsValid queue_capacity s.queue
  pub requests : All IsRequest (contents queue_capacity s.queue)

read_request-Fits : (reads : List (ReadResult × Bool)) → Fits (read_request reads)
unfolding read_request
read_request-Fits [] = tt
read_request-Fits ((failed, true) ∷ reads) = read_request-Fits reads
read_request-Fits ((failed, false) ∷ reads) = tt
read_request-Fits ((arrived text, true) ∷ reads) = read_request-Fits reads
read_request-Fits ((arrived text, false) ∷ reads) = omega (arith, length-take (maxbuflen - 1) text)

finish_read-IsTlsServing :
    (fd : ℕ) (session : Option ℕ) (r : Received) (s : TlsState)
    → Fits r
    → IsTlsServing s
    → IsTlsServing (finish_read fd session r s).1
finish_read-IsTlsServing fd session waiting s fits h = h
finish_read-IsTlsServing fd session broken s fits h = h
finish_read-IsTlsServing fd session (bytes buf) s fits h =
    let (valid, requests) =
      push-All queue_capacity IsRequest
        (record { client_fd = fd; ssl = session; request = c_string buf }) s.queue h.valid
        h.requests (Lacks-c_string buf, omega (arith, length-c_string buf)) in
    record { valid = valid; requests = requests }

take_connection-IsTlsServing :
    (o : Option ℕ) (a : TlsArrival) (s : TlsState)
    → IsTlsServing s
    → IsTlsServing (take_connection o a s).1
take_connection-IsTlsServing none a s h = h
take_connection-IsTlsServing (some fd) a s h = elim (Bool-cases a.errno_eagain) [
  | inl is_again ↦ rw is_again h
  | inr other ↦ rw other (
      finish_read-IsTlsServing fd _ _ (record s { ssl = a.session }) (read_request-Fits a.reads)
        (record { valid = h.valid; requests = h.requests }))
]

accept_round-IsTlsServing :
    (a : TlsArrival) (s : TlsState) → IsTlsServing s → IsTlsServing (accept_round a s).1
unfolding accept_round
accept_round-IsTlsServing a s h = elim (Bool-cases a.stop_requested) [
  | inl stop ↦ rw stop h
  | inr go ↦ rw go (
      take_connection-IsTlsServing a.accepted _ (record s { client_fd = a.accepted })
        (record { valid = h.valid; requests = h.requests }))
]

-- Whatever the TLS library, accept4 and the stop token give, the accept loop of the TLS server
-- keeps a valid queue valid, and puts only requests into it that have no zero byte and are shorter
-- than the buffer.
pub accept_incoming-IsTlsServing :
    (arrivals : List TlsArrival) (s : TlsState)
    → IsTlsServing s
    → IsTlsServing (accept_incoming arrivals s).1
unfolding accept_incoming
accept_incoming-IsTlsServing [] s h = h
accept_incoming-IsTlsServing (a ∷ arrivals) s h =
    after_round_keeps IsTlsServing (accept_round a s) (accept_incoming arrivals)
      (accept_round-IsTlsServing a s h) (accept_incoming-IsTlsServing arrivals)
