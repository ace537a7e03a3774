-- ===== src/Server/Pool.antt =====
-- The workers of include/simpleserv/request_processing/connection_handler.hpp and the thread that
-- accepts connections, at the same time: they meet in the ring buffer, whose accesses to memory are
-- single steps, and the workers share the state of the handler. A call of the handler is one step,
-- as if its file manager were locked.
pub mod Runs
pub mod Once
pub mod Alone
pub mod Records
pub mod Calls
pub mod Polls
pub mod Handled
pub mod Drained
pub mod Transports
pub mod Continuing
pub mod Settling
pub mod Resting
pub mod Progress
use simple_serv.Common.{
  ℕ, Bool, true, false, ◌&&◌, not, if◌then◌else◌, ◌<◌, ◌≡◌, Option, none, some, List, [], ◌∷◌, ◌++◌,
  Bytes,
}
use simple_serv.Common.Family.{update}
use simple_serv.Common.Outcome.{Outcome, returns, throws, undefined, runtime_error}
use simple_serv.Utility.LockFreeQueue.Steps.{
  PopPc, copied, System, PushStep, PopStep, Step, Reach, initial,
}
use simple_serv.Server.Connection.{
  HttpConnection, SocketEvent, IHandler, send_msg, close_connection, queue_capacity,
}
use simple_serv.Server.Tls
use simple_serv.Server.Tls.{HttpsConnection, TlsEvent}

-- The template arguments `ConnectionObject`, `Sender` and `Closer`. What a sender does can depend on
-- what the calls of its library return, so that it is a relation.
pub record Transport (C E : Type 0) : Type 1 where
  pub request : C → Bytes
  pub Sends : C → Bytes → List E → Type 0
  pub close_connection : C → List E

abbrev pub http_transport : Transport HttpConnection SocketEvent
http_transport = record {
  request = λ c. c.request;
  Sends = λ c response events. events ≡ send_msg c response;
  close_connection = close_connection;
}

abbrev pub https_transport : Transport HttpsConnection TlsEvent
https_transport = record {
  request = λ c. c.request;
  Sends = λ c response events. (more : List _) × (Tls.send_msg c response more ≡ some events);
  close_connection = Tls.close_connection;
}

-- Where a worker stands in its loop: in `pop`, or in `handle_connection`. The number is that of the
-- element of the ring.
pub data Job (C : Type 0) : Type 0 where
  polling : Job C
  serving : (number : ℕ) (conn_obj : C) → Job C
  answering : (number : ℕ) (conn_obj : C) (response : Option Bytes) → Job C
  closing : (number : ℕ) (conn_obj : C) → Job C

-- The object of a worker: whether its pointer to the queue has been set, and its flag. The default
-- constructor leaves the pointer without a value.
pub record ThreadpoolConnectionHandler : Type 0 where
  pub has_queue : Bool
  pub ready : Bool

abbrev pub default_handler : ThreadpoolConnectionHandler
default_handler = record { has_queue = false; ready = false }

abbrev pub queue_handler : ThreadpoolConnectionHandler
queue_handler = record { has_queue = true; ready = true }

-- The beginning of `Start`, with or without assertions in the build: an assertion reads the pointer.
unfoldable pub begin_start : {C : Type 0} → Bool → ThreadpoolConnectionHandler → Outcome (Job C)
begin_start asserts h =
    if asserts && not h.has_queue
    then undefined
    else if h.ready
    then returns polling
    else throws runtime_error

-- `events` are those of the calls of the sender and of the closer, each call with the number of its
-- connection. `served` lists the numbers of the connections that have been closed. Both are kept for
-- the proofs: no step looks at them.
pub record Pool (C E S : Type 0) : Type 0 where
  pub system : System C
  pub jobs : ℕ → Job C
  pub state : S
  pub events : List (ℕ × List E)
  pub served : List ℕ

module _ {C : Type 0} where
  -- The step behind the copy ends `pop`.
  abbrev pub job_after : PopPc C → Job C
  job_after (copied number conn_obj) = serving number conn_obj
  job_after _ = polling

module _ {C E S : Type 0} (transport : Transport C E) (handler : IHandler S) where
  abbrev pub AnswerSends : C → Option Bytes → List E → Type 0
  AnswerSends conn_obj none events = events ≡ []
  AnswerSends conn_obj (some response) events = transport.Sends conn_obj response events

  -- One step of worker `i`. There is none where the handler throws: the process ends there.
  pub data WorkerStep (p : Pool C E S) (i : ℕ) : Job C → Pool C E S → Type 0 where
    poll :
        {s : System C}
        → PopStep queue_capacity p.system i (p.system.poppers i) s
        → WorkerStep p i polling
            (record p { system = s; jobs = update p.jobs i (job_after (p.system.poppers i)) })
    handle :
        {number : ℕ} {conn_obj : C} {response : Option Bytes} {state' : S}
        → handler (transport.request conn_obj) p.state ≡ returns (response, state')
        → WorkerStep p i (serving number conn_obj) (record p {
          state = state';
          jobs = update p.jobs i (answering number conn_obj response);
        })
    answer :
        {number : ℕ} {conn_obj : C} {response : Option Bytes} (events : List E)
        → AnswerSends conn_obj response events
        → WorkerStep p i (answering number conn_obj response) (record p {
          events = p.events ++ (number, events) ∷ [];
          jobs = update p.jobs i (closing number conn_obj);
        })
    close :
        {number : ℕ} {conn_obj : C}
        → WorkerStep p i (closing number conn_obj) (record p {
          events = p.events ++ (number, transport.close_connection conn_obj) ∷ [];
          served = p.served ++ number ∷ [];
          jobs = update p.jobs i polling;
        })

  -- One step of the accepting thread or of one of `n` workers
  pub data PoolStep (n : ℕ) (p : Pool C E S) : Pool C E S → Type 0 where
    accept_step :
        {s : System C}
        → PushStep queue_capacity p.system p.system.pusher s
        → PoolStep n p (record p { system = s })
    worker_step : {q : Pool C E S} (i : ℕ) → i < n → WorkerStep p i (p.jobs i) q → PoolStep n p q

  -- Each worker is given the queue by the constructor of the pool, and begins to poll.
  abbrev pub initial_pool : (ℕ → C) → S → Pool C E S
  initial_pool arr state = record {
    system = initial queue_capacity arr;
    jobs = λ _. polling;
    state = state;
    events = [];
    served = [];
  }

  pub data PoolReach (n : ℕ) (arr : ℕ → C) (state : S) : Pool C E S → Type 0 where
    start : PoolReach n arr state (initial_pool arr state)
    later : {p q : Pool C E S} → PoolReach n arr state p → PoolStep n p q → PoolReach n arr state q
