-- ===== src/Server/Connection.antt =====
-- include/simpleserv/request_processing/: tcp_connection.hpp, connection_handler.hpp and
-- threadpool.hpp. A worker runs the rounds of its loop alone. The system calls are events.
pub mod Fifo
use simple_serv.Common.{ℕ, Bool, Option, none, some, List, [], ◌∷◌, ◌++◌, Bytes}
use simple_serv.Common.Outcome.{Outcome, returns, throws, undefined, ◌>>=◌}
use simple_serv.Utility.LockFreeQueue.{LockFreeQueue, push, pop}

-- A connection object is made with a descriptor: the default -1 is not modelled.
pub record HttpConnection : Type 0 where
  pub client_fd : ℕ
  pub request : Bytes

-- The calls of `send` and `close`. Their results are not looked at.
pub data SocketEvent : Type 0 where
  sent : ℕ → Bytes → SocketEvent
  closed : ℕ → SocketEvent

abbrev pub send_msg : HttpConnection → Bytes → List SocketEvent
send_msg conn_obj response = sent conn_obj.client_fd response ∷ []

abbrev pub close_connection : HttpConnection → List SocketEvent
close_connection conn_obj = closed conn_obj.client_fd ∷ []

-- The capacity of the queue of a thread pool
abbrev pub queue_capacity : ℕ
queue_capacity = 100

-- `add_task`
unfoldable pub add_task :
    HttpConnection → LockFreeQueue HttpConnection → LockFreeQueue HttpConnection
unfolding push
add_task obj queue = (push queue_capacity obj queue).1

-- The concept `IHandler`, for handlers with a state: the member function `handle`
abbrev pub IHandler : Type 0 → Type 0
IHandler S = Bytes → S → Outcome (Option Bytes × S)

-- `handler` is `Handler::handle`.
module _ {S : Type 0} (handler : IHandler S) where
  abbrev pub send_response : HttpConnection → Option Bytes → List SocketEvent
  send_response conn_obj none = []
  send_response conn_obj (some response) = send_msg conn_obj response

  -- An exception of the handler leaves the call, and the connection open.
  unfoldable pub handle_connection : HttpConnection → S → Outcome (List SocketEvent × S)
  handle_connection conn_obj s = handler conn_obj.request s >>= λ (response, s').
      returns (send_response conn_obj response ++ close_connection conn_obj, s')

  abbrev pub Round : Type 0
  Round = Outcome (List SocketEvent × LockFreeQueue HttpConnection × S)

  abbrev pub handle_popped : Option HttpConnection → LockFreeQueue HttpConnection → S → Round
  handle_popped none queue s = returns ([], queue, s)
  handle_popped (some obj) queue s =
      handle_connection obj s >>= λ (events, s'). returns (events, queue, s')

  -- One round of the loop of `Start`; `spurious` is what the exchange in `pop` does.
  unfoldable pub worker_round : Bool → LockFreeQueue HttpConnection → S → Round
  unfolding handle_connection pop
  worker_round spurious queue s =
      let (obj, queue') = pop queue_capacity spurious queue in handle_popped obj queue' s

  -- The loop has no end: a run of it is a list of rounds.
  unfoldable pub worker_rounds : List Bool → LockFreeQueue HttpConnection → S → Round
  unfolding worker_round
  worker_rounds [] queue s = returns ([], queue, s)
  worker_rounds (spurious ∷ rounds) queue s =
      worker_round spurious queue s >>= λ (events, queue', s').
      worker_rounds rounds queue' s' >>= λ (later, queue'', s'').
      returns (events ++ later, queue'', s'')
