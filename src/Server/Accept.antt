-- ===== src/Server/Accept.antt =====
-- include/simpleserv/server/tcp_server.hpp: the loop that accepts connections, reads one request
-- from each and hands it to the thread pool. What the system calls return is an argument.
pub mod Requests
use simple_serv.Common.{
  ℕ, ◌-◌, Bool, true, false, not, ◌&&◌, Option, none, some, List, [], ◌∷◌, Bytes, take, ◌==◌,
  if◌then◌else◌,
}
use simple_serv.Utility.LockFreeQueue.{LockFreeQueue}
use simple_serv.Server.Connection.{HttpConnection, add_task}

abbrev pub maxbuflen : ℕ
maxbuflen = 4096

-- A result of `recv`: -1 with EAGAIN, -1 with another error, or the bytes at hand.
pub data RecvResult : Type 0 where
  again failed : RecvResult
  arrived : Bytes → RecvResult

-- What one round of the loop meets: the stop token, the descriptor from `accept4` (`none` is -1),
-- whether `errno` is EAGAIN then, and the results of `recv`.
pub record Arrival : Type 0 where
  pub stop_requested : Bool
  pub accepted : Option ℕ
  pub errno_eagain : Bool
  pub received : List RecvResult

-- How the loop over `recv` ends; `waiting` if nothing else has come yet.
pub data Received : Type 0 where
  waiting broken : Received
  bytes : Bytes → Received

-- `recv` writes at most as many bytes as it is asked for.
unfoldable pub receive : List RecvResult → Received
receive [] = waiting
receive (again ∷ results) = receive results
receive (failed ∷ results) = broken
receive (arrived text ∷ results) = bytes (take (maxbuflen - 1) text)

-- `std::string{buf.data()}` ends at the first byte that is 0; one is put behind the bytes.
unfoldable pub c_string : Bytes → Bytes
c_string [] = []
c_string (c ∷ s) = let rest = c_string s in if c == 0 then [] else c ∷ rest

pub record AcceptState : Type 0 where
  pub client_fd : Option ℕ
  pub queue : LockFreeQueue HttpConnection

-- Why the loop is left, or `open_` if it has not been.
pub data LoopEnd : Type 0 where
  open_ stopped receive_failed receiving : LoopEnd

abbrev pub queue_request : ℕ → Bytes → LockFreeQueue HttpConnection → LockFreeQueue HttpConnection
queue_request fd buf queue = add_task (record { client_fd = fd; request = c_string buf }) queue

abbrev pub finish_receive : ℕ → Received → AcceptState → LoopEnd × AcceptState
finish_receive fd waiting s = (receiving, s)
finish_receive fd broken s = (receive_failed, s)
finish_receive fd (bytes buf) s = (open_, record s { queue = queue_request fd buf s.queue })

abbrev pub take_connection : Option ℕ → Arrival → AcceptState → LoopEnd × AcceptState
take_connection none a s = (open_, s)
take_connection (some fd) a s =
    if a.errno_eagain then (open_, s) else finish_receive fd (receive a.received) s

-- One round
unfoldable pub accept_round : Arrival → AcceptState → LoopEnd × AcceptState
unfolding receive c_string add_task
accept_round a s =
    if a.stop_requested
    then (stopped, s)
    else take_connection a.accepted a (record s { client_fd = a.accepted })

abbrev pub after_round : {S : Type 0} → LoopEnd × S → (S → LoopEnd × S) → LoopEnd × S
after_round (open_, s) next = next s
after_round (stopped, s) next = (stopped, s)
after_round (receive_failed, s) next = (receive_failed, s)
after_round (receiving, s) next = (receiving, s)

-- The loop over what is met, one round after the other
unfoldable pub accept_incoming : List Arrival → AcceptState → LoopEnd × AcceptState
unfolding accept_round
accept_incoming [] s = (open_, s)
accept_incoming (a ∷ arrivals) s = after_round (accept_round a s) (accept_incoming arrivals)
