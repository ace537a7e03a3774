-- ===== src/Server/Accept/Requests.antt =====
-- What the accept loop puts into the queue.
use simple_serv.Common.{
  ℕ, zero, suc, ◌-◌, ◌≤◌, ◌<◌, arith, Bool-cases, inl, inr, Option, none, some, List, [], ◌∷◌,
  Bytes, Lacks, All, length, take,
}
use simple_serv.Utility.LockFreeQueue.{LockFreeQueue}
use simple_serv.Utility.LockFreeQueue.Fifo.{IsValid, contents, push-All}
use simple_serv.Server.Connection.{HttpConnection, queue_capacity, add_task}
use simple_serv.Server.Accept.{
  maxbuflen, RecvResult, again, failed, arrived, Arrival, Received, waiting, broken, bytes, receive,
  c_string, AcceptState, LoopEnd, open_, stopped, receive_failed, receiving, finish_receive,
  take_connection, accept_round, after_round, accept_incoming,
}

-- A request without a zero byte that fits the buffer
abbrev pub IsRequest : HttpConnection → Type 0
IsRequest c = Lacks 0 c.request × (length c.request < maxbuflen)

-- The queue is a ring in order, and what waits in it are requests.
pub record IsServing (s : AcceptState) : Type 0 where
  pub valid : IsValid queue_capacity s.queue
  pub requests : All IsRequest (contents queue_capacity s.queue)

pub Lacks-c_string : (s : Bytes) → Lacks 0 (c_string s)
unfolding c_string
Lacks-c_string [] = tt
Lacks-c_string (c ∷ s) = ground (arith, Lacks-c_string s)

pub length-c_string : (s : Bytes) → length (c_string s) ≤ length s
unfolding c_string
length-c_string [] = omega arith
length-c_string (c ∷ s) = ground (arith, length-c_string s)

pub length-take : (n : ℕ) (s : Bytes) → length (take n s) ≤ n
length-take zero s = omega arith
length-take (suc n) [] = omega arith
length-take (suc n) (c ∷ s) = omega (arith, length-take n s)

add_task-IsServing :
    (fd : Option ℕ) (c : HttpConnection) (queue : LockFreeQueue HttpConnection)
    → IsRequest c
    → IsServing (record { client_fd = fd; queue = queue })
    → IsServing (record { client_fd = fd; queue = add_task c queue })
unfolding add_task
add_task-IsServing fd c queue h s =
    let (valid, requests) = push-All queue_capacity IsRequest c queue s.valid s.requests h in
    record { valid = valid; requests = requests }

-- What has been read fits the buffer, with a zero byte behind it.
abbrev pub Fits : Received → Type 0
Fits waiting = Unit
Fits broken = Unit
Fits (bytes buf) = length buf < maxbuflen

receive-Fits : (results : List RecvResult) → Fits (receive results)
unfolding receive
receive-Fits [] = tt
receive-Fits (again ∷ results) = receive-Fits results
receive-Fits (failed ∷ results) = tt
receive-Fits (arrived text ∷ results) = omega (arith, length-take (maxbuflen - 1) text)

finish_receive-IsServing :
    (fd : ℕ) (r : Received) (s : AcceptState)
    → Fits r
    → IsServing s
    → IsServing (finish_receive fd r s).1
finish_receive-IsServing fd waiting s fits h = h
finish_receive-IsServing fd broken s fits h = h
finish_receive-IsServing fd (bytes buf) s fits h =
    add_task-IsServing s.client_fd (record { client_fd = fd; request = c_string buf }) s.queue
      (Lacks-c_string buf, omega (arith, length-c_string buf)) h

take_connection-IsServing :
    (o : Option ℕ) (a : Arrival) (s : AcceptState)
    → IsServing s
    → IsServing (take_connection o a s).1
take_connection-IsServing none a s h = h
take_connection-IsServing (some fd) a s h = elim (Bool-cases a.errno_eagain) [
  | inl is_again ↦ rw is_again h
  | inr other ↦
      rw other (finish_receive-IsServing fd (receive a.received) s (receive-Fits a.received) h)
]

accept_round-IsServing :
    (a : Arrival) (s : AcceptState) → IsServing s → IsServing (accept_round a s).1
unfolding accept_round
accept_round-IsServing a s h = elim (Bool-cases a.stop_requested) [
  | inl stop ↦ rw stop h
  | inr go ↦ rw go (
      take_connection-IsServing a.accepted _ (record s { client_fd = a.accepted })
        (record { valid = h.valid; requests = h.requests }))
]

-- What a round and the rounds behind it keep is kept by both.
pub after_round_keeps :
    {S : Type 0} (P : S → Type 0) (r : LoopEnd × S) (next : S → LoopEnd × S)
    → P r.1
    → ((s : S) → P s → P (next s).1)
    → P (after_round r next).1
after_round_keeps P (open_, s) next h k = k s h
after_round_keeps P (stopped, s) next h k = h
after_round_keeps P (receive_failed, s) next h k = h
after_round_keeps P (receiving, s) next h k = h

-- Whatever accept4, recv and the stop token give, the accept loop of the TCP server keeps a valid
-- queue valid, and puts only requests into it that have no zero byte and are shorter than the
-- buffer.
pub accept_incoming-IsServing :
    (arrivals : List Arrival) (s : AcceptState)
    → IsServing s
    → IsServing (accept_incoming arrivals s).1
unfolding accept_incoming
accept_incoming-IsServing [] s h = h
accept_incoming-IsServing (a ∷ arrivals) s h =
    after_round_keeps IsServing (accept_round a s) (accept_incoming arrivals)
      (accept_round-IsServing a s h) (accept_incoming-IsServing arrivals)
