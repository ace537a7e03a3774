-- ===== src/Server/Pipeline.antt =====
-- The accept loop of include/simpleserv/server/tcp_server.hpp and a worker behind it: which
-- connections get through the ring buffer, as long as it does not fill up.
use simple_serv.Common.{
  ℕ, ◌+◌, ◌≤◌, ◌<◌, ◌≡◌, sym, ap, ◌∙◌, arith, Bool, Bool-cases, inl, inr, Option, none, some, List,
  [], ◌∷◌, ◌++◌, append_assoc, append-nil, length, length-append, if◌then◌else◌,
}
use simple_serv.Utility.LockFreeQueue.{LockFreeQueue, full}
use simple_serv.Utility.LockFreeQueue.Fifo.{IsValid, contents, contents-push, contents-push-full}
use simple_serv.Server.Connection.{
  HttpConnection, IHandler, queue_capacity, add_task, worker_rounds,
}
use simple_serv.Server.Connection.Fifo.{
  attempts, serve_all, seen, all_served, worker_rounds-serve_all,
}
use simple_serv.Server.Accept.{
  Arrival, Received, waiting, broken, bytes, receive, c_string, AcceptState, finish_receive,
  take_connection, accept_round, after_round, accept_incoming,
}

-- The specification: the connections that the loop takes, in their order. It ends at a request to
-- stop, at an error of `recv`, and where the bytes of a connection have not come.
abbrev pub taken_with : ℕ → Received → List HttpConnection → List HttpConnection
taken_with fd waiting later = []
taken_with fd broken later = []
taken_with fd (bytes buf) later = record { client_fd = fd; request = c_string buf } ∷ later

abbrev pub taken_from : Option ℕ → Arrival → List HttpConnection → List HttpConnection
taken_from none a later = later
taken_from (some fd) a later =
    if a.errno_eagain then later else taken_with fd (receive a.received) later

abbrev pub taken : List Arrival → List HttpConnection
taken [] = []
taken (a ∷ arrivals) =
    let later = taken arrivals in if a.stop_requested then [] else taken_from a.accepted a later

-- The queue has the connections `cs` behind the ones that it had before.
abbrev pub Gains :
    LockFreeQueue HttpConnection → List HttpConnection → LockFreeQueue HttpConnection → Type 0
Gains q cs q' =
    IsValid queue_capacity q' × (contents queue_capacity q' ≡ contents queue_capacity q ++ cs)

HasRoomFor : LockFreeQueue HttpConnection → List HttpConnection → Type 0
HasRoomFor q cs =
    IsValid queue_capacity q × (length (contents queue_capacity q) + length cs < queue_capacity)

Gains-nil : (q : LockFreeQueue HttpConnection) → IsValid queue_capacity q → Gains q [] q
Gains-nil q valid = (valid, sym (append-nil _))

push-Gains :
    (c : HttpConnection) (q : LockFreeQueue HttpConnection) (cs : List HttpConnection)
    → HasRoomFor q (c ∷ cs)
    → Gains q (c ∷ []) (add_task c q) × HasRoomFor (add_task c q) cs
unfolding add_task HasRoomFor
push-Gains c q cs (valid, room) = elim (Bool-cases (full queue_capacity q)) [
  | inl is_full ↦
      let (_, whole, _) = contents-push-full queue_capacity c q valid is_full in
      absurd (omega (arith, room, whole))
  | inr open_end ↦
      let (behind, still_valid) = contents-push queue_capacity c q valid open_end in
      (
        (still_valid, behind),
        (
          still_valid,
          omega (arith, room, ap length behind, length-append (contents queue_capacity q) (c ∷ [])),
        ),
      )
]

-- What the rounds behind do
abbrev LaterGains : List Arrival → Type 0
LaterGains arrivals =
    (s : AcceptState)
    → HasRoomFor s.queue (taken arrivals)
    → Gains s.queue (taken arrivals) (accept_incoming arrivals s).1.queue

module _ (arrivals : List Arrival) (later : LaterGains arrivals) where
  received-Gains :
      (fd : ℕ) (r : Received) (s : AcceptState)
      → HasRoomFor s.queue (taken_with fd r (taken arrivals))
      → Gains s.queue
          (taken_with fd r (taken arrivals))
          (after_round (finish_receive fd r s) (accept_incoming arrivals)).1.queue
  unfolding HasRoomFor
  received-Gains fd waiting s room = Gains-nil s.queue room.0
  received-Gains fd broken s room = Gains-nil s.queue room.0
  received-Gains fd (bytes buf) s room =
      let c : HttpConnection = record { client_fd = fd; request = c_string buf } in
      let ((_, one_more), still_room) = push-Gains c s.queue (taken arrivals) room in
      let (valid, all) = later (record s { queue = add_task c s.queue }) still_room in
      (
        valid,
        all
            ∙ ap (λ cs. cs ++ taken arrivals) one_more
            ∙ append_assoc (contents queue_capacity s.queue) (c ∷ []) (taken arrivals),
      )

  connection-Gains :
      (o : Option ℕ) (a : Arrival) (s : AcceptState)
      → HasRoomFor s.queue (taken_from o a (taken arrivals))
      → Gains s.queue
          (taken_from o a (taken arrivals))
          (after_round (take_connection o a s) (accept_incoming arrivals)).1.queue
  connection-Gains none a s room = later s room
  connection-Gains (some fd) a s room = elim (Bool-cases a.errno_eagain) [
    | inl is_again ↦ rw is_again (later s (rw is_again at room))
    | inr other ↦ rw other (received-Gains fd (receive a.received) s (rw other at room))
  ]

  round-Gains :
      (a : Arrival) (s : AcceptState)
      → HasRoomFor s.queue (taken (a ∷ arrivals))
      → Gains s.queue
          (taken (a ∷ arrivals))
          (after_round (accept_round a s) (accept_incoming arrivals)).1.queue
  unfolding accept_round HasRoomFor
  round-Gains a s room = elim (Bool-cases a.stop_requested) [
    | inl stop ↦ rw stop (Gains-nil s.queue room.0)
    | inr go ↦
        rw go (connection-Gains a.accepted _ (record s { client_fd = a.accepted }) (rw go at room))
  ]

accept_incoming-Gains : (arrivals : List Arrival) → LaterGains arrivals
unfolding accept_incoming HasRoomFor
accept_incoming-Gains [] s room = Gains-nil s.queue room.0
accept_incoming-Gains (a ∷ arrivals) s room =
    round-Gains arrivals (accept_incoming-Gains arrivals) a s room

-- If the connections that wait in a valid queue and those that the accept loop of the TCP server
-- takes are fewer than the capacity together, a worker that runs after the loop, with at least as
-- many rounds whose exchange does not fail, serves the waiting connections and then the taken
-- ones, each once and in their order, and leaves none; an exception of the handler ends both.
pub worker_rounds-accept_incoming :
    {S : Type 0} (handler : IHandler S) (arrivals : List Arrival) (s : AcceptState) (h : S)
    (rounds : List Bool)
    → IsValid queue_capacity s.queue
    → length (contents queue_capacity s.queue) + length (taken arrivals) < queue_capacity
    → length (contents queue_capacity s.queue) + length (taken arrivals) ≤ attempts rounds
    → seen handler (worker_rounds handler rounds (accept_incoming arrivals s).1.queue h)
      ≡ all_served handler (serve_all handler (contents queue_capacity s.queue ++ taken arrivals) h)
unfolding HasRoomFor
worker_rounds-accept_incoming handler arrivals s h rounds valid room enough =
    let (still_valid, all) = accept_incoming-Gains arrivals s (valid, room) in
    worker_rounds-serve_all handler rounds (accept_incoming arrivals s).1.queue h still_valid (
      omega (
        arith,
        enough,
        ap length all,
        length-append (contents queue_capacity s.queue) (taken arrivals),
      ))
    ∙ ap (λ cs. all_served handler (serve_all handler cs h)) all
