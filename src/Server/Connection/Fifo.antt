-- ===== src/Server/Connection/Fifo.antt =====
-- What the rounds of a worker do, against the list of the connections that wait.
use simple_serv.Common.{
  ℕ, suc, ◌≤◌, ◌≡◌, refl, sym, ap, ◌∙◌, arith, Bool, true, false, Option, none, some, some_inj,
  List, [], ◌∷◌, ◌++◌, length,
}
use simple_serv.Common.Outcome.{Outcome, returns, throws, undefined, ◌>>=◌}
use simple_serv.Utility.LockFreeQueue.{LockFreeQueue, pop}
use simple_serv.Utility.LockFreeQueue.Fifo.{IsValid, contents, Popped, contents-pop}
use simple_serv.Server.Connection.{
  HttpConnection, SocketEvent, queue_capacity, IHandler, handle_connection, Round, handle_popped,
  worker_round, worker_rounds,
}

-- The rounds in which the exchange does not fail spuriously
abbrev pub attempts : List Bool → ℕ
attempts [] = 0
attempts (true ∷ rounds) = attempts rounds
attempts (false ∷ rounds) = suc (attempts rounds)

length_zero : (cs : List HttpConnection) → length cs ≤ 0 → cs ≡ []
length_zero [] h = refl
length_zero (c ∷ cs) h = absurd (omega arith)

module _ {S : Type 0} (handler : IHandler S) where
  -- One connection after the other
  abbrev pub serve_all : List HttpConnection → S → Outcome (List SocketEvent × S)
  serve_all [] s = returns ([], s)
  serve_all (c ∷ cs) s = handle_connection handler c s >>= λ (events, s').
      serve_all cs s' >>= λ (later, s''). returns (events ++ later, s'')

  -- What is seen of a run: the events, the connections that still wait, and the handler's state.
  abbrev pub seen : Round handler → Outcome (List SocketEvent × List HttpConnection × S)
  seen (returns (events, queue, s)) = returns (events, contents queue_capacity queue, s)
  seen (throws e) = throws e
  seen undefined = undefined

  abbrev pub all_served :
      Outcome (List SocketEvent × S) → Outcome (List SocketEvent × List HttpConnection × S)
  all_served (returns (events, s)) = returns (events, [], s)
  all_served (throws e) = throws e
  all_served undefined = undefined

  -- Events that come before all others
  abbrev prepend :
      List SocketEvent
      → Outcome (List SocketEvent × List HttpConnection × S)
      → Outcome (List SocketEvent × List HttpConnection × S)
  prepend events (returns (later, cs, s)) = returns (events ++ later, cs, s)
  prepend events (throws e) = throws e
  prepend events undefined = undefined

  prepend-nil : (o : Outcome (List SocketEvent × List HttpConnection × S)) → prepend [] o ≡ o
  prepend-nil (returns (later, cs, s)) = refl
  prepend-nil (throws e) = refl
  prepend-nil undefined = refl

  abbrev rounds_behind : List SocketEvent → Round handler → Round handler
  rounds_behind events m = m >>= λ (later, queue, s). returns (events ++ later, queue, s)

  seen-prepend :
      (events : List SocketEvent) (m : Round handler)
      → seen (rounds_behind events m) ≡ prepend events (seen m)
  seen-prepend events (returns (later, queue, s)) = refl
  seen-prepend events (throws e) = refl
  seen-prepend events undefined = refl

  abbrev served_behind :
      List SocketEvent → Outcome (List SocketEvent × S) → Outcome (List SocketEvent × S)
  served_behind events m = m >>= λ (later, s). returns (events ++ later, s)

  all_served-prepend :
      (events : List SocketEvent) (m : Outcome (List SocketEvent × S))
      → all_served (served_behind events m) ≡ prepend events (all_served m)
  all_served-prepend events (returns (later, s)) = refl
  all_served-prepend events (throws e) = refl
  all_served-prepend events undefined = refl

  -- The rounds behind the first, once its connection is served
  handled_first :
      (rounds : List Bool) (queue : LockFreeQueue HttpConnection) (cs : List HttpConnection)
      (o : Outcome (List SocketEvent × S))
      → ((s : S) → seen (worker_rounds handler rounds queue s) ≡ all_served (serve_all cs s))
      → seen (
          (o >>= λ (events, s). returns (events, queue, s)) >>= λ (events, queue', s').
          rounds_behind events (worker_rounds handler rounds queue' s'))
        ≡ all_served (o >>= λ (events, s). served_behind events (serve_all cs s))
  handled_first rounds queue cs (returns (events, s)) later =
      seen-prepend events (worker_rounds handler rounds queue s)
      ∙ ap (prepend events) (later s)
      ∙ sym (all_served-prepend events (serve_all cs s))
  handled_first rounds queue cs (throws e) later = refl
  handled_first rounds queue cs undefined later = refl

  nothing_first :
      (rounds : List Bool) (queue : LockFreeQueue HttpConnection) (s : S)
      → seen (rounds_behind [] (worker_rounds handler rounds queue s))
        ≡ seen (worker_rounds handler rounds queue s)
  nothing_first rounds queue s =
      seen-prepend [] (worker_rounds handler rounds queue s) ∙ prepend-nil _

  -- What is to be shown of a list of rounds
  abbrev Serves : List Bool → Type 0
  Serves rounds =
      (queue : LockFreeQueue HttpConnection) (s : S)
      → IsValid queue_capacity queue
      → length (contents queue_capacity queue) ≤ attempts rounds
      → seen (worker_rounds handler rounds queue s)
        ≡ all_served (serve_all (contents queue_capacity queue) s)

  module _ (rounds : List Bool) (serves : Serves rounds) where
    serves_contents :
        (q : LockFreeQueue HttpConnection) (cs : List HttpConnection) (s : S)
        → contents queue_capacity q ≡ cs
        → IsValid queue_capacity q
        → length cs ≤ attempts rounds
        → seen (worker_rounds handler rounds q s) ≡ all_served (serve_all cs s)
    serves_contents q cs s e valid h =
        serves q s valid (omega (arith, ap length e)) ∙ ap (λ cs. all_served (serve_all cs s)) e

    -- The first of the rounds, by what it pops
    first_round :
        (spurious : Bool) (queue : LockFreeQueue HttpConnection) (s : S) (cs : List HttpConnection)
        (p : Option HttpConnection × LockFreeQueue HttpConnection)
        → contents queue_capacity queue ≡ cs
        → Popped queue_capacity spurious queue p cs
        → IsValid queue_capacity p.1
        → length cs ≤ attempts (spurious ∷ rounds)
        → seen (
            handle_popped handler p.0 p.1 s >>= λ (events, queue', s').
            rounds_behind events (worker_rounds handler rounds queue' s'))
          ≡ all_served (serve_all cs s)
    first_round spurious queue s [] (none, q) e (_, same) valid h =
        nothing_first rounds q s
        ∙ serves_contents q [] s (ap (contents queue_capacity) same ∙ e) valid (omega arith)
    first_round true queue s (c ∷ cs) (none, q) e (_, same) valid h =
        nothing_first rounds q s
        ∙ serves_contents q (c ∷ cs) s (ap (contents queue_capacity) same ∙ e) valid h
    first_round false queue s (c ∷ cs) (some x, q) e (is_c, rest) valid h = rw (some_inj.0 is_c) (
        handled_first rounds q cs (handle_connection handler c s)
          λ s'. serves_contents q cs s' rest valid (omega arith))
    first_round spurious queue s [] (some x, q) e (r, same) valid h = absurd (cc r)
    first_round true queue s (c ∷ cs) (some x, q) e (r, same) valid h = absurd (cc r)
    first_round false queue s (c ∷ cs) (none, q) e (r, rest) valid h = absurd (cc r)

  -- With at least as many rounds whose exchange does not fail spuriously as connections wait in a
  -- valid queue, a worker that runs alone causes the events of serving these connections one after
  -- the other in their order, and leaves none; an exception of the handler ends both.
  pub worker_rounds-serve_all :
      (rounds : List Bool) (queue : LockFreeQueue HttpConnection) (s : S)
      → IsValid queue_capacity queue
      → length (contents queue_capacity queue) ≤ attempts rounds
      → seen (worker_rounds handler rounds queue s)
        ≡ all_served (serve_all (contents queue_capacity queue) s)
  unfolding worker_rounds worker_round
  worker_rounds-serve_all [] queue s v h =
      let no_more = length_zero (contents queue_capacity queue) h in
      ap (λ cs. returns ([], cs, s)) no_more ∙ ap (λ cs. all_served (serve_all cs s)) (sym no_more)
  worker_rounds-serve_all (spurious ∷ rounds) queue s v h =
      let (popped, valid) = contents-pop queue_capacity spurious queue v in
      first_round rounds (worker_rounds-serve_all rounds) spurious queue s
        (contents queue_capacity queue) (pop queue_capacity spurious queue) refl popped valid h
