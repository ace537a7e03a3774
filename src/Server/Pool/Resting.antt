-- ===== src/Server/Pool/Resting.antt =====
-- A worker that goes on alone ends a call of `pop`, and then what it has popped.
use mathlib.Core.Path.{subst}
use simple_serv.Common.{ℕ, ◌<◌, ◌≡◌, ◌≢◌, refl, sym, ◌∙◌, arith, Bool-cases, inl, inr, ◌==◌, ==_iff}
use simple_serv.Common.Family.{update, update-here}
use simple_serv.Utility.LockFreeQueue.Steps.{PopPc, checked, claimed, copied, PopStep}
use simple_serv.Server.Connection.{IHandler}
use simple_serv.Server.Pool.{Transport, polling, serving, Pool}
use simple_serv.Server.Pool.Handled.{IsKept}
use simple_serv.Server.Pool.Continuing.{IsAfter, poll-IsAfter}
use simple_serv.Server.Pool.Settling.{
  IsMove, IsMove-refl, IsMove-trans, pop-IsMove, CanServe, any-JobDone,
}

module _ {C E S : Type 0} (transport : Transport C E) (handler : IHandler S) (Keeps : S → Type 0)
    (n : ℕ) (arr : ℕ → C) (state : S) (kept : IsKept transport handler Keeps n)
    (keeps : Keeps state) (p : Pool C E S) (i : ℕ) (lt : i < n) where
  abbrev Reached : Pool C E S → Type 0
  Reached q = IsAfter transport handler n arr state p q

  -- Worker `i` polls, and is at the beginning of `pop`.
  abbrev pub IsIdle : Pool C E S → Type 0
  IsIdle q = (q.jobs i ≡ polling) × (q.system.poppers i ≡ PopPc.idle)

  abbrev pub Rests : Pool C E S → Type 0
  Rests q = (s : Pool C E S) × Reached s × IsMove i q s × IsIdle s

  Rests-after : {q r : Pool C E S} → IsMove i q r → Rests r → Rests q
  Rests-after move (s, after, on, idle) = (s, after, IsMove-trans i move on, idle)

  copied-Rests :
      (q : Pool C E S) (number : ℕ) (conn_obj : C)
      → CanServe transport handler Keeps q.system.pushed
      → q.jobs i ≡ polling
      → q.system.poppers i ≡ copied number conn_obj
      → Reached q
      → Rests q
  copied-Rests q number conn_obj can e e' h =
      let (s, after, on, rests, popper) =
        any-JobDone transport handler Keeps n arr state kept keeps p i lt _
          (serving number conn_obj) can (update-here q.jobs i (serving number conn_obj))
          (poll-IsAfter transport handler n arr state lt PopStep.discount e e' h) in
      Rests-after (pop-IsMove i q _ PopPc.idle (serving number conn_obj))
        (s, after, on, (rests, popper ∙ update-here q.system.poppers i PopPc.idle))

  claimed-Rests :
      (q : Pool C E S) (head number : ℕ)
      → CanServe transport handler Keeps q.system.pushed
      → q.jobs i ≡ polling
      → q.system.poppers i ≡ claimed head number
      → Reached q
      → Rests q
  claimed-Rests q head number can e e' h =
      let result : C = q.system.queue.arr head in
      Rests-after (pop-IsMove i q q.system.queue (copied number result) polling) (
        copied-Rests _ number result can (update-here q.jobs i polling)
          (update-here q.system.poppers i (copied number result))
          (poll-IsAfter transport handler n arr state lt PopStep.copy e e' h))

  -- A poll that ends `pop` with nothing
  idle-Rests :
      (q : Pool C E S)
      → Reached (record q {
        system = record q.system { poppers = update q.system.poppers i PopPc.idle };
        jobs = update q.jobs i polling;
      })
      → Rests q
  idle-Rests q h = (
    _,
    h,
    pop-IsMove i q q.system.queue PopPc.idle polling,
    (update-here q.jobs i polling, update-here q.system.poppers i PopPc.idle),
  )

  checked-Rests :
      (q : Pool C E S) (head number : ℕ)
      → q.jobs i ≡ polling
      → q.system.poppers i ≡ checked head number
      → Reached q
      → Rests q
  checked-Rests q head number e e' h =
      idle-Rests q (poll-IsAfter transport handler n arr state lt PopStep.fail e e' h)

  loaded-Rests :
      (q : Pool C E S) (head number : ℕ)
      → q.jobs i ≡ polling
      → q.system.poppers i ≡ PopPc.loaded head number
      → Reached q
      → Rests q
  loaded-Rests q head number e e' h = elim (Bool-cases (head == q.system.queue.tail)) [
    | inl empty ↦
        let same = (==_iff head q.system.queue.tail).0 empty in
        idle-Rests q (poll-IsAfter transport handler n arr state lt (PopStep.see_empty same) e e' h)
    | inr some_left ↦
        let other : head ≢ q.system.queue.tail = ground (arith, some_left) in
        Rests-after (pop-IsMove i q q.system.queue (checked head number) polling) (
          checked-Rests _ head number (update-here q.jobs i polling)
            (update-here q.system.poppers i (checked head number))
            (poll-IsAfter transport handler n arr state lt (PopStep.see_element other) e e' h))
  ]

  polling-Rests :
      (q : Pool C E S) (pc : PopPc C)
      → CanServe transport handler Keeps q.system.pushed
      → q.jobs i ≡ polling
      → q.system.poppers i ≡ pc
      → Reached q
      → Rests q
  polling-Rests q PopPc.idle can e e' h = (q, h, IsMove-refl i q, (e, e'))
  polling-Rests q (PopPc.loaded head number) can e e' h = loaded-Rests q head number e e' h
  polling-Rests q (checked head number) can e e' h = checked-Rests q head number e e' h
  polling-Rests q (claimed head number) can e e' h = claimed-Rests q head number can e e' h
  polling-Rests q (copied number conn_obj) can e e' h = copied-Rests q number conn_obj can e e' h

  -- Wherever worker `i` stands, it can come to rest.
  pub worker-Rests :
      (q : Pool C E S) → CanServe transport handler Keeps q.system.pushed → Reached q → Rests q
  worker-Rests q can h =
      let (s, after, on, rests, _) =
        any-JobDone transport handler Keeps n arr state kept keeps p i lt q (q.jobs i) can refl h in
      Rests-after on (
        polling-Rests s (s.system.poppers i)
          (subst (CanServe transport handler Keeps) (sym on.pushed_same) can) rests refl after)
