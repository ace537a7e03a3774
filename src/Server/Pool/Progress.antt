-- ===== src/Server/Pool/Progress.antt =====
-- The workers never block each other: they can always serve all that waits.
use mathlib.Core.Path.{subst}
use native.Mathlib.Decide.{dec_lt}
use simple_serv.Common.{
  ℕ, zero, suc, ◌+◌, ◌-◌, ◌≤◌, ◌<◌, ◌≡◌, ◌≢◌, refl, sym, ap, ◌∙◌, arith, length, ◌%◌,
}
use simple_serv.Common.Family.{update, update-here}
use simple_serv.Utility.LockFreeQueue.Steps.{PopPc, checked, PopStep}
use simple_serv.Utility.LockFreeQueue.Steps.Numbers.{window}
use simple_serv.Server.Connection.{IHandler, queue_capacity}
use simple_serv.Server.Pool.{Transport, polling, Pool, PoolReach}
use simple_serv.Server.Pool.Runs.{IsPoolPaced, PoolReach-IsDelivering}
use simple_serv.Server.Pool.Once.{one_below, count}
use simple_serv.Server.Pool.Handled.{IsKept}
use simple_serv.Server.Pool.Drained.{drained-count}
use simple_serv.Server.Pool.Continuing.{Continues, here, IsAfter, poll-IsAfter}
use simple_serv.Server.Pool.Settling.{CanServe}
use simple_serv.Server.Pool.Resting.{worker-Rests}

-- The first `m` workers are at rest.
abbrev pub AtRest : {C E S : Type 0} → ℕ → Pool C E S → Type 0
AtRest m q = (i : ℕ) → i < m → (q.jobs i ≡ polling) × (q.system.poppers i ≡ PopPc.idle)

module _ {C E S : Type 0} (transport : Transport C E) (handler : IHandler S) (Keeps : S → Type 0)
    (n : ℕ) (arr : ℕ → C) (state : S) (kept : IsKept transport handler Keeps n)
    (keeps : Keeps state) (p : Pool C E S) where
  abbrev Reached : Pool C E S → Type 0
  Reached q = IsAfter transport handler n arr state p q

  -- The first `m` workers come to rest one after the other.
  all-AtRest :
      (m : ℕ) (q : Pool C E S)
      → m ≤ n
      → CanServe transport handler Keeps q.system.pushed
      → Reached q
      → (s : Pool C E S) × Reached s
        × AtRest m s
        × (s.system.pushed ≡ q.system.pushed)
        × (s.system.claims ≡ q.system.claims)
  all-AtRest zero q le can h = (q, h, (λ i lt. absurd (omega (arith, lt))), refl, refl)
  all-AtRest (suc m) q le can h =
      let (s, after, at_rest, pushed, claims) = all-AtRest m q (omega (arith, le)) can h in
      let can' = subst (CanServe transport handler Keeps) (sym pushed) can in
      let (t, after', on, idle) =
        worker-Rests transport handler Keeps n arr state kept keeps p m (omega (arith, le)) s can'
          after in
      (
        t,
        after',
        λ i lt. elim (dec_lt i m) [
          | yes before ↦
              let other : m ≢ i = omega (arith, before) in
              let (polls, starts) = at_rest i before in
              (on.jobs_same i other ∙ polls, on.poppers_same i other ∙ starts)
          | no past ↦
              let last : m ≡ i = omega (arith, past, lt) in
              subst (λ j. (t.jobs j ≡ polling) × (t.system.poppers j ≡ PopPc.idle)) last idle
        ],
        on.pushed_same ∙ pushed,
        on.claims_same ∙ claims,
      )

  -- The ring is not empty while something is left to claim.
  head-ne-tail :
      (q : Pool C E S)
      → q.system.claims < length q.system.pushed
      → Reached q
      → q.system.queue.head ≢ q.system.queue.tail
  head-ne-tail q left h e =
      let d = PoolReach-IsDelivering transport handler h.run h.paced in
      let all_claimed : q.system.claims ≡ length q.system.pushed =
        window queue_capacity q.system.claims (length q.system.pushed) d.claimed_le d.room
          (sym d.numbered.head_is ∙ e ∙ d.numbered.tail_is) in
      omega (arith, left, all_claimed)

  -- The first worker claims one more connection.
  claim-one :
      (q : Pool C E S)
      → 0 < n
      → q.system.claims < length q.system.pushed
      → AtRest n q
      → Reached q
      → (s : Pool C E S) × Reached s
        × (s.system.pushed ≡ q.system.pushed)
        × (s.system.claims ≡ suc q.system.claims)
  claim-one q some_worker left at_rest h =
      let (polls, starts) = at_rest 0 some_worker in
      let head : ℕ = q.system.queue.head in
      let number : ℕ = q.system.claims in
      let loaded =
        poll-IsAfter transport handler n arr state some_worker PopStep.load polls starts h in
      let seen =
        poll-IsAfter transport handler n arr state some_worker
          (PopStep.see_element (head-ne-tail q left h)) (update-here q.jobs 0 polling)
          (update-here q.system.poppers 0 (PopPc.loaded head number)) loaded in
      let taken =
        poll-IsAfter transport handler n arr state some_worker (PopStep.claim refl)
          (update-here (update q.jobs 0 polling) 0 polling)
          (update-here (update q.system.poppers 0 (PopPc.loaded head number)) 0
            (checked head number))
          seen in
      (_, taken, refl, refl)

  -- With `left` connections unclaimed, each round claims one of them and lets all workers rest.
  all-drained :
      (left : ℕ) (q : Pool C E S)
      → 0 < n
      → left + q.system.claims ≡ length q.system.pushed
      → CanServe transport handler Keeps q.system.pushed
      → Reached q
      → (s : Pool C E S) × Reached s
        × AtRest n s
        × (s.system.pushed ≡ q.system.pushed)
        × (s.system.claims ≡ length q.system.pushed)
  all-drained zero q some_worker e can h =
      let (s, after, at_rest, pushed, claims) = all-AtRest n q (omega arith) can h in
      (s, after, at_rest, pushed, omega (arith, claims, e))
  all-drained (suc left) q some_worker e can h =
      let (s, after, at_rest, pushed, claims) = all-AtRest n q (omega arith) can h in
      let same = ap length pushed in
      let (t, after', pushed', claims') =
        claim-one s some_worker (omega (arith, e, claims, same)) at_rest after in
      let can' = subst (CanServe transport handler Keeps) (sym (pushed' ∙ pushed)) can in
      let same' = ap length pushed' in
      let (u, after'', at_rest', pushed'', claims'') =
        all-drained left t some_worker (omega (arith, e, claims, claims', same, same')) can'
          after' in
      (u, after'', at_rest', pushed'' ∙ pushed' ∙ pushed, claims'' ∙ same' ∙ same)

  -- From every state that a paced run reaches, with at least one worker, steps of the workers
  -- alone lead to a state in which each accepted connection has been served exactly once, and
  -- nothing else, if the handler, in the class of states that it stays in, returns for the request
  -- of each accepted connection, and the sender can send what it returned. Here a run is paced if
  -- each push begins with fewer than 99 elements published from the head on, and fewer than 99
  -- from the head on that any worker loaded which is inside pop and has not yet copied its
  -- element; room in the ring alone is not enough.
  pub PoolReach-can_drain :
      (r : PoolReach transport handler n arr state p)
      → IsPoolPaced transport handler r
      → 0 < n
      → CanServe transport handler Keeps p.system.pushed
      → (q : Pool C E S) × Continues transport handler n p q
        × (q.system.pushed ≡ p.system.pushed)
        × ((k : ℕ) → count k q.served ≡ one_below (length p.system.pushed) k)
  PoolReach-can_drain r paced some_worker can =
      let d = PoolReach-IsDelivering transport handler r paced in
      let left : ℕ = length p.system.pushed - p.system.claims in
      let (q, after, at_rest, pushed, claims) =
        all-drained left p some_worker (omega (arith, d.claimed_le)) can
          (record { continues = here; run = r; paced = paced }) in
      let e = PoolReach-IsDelivering transport handler after.run after.paced in
      let same = ap length pushed in
      let empty : q.system.queue.head ≡ q.system.queue.tail =
        e.numbered.head_is
        ∙ ap (λ k. k % queue_capacity) (claims ∙ sym same)
        ∙ sym e.numbered.tail_is in
      (
        q,
        after.continues,
        pushed,
        λ k.
            drained-count transport handler n after.run after.paced empty (λ i lt. (at_rest i lt).1)
              (λ i lt. (at_rest i lt).0) k
            ∙ ap (λ m. one_below m k) same,
      )
