-- ===== src/Server/Pool/Once.antt =====
-- Each connection that has been claimed is held by one worker, or has been served once.
use simple_serv.Common.{
  ℕ, suc, ◌+◌, ◌<◌, ◌≡◌, refl, sym, ap, arith, List, [], ◌∷◌, ◌++◌, ◌==◌, ltb, if◌then◌else◌,
}
use simple_serv.Common.Family.{update, total, total-update, total-zero}
use simple_serv.Utility.LockFreeQueue.Steps.{
  PopPc, checked, claimed, copied, System, PushStep, PopStep,
}
use simple_serv.Utility.LockFreeQueue.Steps.Numbers.{PopHead}
use simple_serv.Utility.LockFreeQueue.Steps.Pace.{PopDelivers, IsDelivering}
use simple_serv.Utility.LockFreeQueue.Steps.PopMoves.{claim-newest}
use simple_serv.Server.Connection.{IHandler, queue_capacity}
use simple_serv.Server.Pool.{
  Transport, Job, polling, serving, answering, closing, Pool, WorkerStep, PoolReach, accept_step,
  worker_step, job_after,
}
use simple_serv.Server.Pool.Runs.{IsPoolPaced, PoolReach-IsDelivering, paced_before}

abbrev pub one_if : ℕ → ℕ → ℕ
one_if k number = if number == k then 1 else 0

-- How often `k` is in the list
abbrev pub count : ℕ → List ℕ → ℕ
count k [] = 0
count k (number ∷ numbers) = one_if k number + count k numbers

pub count-concat :
    (k number : ℕ) (numbers : List ℕ)
    → count k (numbers ++ number ∷ []) ≡ count k numbers + one_if k number
count-concat k number [] = omega arith
count-concat k number (m ∷ numbers) = omega (arith, count-concat k number numbers)

module _ {C : Type 0} where
  -- Whether the connection with number `k` is held, in `pop` or behind it
  abbrev pub held_in_pop : ℕ → PopPc C → ℕ
  held_in_pop k (claimed head number) = one_if k number
  held_in_pop k (copied number conn_obj) = one_if k number
  held_in_pop k _ = 0

  abbrev pub held_in_job : ℕ → Job C → ℕ
  held_in_job k polling = 0
  held_in_job k (serving number conn_obj) = one_if k number
  held_in_job k (answering number conn_obj response) = one_if k number
  held_in_job k (closing number conn_obj) = one_if k number

-- The workers that hold the connection with number `k`
abbrev pub holders : {C E S : Type 0} → ℕ → Pool C E S → ℕ → ℕ
holders n p k = total (held_in_pop k) n p.system.poppers + total (held_in_job k) n p.jobs

abbrev pub one_below : ℕ → ℕ → ℕ
one_below claims k = if ltb k claims then 1 else 0

abbrev pub IsConserving : {C E S : Type 0} → ℕ → Pool C E S → Type 0
IsConserving n p = (k : ℕ) → count k p.served + holders n p k ≡ one_below p.system.claims k

one_below-suc : (claims k : ℕ) → one_below (suc claims) k ≡ one_below claims k + one_if k claims
one_below-suc claims k = ground arith

-- Nobody holds anything at the start.
resting-holders :
    (C : Type 0) (n k : ℕ)
    → 0
        + (total (held_in_pop {C = C} k) n (λ _. PopPc.idle)
            + total (held_in_job {C = C} k) n (λ _. polling))
      ≡ one_below 0 k
resting-holders C n k = ground (
  arith,
  total-zero (held_in_pop {C = C} k) n (λ _. PopPc.idle) (λ i lt. refl),
  total-zero (held_in_job {C = C} k) n (λ _. polling) (λ i lt. refl),
)

module _ {C E S : Type 0} (transport : Transport C E) (handler : IHandler S) (n : ℕ) where
  -- A thread in `pop` that goes on to `pc`, and leaves what it held to a job
  moved-holders :
      (s : System C) (i : ℕ) (pc : PopPc C) (job : Job C) (k : ℕ)
      → i < n
      → held_in_pop k pc + held_in_job k job ≡ held_in_pop k (s.poppers i)
      → total (held_in_pop k) n (update s.poppers i pc) + held_in_job k job
        ≡ total (held_in_pop k) n s.poppers
  moved-holders s i pc job k lt same =
      omega (arith, same, (total-update (held_in_pop k) n s.poppers i pc).0 lt)

  -- A step in `pop` keeps what is held, or claims the next connection.
  poll-holders :
      {s : System C} {i : ℕ} {t : System C} {pc : PopPc C}
      → i < n
      → PopStep queue_capacity s i pc t
      → s.poppers i ≡ pc
      → PopHead queue_capacity s.claims pc
      → PopDelivers queue_capacity s.pushed pc
      → IsDelivering queue_capacity s
      → (k : ℕ)
      → total (held_in_pop k) n t.poppers + held_in_job k (job_after pc) + one_below s.claims k
        ≡ total (held_in_pop k) n s.poppers + one_below t.claims k
  poll-holders {s} {i} lt PopStep.load e index own h k = omega (
    arith,
    moved-holders s i (PopPc.loaded s.queue.head s.claims) polling k lt
        (sym (ap (held_in_pop k) e)),
  )
  poll-holders {s} {i} lt (PopStep.see_empty x) e index own h k =
      omega (arith, moved-holders s i PopPc.idle polling k lt (sym (ap (held_in_pop k) e)))
  poll-holders {s} {i} lt (PopStep.see_element {head} {number} x) e index own h k =
      omega
        (arith, moved-holders s i (checked head number) polling k lt (sym (ap (held_in_pop k) e)))
  poll-holders {s} {i} lt PopStep.fail e index own h k =
      omega (arith, moved-holders s i PopPc.idle polling k lt (sym (ap (held_in_pop k) e)))
  poll-holders {s} {i} lt (PopStep.copy {head} {number}) e index own h k = omega (
    arith,
    moved-holders s i (copied number (s.queue.arr head)) polling k lt
        (omega (arith, ap (held_in_pop k) e)),
  )
  poll-holders {s} {i} lt (PopStep.discount {number} {result}) e index own h k = omega (
    arith,
    moved-holders s i PopPc.idle (serving number result) k lt (omega (arith, ap (held_in_pop k) e)),
  )
  poll-holders {s} {i} lt (PopStep.claim {head} {number} x) e index own h k =
      let newest = claim-newest queue_capacity (omega arith) (omega arith) index own x h in
      omega (
        arith,
        ap (held_in_pop k) e,
        (total-update (held_in_pop k) n s.poppers i (claimed head number)).0 lt,
        one_below-suc s.claims k,
        ap (one_if k) newest,
      )

  WorkerStep-IsConserving :
      {p : Pool C E S} {i : ℕ} {job : Job C} {q : Pool C E S}
      → i < n
      → WorkerStep transport handler p i job q
      → p.jobs i ≡ job
      → IsDelivering queue_capacity p.system
      → IsConserving n p
      → IsConserving n q
  WorkerStep-IsConserving {p} {i} lt (WorkerStep.poll m) e delivering h k = omega (
    arith,
    h k,
    ap (held_in_job k) e,
    poll-holders lt m refl (delivering.numbered.poppers_are i) (delivering.poppers_are i) delivering
        k,
    (total-update (held_in_job k) n p.jobs i (job_after (p.system.poppers i))).0 lt,
  )
  WorkerStep-IsConserving {p} {i} lt (WorkerStep.handle {number} {conn_obj} {response} x) e _ h k =
      omega (
        arith,
        h k,
        ap (held_in_job k) e,
        (total-update (held_in_job k) n p.jobs i (answering number conn_obj response)).0 lt,
      )
  WorkerStep-IsConserving {p} {i} lt (WorkerStep.answer {number} {conn_obj} events x) e _ h k =
      omega (
        arith,
        h k,
        ap (held_in_job k) e,
        (total-update (held_in_job k) n p.jobs i (closing number conn_obj)).0 lt,
      )
  WorkerStep-IsConserving {p} {i} lt (WorkerStep.close {number} {conn_obj}) e _ h k = omega (
    arith,
    h k,
    ap (held_in_job k) e,
    count-concat k number p.served,
    (total-update (held_in_job k) n p.jobs i polling).0 lt,
  )

  -- A push claims nothing, and lets all workers keep what they hold.
  PushStep-claims :
      {s t : System C} {pc : _}
      → PushStep queue_capacity s pc t
      → (t.poppers ≡ s.poppers) × (t.claims ≡ s.claims)
  PushStep-claims (PushStep.load elem) = (refl, refl)
  PushStep-claims PushStep.write = (refl, refl)
  PushStep-claims PushStep.publish = (refl, refl)
  PushStep-claims PushStep.count = (refl, refl)

  -- In every paced run of the accepting thread and n workers, the number of times that a
  -- connection has been served and the number of workers that hold it are together 1 if it has
  -- been claimed from the ring, and 0 if not. Here a run is paced if each push begins with fewer
  -- than 99 elements published from the head on, and fewer than 99 from the head on that any
  -- worker loaded which is inside pop and has not yet copied its element; room in the ring alone
  -- is not enough.
  pub PoolReach-IsConserving :
      {arr : ℕ → C} {state : S} {p : Pool C E S} (r : PoolReach transport handler n arr state p)
      → IsPoolPaced transport handler r
      → IsConserving n p
  PoolReach-IsConserving PoolReach.start paced k = resting-holders C n k
  PoolReach-IsConserving (PoolReach.later r (accept_step m)) paced k =
      let (poppers, claims) = PushStep-claims m in
      omega (
        arith,
        PoolReach-IsConserving r paced.0 k,
        ap (total (held_in_pop k) n) poppers,
        ap (λ c. one_below c k) claims,
      )
  PoolReach-IsConserving (PoolReach.later r (worker_step i lt m)) paced k =
      let before = paced_before transport handler r (worker_step i lt m) paced in
      WorkerStep-IsConserving lt m refl (PoolReach-IsDelivering transport handler r before)
        (PoolReach-IsConserving r before) k
