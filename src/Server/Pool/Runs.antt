-- ===== src/Server/Pool/Runs.antt =====
-- A run of the pool, seen as a run of the ring buffer.
use simple_serv.Common.Outcome.{returns, throws, undefined, runtime_error}
use simple_serv.Common.{◌≡◌, refl, Bool, true, false, ℕ, ◌<◌, arith}
use simple_serv.Utility.LockFreeQueue.Steps.{Step, Reach}
use simple_serv.Utility.LockFreeQueue.Steps.Pace.{IsPaced, IsDelivering}
use simple_serv.Utility.LockFreeQueue.Steps.Delivery.{Reach-IsDelivering}
use simple_serv.Server.Connection.{IHandler, queue_capacity}
use simple_serv.Server.Pool.{
  begin_start, queue_handler, default_handler, initial_pool, Transport, Job, Pool, WorkerStep,
  PoolStep, PoolReach, accept_step, worker_step,
}

-- A worker that was given the queue starts, in every build, as the workers of the pool stand at the
-- start; one that was not does not start.
begin_start-handlers :
    {C E S : Type 0} (transport : Transport C E) (handler : IHandler S) (arr : ℕ → C) (state : S)
    (i : ℕ)
    → ((asserts : Bool)
        → begin_start asserts queue_handler
          ≡ returns ((initial_pool transport handler arr state).jobs i))
      × (begin_start {C = C} true default_handler ≡ undefined)
      × (begin_start {C = C} false default_handler ≡ throws runtime_error)
unfolding begin_start
begin_start-handlers transport handler arr state i = (λ asserts. ground arith, refl, refl)

module _ {C E S : Type 0} (transport : Transport C E) (handler : IHandler S) where
  abbrev pub worker_run :
      {n : ℕ} {arr : ℕ → C} {p : Pool C E S} {i : ℕ} {q : Pool C E S} {j : Job C}
      → Reach queue_capacity n arr p.system
      → i < n
      → WorkerStep transport handler p i j q
      → Reach queue_capacity n arr q.system
  worker_run {i} r lt (WorkerStep.poll m) = Reach.later r (Step.pop_step i lt m)
  worker_run r lt (WorkerStep.handle e) = r
  worker_run r lt (WorkerStep.answer events e) = r
  worker_run r lt WorkerStep.close = r

  -- The steps that worker and accepting thread take in the ring
  abbrev pub ring_run :
      {n : ℕ} {arr : ℕ → C} {state : S} {p : Pool C E S}
      → PoolReach transport handler n arr state p
      → Reach queue_capacity n arr p.system
  ring_run PoolReach.start = Reach.start
  ring_run (PoolReach.later r (accept_step m)) = Reach.later (ring_run r) (Step.push_step m)
  ring_run (PoolReach.later r (worker_step i lt m)) = worker_run (ring_run r) lt m

  -- Every push begins with room behind the head and behind each worker in `pop`.
  abbrev pub IsPoolPaced :
      {n : ℕ} {arr : ℕ → C} {state : S} {p : Pool C E S}
      → PoolReach transport handler n arr state p
      → Type 0
  IsPoolPaced r = IsPaced queue_capacity (ring_run r)

  pub PoolReach-IsDelivering :
      {n : ℕ} {arr : ℕ → C} {state : S} {p : Pool C E S}
      (r : PoolReach transport handler n arr state p)
      → IsPoolPaced r
      → IsDelivering queue_capacity p.system
  PoolReach-IsDelivering r paced =
      Reach-IsDelivering queue_capacity (omega arith) (omega arith) (ring_run r) paced

  worker_before :
      {n : ℕ} {arr : ℕ → C} {p : Pool C E S} {i : ℕ} {q : Pool C E S} {j : Job C}
      (r : Reach queue_capacity n arr p.system) (lt : i < n)
      (m : WorkerStep transport handler p i j q)
      → IsPaced queue_capacity (worker_run r lt m)
      → IsPaced queue_capacity r
  worker_before r lt (WorkerStep.poll m) h = h.0
  worker_before r lt (WorkerStep.handle e) h = h
  worker_before r lt (WorkerStep.answer events e) h = h
  worker_before r lt WorkerStep.close h = h

  -- A paced run was paced before its last step.
  pub paced_before :
      {n : ℕ} {arr : ℕ → C} {state : S} {p q : Pool C E S}
      (r : PoolReach transport handler n arr state p) (m : PoolStep transport handler n p q)
      → IsPoolPaced (PoolReach.later r m)
      → IsPoolPaced r
  paced_before r (accept_step m) h = h.0
  paced_before r (worker_step i lt m) h = worker_before (ring_run r) lt m h
