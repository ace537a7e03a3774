-- ===== src/Server/Pool/Continuing.antt =====
-- Runs of the pool that go on from a state, without a new connection.
use mathlib.Core.Path.{subst}
use simple_serv.Common.{ℕ, ◌<◌, ◌≡◌, sym}
use simple_serv.Common.Family.{update}
use simple_serv.Utility.LockFreeQueue.Steps.{System, PopPc, PopStep, Reach}
use simple_serv.Utility.LockFreeQueue.Steps.Pace.{IsPaced}
use simple_serv.Server.Connection.{IHandler, queue_capacity}
use simple_serv.Server.Pool.{Transport, Job, Pool, WorkerStep, PoolReach, worker_step, job_after}
use simple_serv.Server.Pool.Runs.{worker_run, ring_run, IsPoolPaced}

module _ {C E S : Type 0} (transport : Transport C E) (handler : IHandler S) (n : ℕ) where
  -- `q` follows `p` in a run of the workers.
  pub data Continues (p : Pool C E S) : Pool C E S → Type 0 where
    here : Continues p p
    onward :
        {q s : Pool C E S} (i : ℕ)
        → Continues p q
        → i < n
        → WorkerStep transport handler q i (q.jobs i) s
        → Continues p s

  IsPaced-worker_run :
      {arr : ℕ → C} {p : Pool C E S} {i : ℕ} {q : Pool C E S} {job : Job C}
      (r : Reach queue_capacity n arr p.system) (lt : i < n)
      (m : WorkerStep transport handler p i job q)
      → IsPaced queue_capacity r
      → IsPaced queue_capacity (worker_run transport handler r lt m)
  IsPaced-worker_run r lt (WorkerStep.poll m) h = (h, tt)
  IsPaced-worker_run r lt (WorkerStep.handle e) h = h
  IsPaced-worker_run r lt (WorkerStep.answer events e) h = h
  IsPaced-worker_run r lt WorkerStep.close h = h

  module _ (arr : ℕ → C) (state : S) where
    -- A reachable state with a run that is paced, from `p` on by the workers alone
    pub record IsAfter (p q : Pool C E S) : Type 0 where
      pub continues : Continues p q
      pub run : PoolReach transport handler n arr state q
      pub paced : IsPoolPaced transport handler run

    pub step-IsAfter :
        {p q : Pool C E S} {i : ℕ} {s : Pool C E S} {job : Job C}
        → i < n
        → WorkerStep transport handler q i job s
        → q.jobs i ≡ job
        → IsAfter p q
        → IsAfter p s
    step-IsAfter {q = q} {i} {s} lt m e h =
        let m' = subst (λ j. WorkerStep transport handler q i j s) (sym e) m in
        record {
          continues = onward i h.continues lt m';
          run = PoolReach.later h.run (worker_step i lt m');
          paced = IsPaced-worker_run (ring_run transport handler h.run) lt m' h.paced;
        }

    pub poll-IsAfter :
        {p q : Pool C E S} {t : System C} {i : ℕ} {pc : PopPc C}
        → i < n
        → PopStep queue_capacity q.system i pc t
        → q.jobs i ≡ Job.polling
        → q.system.poppers i ≡ pc
        → IsAfter p q
        → IsAfter p (record q { system = t; jobs = update q.jobs i (job_after pc) })
    poll-IsAfter {p} {q} {t} {i} lt m e e' h =
        subst (λ c. IsAfter p (record q { system = t; jobs = update q.jobs i (job_after c) })) e'
          (step-IsAfter lt
            (WorkerStep.poll (subst (λ c. PopStep queue_capacity q.system i c t) (sym e') m)) e h)
