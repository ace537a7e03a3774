-- ===== src/Server/Pool/Settling.antt =====
-- A worker that goes on alone comes to rest: it finishes what it holds, and the others stay.
use mathlib.Core.Path.{subst}
use simple_serv.Common.{ℕ, ◌<◌, ◌≡◌, ◌≢◌, refl, ◌∙◌, arith, Option, some, List, Bytes, get_elem?}
use simple_serv.Common.Family.{update, update-here}
use simple_serv.Common.Outcome.{returns}
use simple_serv.Utility.LockFreeQueue.{LockFreeQueue}
use simple_serv.Utility.LockFreeQueue.Steps.{PopPc}
use simple_serv.Server.Connection.{IHandler}
use simple_serv.Server.Pool.{
  Transport, Job, polling, serving, answering, closing, Pool, AnswerSends, WorkerStep,
}
use simple_serv.Server.Pool.Records.{events_of, JobHas}
use simple_serv.Server.Pool.Handled.{IsKept, PoolReach-IsRecorded}
use simple_serv.Server.Pool.Continuing.{IsAfter, step-IsAfter}

update-other : {A : Type 0} (f : ℕ → A) (i j : ℕ) (a : A) → i ≢ j → update f i a j ≡ f j
update-other f i j a h = ground (arith, h)

-- Only worker `i` has moved from `q` to `s`, and has claimed nothing.
pub record IsMove {C E S : Type 0} (i : ℕ) (q s : Pool C E S) : Type 0 where
  pub jobs_same : (j : ℕ) → i ≢ j → s.jobs j ≡ q.jobs j
  pub poppers_same : (j : ℕ) → i ≢ j → s.system.poppers j ≡ q.system.poppers j
  pub pushed_same : s.system.pushed ≡ q.system.pushed
  pub claims_same : s.system.claims ≡ q.system.claims

module _ {C E S : Type 0} where
  pub IsMove-refl : (i : ℕ) (q : Pool C E S) → IsMove i q q
  IsMove-refl i q = record {
    jobs_same = λ j other. refl;
    poppers_same = λ j other. refl;
    pushed_same = refl;
    claims_same = refl;
  }

  pub IsMove-trans : (i : ℕ) {q s t : Pool C E S} → IsMove i q s → IsMove i s t → IsMove i q t
  IsMove-trans i g h = record {
    jobs_same = λ j other. h.jobs_same j other ∙ g.jobs_same j other;
    poppers_same = λ j other. h.poppers_same j other ∙ g.poppers_same j other;
    pushed_same = h.pushed_same ∙ g.pushed_same;
    claims_same = h.claims_same ∙ g.claims_same;
  }

  job-IsMove :
      (i : ℕ) (q : Pool C E S) (job : Job C) (state : S) (events : List (ℕ × List E))
      (served : List ℕ)
      → IsMove i q
          (record q { state = state; events = events; served = served; jobs = update q.jobs i job })
  job-IsMove i q job state events served = record {
    jobs_same = λ j other. update-other q.jobs i j job other;
    poppers_same = λ j other. refl;
    pushed_same = refl;
    claims_same = refl;
  }

  pub pop-IsMove :
      (i : ℕ) (q : Pool C E S) (queue : LockFreeQueue C) (pc : PopPc C) (job : Job C)
      → IsMove i q (record q {
        system = record q.system { queue = queue; poppers = update q.system.poppers i pc };
        jobs = update q.jobs i job;
      })
  pop-IsMove i q queue pc job = record {
    jobs_same = λ j other. update-other q.jobs i j job other;
    poppers_same = λ j other. update-other q.system.poppers i j pc other;
    pushed_same = refl;
    claims_same = refl;
  }

-- The handler returns for each of these connections, and the sender can send what it returned.
pub record CanServe {C E S : Type 0} (transport : Transport C E) (handler : IHandler S)
    (Keeps : S → Type 0) (pushed : List C) : Type 0 where
  pub responds :
      (k : ℕ) (conn_obj : C) (s : S)
      → get_elem? pushed k ≡ some conn_obj
      → Keeps s
      → (response : Option Bytes) × (s' : S) × (handler (transport.request conn_obj) s
          ≡ returns (response, s'))
  pub sends :
      (conn_obj : C) (response : Option Bytes)
      → (events : List E) × AnswerSends transport handler conn_obj response events

module _ {C E S : Type 0} (transport : Transport C E) (handler : IHandler S) (Keeps : S → Type 0)
    (n : ℕ) (arr : ℕ → C) (state : S) (kept : IsKept transport handler Keeps n)
    (keeps : Keeps state) (p : Pool C E S) (i : ℕ) (lt : i < n) where
  abbrev pub After : Pool C E S → Type 0
  After q = IsAfter transport handler n arr state p q

  -- The job of worker `i` is done, and it stands in `pop` where it did.
  abbrev pub JobDone : Pool C E S → Type 0
  JobDone q =
      (s : Pool C E S) × After s
      × IsMove i q s
      × (s.jobs i ≡ polling)
      × (s.system.poppers i ≡ q.system.poppers i)

  pub JobDone-after :
      {q r : Pool C E S}
      → IsMove i q r
      → r.system.poppers i ≡ q.system.poppers i
      → JobDone r
      → JobDone q
  JobDone-after move same (s, after, on, rests, popper) =
      (s, after, IsMove-trans i move on, rests, popper ∙ same)

  closing-JobDone :
      (q : Pool C E S) (number : ℕ) (conn_obj : C)
      → q.jobs i ≡ closing number conn_obj
      → After q
      → JobDone q
  closing-JobDone q number conn_obj e h = (
    _,
    step-IsAfter transport handler n arr state lt WorkerStep.close e h,
    job-IsMove i q polling q.state _ _,
    update-here q.jobs i polling,
    refl,
  )

  answering-JobDone :
      (q : Pool C E S) (number : ℕ) (conn_obj : C) (response : Option Bytes)
      → CanServe transport handler Keeps q.system.pushed
      → q.jobs i ≡ answering number conn_obj response
      → After q
      → JobDone q
  answering-JobDone q number conn_obj response can e h =
      let (events, sends) = can.sends conn_obj response in
      JobDone-after (job-IsMove i q (closing number conn_obj) q.state _ q.served) refl (
        closing-JobDone _ number conn_obj (update-here q.jobs i (closing number conn_obj))
          (step-IsAfter transport handler n arr state lt (WorkerStep.answer events sends) e h))

  serving-JobDone :
      (q : Pool C E S) (number : ℕ) (conn_obj : C)
      → CanServe transport handler Keeps q.system.pushed
      → q.jobs i ≡ serving number conn_obj
      → After q
      → JobDone q
  serving-JobDone q number conn_obj can e h =
      let recorded = PoolReach-IsRecorded transport handler Keeps n h.run kept keeps h.paced in
      let (there, _) =
        subst (JobHas transport handler Keeps q.system.pushed (λ k. events_of k q.events)) e
          (recorded.jobs_have i lt) in
      let (response, state', returned) =
        can.responds number conn_obj q.state there recorded.keeps in
      JobDone-after (job-IsMove i q (answering number conn_obj response) state' q.events q.served)
        refl
        (answering-JobDone _ number conn_obj response can
          (update-here q.jobs i (answering number conn_obj response))
          (step-IsAfter transport handler n arr state lt (WorkerStep.handle returned) e h))

  pub any-JobDone :
      (q : Pool C E S) (job : Job C)
      → CanServe transport handler Keeps q.system.pushed
      → q.jobs i ≡ job
      → After q
      → JobDone q
  any-JobDone q polling can e h = (q, h, IsMove-refl i q, e, refl)
  any-JobDone q (serving number conn_obj) can e h = serving-JobDone q number conn_obj can e h
  any-JobDone q (answering number conn_obj response) can e h =
      answering-JobDone q number conn_obj response can e h
  any-JobDone q (closing number conn_obj) can e h = closing-JobDone q number conn_obj e h
