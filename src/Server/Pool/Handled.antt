-- ===== src/Server/Pool/Handled.antt =====
-- What the workers cause for each connection, whatever the others do meanwhile.
use mathlib.Core.Path.{subst}
use simple_serv.Common.{
  ℕ, ◌<◌, ◌≡◌, refl, sym, ap, ◌∙◌, arith, Option, some, some_inj, [], ◌∷◌, ◌++◌, Bytes, get_elem?,
}
use simple_serv.Common.Family.{update, update-Below}
use simple_serv.Common.Outcome.{returns}
use simple_serv.Utility.LockFreeQueue.Steps.Pace.{IsDelivering}
use simple_serv.Server.Connection.{IHandler, queue_capacity}
use simple_serv.Server.Pool.{
  Transport, Job, polling, answering, closing, Pool, AnswerSends, WorkerStep, PoolReach,
  accept_step, worker_step,
}
use simple_serv.Server.Pool.Runs.{IsPoolPaced, PoolReach-IsDelivering, paced_before}
use simple_serv.Server.Pool.Once.{count, held_in_job, IsConserving, PoolReach-IsConserving}
use simple_serv.Server.Pool.Records.{
  events_of, events_of-same, one_if_refl, IsHandled, JobHas, IsRecorded,
}
use simple_serv.Server.Pool.Calls.{after_call, call-Served, call-IsRecorded, close-Served}
use simple_serv.Server.Pool.Polls.{poll-IsRecorded, push-IsRecorded}

module _ {C E S : Type 0} (transport : Transport C E) (handler : IHandler S) (Keeps : S → Type 0)
    (n : ℕ) where
  abbrev Recorded : Pool C E S → Type 0
  Recorded p = IsRecorded transport handler Keeps n p

  -- Worker `i` goes on to `job`, with what happened so far.
  job-IsRecorded :
      (p : Pool C E S) (i : ℕ) (job : Job C) (state : S)
      → JobHas transport handler Keeps p.system.pushed (λ k. events_of k p.events) job
      → Keeps state
      → Recorded p
      → Recorded (record p { jobs = update p.jobs i job; state = state })
  job-IsRecorded p i job state has kept h = record {
    jobs_have =
        update-Below (JobHas transport handler Keeps p.system.pushed (λ k. events_of k p.events)) n
          p.jobs i job has (λ j lt other. h.jobs_have j lt);
    poppers_have = h.poppers_have;
    unclaimed = h.unclaimed;
    served_have = h.served_have;
    keeps = kept;
  }

  -- The handler stays in the states that it keeps.
  abbrev pub IsKept : Type 0
  IsKept =
      (request : Bytes) (response : Option Bytes) (state state' : S)
      → Keeps state
      → handler request state ≡ returns (response, state')
      → Keeps state'

  WorkerStep-IsRecorded :
      {p : Pool C E S} {i : ℕ} {job : Job C} {q : Pool C E S}
      → IsKept
      → i < n
      → WorkerStep transport handler p i job q
      → p.jobs i ≡ job
      → IsDelivering queue_capacity p.system
      → IsConserving n p
      → Recorded p
      → Recorded q
  WorkerStep-IsRecorded {p} {i} kept lt (WorkerStep.poll m) e d once h =
      poll-IsRecorded transport handler Keeps n m (d.numbered.poppers_are i) (d.poppers_are i)
        (h.poppers_have i lt) d h
  WorkerStep-IsRecorded {p} {i} kept lt
        (WorkerStep.handle {number} {conn_obj} {response} {state'} x) e d once h =
      let (there, none_yet) =
        subst (JobHas transport handler Keeps p.system.pushed (λ k. events_of k p.events)) e
          (h.jobs_have i lt) in
      job-IsRecorded p i (answering number conn_obj response) state'
        (there, none_yet, (p.state, state', h.keeps, x))
        (kept (transport.request conn_obj) response p.state state' h.keeps x) h
  WorkerStep-IsRecorded {p} {i} kept lt (WorkerStep.answer {number} {conn_obj} {response} events x)
        e d once h =
      let (there, none_yet, given) =
        subst (JobHas transport handler Keeps p.system.pushed (λ k. events_of k p.events)) e
          (h.jobs_have i lt) in
      let holds = ap (held_in_job number) e ∙ one_if_refl number in
      let history : after_call transport handler Keeps n p number events number ≡ events =
        events_of-same number p.events events ∙ ap (λ before. before ++ events) none_yet in
      call-IsRecorded transport handler Keeps n p i number events (closing number conn_obj) p.served
        lt holds once
        (
          there,
          response,
          given,
          subst (AnswerSends transport handler conn_obj response) (sym history) x,
        )
        (call-Served transport handler Keeps n p i number events lt holds once h) h
  WorkerStep-IsRecorded {p} {i} kept lt (WorkerStep.close {number} {conn_obj}) e d once h =
      let has =
        subst (JobHas transport handler Keeps p.system.pushed (λ k. events_of k p.events)) e
          (h.jobs_have i lt) in
      let holds = ap (held_in_job number) e ∙ one_if_refl number in
      call-IsRecorded transport handler Keeps n p i number (transport.close_connection conn_obj)
        polling (p.served ++ number ∷ []) lt holds once tt
        (close-Served transport handler Keeps n p i number conn_obj lt holds once has h) h

  pub PoolReach-IsRecorded :
      {arr : ℕ → C} {state : S} {p : Pool C E S} (r : PoolReach transport handler n arr state p)
      → IsKept
      → Keeps state
      → IsPoolPaced transport handler r
      → Recorded p
  PoolReach-IsRecorded PoolReach.start kept keeps paced = record {
    jobs_have = λ i lt. tt;
    poppers_have = λ i lt. tt;
    unclaimed = λ k le. refl;
    served_have = λ k some_time. absurd (omega (arith, some_time));
    keeps = keeps;
  }
  PoolReach-IsRecorded (PoolReach.later r (accept_step m)) kept keeps paced =
      push-IsRecorded transport handler Keeps n m (PoolReach-IsRecorded r kept keeps paced.0)
  PoolReach-IsRecorded (PoolReach.later r (worker_step i lt m)) kept keeps paced =
      let before = paced_before transport handler r (worker_step i lt m) paced in
      WorkerStep-IsRecorded kept lt m refl (PoolReach-IsDelivering transport handler r before)
        (PoolReach-IsConserving transport handler n r before)
        (PoolReach-IsRecorded r kept keeps before)

  -- A connection that has been served has all its events.
  pub PoolReach-IsHandled :
      {arr : ℕ → C} {state : S} {p : Pool C E S} (r : PoolReach transport handler n arr state p)
      (k : ℕ) (conn_obj : C)
      → IsKept
      → Keeps state
      → IsPoolPaced transport handler r
      → 0 < count k p.served
      → get_elem? p.system.pushed k ≡ some conn_obj
      → IsHandled transport handler Keeps conn_obj (events_of k p.events)
  PoolReach-IsHandled {p} r k conn_obj kept keeps paced some_time there =
      let (other, there_too, handled) =
        (PoolReach-IsRecorded r kept keeps paced).served_have k some_time in
      subst (λ c. IsHandled transport handler Keeps c (events_of k p.events))
        (some_inj.0 (sym there_too ∙ there)) handled
