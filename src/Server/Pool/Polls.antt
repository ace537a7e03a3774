-- ===== src/Server/Pool/Polls.antt =====
-- What is recorded when the ring buffer is used.
use simple_serv.Common.{ℕ, suc, ◌≤◌, arith, [], ◌∷◌, get_elem?-append}
use simple_serv.Common.Family.{update, update-Below}
use simple_serv.Utility.LockFreeQueue.{LockFreeQueue}
use simple_serv.Utility.LockFreeQueue.Steps.{
  PushPc, PopPc, checked, claimed, copied, System, PushStep, PopStep,
}
use simple_serv.Utility.LockFreeQueue.Steps.Numbers.{PopHead}
use simple_serv.Utility.LockFreeQueue.Steps.Pace.{PopDelivers, IsDelivering}
use simple_serv.Utility.LockFreeQueue.Steps.PopMoves.{claim-newest}
use simple_serv.Server.Connection.{IHandler, queue_capacity}
use simple_serv.Server.Pool.{Transport, Job, polling, serving, Pool, job_after}
use simple_serv.Server.Pool.Records.{events_of, JobHas, PopHas, IsRecorded, JobHas-append}

module _ {C E S : Type 0} (transport : Transport C E) (handler : IHandler S) (Keeps : S → Type 0)
    (n : ℕ) where
  abbrev Recorded : Pool C E S → Type 0
  Recorded p = IsRecorded transport handler Keeps n p

  -- Worker `i` goes on in `pop`, and to `job`.
  polled-IsRecorded :
      (p : Pool C E S) (i : ℕ) (queue : LockFreeQueue C) (pc : PopPc C) (claims : ℕ) (job : Job C)
      → p.system.claims ≤ claims
      → PopHas transport handler Keeps (λ k. events_of k p.events) pc
      → JobHas transport handler Keeps p.system.pushed (λ k. events_of k p.events) job
      → Recorded p
      → Recorded (record p {
        system = record p.system {
          queue = queue;
          poppers = update p.system.poppers i pc;
          claims = claims;
        };
        jobs = update p.jobs i job;
      })
  polled-IsRecorded p i queue pc claims job le pop_has job_has h = record {
    jobs_have =
        update-Below (JobHas transport handler Keeps p.system.pushed (λ k. events_of k p.events)) n
          p.jobs i job job_has (λ j lt other. h.jobs_have j lt);
    poppers_have =
        update-Below (PopHas transport handler Keeps (λ k. events_of k p.events)) n p.system.poppers
          i pc pop_has (λ j lt other. h.poppers_have j lt);
    unclaimed = λ k later. h.unclaimed k (omega (arith, le, later));
    served_have = h.served_have;
    keeps = h.keeps;
  }

  pub poll-IsRecorded :
      {p : Pool C E S} {i : ℕ} {t : System C} {pc : PopPc C}
      → PopStep queue_capacity p.system i pc t
      → PopHead queue_capacity p.system.claims pc
      → PopDelivers queue_capacity p.system.pushed pc
      → PopHas transport handler Keeps (λ k. events_of k p.events) pc
      → IsDelivering queue_capacity p.system
      → Recorded p
      → Recorded (record p { system = t; jobs = update p.jobs i (job_after pc) })
  poll-IsRecorded {p} {i} PopStep.load index own has d h =
      polled-IsRecorded p i _ (PopPc.loaded p.system.queue.head p.system.claims) _ polling
        (omega arith) tt tt h
  poll-IsRecorded {p} {i} (PopStep.see_empty x) index own has d h =
      polled-IsRecorded p i _ PopPc.idle _ polling (omega arith) tt tt h
  poll-IsRecorded {p} {i} (PopStep.see_element {head} {number} x) index own has d h =
      polled-IsRecorded p i _ (checked head number) _ polling (omega arith) tt tt h
  poll-IsRecorded {p} {i} PopStep.fail index own has d h =
      polled-IsRecorded p i _ PopPc.idle _ polling (omega arith) tt tt h
  poll-IsRecorded {p} {i} (PopStep.claim {head} {number} x) index own has d h =
      let newest = claim-newest queue_capacity (omega arith) (omega arith) index own x d in
      polled-IsRecorded p i _ (claimed head number) (suc p.system.claims) polling (omega arith)
        (h.unclaimed number (omega (arith, newest))) tt h
  poll-IsRecorded {p} {i} (PopStep.copy {head} {number}) index own has d h =
      polled-IsRecorded p i _ (copied number (p.system.queue.arr head)) _ polling (omega arith) has
        tt h
  poll-IsRecorded {p} {i} (PopStep.discount {number} {result}) index own has d h =
      polled-IsRecorded p i _ PopPc.idle _ (serving number result) (omega arith) tt (own, has) h

  -- A push that changes nothing but the array, its indices and where the pushing thread stands
  still-IsRecorded :
      (p : Pool C E S) (queue : LockFreeQueue C) (pusher : PushPc C)
      → Recorded p
      → Recorded (record p { system = record p.system { queue = queue; pusher = pusher } })
  still-IsRecorded p queue pusher h = record {
    jobs_have = h.jobs_have;
    poppers_have = h.poppers_have;
    unclaimed = h.unclaimed;
    served_have = h.served_have;
    keeps = h.keeps;
  }

  pub push-IsRecorded :
      {p : Pool C E S} {t : System C} {pc : PushPc C}
      → PushStep queue_capacity p.system pc t
      → Recorded p
      → Recorded (record p { system = t })
  push-IsRecorded {p} (PushStep.load elem) h =
      still-IsRecorded p p.system.queue (PushPc.loaded elem p.system.queue.tail) h
  push-IsRecorded {p} (PushStep.write {elem} {tail}) h =
      still-IsRecorded p _ (PushPc.written elem tail) h
  push-IsRecorded {p} PushStep.count h = still-IsRecorded p _ PushPc.idle h
  push-IsRecorded {p} (PushStep.publish {elem}) h = record {
    jobs_have = λ i lt.
        JobHas-append transport handler Keeps p.system.pushed (elem ∷ [])
          (λ k. events_of k p.events) (p.jobs i) (h.jobs_have i lt);
    poppers_have = h.poppers_have;
    unclaimed = h.unclaimed;
    served_have = λ k some_time.
        let (conn_obj, there, handled) = h.served_have k some_time in
        (conn_obj, get_elem?-append p.system.pushed (elem ∷ []) k there, handled);
    keeps = h.keeps;
  }
