-- ===== src/Server/Pool/Calls.antt =====
-- What is recorded when a worker calls the sender or the closer.
use mathlib.Core.Path.{subst}
use native.Mathlib.Decide.{dec_lt}
use simple_serv.Common.{ℕ, ◌<◌, ◌≡◌, ◌≢◌, sym, ap, ◌∙◌, arith, some, List, [], ◌∷◌, ◌++◌, get_elem?}
use simple_serv.Common.Family.{update, update-Below}
use simple_serv.Server.Connection.{IHandler}
use simple_serv.Server.Pool.{Transport, Job, closing, Pool}
use simple_serv.Server.Pool.Once.{count, count-concat, held_in_pop, held_in_job, IsConserving}
use simple_serv.Server.Pool.Alone.{held_alone}
use simple_serv.Server.Pool.Records.{
  events_of, events_of-other, events_of-same, IsHandled, JobHas, IsRecorded, JobHas-same,
  PopHas-same,
}

module _ {C E S : Type 0} (transport : Transport C E) (handler : IHandler S) (Keeps : S → Type 0)
    (n : ℕ) where
  abbrev Recorded : Pool C E S → Type 0
  Recorded p = IsRecorded transport handler Keeps n p

  -- The history after worker `i`, which holds connection `number`, has made a call
  abbrev pub after_call : Pool C E S → ℕ → List E → ℕ → List E
  after_call p number events k = events_of k (p.events ++ (number, events) ∷ [])

  abbrev pub Served : Pool C E S → List E → ℕ → Type 0
  Served p history k =
      (conn_obj : C) × (get_elem? p.system.pushed k ≡ some conn_obj)
      × IsHandled transport handler Keeps conn_obj history

  pub call-Served :
      (p : Pool C E S) (i number : ℕ) (events : List E)
      → i < n
      → held_in_job number (p.jobs i) ≡ 1
      → IsConserving n p
      → Recorded p
      → (k : ℕ) → 0 < count k p.served
      → Served p (after_call p number events k) k
  call-Served p i number events lt holds once h k some_time =
      let (_, unserved, _, _) = held_alone n p once i number lt holds in
      subst (λ history. Served p history k)
        (sym (
          events_of-other k number p.events events
            (λ e. omega (arith, some_time, ap (λ m. count m p.served) e, unserved))))
        (h.served_have k some_time)

  pub call-IsRecorded :
      (p : Pool C E S) (i number : ℕ) (events : List E) (job : Job C) (served : List ℕ)
      → i < n
      → held_in_job number (p.jobs i) ≡ 1
      → IsConserving n p
      → JobHas transport handler Keeps p.system.pushed (after_call p number events) job
      → ((k : ℕ) → 0 < count k served → Served p (after_call p number events k) k)
      → Recorded p
      → Recorded (record p {
        events = p.events ++ (number, events) ∷ [];
        served = served;
        jobs = update p.jobs i job;
      })
  call-IsRecorded p i number events job served lt holds once has served_have h =
      let (below, _, no_popper, no_job) = held_alone n p once i number lt holds in
      let same : (k : ℕ) → k ≢ number → after_call p number events k ≡ events_of k p.events =
        λ k other. events_of-other k number p.events events other in
      record {
        jobs_have =
            update-Below
              (JobHas transport handler Keeps p.system.pushed (after_call p number events)) n p.jobs
              i job has
              (λ j also other.
                JobHas-same transport handler Keeps p.system.pushed (λ k. events_of k p.events)
                  (after_call p number events) (p.jobs j)
                  (λ k held. same k (λ e.
                    omega (arith, held, ap (λ m. held_in_job m (p.jobs j)) e, no_job j also other)))
                  (h.jobs_have j also));
        poppers_have = λ j also.
            PopHas-same transport handler Keeps (λ k. events_of k p.events)
              (after_call p number events) (p.system.poppers j)
              (λ k held. same k (λ e.
                omega
                  (arith, held, ap (λ m. held_in_pop m (p.system.poppers j)) e, no_popper j also)))
              (h.poppers_have j also);
        unclaimed = λ k le. same k (λ e. omega (arith, e, le, below)) ∙ h.unclaimed k le;
        served_have = served_have;
        keeps = h.keeps;
      }

  -- The connection that is closed has all its events, and those served before keep theirs.
  pub close-Served :
      (p : Pool C E S) (i number : ℕ) (conn_obj : C)
      → i < n
      → held_in_job number (p.jobs i) ≡ 1
      → IsConserving n p
      → JobHas transport handler Keeps p.system.pushed
          (λ k. events_of k p.events)
          (closing number conn_obj)
      → Recorded p
      → (k : ℕ) → 0 < count k (p.served ++ number ∷ [])
      → Served p (after_call p number (transport.close_connection conn_obj) k) k
  close-Served p i number conn_obj lt holds once (there, response, given, sends) h k some_time =
      let closed : List E = transport.close_connection conn_obj in
      elim (dec_lt 0 (count k p.served)) [
        | yes before ↦ call-Served p i number closed lt holds once h k before
        | no first ↦
            let same : number ≡ k =
              ground (arith, count-concat k number p.served, first, some_time) in
            subst (λ k. Served p (after_call p number closed k) k) same
              (
                conn_obj,
                there,
                (
                  response,
                  events_of number p.events,
                  given,
                  sends,
                  events_of-same number p.events closed,
                ),
              )
      ]
