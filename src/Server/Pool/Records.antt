-- ===== src/Server/Pool/Records.antt =====
-- What is recorded of each connection while the workers run.
use mathlib.Core.Path.{subst}
use simple_serv.Common.{
  ℕ, ◌≤◌, ◌<◌, ◌≡◌, ◌≢◌, refl, sym, ap, ◌∙◌, arith, Option, some, List, [], ◌∷◌, ◌++◌, append_assoc,
  ◌==◌, if◌then◌else◌, Bool-cases, inl, inr, get_elem?, get_elem?-append, Bytes, append-nil,
  ==_refl,
}
use simple_serv.Common.Outcome.{returns}
use simple_serv.Utility.LockFreeQueue.Steps.{PopPc, checked, claimed, copied}
use simple_serv.Server.Connection.{IHandler}
use simple_serv.Server.Pool.{
  Transport, Job, polling, serving, answering, closing, Pool, AnswerSends,
}
use simple_serv.Server.Pool.Once.{one_if, count, held_in_pop, held_in_job}

pub one_if_refl : (k : ℕ) → one_if k k ≡ 1
one_if_refl k = rw (==_refl k) refl

-- The events of the connection with number `k`
abbrev pub events_of : {E : Type 0} → ℕ → List (ℕ × List E) → List E
events_of k [] = []
events_of k ((number, events) ∷ later) =
    let rest = events_of k later in if k == number then events ++ rest else rest

module _ {E : Type 0} where
  pub events_of-other :
      (k number : ℕ) (blocks : List (ℕ × List E)) (events : List E)
      → k ≢ number
      → events_of k (blocks ++ (number, events) ∷ []) ≡ events_of k blocks
  events_of-other k number [] events other = ground (arith, other)
  events_of-other k number ((m, es) ∷ blocks) events other =
      ap (λ rest. if k == m then es ++ rest else rest)
        (events_of-other k number blocks events other)

  pub events_of-same :
      (k : ℕ) (blocks : List (ℕ × List E)) (events : List E)
      → events_of k (blocks ++ (k, events) ∷ []) ≡ events_of k blocks ++ events
  events_of-same k [] events = rw (==_refl k) (append-nil events)
  events_of-same k ((m, es) ∷ blocks) events = elim (Bool-cases (k == m)) [
    | inl same ↦
        rw (same, events_of-same k blocks events)
          (sym (append_assoc es (events_of k blocks) events))
    | inr other ↦ rw (other, events_of-same k blocks events) refl
  ]

module _ {C E S : Type 0} (transport : Transport C E) (handler : IHandler S)
    (Keeps : S → Type 0) where
  -- The handler has given this response to the request, in a state that it keeps.
  abbrev pub Responds : C → Option Bytes → Type 0
  Responds conn_obj response =
      (state : S) × (state' : S) × Keeps state
      × (handler (transport.request conn_obj) state ≡ returns (response, state'))

  -- The events of a connection that has been handled, as `handle_connection` has them in their order
  abbrev pub IsHandled : C → List E → Type 0
  IsHandled conn_obj events =
      (response : Option Bytes) × (sends : List E) × Responds conn_obj response
      × AnswerSends transport handler conn_obj response sends
      × (events ≡ sends ++ transport.close_connection conn_obj)

  abbrev pub JobHas : List C → (ℕ → List E) → Job C → Type 0
  JobHas pushed history polling = Unit
  JobHas pushed history (serving number conn_obj) =
      (get_elem? pushed number ≡ some conn_obj) × (history number ≡ [])
  JobHas pushed history (answering number conn_obj response) =
      (get_elem? pushed number ≡ some conn_obj) × (history number ≡ []) × Responds conn_obj response
  JobHas pushed history (closing number conn_obj) =
      (get_elem? pushed number ≡ some conn_obj)
      × (response : Option Bytes) × Responds conn_obj response
      × AnswerSends transport handler conn_obj response (history number)

  abbrev pub PopHas : (ℕ → List E) → PopPc C → Type 0
  PopHas history (claimed head number) = history number ≡ []
  PopHas history (copied number conn_obj) = history number ≡ []
  PopHas history _ = Unit

  pub record IsRecorded (n : ℕ) (p : Pool C E S) : Type 0 where
    pub jobs_have : (i : ℕ) → i < n → JobHas p.system.pushed (λ k. events_of k p.events) (p.jobs i)
    pub poppers_have : (i : ℕ) → i < n → PopHas (λ k. events_of k p.events) (p.system.poppers i)
    pub unclaimed : (k : ℕ) → p.system.claims ≤ k → events_of k p.events ≡ []
    pub served_have :
        (k : ℕ)
        → 0 < count k p.served
        → (conn_obj : C) × (get_elem? p.system.pushed k ≡ some conn_obj)
          × IsHandled conn_obj (events_of k p.events)
    pub keeps : Keeps p.state

  -- What a job has depends on the events of the connection that it holds.
  pub JobHas-same :
      (pushed : List C) (history history' : ℕ → List E) (job : Job C)
      → ((k : ℕ) → held_in_job k job ≡ 1 → history' k ≡ history k)
      → JobHas pushed history job
      → JobHas pushed history' job
  JobHas-same pushed history history' polling same h = tt
  JobHas-same pushed history history' (serving number conn_obj) same (there, none_yet) =
      (there, same number (one_if_refl number) ∙ none_yet)
  JobHas-same pushed history history' (answering number conn_obj o) same (there, none_yet, given) =
      (there, same number (one_if_refl number) ∙ none_yet, given)
  JobHas-same pushed history history' (closing number conn_obj) same
        (there, response, given, sends) =
      (
        there,
        response,
        given,
        subst (AnswerSends transport handler conn_obj response)
            (sym (same number (one_if_refl number))) sends,
      )

  pub PopHas-same :
      (history history' : ℕ → List E) (pc : PopPc C)
      → ((k : ℕ) → held_in_pop k pc ≡ 1 → history' k ≡ history k)
      → PopHas history pc
      → PopHas history' pc
  PopHas-same history history' PopPc.idle same h = tt
  PopHas-same history history' (PopPc.loaded head number) same h = tt
  PopHas-same history history' (checked head number) same h = tt
  PopHas-same history history' (claimed head number) same h = same number (one_if_refl number) ∙ h
  PopHas-same history history' (copied number conn_obj) same h =
      same number (one_if_refl number) ∙ h

  -- More connections behind those that were accepted
  pub JobHas-append :
      (pushed more : List C) (history : ℕ → List E) (job : Job C)
      → JobHas pushed history job
      → JobHas (pushed ++ more) history job
  JobHas-append pushed more history polling h = tt
  JobHas-append pushed more history (serving number conn_obj) (there, rest) =
      (get_elem?-append pushed more number there, rest)
  JobHas-append pushed more history (answering number conn_obj o) (there, none_yet, given) =
      (get_elem?-append pushed more number there, none_yet, given)
  JobHas-append pushed more history (closing number conn_obj) (there, response, given, sends) =
      (get_elem?-append pushed more number there, response, given, sends)
