-- ===== src/Utility/LockFreeQueue/Steps/Stalled.antt =====
-- A thread that stalls in `pop` between its load of the head and its exchange, while the ring goes
-- around once.
use mathlib.Core.Path.{subst}
use simple_serv.Common.{
  ℕ, zero, suc, ◌+◌, ◌-◌, ◌%◌, ◌^◌, ◌<◌, ◌≡◌, ◌≢◌, refl, sym, ap, ◌∙◌, arith, [], ◌∷◌, ◌++◌, length,
  length-concat,
}
use native.Mathlib.Nat.{mod_self}
use simple_serv.Common.Family.{update, update-here}
use simple_serv.Utility.LockFreeQueue.{u32, next, store}
use simple_serv.Utility.LockFreeQueue.Steps.{
  PushPc, PopPc, loaded, checked, claimed, copied, written, System, PushStep, PopStep, Step, Reach,
  initial,
}
use simple_serv.Utility.LockFreeQueue.Steps.Numbers.{window, Reach-IsNumbered}

module _ {T : Type 0} where
  -- A push begins only in a state whose ring is empty.
  abbrev pub BeginsEmpty : System T → PushPc T → Type 0
  BeginsEmpty s PushPc.idle = s.queue.head ≡ s.queue.tail
  BeginsEmpty s (PushPc.loaded elem tail) = Unit
  BeginsEmpty s (written elem tail) = Unit
  BeginsEmpty s PushPc.published = Unit

  module _ (capacity : ℕ) where
    abbrev pub StepIntoEmpty : {n : ℕ} {s t : System T} → Step capacity n s t → Type 0
    StepIntoEmpty {s} (Step.push_step m) = BeginsEmpty s s.pusher
    StepIntoEmpty (Step.pop_step i lt m) = Unit

    -- Every push of the run begins with an empty ring.
    abbrev pub PushesIntoEmpty :
        {n : ℕ} {arr : ℕ → T} {s : System T} → Reach capacity n arr s → Type 0
    PushesIntoEmpty Reach.start = Unit
    PushesIntoEmpty (Reach.later r m) = PushesIntoEmpty r × StepIntoEmpty m

  begins_empty : (s : System T) (p : PushPc T) → s.queue.head ≡ s.queue.tail → BeginsEmpty s p
  begins_empty s PushPc.idle e = e
  begins_empty s (PushPc.loaded elem tail) e = tt
  begins_empty s (written elem tail) e = tt
  begins_empty s PushPc.published e = tt

module _ {T : Type 0} (capacity : ℕ) (several : 1 < capacity) (small : capacity < 2 ^ 32)
    (arr : ℕ → T) (x : T) where
  one_further : (k : ℕ) → k % capacity ≢ suc k % capacity
  one_further k e =
      let same = window capacity k (suc k) (omega arith) (omega arith) e in omega arith

  -- A run that ends in a state, all of whose pushes begin with an empty ring
  abbrev Runs : System T → Type 0
  Runs s = (r : Reach capacity 2 arr s) × PushesIntoEmpty capacity r

  abbrev after_push : System T → System T
  after_push s = record s {
    queue = record s.queue {
      arr = store capacity s.queue.arr s.queue.tail x;
      tail = next capacity s.queue.tail;
      size = u32 (s.queue.size + 1);
    };
    pusher = PushPc.idle;
    pushed = s.pushed ++ x ∷ [];
  }

  -- One step of thread `i`
  pop_on :
      {s t : System T} {p : PopPc T} (i : ℕ)
      → i < 2
      → Runs s
      → s.poppers i ≡ p
      → PopStep capacity s i p t
      → Runs t
  pop_on {s} {t} i lt (r, paced) e m = (
    Reach.later r (Step.pop_step i lt (subst (λ p. PopStep capacity s i p t) (sym e) m)),
    (paced, tt),
  )

  after_push-Runs :
      (s : System T)
      → Runs s
      → s.pusher ≡ PushPc.idle
      → s.claims ≡ length s.pushed
      → Runs (after_push s)
  after_push-Runs s (r, paced) idle same =
      let numbered = Reach-IsNumbered capacity (omega arith) small r in
      let empty : s.queue.head ≡ s.queue.tail =
        numbered.head_is ∙ ap (λ k. k % capacity) same ∙ sym numbered.tail_is in
      let loading : System T = record s { pusher = PushPc.loaded x s.queue.tail } in
      let loads = subst (λ p. PushStep capacity s p loading) (sym idle) (PushStep.load x) in
      let begun = Reach.later r (Step.push_step loads) in
      let written_ = Reach.later begun (Step.push_step PushStep.write) in
      let out = Reach.later written_ (Step.push_step PushStep.publish) in
      (
        Reach.later out (Step.push_step PushStep.count),
        ((((paced, begins_empty s s.pusher empty), tt), tt), tt),
      )

  -- A thread at rest that goes up to its exchange, while there is an element
  abbrev after_check : ℕ → System T → System T
  after_check i s = record s {
    poppers =
        update (update s.poppers i (loaded s.queue.head s.claims)) i
          (checked s.queue.head s.claims);
  }

  after_check-Runs :
      (i : ℕ) (s : System T)
      → i < 2
      → Runs s
      → s.poppers i ≡ PopPc.idle
      → length s.pushed ≡ suc s.claims
      → Runs (after_check i s)
  after_check-Runs i s lt rs idle one_more =
      let numbered = Reach-IsNumbered capacity (omega arith) small rs.0 in
      let some_left : s.queue.head ≢ s.queue.tail = λ e.
        one_further s.claims
          (sym numbered.head_is ∙ e ∙ numbered.tail_is ∙ ap (λ k. k % capacity) one_more) in
      pop_on i lt (pop_on i lt rs idle PopStep.load) (update-here s.poppers i _)
        (PopStep.see_element some_left)

  -- The rest of `pop` by thread 1
  abbrev after_pop : System T → System T
  after_pop s =
      let t = after_check 1 s in
      record t {
        queue = record t.queue {
          head = next capacity t.queue.head;
          size = u32 (t.queue.size + (2 ^ 32 - 1));
        };
        poppers =
            update
              (update (update t.poppers 1 (claimed s.queue.head s.claims)) 1
                (copied s.claims (t.queue.arr s.queue.head)))
              1 PopPc.idle;
        claims = suc t.claims;
      }

  after_pop-Runs :
      (s : System T)
      → Runs s
      → s.poppers 1 ≡ PopPc.idle
      → length s.pushed ≡ suc s.claims
      → Runs (after_pop s)
  after_pop-Runs s rs idle one_more =
      let up_to = after_check-Runs 1 s (omega arith) rs idle one_more in
      let taken = pop_on 1 (omega arith) up_to refl (PopStep.claim refl) in
      pop_on 1 (omega arith) (pop_on 1 (omega arith) taken refl PopStep.copy) refl PopStep.discount

  -- After `k` elements, each pushed and popped, thread 0 is still before its exchange.
  record IsStalled (k : ℕ) (s : System T) : Type 0 where
    runs : Runs s
    pusher_idle : s.pusher ≡ PushPc.idle
    stalled : s.poppers 0 ≡ checked 0 0
    popper_idle : s.poppers 1 ≡ PopPc.idle
    claims_are : s.claims ≡ k
    pushed_are : length s.pushed ≡ k

  first_round : System T
  first_round = after_pop (after_check 0 (after_push (initial capacity arr)))

  first_round-IsStalled : IsStalled 1 first_round
  unfolding first_round
  first_round-IsStalled =
      let out = after_push-Runs (initial capacity arr) (Reach.start, tt) refl refl in
      record {
        runs = after_pop-Runs _ (after_check-Runs 0 _ (omega arith) out refl refl) refl refl;
        pusher_idle = refl;
        stalled = refl;
        popper_idle = refl;
        claims_are = refl;
        pushed_are = refl;
      }

  round-IsStalled :
      (k : ℕ) (s : System T) → IsStalled k s → IsStalled (suc k) (after_pop (after_push s))
  round-IsStalled k s h =
      let out = after_push-Runs s h.runs h.pusher_idle (h.claims_are ∙ sym h.pushed_are) in
      let longer = length-concat s.pushed x in
      record {
        runs =
            after_pop-Runs (after_push s) out h.popper_idle
              (omega (arith, longer, h.claims_are, h.pushed_are));
        pusher_idle = refl;
        stalled = h.stalled;
        popper_idle = refl;
        claims_are = ap suc h.claims_are;
        pushed_are = omega (arith, longer, h.pushed_are);
      }

  rounds-IsStalled : (k : ℕ) → (s : System T) × IsStalled (suc k) s
  rounds-IsStalled zero = (first_round, first_round-IsStalled)
  rounds-IsStalled (suc k) =
      let (s, h) = rounds-IsStalled k in (after_pop (after_push s), round-IsStalled (suc k) s h)

  -- For every capacity from 2 up to below 2 ^ 32 there is a run of one pushing and two popping
  -- threads in which every push begins with an empty ring, and after which one more element has
  -- been claimed than was pushed.
  pub Reach-overclaims :
      (s : System T) × (r : Reach capacity 2 arr s) × PushesIntoEmpty capacity r
      × (s.claims ≡ suc (length s.pushed))
  Reach-overclaims =
      let (s, h) = rounds-IsStalled (capacity - 1) in
      let turned : s.claims ≡ capacity = h.claims_are ∙ omega arith in
      let numbered = Reach-IsNumbered capacity (omega arith) small h.runs.0 in
      let around : s.queue.head ≡ 0 =
        numbered.head_is ∙ ap (λ k. k % capacity) turned ∙ mod_self capacity in
      let (r, paced) = pop_on 0 (omega arith) h.runs h.stalled (PopStep.claim around) in
      (_, r, paced, ap suc (h.claims_are ∙ sym h.pushed_are))
