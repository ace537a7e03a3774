-- ===== src/Utility/LockFreeQueue/Steps/Numbers.antt =====
-- The indices in the ring, and in the locals of the threads, against the numbers of the elements.
use native.Mathlib.Nat.{mod-add-mod, mod-lt, mod-eq_of_lt, mod-eq-sub-mod}
use native.Mathlib.Decide.{dec_lt}
use simple_serv.Common.{
  ℕ, zero, suc, ◌+◌, ◌-◌, ◌%◌, ◌^◌, ◌≤◌, ◌<◌, ◌≡◌, sym, ap, ◌∙◌, arith, length, length-concat,
}
use simple_serv.Common.Family.{update, update-All}
use simple_serv.Utility.LockFreeQueue.{next}
use simple_serv.Utility.LockFreeQueue.Next.{next-mod}
use simple_serv.Utility.LockFreeQueue.Steps.{
  PushPc, PopPc, checked, claimed, copied, written, System, PushStep, PopStep, Step, Reach,
}

module _ (capacity : ℕ) where
  -- The successor of the index of a number is the index of the next number.
  pub next-number :
      (k : ℕ) → 0 < capacity → capacity < 2 ^ 32 → next capacity (k % capacity) ≡ suc k % capacity
  next-number k pos small =
      next-mod capacity (k % capacity) (mod-lt k pos) small
      ∙ mod-add-mod k capacity 1
      ∙ ap (λ m. m % capacity) (omega arith)

  -- A number in the first turn, and one less than one turn later
  window_first :
      (a b : ℕ) → a < capacity → a ≤ b → b < a + capacity → a % capacity ≡ b % capacity → a ≡ b
  window_first a b in_first le lt e = elim (dec_lt b capacity) [
    | yes both ↦ sym (mod-eq_of_lt in_first) ∙ e ∙ mod-eq_of_lt both
    | no later ↦
        let back : b % capacity ≡ b - capacity =
          mod-eq-sub-mod (omega arith) ∙ mod-eq_of_lt (omega arith) in
        omega (arith, sym (mod-eq_of_lt in_first) ∙ e ∙ back)
  ]

  window_up_to :
      (turns a b : ℕ) → a ≤ turns → a ≤ b → b < a + capacity → a % capacity ≡ b % capacity → a ≡ b
  window_up_to zero a b few le lt e = window_first a b (omega arith) le lt e
  window_up_to (suc turns) a b few le lt e = elim (dec_lt a capacity) [
    | yes in_first ↦ window_first a b in_first le lt e
    | no later ↦
        let back =
          window_up_to turns (a - capacity) (b - capacity) (omega arith) (omega arith) (omega arith)
            (sym (mod-eq-sub-mod (omega arith)) ∙ e ∙ mod-eq-sub-mod (omega arith)) in
        omega arith
  ]

  -- Two numbers less than one turn apart have the same index only if they are the same.
  pub window : (a b : ℕ) → a ≤ b → b < a + capacity → a % capacity ≡ b % capacity → a ≡ b
  window a b le lt e = window_up_to a a b (omega arith) le lt e

  module _ {T : Type 0} where
    -- The local `tail` is the index of the number of the next element.
    abbrev pub PushTail : ℕ → PushPc T → Type 0
    PushTail p PushPc.idle = Unit
    PushTail p (PushPc.loaded elem tail) = tail ≡ p % capacity
    PushTail p (written elem tail) = tail ≡ p % capacity
    PushTail p PushPc.published = Unit

    -- The local `head` is the index of the thread's number, and this number has come up.
    abbrev pub PopHead : ℕ → PopPc T → Type 0
    PopHead c PopPc.idle = Unit
    PopHead c (PopPc.loaded head number) = (head ≡ number % capacity) × (number ≤ c)
    PopHead c (checked head number) = (head ≡ number % capacity) × (number ≤ c)
    PopHead c (claimed head number) = (head ≡ number % capacity) × (number < c)
    PopHead c (copied number result) = number < c

    PopHead-suc : (c : ℕ) (p : PopPc T) → PopHead c p → PopHead (suc c) p
    PopHead-suc c PopPc.idle h = tt
    PopHead-suc c (PopPc.loaded head number) (e, h) = (e, omega arith)
    PopHead-suc c (checked head number) (e, h) = (e, omega arith)
    PopHead-suc c (claimed head number) (e, h) = (e, omega arith)
    PopHead-suc c (copied number result) h = omega arith

    pub record IsNumbered (s : System T) : Type 0 where
      pub head_is : s.queue.head ≡ s.claims % capacity
      pub tail_is : s.queue.tail ≡ length s.pushed % capacity
      pub pusher_is : PushTail (length s.pushed) s.pusher
      pub poppers_are : (i : ℕ) → PopHead s.claims (s.poppers i)

module _ {T : Type 0} (capacity : ℕ) (pos : 0 < capacity) (small : capacity < 2 ^ 32) where
  PushStep-IsNumbered :
      {s t : System T} {p : PushPc T}
      → PushStep capacity s p t
      → PushTail capacity (length s.pushed) p
      → IsNumbered capacity s
      → IsNumbered capacity t
  PushStep-IsNumbered {s} (PushStep.load elem) own h = record {
    head_is = h.head_is;
    tail_is = h.tail_is;
    pusher_is = h.tail_is;
    poppers_are = h.poppers_are;
  }
  PushStep-IsNumbered PushStep.write own h = record {
    head_is = h.head_is;
    tail_is = h.tail_is;
    pusher_is = own;
    poppers_are = h.poppers_are;
  }
  PushStep-IsNumbered {s} (PushStep.publish {elem} {tail}) own h = record {
    head_is = h.head_is;
    tail_is =
        ap (next capacity) own
        ∙ next-number capacity (length s.pushed) pos small
        ∙ sym (ap (λ m. m % capacity) (length-concat s.pushed elem));
    pusher_is = tt;
    poppers_are = h.poppers_are;
  }
  PushStep-IsNumbered PushStep.count own h = record {
    head_is = h.head_is;
    tail_is = h.tail_is;
    pusher_is = tt;
    poppers_are = h.poppers_are;
  }

  -- A thread that goes to `p` while the rest of the state keeps its numbers
  popper-IsNumbered :
      {s : System T} (i size : ℕ) (p : PopPc T)
      → PopHead capacity s.claims p
      → IsNumbered capacity s
      → IsNumbered capacity
          (record s { queue = record s.queue { size = size }; poppers = update s.poppers i p })
  popper-IsNumbered {s} i size p own h = record {
    head_is = h.head_is;
    tail_is = h.tail_is;
    pusher_is = h.pusher_is;
    poppers_are = update-All (PopHead capacity s.claims) s.poppers i p own h.poppers_are;
  }

  PopStep-IsNumbered :
      {s : System T} {i : ℕ} {t : System T} {p : PopPc T}
      → PopStep capacity s i p t
      → PopHead capacity s.claims p
      → IsNumbered capacity s
      → IsNumbered capacity t
  PopStep-IsNumbered {i} PopStep.load own h = popper-IsNumbered i _ _ (h.head_is, omega arith) h
  PopStep-IsNumbered {i} (PopStep.see_empty e) own h = popper-IsNumbered i _ _ tt h
  PopStep-IsNumbered {i} (PopStep.see_element e) own h = popper-IsNumbered i _ _ own h
  PopStep-IsNumbered {i} PopStep.fail own h = popper-IsNumbered i _ _ tt h
  PopStep-IsNumbered {i} PopStep.copy own h = popper-IsNumbered i _ _ own.1 h
  PopStep-IsNumbered {i} PopStep.discount own h = popper-IsNumbered i _ _ tt h
  PopStep-IsNumbered {s} {i} (PopStep.claim {head} {number} e) own h = record {
    head_is = ap (next capacity) (sym e ∙ h.head_is) ∙ next-number capacity s.claims pos small;
    tail_is = h.tail_is;
    pusher_is = h.pusher_is;
    poppers_are =
        update-All (PopHead capacity (suc s.claims)) s.poppers i (claimed head number)
          (own.0, omega arith) (λ j. PopHead-suc capacity s.claims (s.poppers j) (h.poppers_are j));
  }

  pub Step-IsNumbered :
      {n : ℕ} {s t : System T} → Step capacity n s t → IsNumbered capacity s → IsNumbered capacity t
  Step-IsNumbered (Step.push_step m) h = PushStep-IsNumbered m h.pusher_is h
  Step-IsNumbered (Step.pop_step i lt m) h = PopStep-IsNumbered m (h.poppers_are i) h

  pub Reach-IsNumbered :
      {n : ℕ} {arr : ℕ → T} {s : System T} → Reach capacity n arr s → IsNumbered capacity s
  Reach-IsNumbered Reach.start = record {
    head_is = omega (arith, mod-lt 0 pos);
    tail_is = omega (arith, mod-lt 0 pos);
    pusher_is = tt;
    poppers_are = λ i. tt;
  }
  Reach-IsNumbered (Reach.later r m) = Step-IsNumbered m (Reach-IsNumbered r)
