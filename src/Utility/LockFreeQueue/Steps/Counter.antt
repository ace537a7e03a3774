-- ===== src/Utility/LockFreeQueue/Steps/Counter.antt =====
-- The counter `size_` against the elements that are in the ring.
use simple_serv.Common.{ℕ, ◌+◌, ◌-◌, ◌^◌, ◌<◌, ◌≡◌, refl, sym, ap, arith, length, length-concat}
use simple_serv.Common.Family.{update, total, total-update, total-zero}
use simple_serv.Utility.LockFreeQueue.{u32}
use simple_serv.Utility.LockFreeQueue.Steps.Pace.{IsPaced}
use simple_serv.Utility.LockFreeQueue.Steps.Delivery.{Reach-occupied}
use simple_serv.Utility.LockFreeQueue.Steps.{
  PushPc, PopPc, claimed, copied, System, PushStep, PopStep, Step, Reach,
}

module _ {T : Type 0} where
  -- An element published and not yet counted
  abbrev pub uncounted : PushPc T → ℕ
  uncounted PushPc.published = 1
  uncounted _ = 0

  -- An element claimed and still counted
  abbrev pub undiscounted : PopPc T → ℕ
  undiscounted (claimed head number) = 1
  undiscounted (copied number result) = 1
  undiscounted _ = 0

  -- Up to a multiple of 2 ^ 32 the counter is what has been published less what has been claimed,
  -- but for the elements that threads have yet to count.
  pub record IsCounted (n : ℕ) (s : System T) : Type 0 where
    pub size_lt : s.queue.size < 2 ^ 32
    pub balance :
        u32 (s.queue.size + s.claims + uncounted s.pusher)
        ≡ u32 (length s.pushed + total undiscounted n s.poppers)

  module _ (capacity n : ℕ) where
    PushStep-IsCounted :
        {s t : System T} {p : PushPc T}
        → PushStep capacity s p t
        → s.pusher ≡ p
        → IsCounted n s
        → IsCounted n t
    PushStep-IsCounted {s} (PushStep.load elem) e h = record {
      size_lt = h.size_lt;
      balance = omega (arith, h.balance, ap uncounted e);
    }
    PushStep-IsCounted PushStep.write e h = record {
      size_lt = h.size_lt;
      balance = omega (arith, h.balance, ap uncounted e);
    }
    PushStep-IsCounted {s} (PushStep.publish {elem}) e h = record {
      size_lt = h.size_lt;
      balance = omega (arith, h.balance, ap uncounted e, length-concat s.pushed elem);
    }
    PushStep-IsCounted PushStep.count e h = record {
      size_lt = omega arith;
      balance = omega (arith, h.balance, ap uncounted e);
    }

    -- A thread that goes to `p`, with as much still to discount as before
    popper-IsCounted :
        {s : System T} (i : ℕ) (p : PopPc T)
        → i < n
        → undiscounted p ≡ undiscounted (s.poppers i)
        → IsCounted n s
        → IsCounted n (record s { poppers = update s.poppers i p })
    popper-IsCounted {s} i p lt same h = record {
      size_lt = h.size_lt;
      balance = omega (arith, h.balance, same, (total-update undiscounted n s.poppers i p).0 lt);
    }

    PopStep-IsCounted :
        {s : System T} {i : ℕ} {t : System T} {p : PopPc T}
        → i < n
        → PopStep capacity s i p t
        → s.poppers i ≡ p
        → IsCounted n s
        → IsCounted n t
    PopStep-IsCounted {i} lt PopStep.load e h = popper-IsCounted i _ lt (sym (ap undiscounted e)) h
    PopStep-IsCounted {i} lt (PopStep.see_empty x) e h =
        popper-IsCounted i _ lt (sym (ap undiscounted e)) h
    PopStep-IsCounted {i} lt (PopStep.see_element x) e h =
        popper-IsCounted i _ lt (sym (ap undiscounted e)) h
    PopStep-IsCounted {i} lt PopStep.fail e h = popper-IsCounted i _ lt (sym (ap undiscounted e)) h
    PopStep-IsCounted {i} lt PopStep.copy e h = popper-IsCounted i _ lt (sym (ap undiscounted e)) h
    PopStep-IsCounted {s} {i} lt (PopStep.claim {head} {number} x) e h = record {
      size_lt = h.size_lt;
      balance = omega (
        arith,
        h.balance,
        ap undiscounted e,
        (total-update undiscounted n s.poppers i (claimed head number)).0 lt,
      );
    }
    PopStep-IsCounted {s} {i} lt PopStep.discount e h = record {
      size_lt = omega arith;
      balance = omega (
        arith,
        h.balance,
        h.size_lt,
        ap undiscounted e,
        (total-update undiscounted n s.poppers i PopPc.idle).0 lt,
      );
    }

    pub Reach-IsCounted : {arr : ℕ → T} {s : System T} → Reach capacity n arr s → IsCounted n s
    Reach-IsCounted Reach.start = record {
      size_lt = omega arith;
      balance = omega (arith, total-zero undiscounted n (λ _. PopPc.idle) (λ i lt. refl));
    }
    Reach-IsCounted (Reach.later r (Step.push_step m)) =
        PushStep-IsCounted m refl (Reach-IsCounted r)
    Reach-IsCounted (Reach.later r (Step.pop_step i lt m)) =
        PopStep-IsCounted lt m refl (Reach-IsCounted r)

  -- In every paced run of one pushing and n popping threads, when no thread is between its change
  -- of an index and its change of the counter, size_ is the number of pushed elements less that of
  -- claimed ones, and below the capacity, for a capacity from 1 up to below 2 ^ 32. Here a run is
  -- paced if each push begins with fewer than capacity - 1 elements published from the head on,
  -- and fewer than capacity - 1 from the head on that any thread loaded which is inside pop and
  -- has not yet copied its element; room in the ring alone is not enough.
  pub Reach-size :
      (capacity n : ℕ) {arr : ℕ → T} {s : System T} (r : Reach capacity n arr s)
      → 0 < capacity
      → capacity < 2 ^ 32
      → IsPaced capacity r
      → uncounted s.pusher ≡ 0
      → ((i : ℕ) → undiscounted (s.poppers i) ≡ 0)
      → (s.queue.size ≡ length s.pushed - s.claims) × (s.queue.size < capacity)
  Reach-size capacity n {s = s} r pos small paced counted discounted =
      let h = Reach-IsCounted capacity n r in
      let none_left = total-zero undiscounted n s.poppers (λ i lt. discounted i) in
      let (le, room) = Reach-occupied capacity pos small r paced in
      (omega (arith, h.size_lt, h.balance), omega (arith, h.size_lt, h.balance))
