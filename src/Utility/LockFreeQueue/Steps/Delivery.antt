-- ===== src/Utility/LockFreeQueue/Steps/Delivery.antt =====
-- What the popping threads are handed in paced runs.
use mathlib.Core.Path.{subst}
use simple_serv.Common.{ℕ, ◌+◌, ◌^◌, ◌≤◌, ◌<◌, ◌≡◌, refl, ap, arith, some, length, get_elem?}
use simple_serv.Utility.LockFreeQueue.Steps.{copied, System, Step, Reach}
use simple_serv.Utility.LockFreeQueue.Steps.Numbers.{PopHead, IsNumbered, Reach-IsNumbered}
use simple_serv.Utility.LockFreeQueue.Steps.Pace.{
  StepPaced, IsPaced, number_of, PopDelivers, IsDelivering,
}
use simple_serv.Utility.LockFreeQueue.Steps.PushMoves.{PushStep-IsDelivering}
use simple_serv.Utility.LockFreeQueue.Steps.PopMoves.{PopStep-IsDelivering}

module _ {T : Type 0} (capacity : ℕ) (pos : 0 < capacity) (small : capacity < 2 ^ 32) where
  Step-IsDelivering :
      {n : ℕ} {s t : System T} (m : Step capacity n s t)
      → StepPaced capacity m
      → IsNumbered capacity t
      → IsDelivering capacity s
      → IsDelivering capacity t
  Step-IsDelivering (Step.push_step m) paced numbered h =
      PushStep-IsDelivering capacity pos small m paced numbered h.numbered.pusher_is h.pusher_is h
  Step-IsDelivering (Step.pop_step i lt m) paced numbered h =
      PopStep-IsDelivering capacity pos small m refl numbered (h.numbered.poppers_are i)
        (h.poppers_are i) h

  pub Reach-IsDelivering :
      {n : ℕ} {arr : ℕ → T} {s : System T} (r : Reach capacity n arr s)
      → IsPaced capacity r
      → IsDelivering capacity s
  Reach-IsDelivering {n} {arr} Reach.start paced = record {
    numbered = Reach-IsNumbered capacity pos small {n = n} {arr = arr} Reach.start;
    claimed_le = omega arith;
    room = omega (arith, pos);
    slots = λ k x close there. cc there;
    poppers_are = λ i. tt;
    pusher_is = tt;
    distinct = λ i j k a b. cc a;
  }
  Reach-IsDelivering (Reach.later r m) (before, paced) =
      Step-IsDelivering m paced (Reach-IsNumbered capacity pos small (Reach.later r m))
        (Reach-IsDelivering r before)

  pub Reach-occupied :
      {n : ℕ} {arr : ℕ → T} {s : System T} (r : Reach capacity n arr s)
      → IsPaced capacity r
      → (s.claims ≤ length s.pushed) × (length s.pushed < s.claims + capacity)
  Reach-occupied r paced = let h = Reach-IsDelivering r paced in (h.claimed_le, h.room)

  -- In every paced run of one pushing and n popping threads, a thread that has copied an element
  -- with number k out of the ring has the k-th element that was pushed, the number has been
  -- claimed, and no other thread holds it, for a capacity from 1 up to below 2 ^ 32. Here a run is
  -- paced if each push begins with fewer than capacity - 1 elements published from the head on,
  -- and fewer than capacity - 1 from the head on that any thread loaded which is inside pop and
  -- has not yet copied its element; room in the ring alone is not enough.
  pub Reach-delivers :
      {n : ℕ} {arr : ℕ → T} {s : System T} (r : Reach capacity n arr s) (i number : ℕ) (x : T)
      → IsPaced capacity r
      → s.poppers i ≡ copied number x
      → (get_elem? s.pushed number ≡ some x)
        × (number < s.claims)
        × ((j : ℕ) → number_of capacity (s.poppers j) ≡ some number → i ≡ j)
  Reach-delivers {s} r i number x paced e =
      let h = Reach-IsDelivering r paced in
      (
        subst (PopDelivers capacity s.pushed) e (h.poppers_are i),
        subst (PopHead capacity s.claims) e (h.numbered.poppers_are i),
        λ j other. h.distinct i j number (ap (number_of capacity) e) other,
      )
