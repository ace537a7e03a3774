-- ===== src/Utility/LockFreeQueue/Steps/PushMoves.antt =====
-- The steps of `push` in a paced run.
use mathlib.Core.Path.{subst}
use simple_serv.Common.{
  ℕ, ◌+◌, ◌%◌, ◌^◌, ◌<◌, ◌≡◌, refl, sym, ap, ◌∙◌, arith, Bool-cases, inl, inr, List, [], ◌∷◌, ◌++◌,
  length, length-concat, get_elem?-lt, get_elem?-append, get_elem?-concat, ◌==◌, ==_iff, ==_refl,
}
use simple_serv.Utility.LockFreeQueue.{store}
use simple_serv.Utility.LockFreeQueue.Steps.{
  PushPc, PopPc, checked, claimed, copied, System, PushStep,
}
use simple_serv.Utility.LockFreeQueue.Steps.Numbers.{PushTail, IsNumbered, window}
use simple_serv.Utility.LockFreeQueue.Steps.Pace.{
  RoomBehind, PushPaced, PopDelivers, PushDelivers, IsDelivering,
}

module _ {T : Type 0} (capacity : ℕ) (pos : 0 < capacity) (small : capacity < 2 ^ 32) where
  -- The slot that is written next belongs to no element that is still to be taken.
  store-slot :
      (arr : ℕ → T) (x y : T) (k p : ℕ)
      → k < p
      → p < k + capacity
      → arr (k % capacity) ≡ y
      → store capacity arr (p % capacity) x (k % capacity) ≡ y
  store-slot arr x y k p lt close h = elim (Bool-cases (p % capacity == k % capacity)) [
    | inl same ↦
        absurd (omega (arith, window capacity k p (omega arith) close (sym ((==_iff _ _).0 same))))
    | inr other ↦ rw other h
  ]

  PopDelivers-concat :
      (pushed : List T) (x : T) (p : PopPc T)
      → RoomBehind capacity (length pushed) p
      → PopDelivers capacity pushed p
      → PopDelivers capacity (pushed ++ x ∷ []) p
  PopDelivers-concat pushed x PopPc.idle room h = tt
  PopDelivers-concat pushed x (PopPc.loaded head number) room h =
      omega (arith, length-concat pushed x)
  PopDelivers-concat pushed x (checked head number) room (_, h) =
      (omega (arith, length-concat pushed x), omega (arith, length-concat pushed x))
  PopDelivers-concat pushed x (claimed head number) room h = omega (arith, length-concat pushed x)
  PopDelivers-concat pushed x (copied number result) room h =
      get_elem?-append pushed (x ∷ []) number h

  pub PushStep-IsDelivering :
      {s t : System T} {p : PushPc T} (m : PushStep capacity s p t)
      → PushPaced capacity m
      → IsNumbered capacity t
      → PushTail capacity (length s.pushed) p
      → PushDelivers capacity (length s.pushed) s.claims s.poppers s.queue.arr p
      → IsDelivering capacity s
      → IsDelivering capacity t
  PushStep-IsDelivering (PushStep.load elem) paced numbered index own h = record {
    numbered = numbered;
    claimed_le = h.claimed_le;
    room = h.room;
    slots = h.slots;
    poppers_are = h.poppers_are;
    pusher_is = paced;
    distinct = h.distinct;
  }
  PushStep-IsDelivering {s} (PushStep.write {elem} {tail}) paced numbered index own h = record {
    numbered = numbered;
    claimed_le = h.claimed_le;
    room = h.room;
    slots = λ k x close there.
        subst (λ i. store capacity s.queue.arr i elem (k % capacity) ≡ x) (sym index)
          (store-slot s.queue.arr elem x k (length s.pushed) (get_elem?-lt s.pushed k there) close
            (h.slots k x close there));
    poppers_are = h.poppers_are;
    pusher_is = (own, rw (==_refl tail) refl);
    distinct = h.distinct;
  }
  PushStep-IsDelivering {s} (PushStep.publish {elem} {tail}) paced numbered index own h = record {
    numbered = numbered;
    claimed_le = omega (arith, h.claimed_le, length-concat s.pushed elem);
    room = omega (arith, own.0.behind_head, length-concat s.pushed elem);
    slots = λ k x close there. elim (get_elem?-concat s.pushed elem k there) [
      | inl old ↦ h.slots k x (omega (arith, length-concat s.pushed elem)) old
      | inr (last, same) ↦
          ap (λ j. s.queue.arr (j % capacity)) last ∙ ap s.queue.arr (sym index) ∙ own.1 ∙ same
    ];
    poppers_are = λ i.
        PopDelivers-concat s.pushed elem (s.poppers i) (own.0.behind_poppers i) (h.poppers_are i);
    pusher_is = tt;
    distinct = h.distinct;
  }
  PushStep-IsDelivering PushStep.count paced numbered index own h = record {
    numbered = numbered;
    claimed_le = h.claimed_le;
    room = h.room;
    slots = h.slots;
    poppers_are = h.poppers_are;
    pusher_is = tt;
    distinct = h.distinct;
  }
