-- ===== src/Utility/LockFreeQueue/Steps/PopMoves.antt =====
-- The steps of `pop` in a paced run.
use mathlib.Core.Path.{subst}
use simple_serv.Common.{
  some_inj, ℕ, suc, ◌+◌, ◌%◌, ◌^◌, ◌≤◌, ◌<◌, ◌≡◌, ◌≢◌, sym, ap, ◌∙◌, arith, some, length,
  get_elem?-some,
}
use simple_serv.Common.Family.{update, update-All, update_distinct}
use simple_serv.Utility.LockFreeQueue.Steps.{
  PushPc, PopPc, checked, claimed, copied, written, System, PopStep,
}
use simple_serv.Utility.LockFreeQueue.Steps.Numbers.{PopHead, IsNumbered, window}
use simple_serv.Utility.LockFreeQueue.Steps.Pace.{
  RoomBehind, HasRoom, number_of, PopDelivers, PushDelivers, IsDelivering,
}

module _ {T : Type 0} (capacity : ℕ) (pos : 0 < capacity) (small : capacity < 2 ^ 32) where
  HasRoom-update :
      (p c c' : ℕ) (poppers : ℕ → PopPc T) (i : ℕ) (q : PopPc T)
      → c ≤ c'
      → (HasRoom capacity p c poppers → RoomBehind capacity p q)
      → HasRoom capacity p c poppers
      → HasRoom capacity p c' (update poppers i q)
  HasRoom-update p c c' poppers i q le room h = record {
    behind_head = omega (arith, h.behind_head);
    behind_poppers = update-All (RoomBehind capacity p) poppers i q (room h) h.behind_poppers;
  }

  PushDelivers-update :
      (p c c' : ℕ) (poppers : ℕ → PopPc T) (i : ℕ) (q : PopPc T) (arr : ℕ → T) (pusher : PushPc T)
      → c ≤ c'
      → (HasRoom capacity p c poppers → RoomBehind capacity p q)
      → PushDelivers capacity p c poppers arr pusher
      → PushDelivers capacity p c' (update poppers i q) arr pusher
  PushDelivers-update p c c' poppers i q arr PushPc.idle le room h = tt
  PushDelivers-update p c c' poppers i q arr (PushPc.loaded elem tail) le room h =
      HasRoom-update p c c' poppers i q le room h
  PushDelivers-update p c c' poppers i q arr (written elem tail) le room (h, there) =
      (HasRoom-update p c c' poppers i q le room h, there)
  PushDelivers-update p c c' poppers i q arr PushPc.published le room h = tt

  -- A thread that goes to `p`, where its number is new or was its own
  popper-IsDelivering :
      {s : System T} (i size : ℕ) (p : PopPc T)
      → IsNumbered capacity
          (record s { queue = record s.queue { size = size }; poppers = update s.poppers i p })
      → PopDelivers capacity s.pushed p
      → (HasRoom capacity (length s.pushed) s.claims s.poppers
          → RoomBehind capacity (length s.pushed) p)
      → ((j k : ℕ)
          → number_of capacity (s.poppers j) ≡ some k
          → number_of capacity p ≡ some k
          → j ≡ i)
      → IsDelivering capacity s
      → IsDelivering capacity
          (record s { queue = record s.queue { size = size }; poppers = update s.poppers i p })
  popper-IsDelivering {s} i size p numbered own room own_number h = record {
    numbered = numbered;
    claimed_le = h.claimed_le;
    room = h.room;
    slots = h.slots;
    poppers_are = update-All (PopDelivers capacity s.pushed) s.poppers i p own h.poppers_are;
    pusher_is =
        PushDelivers-update (length s.pushed) s.claims s.claims s.poppers i p s.queue.arr s.pusher
          (omega arith) room h.pusher_is;
    distinct = update_distinct (number_of capacity) s.poppers i p own_number h.distinct;
  }

  number_of-lt :
      (c : ℕ) (p : PopPc T) (k : ℕ) → PopHead capacity c p → number_of capacity p ≡ some k → k < c
  number_of-lt c (claimed head number) k h e = omega (arith, h.1, some_inj.0 e)
  number_of-lt c (copied number result) k h e = omega (arith, h, some_inj.0 e)
  number_of-lt c PopPc.idle k h e = cc e
  number_of-lt c (PopPc.loaded head number) k h e = cc e
  number_of-lt c (checked head number) k h e = cc e

  -- A claim that succeeds is of the oldest element that has not been claimed.
  pub claim-newest :
      {s : System T} {head number : ℕ}
      → (head ≡ number % capacity) × (number ≤ s.claims)
      → (length s.pushed < number + capacity) × (number < length s.pushed)
      → s.queue.head ≡ head
      → IsDelivering capacity s
      → number ≡ s.claims
  claim-newest {s} {head} {number} (index, le) (close, there) e h =
      window capacity number s.claims le (omega (arith, h.claimed_le))
        (sym index ∙ sym e ∙ h.numbered.head_is)

  pub PopStep-IsDelivering :
      {s : System T} {i : ℕ} {t : System T} {p : PopPc T}
      → PopStep capacity s i p t
      → s.poppers i ≡ p
      → IsNumbered capacity t
      → PopHead capacity s.claims p
      → PopDelivers capacity s.pushed p
      → IsDelivering capacity s
      → IsDelivering capacity t
  PopStep-IsDelivering {s} {i} PopStep.load e numbered index own h =
      popper-IsDelivering i _ _ numbered h.room (λ room. room.behind_head) (λ j k a b. cc b) h
  PopStep-IsDelivering {s} {i} (PopStep.see_empty x) e numbered index own h =
      popper-IsDelivering i _ _ numbered tt (λ room. tt) (λ j k a b. cc b) h
  PopStep-IsDelivering {s} {i} (PopStep.see_element {head} {number} x) e numbered index own h =
      let not_last : number ≢ length s.pushed =
        λ q. x (index.0 ∙ ap (λ k. k % capacity) q ∙ sym h.numbered.tail_is) in
      popper-IsDelivering i _ _ numbered (own, omega (arith, index.1, h.claimed_le))
        (λ room. subst (RoomBehind capacity (length s.pushed)) e (room.behind_poppers i))
        (λ j k a b. cc b) h
  PopStep-IsDelivering {s} {i} PopStep.fail e numbered index own h =
      popper-IsDelivering i _ _ numbered tt (λ room. tt) (λ j k a b. cc b) h
  PopStep-IsDelivering {s} {i} (PopStep.copy {head} {number}) e numbered index own h =
      let (y, there) = get_elem?-some s.pushed number (omega (arith, index.1, h.claimed_le)) in
      popper-IsDelivering i _ _ numbered
        (there ∙ ap some (sym (ap s.queue.arr index.0 ∙ h.slots number y own there))) (λ room. tt)
        (λ j k a b. h.distinct j i k a (ap (number_of capacity) e ∙ b)) h
  PopStep-IsDelivering {s} {i} PopStep.discount e numbered index own h =
      popper-IsDelivering i _ _ numbered tt (λ room. tt) (λ j k a b. cc b) h
  PopStep-IsDelivering {s} {i} (PopStep.claim {head} {number} x) e numbered index own h =
      let newest = claim-newest index own x h in
      record {
        numbered = numbered;
        claimed_le = omega (arith, own.1);
        room = omega (arith, h.room);
        slots = h.slots;
        poppers_are =
            update-All (PopDelivers capacity s.pushed) s.poppers i (claimed head number) own.0
              h.poppers_are;
        pusher_is =
            PushDelivers-update (length s.pushed) s.claims (suc s.claims) s.poppers i
              (claimed head number) s.queue.arr s.pusher (omega arith)
              (λ room. subst (RoomBehind capacity (length s.pushed)) e (room.behind_poppers i))
              h.pusher_is;
        distinct =
            update_distinct (number_of capacity) s.poppers i (claimed head number)
              (λ j k a b. absurd (
                omega (
                  arith,
                  newest,
                  some_inj.0 b,
                  number_of-lt s.claims (s.poppers j) k (h.numbered.poppers_are j) a,
                )))
              h.distinct;
      }
