-- ===== src/Utility/LockFreeQueue/Steps/Pace.antt =====
-- Runs that are paced: a push begins only while there is room behind the head, and also behind the
-- head that each thread has loaded which is inside `pop` and has not copied its element, whether it
-- has claimed one or not. What the threads rely on in such a run is the record at the end.
use simple_serv.Common.{
  ℕ, suc, ◌+◌, ◌%◌, ◌≤◌, ◌<◌, ◌≡◌, Option, none, some, List, length, get_elem?,
}
use simple_serv.Utility.LockFreeQueue.Steps.{
  PushPc, PopPc, checked, claimed, copied, written, System, PushStep, Step, Reach,
}
use simple_serv.Utility.LockFreeQueue.Steps.Numbers.{IsNumbered}

module _ {T : Type 0} (capacity : ℕ) where
  -- With `p` elements published, one more leaves the slot alone that stood at the head when the
  -- thread loaded it.
  abbrev pub RoomBehind : ℕ → PopPc T → Type 0
  RoomBehind p PopPc.idle = Unit
  RoomBehind p (PopPc.loaded head number) = suc p < number + capacity
  RoomBehind p (checked head number) = suc p < number + capacity
  RoomBehind p (claimed head number) = suc p < number + capacity
  RoomBehind p (copied number result) = Unit

  -- There is room for one more element, behind the head and behind each thread in `pop`.
  pub record HasRoom (p c : ℕ) (poppers : ℕ → PopPc T) : Type 0 where
    pub behind_head : suc p < c + capacity
    pub behind_poppers : (i : ℕ) → RoomBehind p (poppers i)

  abbrev pub PushPaced : {s t : System T} {p : PushPc T} → PushStep capacity s p t → Type 0
  PushPaced {s} (PushStep.load elem) = HasRoom (length s.pushed) s.claims s.poppers
  PushPaced PushStep.write = Unit
  PushPaced PushStep.publish = Unit
  PushPaced PushStep.count = Unit

  abbrev pub StepPaced : {n : ℕ} {s t : System T} → Step capacity n s t → Type 0
  StepPaced (Step.push_step m) = PushPaced m
  StepPaced (Step.pop_step i lt m) = Unit

  -- Every push of the run begins with room in this sense.
  abbrev pub IsPaced : {n : ℕ} {arr : ℕ → T} {s : System T} → Reach capacity n arr s → Type 0
  IsPaced Reach.start = Unit
  IsPaced (Reach.later r m) = IsPaced r × StepPaced m

  -- The number of the element that the thread has claimed
  abbrev pub number_of : PopPc T → Option ℕ
  number_of (claimed head number) = some number
  number_of (copied number result) = some number
  number_of _ = none

  -- What a popping thread relies on, with the elements published so far
  abbrev pub PopDelivers : List T → PopPc T → Type 0
  PopDelivers pushed PopPc.idle = Unit
  PopDelivers pushed (PopPc.loaded head number) = length pushed < number + capacity
  PopDelivers pushed (checked head number) =
      (length pushed < number + capacity) × (number < length pushed)
  PopDelivers pushed (claimed head number) = length pushed < number + capacity
  PopDelivers pushed (copied number result) = get_elem? pushed number ≡ some result

  abbrev pub PushDelivers : ℕ → ℕ → (ℕ → PopPc T) → (ℕ → T) → PushPc T → Type 0
  PushDelivers p c poppers arr PushPc.idle = Unit
  PushDelivers p c poppers arr (PushPc.loaded elem tail) = HasRoom p c poppers
  PushDelivers p c poppers arr (written elem tail) = HasRoom p c poppers × (arr tail ≡ elem)
  PushDelivers p c poppers arr PushPc.published = Unit

  pub record IsDelivering (s : System T) : Type 0 where
    pub numbered : IsNumbered capacity s
    pub claimed_le : s.claims ≤ length s.pushed
    pub room : length s.pushed < s.claims + capacity
    pub slots :
        (k : ℕ) (x : T)
        → length s.pushed < k + capacity
        → get_elem? s.pushed k ≡ some x
        → s.queue.arr (k % capacity) ≡ x
    pub poppers_are : (i : ℕ) → PopDelivers s.pushed (s.poppers i)
    pub pusher_is : PushDelivers (length s.pushed) s.claims s.poppers s.queue.arr s.pusher
    pub distinct :
        (i j k : ℕ) → number_of (s.poppers i) ≡ some k → number_of (s.poppers j) ≡ some k → i ≡ j
