-- ===== src/Tests/Queue.antt =====
-- Runs of the ring buffer with two threads that pop.
use simple_serv.Common.{
  ℕ, suc, length, ◌-◌, ◌<◌, ◌≡◌, ◌==◌, if◌then◌else◌, refl, arith, some, [], ◌∷◌, get_elem?,
}
use simple_serv.Common.Family.{update}
use simple_serv.Utility.LockFreeQueue.{next, next_arr}
use simple_serv.Utility.LockFreeQueue.Steps.{
  PushPc, PopPc, loaded, checked, claimed, copied, System, PushStep, PopStep, Step, Reach,
}
use simple_serv.Utility.LockFreeQueue.Steps.Stalled.{PushesIntoEmpty, Reach-overclaims}
use simple_serv.Utility.LockFreeQueue.Steps.Pace.{HasRoom, IsPaced, number_of}
use simple_serv.Utility.LockFreeQueue.Steps.Delivery.{Reach-delivers}
use simple_serv.Utility.LockFreeQueue.Steps.Counter.{undiscounted, Reach-size}

abbrev zeros : ℕ → ℕ
zeros i = 0

abbrev checked_both : System ℕ
checked_both = record {
  queue = record { arr = λ j. if 0 == j then 5 else 0; head = 0; tail = 1; size = 1 };
  pusher = PushPc.idle;
  poppers =
      update
        (update (update (update (λ _. PopPc.idle) 0 (loaded 0 0)) 0 (checked 0 0)) 1 (loaded 0 0)) 1
        (checked 0 0);
  pushed = 5 ∷ [];
  claims = 0;
}

unfoldable checked_both_run : Reach 3 2 zeros checked_both
unfolding next next_arr
checked_both_run =
    Reach.later
      (Reach.later
        (Reach.later
          (Reach.later
            (Reach.later
              (Reach.later
                (Reach.later (Reach.later Reach.start (Step.push_step (PushStep.load 5)))
                  (Step.push_step PushStep.write))
                (Step.push_step PushStep.publish))
              (Step.push_step PushStep.count))
            (Step.pop_step 0 (omega arith) PopStep.load))
          (Step.pop_step 0 (omega arith) (PopStep.see_element (λ e. omega (arith, e)))))
        (Step.pop_step 1 (omega arith) PopStep.load))
      (Step.pop_step 1 (omega arith) (PopStep.see_element (λ e. omega (arith, e))))

-- The first thread claims the element.
abbrev claimed_first : System ℕ
claimed_first = record checked_both {
  queue = record checked_both.queue { head = 1 };
  poppers = update checked_both.poppers 0 (claimed 0 0);
  claims = 1;
}

unfoldable claimed_first_run : Reach 3 2 zeros claimed_first
unfolding next next_arr
claimed_first_run =
    Reach.later checked_both_run (Step.pop_step 0 (omega arith) (PopStep.claim refl))

abbrev copied_first : System ℕ
copied_first = record claimed_first { poppers = update claimed_first.poppers 0 (copied 0 5) }

unfoldable copied_first_run : Reach 3 2 zeros copied_first
copied_first_run = Reach.later claimed_first_run (Step.pop_step 0 (omega arith) PopStep.copy)

first-HasRoom : HasRoom {T = ℕ} 3 0 0 (λ _. PopPc.idle)
first-HasRoom = record { behind_head = omega arith; behind_poppers = λ i. tt }

copied_first-IsPaced : IsPaced 3 copied_first_run
unfolding copied_first_run claimed_first_run checked_both_run
copied_first-IsPaced = ((((((((((tt, first-HasRoom), tt), tt), tt), tt), tt), tt), tt), tt), tt)

Reach-delivers_example :
    (get_elem? copied_first.pushed 0 ≡ some 5)
    × (0 < 1)
    × ((j : ℕ) → number_of 3 (copied_first.poppers j) ≡ some 0 → 0 ≡ j)
Reach-delivers_example =
    Reach-delivers 3 (omega arith) (omega arith) copied_first_run 0 0 5 copied_first-IsPaced refl

abbrev counted_first : System ℕ
counted_first = record copied_first {
  queue = record copied_first.queue { size = 0 };
  poppers = update copied_first.poppers 0 PopPc.idle;
}

unfoldable counted_first_run : Reach 3 2 zeros counted_first
counted_first_run = Reach.later copied_first_run (Step.pop_step 0 (omega arith) PopStep.discount)

counted_first-IsPaced : IsPaced 3 counted_first_run
unfolding counted_first_run
counted_first-IsPaced = (copied_first-IsPaced, tt)

counted_first_discounted : (i : ℕ) → undiscounted (counted_first.poppers i) ≡ 0
counted_first_discounted i = ground arith

Reach-size_example : (0 ≡ 1 - 1) × (0 < 3)
Reach-size_example =
    Reach-size 3 2 counted_first_run (omega arith) (omega arith) counted_first-IsPaced refl
      counted_first_discounted

Reach-overclaims_example :
    (s : System ℕ) × (r : Reach 3 2 zeros s) × PushesIntoEmpty 3 r
    × (s.claims ≡ suc (length s.pushed))
Reach-overclaims_example = Reach-overclaims 3 (omega arith) (omega arith) zeros 5
