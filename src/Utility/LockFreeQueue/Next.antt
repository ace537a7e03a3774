-- ===== src/Utility/LockFreeQueue/Next.antt =====
-- The successor table against the remainder that it stands for.
use simple_serv.Common.{
  ℕ, ◌+◌, ◌%◌, ◌^◌, ◌<◌, ◌≡◌, sym, ◌∙◌, arith, Bool-cases, inl, inr, ltb, if◌then◌else◌, ◌==◌,
  ==_iff,
}
use simple_serv.Utility.LockFreeQueue.{u32, next}
use native.Mathlib.Nat.{mod-eq_of_lt, mod_self}

-- The remainder without a division
wrap-mod :
    (capacity current : ℕ)
    → current < capacity
    → (current + 1) % capacity ≡ (if current + 1 == capacity then 0 else current + 1)
wrap-mod capacity current h = elim (Bool-cases (current + 1 == capacity)) [
  | inl at_end ↦ rw at_end (rw ((==_iff (current + 1) capacity).0 at_end) (mod_self capacity))
  | inr inside ↦ rw inside (mod-eq_of_lt (ground arith))
]

u32-suc :
    (capacity current : ℕ)
    → current < capacity
    → capacity < 2 ^ 32
    → u32 (current + 1) ≡ current + 1
u32-suc capacity current h k = omega arith

-- The successor without a remainder
pub next-wrap :
    (capacity current : ℕ)
    → current < capacity
    → capacity < 2 ^ 32
    → next capacity current ≡ (if current + 1 == capacity then 0 else current + 1)
unfolding next
next-wrap capacity current h k = elim (Bool-cases (ltb capacity 100)) [
  | inl small ↦ rw small (rw (u32-suc capacity current h k) (ground arith))
  | inr large ↦ rw large (rw (u32-suc capacity current h k) (wrap-mod capacity current h))
]

-- For a current index below the capacity and a capacity below 2 ^ 32, next is (current + 1) %
-- capacity, from the table or computed.
pub next-mod :
    (capacity current : ℕ)
    → current < capacity
    → capacity < 2 ^ 32
    → next capacity current ≡ (current + 1) % capacity
next-mod capacity current h k = next-wrap capacity current h k ∙ sym (wrap-mod capacity current h)
