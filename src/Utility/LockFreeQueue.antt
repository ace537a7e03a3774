-- ===== src/Utility/LockFreeQueue.antt =====
-- include/simpleserv/utility/lock_free_queue.hpp: the ring buffer between the thread that accepts
-- connections and the workers. Methods that run alone are functions here.
pub mod Next
pub mod Fifo
pub mod Steps
use simple_serv.Common.{
  ℕ, zero, suc, ◌+◌, ◌-◌, ◌%◌, ◌^◌, Bool, true, false, Option, none, some, List, [], ◌∷◌, length,
  ◌==◌, ltb, if◌then◌else◌,
}

abbrev pub small_integer_optimisation_limit : ℕ
small_integer_optimisation_limit = 100

-- `uint32_t` arithmetic wraps.
abbrev pub u32 : ℕ → ℕ
u32 n = n % 2 ^ 32

-- `next_arr` as the constructor fills it: entry i is i + 1, and the last one 0. Only a small queue
-- has the table.
unfoldable pub next_arr : ℕ → ℕ → ℕ
next_arr capacity i = if i == capacity - 1 then 0 else u32 (i + 1)

unfoldable pub next : ℕ → ℕ → ℕ
unfolding next_arr
next capacity current =
    if ltb capacity small_integer_optimisation_limit
    then next_arr capacity current
    else u32 (current + 1) % capacity

-- The array is a function on its indices.
pub record LockFreeQueue {ℓ} (T : Type ℓ) : Type ℓ where
  pub arr : ℕ → T
  pub head : ℕ
  pub tail : ℕ
  pub size : ℕ

module _ {ℓ} {T : Type ℓ} (capacity : ℕ) where
  abbrev pub store : (ℕ → T) → ℕ → T → ℕ → T
  store arr i elem j = if i == j then elem else arr j

  -- Both overloads. There is no test for a full queue.
  unfoldable pub push : T → LockFreeQueue T → Bool × LockFreeQueue T
  unfolding next
  push elem q = (
    true,
    record q {
      arr = store q.arr q.tail elem;
      tail = next capacity q.tail;
      size = u32 (q.size + 1);
    },
  )

  -- `compare_exchange_weak` may fail for no reason: `spurious` says whether it does.
  unfoldable pub pop : Bool → LockFreeQueue T → Option T × LockFreeQueue T
  unfolding next
  pop spurious q = if q.head == q.tail then (none, q) else if spurious then (none, q) else (
    some (q.arr q.head),
    record q { head = next capacity q.head; size = u32 (q.size + (2 ^ 32 - 1)) },
  )

  unfoldable pub empty : LockFreeQueue T → Bool
  empty q = q.head == q.tail

  unfoldable pub full : LockFreeQueue T → Bool
  unfolding next
  full q = next capacity q.tail == q.head
