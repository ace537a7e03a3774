-- ===== src/Utility/LockFreeQueue/Fifo.antt =====
-- The ring buffer against a first-in-first-out list, as long as it does not fill up.
use mathlib.Core.Path.{subst, sym}
use simple_serv.Common.{
  inl, inr, Bool-cases, All, All-append, ℕ, zero, suc, ◌+◌, ◌-◌, ◌^◌, ◌<◌, ◌≡◌, ◌≢◌, refl, ap,
  arith, Bool, true, false, leb, if◌then◌else◌, ◌==◌, Option, none, some, List, [], ◌∷◌, ◌++◌,
  length,
}
use simple_serv.Utility.LockFreeQueue.{LockFreeQueue, next, push, pop, full, store}
use simple_serv.Utility.LockFreeQueue.Next.{next-wrap}

-- How many successors lead from `i` to `j`
abbrev pub distance : ℕ → ℕ → ℕ → ℕ
distance capacity i j = if leb i j then j - i else j + capacity - i

module _ {T : Type 0} (capacity : ℕ) where
  abbrev pub elements : (ℕ → T) → ℕ → ℕ → List T
  elements arr i zero = []
  elements arr i (suc n) = arr i ∷ elements arr (next capacity i) n

  -- The elements in the queue, the oldest first
  abbrev pub contents : LockFreeQueue T → List T
  contents q = elements q.arr q.head (distance capacity q.head q.tail)

  pub record IsValid (q : LockFreeQueue T) : Type 0 where
    pub head_lt : q.head < capacity
    pub tail_lt : q.tail < capacity
    pub capacity_lt : capacity < 2 ^ 32

distance-next :
    (capacity i j n : ℕ)
    → i < capacity
    → j < capacity
    → capacity < 2 ^ 32
    → distance capacity i j ≡ suc n
    → (distance capacity (next capacity i) j ≡ n) × (next capacity i < capacity) × (i ≢ j)
distance-next capacity i j n hi hj hc e = ground (arith, next-wrap capacity i hi hc)

distance-next_right :
    (capacity i j : ℕ)
    → i < capacity
    → j < capacity
    → capacity < 2 ^ 32
    → next capacity j ≢ i
    → distance capacity i (next capacity j) ≡ suc (distance capacity i j)
distance-next_right capacity i j hi hj hc e = ground (arith, next-wrap capacity j hj hc)

distance_self : (capacity i : ℕ) → distance capacity i i ≡ 0
distance_self capacity i = ground arith

distance-test :
    (capacity i j : ℕ)
    → i < capacity
    → j < capacity
    → (distance capacity i j ≡ 0 → (i == j) ≡ true)
      × ((n : ℕ) → distance capacity i j ≡ suc n → (i == j) ≡ false)
distance-test capacity i j hi hj = ((λ e. ground arith), λ n e. ground arith)

next-lt :
    (capacity current : ℕ)
    → current < capacity
    → capacity < 2 ^ 32
    → next capacity current < capacity
next-lt capacity current h k = ground (arith, next-wrap capacity current h k)

module _ {T : Type 0} (capacity : ℕ) where
  length-elements : (arr : ℕ → T) (i n : ℕ) → length (elements capacity arr i n) ≡ n
  length-elements arr i zero = refl
  length-elements arr i (suc n) = ap suc (length-elements arr (next capacity i) n)

  elements-store :
      (arr : ℕ → T) (x : T) (n i j : ℕ)
      → i < capacity
      → j < capacity
      → capacity < 2 ^ 32
      → distance capacity i j ≡ n
      → elements capacity (store capacity arr j x) i (suc n) ≡ elements capacity arr i n ++ x ∷ []
  elements-store arr x zero i j hi hj hc e = ground arith
  elements-store arr x (suc n) i j hi hj hc e =
      let (d, lt, ne) = distance-next capacity i j n hi hj hc e in
      ground (arith, elements-store arr x n (next capacity i) j lt hj hc d)

  -- A push into a valid queue that is not full puts the element behind the others, and the queue
  -- stays valid.
  pub contents-push :
      (x : T) (q : LockFreeQueue T)
      → IsValid capacity q
      → full capacity q ≡ false
      → (contents capacity (push capacity x q).1 ≡ contents capacity q ++ x ∷ [])
        × IsValid capacity (push capacity x q).1
  unfolding push full
  contents-push x q v room =
      let open_end : next capacity q.tail ≢ q.head = ground arith in
      let longer =
        distance-next_right capacity q.head q.tail v.head_lt v.tail_lt v.capacity_lt open_end in
      (
        rw longer (elements-store q.arr x _ q.head q.tail v.head_lt v.tail_lt v.capacity_lt refl),
        record {
          head_lt = v.head_lt;
          tail_lt = next-lt capacity q.tail v.tail_lt v.capacity_lt;
          capacity_lt = v.capacity_lt;
        },
      )

  -- What a pop of a list gives
  abbrev pub Popped : Bool → LockFreeQueue T → Option T × LockFreeQueue T → List T → Type 0
  Popped spurious q (r, q') [] = (r ≡ none) × (q' ≡ q)
  Popped true q (r, q') (x ∷ xs) = (r ≡ none) × (q' ≡ q)
  Popped false q (r, q') (x ∷ xs) = (r ≡ some x) × (contents capacity q' ≡ xs)

  -- A pop of a valid queue gives the oldest element and leaves the others, or changes nothing if
  -- the queue is empty or the exchange fails spuriously; the queue stays valid.
  pub contents-pop :
      (spurious : Bool) (q : LockFreeQueue T)
      → IsValid capacity q
      → Popped spurious q (pop capacity spurious q) (contents capacity q)
        × IsValid capacity (pop capacity spurious q).1
  unfolding pop
  contents-pop spurious q v = go spurious (distance capacity q.head q.tail) refl
    where
      go :
          (s : Bool) (n : ℕ)
          → distance capacity q.head q.tail ≡ n
          → Popped s q (pop capacity s q) (elements capacity q.arr q.head n)
            × IsValid capacity (pop capacity s q).1
      go s zero e =
          let (same, _) = distance-test capacity q.head q.tail v.head_lt v.tail_lt in
          rw (same e) ((refl, refl), v)
      go true (suc n) e =
          let (_, other) = distance-test capacity q.head q.tail v.head_lt v.tail_lt in
          rw (other n e) ((refl, refl), v)
      go false (suc n) e =
          let (_, other) = distance-test capacity q.head q.tail v.head_lt v.tail_lt in
          let (d, lt, _) =
            distance-next capacity q.head q.tail n v.head_lt v.tail_lt v.capacity_lt e in
          rw (other n e) (
            (refl, rw d refl),
            record { head_lt = lt; tail_lt = v.tail_lt; capacity_lt = v.capacity_lt },
          )

  -- A push into a valid full queue, which holds capacity - 1 elements, leaves a valid queue with
  -- no elements.
  pub contents-push-full :
      (x : T) (q : LockFreeQueue T)
      → IsValid capacity q
      → full capacity q ≡ true
      → (contents capacity (push capacity x q).1 ≡ [])
        × (suc (length (contents capacity q)) ≡ capacity)
        × IsValid capacity (push capacity x q).1
  unfolding push full
  contents-push-full x q v is_full =
      let same : next capacity q.tail ≡ q.head = ground arith in
      (
        rw same (rw (distance_self capacity q.head) refl),
        rw (length-elements q.arr q.head (distance capacity q.head q.tail))
            (ground (arith, next-wrap capacity q.tail v.tail_lt v.capacity_lt)),
        record {
          head_lt = v.head_lt;
          tail_lt = next-lt capacity q.tail v.tail_lt v.capacity_lt;
          capacity_lt = v.capacity_lt;
        },
      )

  -- What holds of all elements and of the new one holds of all behind a push, with room or without.
  pub push-All :
      (P : T → Type 0) (x : T) (q : LockFreeQueue T)
      → IsValid capacity q
      → All P (contents capacity q)
      → P x
      → IsValid capacity (push capacity x q).1 × All P (contents capacity (push capacity x q).1)
  push-All P x q v h px = elim (Bool-cases (full capacity q)) [
    | inr room ↦
        let (behind, valid) = contents-push x q v room in
        (valid, subst (All P) (sym behind) (All-append P (contents capacity q) (x ∷ []) h (px, tt)))
    | inl is_full ↦
        let (emptied, _, valid) = contents-push-full x q v is_full in
        (valid, subst (All P) (sym emptied) tt)
  ]
