-- ===== src/Common/Family.antt =====
-- Families that are indexed by a thread: one place changed, and a sum over the first `n` places.
use Prim.Native.Nat.{ℕ, zero, suc, ◌+◌, ◌≤◌, ◌<◌}
use mathlib.Core.Path.{◌≡◌, refl, ap}
use native.Mathlib.Omega.{arith}
use native.Mathlib.Decide.{dec_lt}
use mathlib.Core.Option.{Option, some}
use mathlib.Core.Logic.{◌≢◌, inl, inr}
use simple_serv.Common.Tests.{Bool-cases, ==_refl, ◌==◌, if◌then◌else◌}

abbrev pub update {ℓ} : {A : Type ℓ} → (ℕ → A) → ℕ → A → ℕ → A
update f i a j = if i == j then a else f j

module _ {ℓ} {A : Type ℓ} (weight : A → ℕ) where
  unfoldable pub total : ℕ → (ℕ → A) → ℕ
  total zero f = 0
  total (suc n) f = total n f + weight (f n)

  -- The change of a place that is counted shows in the sum.
  pub total-update :
      (n : ℕ) (f : ℕ → A) (i : ℕ) (a : A)
      → (i < n → total n (update f i a) + weight (f i) ≡ total n f + weight a)
        × (n ≤ i → total n (update f i a) ≡ total n f)
  unfolding total
  total-update zero f i a = ground arith
  total-update (suc n) f i a = ground (arith, total-update n f i a)

  pub total-zero : (n : ℕ) (f : ℕ → A) → ((i : ℕ) → i < n → weight (f i) ≡ 0) → total n f ≡ 0
  unfolding total
  total-zero zero f h = refl
  total-zero (suc n) f h =
      omega (arith, total-zero n f (λ i lt. h i (omega (arith, lt))), h n (omega arith))

  pub total-counts : (n : ℕ) (f : ℕ → A) (i : ℕ) → i < n → weight (f i) ≤ total n f
  unfolding total
  total-counts zero f i lt = absurd (omega (arith, lt))
  total-counts (suc n) f i lt = elim (dec_lt i n) [
    | yes before ↦ omega (arith, total-counts n f i before)
    | no past ↦ let last : i ≡ n = omega arith in omega (arith, ap (λ j. weight (f j)) last)
  ]

  -- Two places count, if the first could hold something that does not.
  pub total_two :
      (n : ℕ) (f : ℕ → A) (i j : ℕ) (a : A)
      → i < n
      → j < n
      → i ≢ j
      → weight a ≡ 0
      → weight (f i) + weight (f j) ≤ total n f
  total_two n f i j a lt also other none =
      ground (arith, other, none, (total-update n f i a).0 lt, total-counts n (update f i a) j also)

pub update-here : {A : Type 0} (f : ℕ → A) (i : ℕ) (a : A) → update f i a i ≡ a
update-here f i a = rw (==_refl i) refl

module _ {A : Type 0} where
  -- A place that changes, and the others
  pub update-All :
      (P : A → Type 0) (f : ℕ → A) (i : ℕ) (a : A)
      → P a
      → ((j : ℕ) → P (f j))
      → (j : ℕ) → P (update f i a j)
  update-All P f i a h k j = elim (Bool-cases (i == j)) [
    | inl same ↦ rw same h
    | inr other ↦ rw other (k j)
  ]

  -- A place that changes, and the others of the first `n`
  pub update-Below :
      (P : A → Type 0) (n : ℕ) (f : ℕ → A) (i : ℕ) (a : A)
      → P a
      → ((j : ℕ) → j < n → i ≢ j → P (f j))
      → (j : ℕ) → j < n
      → P (update f i a j)
  update-Below P n f i a h k j lt = elim (Bool-cases (i == j)) [
    | inl same ↦ rw same h
    | inr other ↦ rw other (k j lt (λ e. ground (arith, e, other)))
  ]

  -- Places that can be told apart by a number that some of them have
  pub update_distinct :
      (number : A → Option ℕ) (f : ℕ → A) (i : ℕ) (a : A)
      → ((j k : ℕ) → number (f j) ≡ some k → number a ≡ some k → j ≡ i)
      → ((j l k : ℕ) → number (f j) ≡ some k → number (f l) ≡ some k → j ≡ l)
      → (j l k : ℕ) → number (update f i a j) ≡ some k
      → number (update f i a l) ≡ some k
      → j ≡ l
  update_distinct number f i a new old j l k p q = ground (arith, new j k, new l k, old j l k)
