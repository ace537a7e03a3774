-- ===== src/Common/Dict/Sorted.antt =====
-- `std::map` in the order of its keys: building one from entries that are in order.
use mathlib.Core.Path.{subst}
use simple_serv.Common.{
  true, ◌≡◌, refl, [], ◌∷◌, ◌++◌, arith, Bytes, All, All-map, Bool-cases, inl, inr, str_eq, str_lt,
  str_eq_iff, str_lt_irrefl, str_lt_asymm, str_lt_trans, str_lt_connected,
}
use simple_serv.Common.Dict.{Dict, insert_sorted}

-- The keys of a `std::map` are in strict order.
abbrev pub IsSorted {ℓ} : {V : Type ℓ} → Dict V → Type 0
IsSorted [] = Unit
IsSorted ((k, v) ∷ m) = All (λ p. str_lt k p.0 ≡ true) m × IsSorted m

pub insert_sorted-last :
    {V : Type 0} (k : Bytes) (v : V) (m : Dict V)
    → All (λ p. str_lt p.0 k ≡ true) m
    → insert_sorted k v m ≡ m ++ (k, v) ∷ []
unfolding insert_sorted
insert_sorted-last k v [] h = refl
insert_sorted-last k v ((j, w) ∷ m) (h, hs) =
    ground (arith, insert_sorted-last k v m hs, str_eq_iff j k, str_lt_irrefl j, str_lt_asymm j k h)

pub All-before :
    {V : Type 0} (k : Bytes) (m n : Dict V) (v : V)
    → IsSorted (m ++ (k, v) ∷ n)
    → All (λ p. str_lt p.0 k ≡ true) m
All-before {V} k [] n v h = tt
All-before {V} k ((j, w) ∷ m) n v (h, hs) = (All-last m n h, All-before k m n v hs)
  where
    All-last : (m n : Dict V) → All (λ p. str_lt j p.0 ≡ true) (m ++ (k, v) ∷ n) → str_lt j k ≡ true
    All-last [] n h = h.0
    All-last (q ∷ m) n h = All-last m n h.1

module _ {V : Type 0} where
  All-insert_sorted :
      (P : Bytes × V → Type 0) (k : Bytes) (v : V) (m : Dict V)
      → P (k, v)
      → All P m
      → All P (insert_sorted k v m)
  unfolding insert_sorted
  All-insert_sorted P k v [] h hs = (h, tt)
  All-insert_sorted P k v ((j, w) ∷ m) h (h', hs) = elim (Bool-cases (str_eq j k)) [
    | inl same ↦ rw same (h, hs)
    | inr other ↦ elim (Bool-cases (str_lt k j)) [
      | inl before ↦ rw (other, before) (h, (h', hs))
      | inr behind ↦ rw (other, behind) (h', All-insert_sorted P k v m h hs)
    ]
  ]

  pub insert_sorted-IsSorted :
      (k : Bytes) (v : V) (m : Dict V) → IsSorted m → IsSorted (insert_sorted k v m)
  unfolding insert_sorted
  insert_sorted-IsSorted k v [] h = (tt, tt)
  insert_sorted-IsSorted k v ((j, w) ∷ m) (h, hs) = elim (Bool-cases (str_eq j k)) [
    | inl same ↦
        let least : All (λ p. str_lt k p.0 ≡ true) m =
          subst (λ b. All (λ p. str_lt b p.0 ≡ true) m) ((str_eq_iff j k).0 same) h in
        rw same (least, hs)
    | inr other ↦ elim (Bool-cases (str_lt k j)) [
      | inl before ↦
          let least : All (λ p. str_lt k p.0 ≡ true) m =
            All-map (λ p lt. str_lt_trans k j p.0 before lt) m h in
          rw (other, before) ((before, least), (h, hs))
      | inr behind ↦
          rw (other, behind)
            (
              All-insert_sorted (λ p. str_lt j p.0 ≡ true) k v m (str_lt_connected j k other behind)
                  h,
              insert_sorted-IsSorted k v m hs,
            )
    ]
  ]
