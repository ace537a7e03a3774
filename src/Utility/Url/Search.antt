-- ===== src/Utility/Url/Search.antt =====
-- The fuel of the loop over the pairs of a query.
use mathlib.Core.Option
use simple_serv.Common.{
  ℕ, zero, suc, ◌+◌, ◌≤◌, ◌<◌, ◌≡◌, refl, ap, arith, Option, none, some, Option-cases, inl, inr, [],
  ◌∷◌, Bytes, find, length, drop, length-drop,
}
use simple_serv.Common.Dict.{Dict}
use simple_serv.Utility.Url.{find_from, searchpart_from, searchpart}

find_from-lt : (c : ℕ) (str : Bytes) (i : ℕ) {j : ℕ} → find_from c str i ≡ some j → i < length str
unfolding find_from find
find_from-lt c str i {j} h = go (drop i str) refl h
  where
    go :
        (rest : Bytes)
        → drop i str ≡ rest
        → Option.map (λ k. i + k) (find c rest) ≡ some j
        → i < length str
    go [] e k = cc
    go (x ∷ rest) e k = omega (arith, ap length e, length-drop {0} i str)

amp_pos-le :
    (c : ℕ) (str : Bytes) (i : ℕ)
    → i < length str
    → i ≤ Option.get_or (find_from c str i) (length str)
unfolding find_from
amp_pos-le c str i h = go (find c (drop i str))
  where
    go : (o : Option ℕ) → i ≤ Option.get_or (Option.map (λ k. i + k) o) (length str)
    go none = omega arith
    go (some k) = omega arith

-- With fuel that reaches beyond the end of the text the loop ends, and any such fuel gives the same.
searchpart_from_total :
    (f g : ℕ) (str : Bytes) (i : ℕ) (query : Dict Bytes)
    → 1 ≤ f
    → 1 ≤ g
    → length str < f + i
    → length str < g + i
    → (r : Dict Bytes) × (searchpart_from f str i query ≡ some r)
      × (searchpart_from g str i query ≡ some r)
unfolding searchpart_from
searchpart_from_total zero g str i query hf hg h k = absurd (omega arith)
searchpart_from_total (suc f) zero str i query hf hg h k = absurd (omega arith)
searchpart_from_total (suc f) (suc g) str i query hf hg h k =
    elim (Option-cases (find_from b'=' str i)) [
      | inl no_pair ↦ rw (no_pair, searchpart_from) (query, refl, refl)
      | inr (eq_pos, pair) ↦
          let inside = find_from-lt b'=' str i pair in
          let behind = amp_pos-le b'&' str i inside in
          rw (pair, searchpart_from)
            (searchpart_from_total f g str _ _ (omega arith) (omega arith) (omega arith)
              (omega arith))
    ]

-- With any fuel above the length of the text the loop of searchpart returns, and it returns what
-- searchpart does.
pub searchpart_total :
    (str : Bytes) (start fuel : ℕ)
    → length str < fuel
    → searchpart_from fuel str start [] ≡ some (searchpart str start)
unfolding searchpart
searchpart_total str start fuel h =
    let (r, given, larger) =
      searchpart_from_total (suc (length str)) fuel str start [] (omega arith) (omega arith)
        (omega arith) (omega arith) in
    rw given larger
