-- ===== src/Utility/Url/Query.antt =====
-- Reading back the pairs of a query.
use mathlib.Core.Option
use simple_serv.Common.{
  ℕ, zero, suc, ◌+◌, ◌-◌, ◌^◌, ◌≤◌, ◌<◌, ◌≡◌, ◌≢◌, refl, sym, ap, ◌∙◌, arith, none, some, List, [],
  ◌∷◌, ◌++◌, append_assoc, append-nil, Bytes, Lacks, find, find-append, find-none, length, take,
  drop, length-drop, length-append, take-length-append, drop-length-append,
}
use simple_serv.Common.Dict.{Dict, insert_sorted}
use simple_serv.Utility.Url.{
  cut_at, path, find_from, sub_size, substr, add_pair, searchpart_from, searchpart, from_string,
}

abbrev pub Pairs : Type 0
Pairs = List (Bytes × Bytes)

-- The pairs as a query writes them
abbrev pub query_text : Pairs → Bytes
query_text [] = []
query_text ((k, v) ∷ []) = k ++ b'=' ∷ v
query_text ((k, v) ∷ p ∷ ps) = k ++ b'=' ∷ (v ++ b'&' ∷ query_text (p ∷ ps))

-- What stands behind a value
abbrev query_tail : Pairs → Bytes
query_tail [] = []
query_tail (p ∷ ps) = b'&' ∷ query_text (p ∷ ps)

query_text-cons :
    (k v : Bytes) (ps : Pairs) → query_text ((k, v) ∷ ps) ≡ k ++ b'=' ∷ (v ++ query_tail ps)
query_text-cons k v [] = ap (λ t. k ++ b'=' ∷ t) (sym (append-nil v))
query_text-cons k v (p ∷ ps) = refl

-- No key holds a separator, and no value an ampersand.
abbrev pub ArePairs : Pairs → Type 0
ArePairs [] = Unit
ArePairs ((k, v) ∷ ps) = Lacks b'=' k × Lacks b'&' k × Lacks b'&' v × ArePairs ps

-- `query[key] = value` for one pair after the other
abbrev pub set_pairs : Pairs → Dict Bytes → Dict Bytes
set_pairs [] query = query
set_pairs ((k, v) ∷ ps) query = set_pairs ps (insert_sorted k v query)

drop-nil : (n : ℕ) → drop {A = ℕ} n [] ≡ []
drop-nil zero = refl
drop-nil (suc n) = refl

drop-drop : (i n : ℕ) (s : Bytes) → drop (i + n) s ≡ drop n (drop i s)
drop-drop zero n s = let same : 0 + n ≡ n = omega arith in ap (λ m. drop m s) same
drop-drop (suc i) n [] = drop-nil (suc i + n) ∙ sym (drop-nil n)
drop-drop (suc i) n (x ∷ s) =
    let same : suc i + n ≡ suc (i + n) = omega arith in
    ap (λ m. drop m (x ∷ s)) same ∙ drop-drop i n s

sub_size-lt : (a b : ℕ) → b ≤ a → a < 2 ^ 64 → sub_size a b ≡ a - b
sub_size-lt a b le lt = omega (arith, le, lt)

Lacks-append : (c x : ℕ) (k v : Bytes) → Lacks c k → c ≢ x → Lacks c v → Lacks c (k ++ x ∷ v)
Lacks-append c x [] v hk ne hv = ((λ e. ne (sym e)), hv)
Lacks-append c x (y ∷ k) v (h, hk) ne hv = (h, Lacks-append c x k v hk ne hv)

-- The ampersand behind a pair, or the end of the text
amp_pos-pair :
    (str k v : Bytes) (i : ℕ) (ps : Pairs)
    → drop i str ≡ k ++ b'=' ∷ (v ++ query_tail ps)
    → Lacks b'&' k
    → Lacks b'&' v
    → Option.get_or (find_from b'&' str i) (length str) ≡ i + (length k + suc (length v))
unfolding find_from
amp_pos-pair str k v i [] e hk hv =
    let whole : drop i str ≡ k ++ b'=' ∷ v = e ∙ ap (λ t. k ++ b'=' ∷ t) (append-nil v) in
    let lacks = Lacks-append b'&' b'=' k v hk (omega arith) hv in
    let absent : find b'&' (drop i str) ≡ none =
      ap (find b'&') whole ∙ find-none b'&' (k ++ b'=' ∷ v) lacks in
    ap (λ o. Option.get_or (Option.map (λ j. i + j) o) (length str)) absent
    ∙ omega (arith, length-drop {0} i str, ap (length {0}) whole, length-append {0} k (b'=' ∷ v))
amp_pos-pair str k v i (p ∷ ps) e hk hv =
    let tail = query_text (p ∷ ps) in
    let whole : drop i str ≡ (k ++ b'=' ∷ v) ++ b'&' ∷ tail =
      e ∙ sym (append_assoc k (b'=' ∷ v) (b'&' ∷ tail)) in
    let lacks = Lacks-append b'&' b'=' k v hk (omega arith) hv in
    let there : find b'&' (drop i str) ≡ some (length (k ++ b'=' ∷ v)) =
      ap (find b'&') whole ∙ find-append b'&' (k ++ b'=' ∷ v) tail lacks in
    ap (λ o. Option.get_or (Option.map (λ j. i + j) o) (length str)) there
    ∙ omega (arith, length-append {0} k (b'=' ∷ v))

eq_pos-pair :
    (str k rest : Bytes) (i : ℕ)
    → drop i str ≡ k ++ b'=' ∷ rest
    → Lacks b'=' k
    → find_from b'=' str i ≡ some (i + length k)
unfolding find_from
eq_pos-pair str k rest i e h =
    ap (λ t. Option.map (λ j. i + j) (find b'=' t)) e
    ∙ ap (Option.map (λ j. i + j)) (find-append b'=' k rest h)

drop-behind : (a rest : Bytes) (c : ℕ) → drop (length a + 1) (a ++ c ∷ rest) ≡ rest
drop-behind a rest c =
    drop-drop (length a) 1 (a ++ c ∷ rest) ∙ ap (drop 1) (drop-length-append a (c ∷ rest))

behind_eq :
    (str k rest : Bytes) (i : ℕ)
    → drop i str ≡ k ++ b'=' ∷ rest
    → drop (i + length k + 1) str ≡ rest
behind_eq str k rest i e =
    let same : i + length k + 1 ≡ i + (length k + 1) = omega arith in
    ap (λ m. drop m str) same
    ∙ drop-drop i (length k + 1) str
    ∙ ap (drop (length k + 1)) e
    ∙ drop-behind k rest b'='

-- The pair that a round adds
add_pair-pair :
    (str k v tail : Bytes) (i : ℕ) (query : Dict Bytes)
    → length str < 2 ^ 64
    → drop i str ≡ k ++ b'=' ∷ (v ++ tail)
    → add_pair str i (i + length k) (i + (length k + suc (length v))) query
      ≡ insert_sorted k v query
add_pair-pair str k v tail i query small e =
    let amp_pos : ℕ = i + (length k + suc (length v)) in
    let inside : amp_pos ≤ length str = omega (
      arith,
      length-drop {0} i str,
      ap (length {0}) e,
      length-append {0} k (b'=' ∷ (v ++ tail)),
      length-append {0} v tail,
    ) in
    let key_size : sub_size (i + length k) i ≡ length k = omega (arith, inside, small) in
    let value_size : sub_size (sub_size amp_pos (i + length k)) 1 ≡ length v =
      omega (arith, inside, small) in
    let key_is : substr str i (sub_size (i + length k) i) ≡ k =
      ap (λ m. take m (drop i str)) key_size
      ∙ ap (take (length k)) e
      ∙ take-length-append k (b'=' ∷ (v ++ tail)) in
    let value_is : substr str (i + length k + 1) (sub_size (sub_size amp_pos (i + length k)) 1)
        ≡ v =
      ap (λ m. take m (drop (i + length k + 1) str)) value_size
      ∙ ap (take (length v)) (behind_eq str k (v ++ tail) i e)
      ∙ take-length-append v tail in
    ap
      (λ t.
        insert_sorted t
          (substr str (i + length k + 1) (sub_size (sub_size amp_pos (i + length k)) 1)) query)
      key_is
    ∙ ap (λ t. insert_sorted k t query) value_is

drop-tail : (v : Bytes) (ps : Pairs) → drop (length v + 1) (v ++ query_tail ps) ≡ query_text ps
drop-tail v [] = drop-drop (length v) 1 (v ++ []) ∙ ap (drop 1) (drop-length-append v [])
drop-tail v (p ∷ ps) = drop-behind v (query_text (p ∷ ps)) b'&'

-- The text behind a pair and its ampersand
next_pair :
    (str k v : Bytes) (i : ℕ) (ps : Pairs)
    → drop i str ≡ k ++ b'=' ∷ (v ++ query_tail ps)
    → drop (i + (length k + suc (length v)) + 1) str ≡ query_text ps
next_pair str k v i ps e =
    let same : i + (length k + suc (length v)) + 1 ≡ i + length k + 1 + (length v + 1) =
      omega arith in
    ap (λ m. drop m str) same
    ∙ drop-drop (i + length k + 1) (length v + 1) str
    ∙ ap (drop (length v + 1)) (behind_eq str k (v ++ query_tail ps) i e)
    ∙ drop-tail v ps

searchpart_from-pairs :
    (fuel : ℕ) (str : Bytes) (i : ℕ) (ps : Pairs) (query : Dict Bytes)
    → length str < 2 ^ 64
    → length ps < fuel
    → drop i str ≡ query_text ps
    → ArePairs ps
    → searchpart_from fuel str i query ≡ some (set_pairs ps query)
unfolding searchpart_from find_from find
searchpart_from-pairs zero str i ps query small lt e h = absurd (omega (arith, lt))
searchpart_from-pairs (suc fuel) str i [] query small lt e h =
    let absent : find_from b'=' str i ≡ none = ap (λ t. Option.map (λ j. i + j) (find b'=' t)) e in
    rw (searchpart_from, absent) refl
searchpart_from-pairs (suc fuel) str i ((k, v) ∷ ps) query small lt e (k_eq, k_amp, v_amp, h) =
    let whole : drop i str ≡ k ++ b'=' ∷ (v ++ query_tail ps) = e ∙ query_text-cons k v ps in
    let eq_pos = eq_pos-pair str k (v ++ query_tail ps) i whole k_eq in
    let amp_pos = amp_pos-pair str k v i ps whole k_amp v_amp in
    rw (searchpart_from, eq_pos, amp_pos, add_pair-pair str k v (query_tail ps) i query small whole)
      (searchpart_from-pairs fuel str (i + (length k + suc (length v)) + 1) ps
        (insert_sorted k v query) small (omega (arith, lt)) (next_pair str k v i ps whole) h)

length-query_text : (ps : Pairs) → length ps ≤ length (query_text ps)
length-query_text [] = omega arith
length-query_text ((k, v) ∷ []) = omega (arith, length-append {0} k (b'=' ∷ v))
length-query_text ((k, v) ∷ p ∷ ps) = omega (
  arith,
  length-query_text (p ∷ ps),
  length-append {0} k (b'=' ∷ (v ++ b'&' ∷ query_text (p ∷ ps))),
  length-append {0} v (b'&' ∷ query_text (p ∷ ps)),
)

-- from_string gives back the path and the pairs of a URL that is written as the path, '?', and the
-- pairs as key=value joined by '&', if the path has no '?', no key holds '=' or '&', no value
-- holds '&', and the text is shorter than 2 ^ 64; a pair overrides an earlier one with the same
-- key.
pub from_string-query_text :
    (p : Bytes) (ps : Pairs)
    → Lacks b'?' p
    → ArePairs ps
    → length (p ++ b'?' ∷ query_text ps) < 2 ^ 64
    → from_string (p ++ b'?' ∷ query_text ps) ≡ record { path = p; query = set_pairs ps [] }
unfolding from_string path searchpart
from_string-query_text p ps lacks pairs small =
    let str : Bytes = p ++ b'?' ∷ query_text ps in
    let path_is : path str ≡ p =
      ap (λ o. cut_at o str) (find-append b'?' p (query_text ps) lacks)
      ∙ take-length-append p (b'?' ∷ query_text ps) in
    let few = length-query_text ps in
    let enough : length ps < suc (length str) =
      omega (arith, few, length-append {0} p (b'?' ∷ query_text ps)) in
    let query_is : searchpart str (length p + 1) ≡ set_pairs ps [] =
      ap (λ o. Option.get_or o [])
        (searchpart_from-pairs (suc (length str)) str (length p + 1) ps [] small enough
          (drop-behind p (query_text ps) b'?') pairs) in
    ap (λ t. record { path = t; query = searchpart str (length t + 1) }) path_is
    ∙ ap (λ m. record { path = p; query = m }) query_is
