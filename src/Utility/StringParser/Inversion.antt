-- ===== src/Utility/StringParser/Inversion.antt =====
-- What the view was when an action has returned: the other direction of Utility.StringParser.Laws.
use mathlib.Core.Path.{subst}
use simple_serv.Common.{
  IsEither, ℕ, zero, suc, ◌≡◌, ◌≢◌, refl, ap, ◌∙◌, arith, Bool, true, ◌||◌, Bool-cases,
  Option-cases, inl, inr, none, some, [], ◌∷◌, ◌++◌, Bytes, All, Lacks, find, find_any, take, drop,
  starts_with, length, ◌==◌, ==_iff, ==_refl,
}
use simple_serv.Common.Outcome.{returns}
use simple_serv.Utility.StringParser.{
  expect, expect_two, consume_all_two, next_token, next_token_of, skip_two, starts_with_char,
}

-- What `starts_with` has seen is the front of the view.
pub starts_with-eq-true : (s p : Bytes) → starts_with s p ≡ true → s ≡ p ++ drop (length p) s
unfolding starts_with
starts_with-eq-true s [] h = refl
starts_with-eq-true [] (y ∷ p) h = cc h
starts_with-eq-true (x ∷ s) (y ∷ p) h = ground (arith, starts_with-eq-true s p)

pub expect-eq-none : (p view rest : Bytes) → expect p view ≡ returns (none, rest) → view ≡ p ++ rest
unfolding expect
expect-eq-none p view rest h = elim (Bool-cases (starts_with view p)) [
  | inl here ↦
      let same : returns (none, drop (length p) view) ≡ returns (none, rest) =
        rw (expect, here) at h in
      starts_with-eq-true view p here ∙ ap (λ s. p ++ s) (cc same)
  | inr absent ↦ cc (rw (expect, absent) at h)
]

-- The text is empty, or begins with neither byte.
abbrev pub StartsOther : ℕ → ℕ → Bytes → Type 0
StartsOther a b [] = Unit
StartsOther a b (c ∷ text) = (c ≢ a) × (c ≢ b)

IsEither-test : (a b x : ℕ) → (x == a || x == b) ≡ true → IsEither a b x
IsEither-test a b x h = elim (Bool-cases (x == a)) [
  | inl same ↦ inl ((==_iff x a).0 same)
  | inr other ↦ inr ((==_iff x b).0 (rw other at h))
]

starts_with_char-cons : (c a : ℕ) (view : Bytes) → starts_with_char (c ∷ view) a ≡ (c == a)
unfolding starts_with
starts_with_char-cons c a view = ground arith

pub expect_two-eq-none :
    (a b : ℕ) (view rest : Bytes)
    → expect_two a b view ≡ returns (none, rest)
    → (c : ℕ) × IsEither a b c × (view ≡ c ∷ rest)
unfolding expect_two starts_with
expect_two-eq-none a b [] rest h = cc h
expect_two-eq-none a b (c ∷ view) rest h =
    elim (Bool-cases (starts_with_char (c ∷ view) a || starts_with_char (c ∷ view) b)) [
      | inl here ↦
          let same : returns (none, view) ≡ returns (none, rest) = rw (expect_two, here) at h in
          (
            c,
            IsEither-test a b c
                (rw (starts_with_char-cons c a view, starts_with_char-cons c b view) at here),
            ap (λ s. c ∷ s) (cc same),
          )
      | inr absent ↦ cc (rw (expect_two, absent) at h)
    ]

or_true : (b : Bool) → (b || true) ≡ true
or_true b = ground arith

pub expect_two-either :
    (a b c : ℕ) (rest : Bytes) → IsEither a b c → expect_two a b (c ∷ rest) ≡ returns (none, rest)
unfolding expect_two
expect_two-either a b c rest (inl e) =
    rw (starts_with_char-cons c a rest, ap (λ d. d == a) e, ==_refl a) refl
expect_two-either a b c rest (inr e) =
    rw
      (
        starts_with_char-cons c b rest,
        ap (λ d. d == b) e,
        ==_refl b,
        or_true (starts_with_char (c ∷ rest) a),
      )
      refl

skip_two-split :
    (a b : ℕ) (view : Bytes)
    → (blanks : Bytes) × All (IsEither a b) blanks
      × (view ≡ blanks ++ skip_two a b view)
      × StartsOther a b (skip_two a b view)
unfolding skip_two
skip_two-split a b [] = ([], tt, refl, tt)
skip_two-split a b (x ∷ view) = elim (Bool-cases (x == a || x == b)) [
  | inl blank ↦
      let (blanks, all, split, other) = skip_two-split a b view in
      rw blank (x ∷ blanks, (IsEither-test a b x blank, all), ap (λ s. x ∷ s) split, other)
  | inr other ↦ rw other ([], tt, refl, ground (arith, other))
]

pub consume_all_two-eq :
    (a b : ℕ) (view rest : Bytes) {u : Unit {0}}
    → consume_all_two a b view ≡ returns (u, rest)
    → (blanks : Bytes) × All (IsEither a b) blanks × (view ≡ blanks ++ rest) × StartsOther a b rest
unfolding consume_all_two
consume_all_two-eq a b view rest h =
    let (blanks, all, split, other) = skip_two-split a b view in
    let same : skip_two a b view ≡ rest = cc h in
    (blanks, all, split ∙ ap (λ s. blanks ++ s) same, subst (StartsOther a b) same other)

skip_two-append :
    (a b : ℕ) (blanks rest : Bytes)
    → All (IsEither a b) blanks
    → StartsOther a b rest
    → skip_two a b (blanks ++ rest) ≡ rest
unfolding skip_two
skip_two-append a b [] [] all other = refl
skip_two-append a b [] (x ∷ rest) all other = ground arith
skip_two-append a b (x ∷ blanks) rest (here, all) other =
    ground (arith, here, skip_two-append a b blanks rest all other)

pub consume_all_two-append :
    (a b : ℕ) (blanks rest : Bytes)
    → All (IsEither a b) blanks
    → StartsOther a b rest
    → consume_all_two a b (blanks ++ rest) ≡ returns (tt, rest)
unfolding consume_all_two
consume_all_two-append a b blanks rest all other =
    ap (λ s. returns (tt, s)) (skip_two-append a b blanks rest all other)

find-suc :
    (c x : ℕ) (s : Bytes) (n : ℕ) → find c (x ∷ s) ≡ some (suc n) → (x ≢ c) × (find c s ≡ some n)
unfolding find
find-suc c x s n h = elim (Option-cases (find c s)) [
  | inl absent ↦ ground arith
  | inr (m, there) ↦ ground arith
]

find-zero : (c x : ℕ) (s : Bytes) → find c (x ∷ s) ≡ some 0 → x ≡ c
unfolding find
find-zero c x s h = elim (Option-cases (find c s)) [
  | inl absent ↦ ground arith
  | inr (m, there) ↦ ground arith
]

-- The byte that was found, what is in front of it, and what is behind
pub find_split :
    (c : ℕ) (s : Bytes) (n : ℕ)
    → find c s ≡ some n
    → (tail : Bytes) × Lacks c (take n s) × (drop n s ≡ c ∷ tail) × (s ≡ take n s ++ drop n s)
unfolding find
find_split c [] n h = cc h
find_split c (x ∷ s) zero h = (s, tt, ap (λ y. y ∷ s) (find-zero c x s h), refl)
find_split c (x ∷ s) (suc n) h =
    let (ne, later) = find-suc c x s n h in
    let (tail, lacks, at_end, split) = find_split c s n later in
    (tail, (ne, lacks), at_end, ap (λ t. x ∷ t) split)

-- A token ends in front of its delimiter.
abbrev pub IsToken : ℕ → Bytes → Bytes → Bytes → Type 0
IsToken delim view token rest =
    (tail : Bytes) × Lacks delim token × (rest ≡ delim ∷ tail) × (view ≡ token ++ rest)

pub next_token-eq :
    (c : ℕ) (view token rest : Bytes)
    → next_token c view ≡ returns (token, rest)
    → IsToken c view token rest
unfolding next_token
next_token-eq c view token rest h = elim (Option-cases (find c view)) [
  | inl absent ↦ cc (rw (next_token, absent) at h)
  | inr (n, there) ↦
      let taken : returns (take n view, drop n view) ≡ returns (token, rest) =
        rw (next_token, there) at h in
      let left : take n view ≡ token = cc taken in
      let right : drop n view ≡ rest = cc taken in
      subst (λ t. IsToken c view t rest) left
        (subst (IsToken c view (take n view)) right (find_split c view n there))
]

-- The static overload does the same.
pub next_token_of-eq :
    (c : ℕ) (view token rest : Bytes)
    → next_token_of view c ≡ returns (token, rest)
    → IsToken c view token rest
unfolding next_token_of next_token
next_token_of-eq c view token rest h = next_token-eq c view token rest h

find_any-suc :
    (a b x : ℕ) (s : Bytes) (n : ℕ)
    → find_any (a ∷ b ∷ []) (x ∷ s) ≡ some (suc n)
    → (x ≢ a) × (x ≢ b) × (find_any (a ∷ b ∷ []) s ≡ some n)
unfolding find_any
find_any-suc a b x s n h = elim (Option-cases (find_any (a ∷ b ∷ []) s)) [
  | inl absent ↦ ground arith
  | inr (m, there) ↦ ground arith
]

find_any-zero :
    (a b x : ℕ) (s : Bytes) → find_any (a ∷ b ∷ []) (x ∷ s) ≡ some 0 → (x == a || x == b) ≡ true
unfolding find_any
find_any-zero a b x s h = elim (Option-cases (find_any (a ∷ b ∷ []) s)) [
  | inl absent ↦ ground arith
  | inr (m, there) ↦ ground arith
]

-- The same for the first byte that is one of two
pub find_any_split :
    (a b : ℕ) (s : Bytes) (n : ℕ)
    → find_any (a ∷ b ∷ []) s ≡ some n
    → (first : ℕ) × (tail : Bytes) × IsEither a b first
      × Lacks a (take n s)
      × Lacks b (take n s)
      × (drop n s ≡ first ∷ tail)
      × (s ≡ take n s ++ drop n s)
unfolding find_any
find_any_split a b [] n h = cc h
find_any_split a b (x ∷ s) zero h =
    (x, s, IsEither-test a b x (find_any-zero a b x s h), tt, tt, refl, refl)
find_any_split a b (x ∷ s) (suc n) h =
    let (other_a, other_b, later) = find_any-suc a b x s n h in
    let (first, tail, either, no_a, no_b, at_end, split) = find_any_split a b s n later in
    (first, tail, either, (other_a, no_a), (other_b, no_b), at_end, ap (λ t. x ∷ t) split)
