-- ===== src/Utility/StringParser/Reads.antt =====
-- The view of a `StringParser` is always an end of the text it was made from.
use mathlib.Core.Path.{subst}
use simple_serv.Common.{
  ℕ, zero, suc, ◌≡◌, refl, ap, ◌∙◌, Bool, true, false, ◌||◌, Bool-cases, Option-cases, inl, inr, [],
  ◌∷◌, ◌++◌, append_assoc, Bytes, find, drop, length, starts_with, if◌then◌else◌, ◌==◌,
}
use simple_serv.Common.Outcome.{Outcome, returns, throws, undefined}
use simple_serv.Utility.StringParser.{
  Action, ParserError, pure, ◌>>=◌, move, expect, expect_two, consume_all_two, head, next_token,
  starts_with_char, refuse, skip_two,
}
use simple_serv.Utility.StringParser.Ensures.{>>=-eq-returns}

-- `rest` is what is left of `view` when bytes are taken from its front.
abbrev pub IsEnd : Bytes → Bytes → Type 0
IsEnd view rest = (front : Bytes) × (view ≡ front ++ rest)

pub IsEnd-refl : (view : Bytes) → IsEnd view view
IsEnd-refl view = ([], refl)

pub IsEnd-trans : {a b c : Bytes} → IsEnd a b → IsEnd b c → IsEnd a c
IsEnd-trans {c = c} (p, e) (q, f) = (p ++ q, e ∙ ap (λ s. p ++ s) f ∙ rw append_assoc)

pub IsEnd-drop : (n : ℕ) (view : Bytes) → IsEnd view (drop n view)
IsEnd-drop zero view = ([], refl)
IsEnd-drop (suc n) [] = ([], refl)
IsEnd-drop (suc n) (x ∷ view) = let (p, e) = IsEnd-drop n view in (x ∷ p, ap (λ s. x ∷ s) e)

pub record Reads {ℓ} {A : Type ℓ} (m : Action A) : Type ℓ where
  pub at : (view rest : Bytes) (a : A) → m view ≡ returns (a, rest) → IsEnd view rest

module _ {ℓ} {A : Type ℓ} where
  -- An action that returns leaves an end.
  pub Reads-pure : (a : A) → Reads (pure a)
  Reads-pure a = record { at = λ view rest b e. ([], cc) }

  pub Reads-if : (b : Bool) (m n : Action A) → Reads m → Reads n → Reads (if b then m else n)
  Reads-if true m n hm hn = hm
  Reads-if false m n hm hn = hn

pub Reads-bind {ℓ κ} :
    {A : Type ℓ} {B : Type κ} (m : Action A) (f : A → Action B)
    → Reads m
    → ((a : A) → Reads (f a))
    → Reads (m >>= f)
Reads-bind m f hm hf = record {
  at = λ view rest b e.
      let (a, mid, first, second) = >>=-eq-returns m f e in
      IsEnd-trans (hm.at view mid a first) ((hf a).at mid rest b second);
}

-- What an outcome leaves
abbrev Leaves {ℓ} : {A : Type ℓ} → Bytes → Outcome (A × Bytes) → Type 0
Leaves view (returns (a, rest)) = IsEnd view rest
Leaves view (throws e) = Unit
Leaves view undefined = Unit

Reads-of {ℓ} : {A : Type ℓ} (m : Action A) → ((view : Bytes) → Leaves view (m view)) → Reads m
Reads-of m h = record { at = λ view rest a e. subst (Leaves view) e (h view) }

cons-IsEnd : (x : ℕ) {view rest : Bytes} → IsEnd view rest → IsEnd (x ∷ view) rest
cons-IsEnd x (p, e) = (x ∷ p, ap (λ s. x ∷ s) e)

move-Leaves : (n : ℕ) (view : Bytes) → Leaves view (move n view)
unfolding move
move-Leaves zero view = IsEnd-refl view
move-Leaves (suc n) [] = tt
move-Leaves (suc n) (x ∷ view) = cons-Leaves (move n view) (move-Leaves n view)
  where
    cons-Leaves : (o : Outcome (Unit {0} × Bytes)) → Leaves view o → Leaves (x ∷ view) o
    cons-Leaves (returns (a, rest)) h = cons-IsEnd x h
    cons-Leaves (throws e) h = tt
    cons-Leaves undefined h = tt

pub Reads-move : (n : ℕ) → Reads (move n)
Reads-move n = Reads-of (move n) (move-Leaves n)

pub Reads-expect : (chars : Bytes) → Reads (expect chars)
unfolding expect
Reads-expect chars = Reads-of (expect chars) λ view. elim (Bool-cases (starts_with view chars)) [
  | inl here ↦ rw here (IsEnd-drop (length chars) view)
  | inr absent ↦ rw absent (IsEnd-refl view)
]

pub Reads-head : Reads head
unfolding head
Reads-head =
    Reads-of head
      λ view. elim view as (λ v. Leaves v (head v)) [ [] ↦ tt | x ∷ s ↦ IsEnd-refl (x ∷ s) ]

pub Reads-next_token : (c : ℕ) → Reads (next_token c)
unfolding next_token
Reads-next_token c = Reads-of (next_token c) λ view. elim (Option-cases (find c view)) [
  | inl absent ↦ rw (Leaves, next_token, absent) tt
  | inr (n, there) ↦ rw (Leaves, next_token, there) (IsEnd-drop n view)
]

refuse-Leaves : (e : ParserError) (view : Bytes) → Leaves view (refuse e view)
refuse-Leaves e [] = tt
refuse-Leaves e (x ∷ view) = IsEnd-refl (x ∷ view)

pub Reads-expect_two : (a b : ℕ) → Reads (expect_two a b)
unfolding expect_two
Reads-expect_two a b = Reads-of (expect_two a b) λ view.
    elim (Bool-cases (starts_with_char view a || starts_with_char view b)) [
      | inl here ↦ rw here (IsEnd-drop 1 view)
      | inr absent ↦ rw absent (refuse-Leaves _ view)
    ]

skip_two-IsEnd : (a b : ℕ) (view : Bytes) → IsEnd view (skip_two a b view)
unfolding skip_two
skip_two-IsEnd a b [] = IsEnd-refl []
skip_two-IsEnd a b (x ∷ view) = elim (Bool-cases (x == a || x == b)) [
  | inl blank ↦ rw blank (cons-IsEnd x (skip_two-IsEnd a b view))
  | inr other ↦ rw other (IsEnd-refl (x ∷ view))
]

pub Reads-consume_all_two : (a b : ℕ) → Reads (consume_all_two a b)
unfolding consume_all_two
Reads-consume_all_two a b = Reads-of (consume_all_two a b) (skip_two-IsEnd a b)

pub ruleset reads_rules = (
  Reads-pure, Reads-if, Reads-bind, Reads-move, Reads-expect, Reads-head, Reads-next_token,
  Reads-expect_two, Reads-consume_all_two,
)
