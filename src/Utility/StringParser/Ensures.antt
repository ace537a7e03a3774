-- ===== src/Utility/StringParser/Ensures.antt =====
-- What holds of every value that an action returns, with one rule for each way to build an action.
use mathlib.Core.Path.{subst}
use simple_serv.Common.{◌≡◌, refl, Bool, true, false, Bytes, if◌then◌else◌}
use simple_serv.Common.Outcome.{Outcome, returns, throws, undefined}
use simple_serv.Utility.StringParser.{Action, pure, ◌>>=◌}

-- `P` holds of each value returned.
pub record Ensures {ℓ} {A : Type ℓ} (P : A → Type ℓ) (m : Action A) : Type ℓ where
  pub at : (view rest : Bytes) (a : A) → m view ≡ returns (a, rest) → P a

module _ {ℓ} {A : Type ℓ} {P : A → Type ℓ} where
  pub Ensures-pure : (a : A) → P a → Ensures P (pure a)
  Ensures-pure a p = record { at = λ view rest b e. subst P (cc) p }

  pub Ensures-if :
      (b : Bool) (m n : Action A) → Ensures P m → Ensures P n → Ensures P (if b then m else n)
  Ensures-if true m n hm hn = hm
  Ensures-if false m n hm hn = hn

pub >>=-eq-returns {ℓ κ} :
    {A : Type ℓ} {B : Type κ} (m : Action A) (f : A → Action B) {view rest : Bytes} {b : B}
    → (m >>= f) view ≡ returns (b, rest)
    → (a : A) × (mid : Bytes) × (m view ≡ returns (a, mid)) × (f a mid ≡ returns (b, rest))
unfolding ◌>>=◌
>>=-eq-returns {A} {B} m f {view} {rest} {b} h = split (m view) refl h
  where
    split :
        (o : Outcome (A × Bytes))
        → m view ≡ o
        → elim o [ returns (a, mid) ↦ f a mid | throws e ↦ throws e | undefined ↦ undefined ]
          ≡ returns (b, rest)
        → (a : A) × (mid : Bytes) × (m view ≡ returns (a, mid)) × (f a mid ≡ returns (b, rest))
    split (returns (a, mid)) e k = (a, mid, e, k)
    split (throws x) e k = cc
    split undefined e k = cc

module _ {ℓ} {A B : Type ℓ} {P : B → Type ℓ} where
  pub Ensures-bind :
      (m : Action A) (f : A → Action B) → ((a : A) → Ensures P (f a)) → Ensures P (m >>= f)
  Ensures-bind m f hf = record {
    at = λ view rest b e. let (a, mid, _, k) = >>=-eq-returns m f e in (hf a).at mid rest b k;
  }

pub ruleset ensures_rules = (Ensures-pure, Ensures-if, Ensures-bind)

-- What the first action ensures is known in the second.
pub Ensures-after {ℓ} :
    {A B : Type ℓ} {Q : A → Type ℓ} {P : B → Type ℓ} (m : Action A) (f : A → Action B)
    → Ensures Q m
    → ((a : A) → Q a → Ensures P (f a))
    → Ensures P (m >>= f)
Ensures-after m f hm hf = record {
  at = λ view rest b e.
      let (a, mid, first, second) = >>=-eq-returns m f e in
      (hf a (hm.at view mid a first)).at mid rest b second;
}
