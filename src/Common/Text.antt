-- ===== src/Common/Text.antt =====
-- Byte strings: `std::string` and `std::string_view` as lists of bytes, with the searches that the
-- sources use. `std::string::npos` is `none`.
use Prim.Native.Char.{code}
use Prim.Native.Nat.{ℕ, suc}
use Prim.Native.String.{String}
use mathlib.Core.Path.{◌≡◌, refl}
use mathlib.Core.Logic.{◌≢◌, ◌↔◌, ◌⊎◌}
use mathlib.Core.Bool.{Bool, true, false, ◌&&◌}
use mathlib.Core.Option
use mathlib.Core.Option.{Option, none, some}
use mathlib.Core.List.{List, [], ◌∷◌, ◌++◌}
use native.Mathlib.Omega.{arith}
use simple_serv.Common.Tests.{◌==◌, if◌then◌else◌, ltb}
use simple_serv.Common.Lists.{length, All, any}

abbrev pub Bytes : Type 0
Bytes = List ℕ

-- The code points of a literal, which are its bytes, since every literal is ASCII.
abbrev pub codes : String → Bytes
codes String.[] = []
codes (String.◌∷◌ c s) = code c ∷ codes s

-- `a == b` on strings
unfoldable pub str_eq : Bytes → Bytes → Bool
str_eq [] [] = true
str_eq (x ∷ a) (y ∷ b) = x == y && str_eq a b
str_eq _ _ = false

-- `a < b` on strings: bytes are compared as unsigned numbers
unfoldable pub str_lt : Bytes → Bytes → Bool
str_lt a [] = false
str_lt [] (y ∷ b) = true
str_lt (x ∷ a) (y ∷ b) = if x == y then str_lt a b else ltb x y

unfoldable pub starts_with : Bytes → Bytes → Bool
starts_with s [] = true
starts_with [] (y ∷ p) = false
starts_with (x ∷ s) (y ∷ p) = x == y && starts_with s p

-- `s.find(c)` and `s.find_first_of(c)` for one byte
unfoldable pub find : ℕ → Bytes → Option ℕ
find c [] = none
find c (x ∷ s) = if x == c then some 0 else Option.map suc (find c s)

-- `s.find_first_of(set)`: the first byte that is one of `set`
unfoldable pub find_any : Bytes → Bytes → Option ℕ
find_any set [] = none
find_any set (x ∷ s) = if any (λ c. x == c) set then some 0 else Option.map suc (find_any set s)

abbrev pub Lacks : ℕ → Bytes → Type 0
Lacks b = All (λ c. c ≢ b)

pub str_eq_iff : (a b : Bytes) → (str_eq a b ≡ true) ↔ (a ≡ b)
unfolding str_eq
str_eq_iff (x ∷ a) (y ∷ b) = ground (arith, str_eq_iff a b)
str_eq_iff _ _ = ground arith

pub str_eq_refl : (a : Bytes) → str_eq a a ≡ true
str_eq_refl a = (str_eq_iff a a).1 refl

pub str_lt_irrefl : (a : Bytes) → str_lt a a ≡ false
unfolding str_lt
str_lt_irrefl [] = refl
str_lt_irrefl (x ∷ a) = ground (arith, str_lt_irrefl a)

pub starts_with-append : (p s : Bytes) → starts_with (p ++ s) p ≡ true
unfolding starts_with
starts_with-append [] s = refl
starts_with-append (x ∷ p) s = ground (arith, starts_with-append p s)

pub find-append : (c : ℕ) (p s : Bytes) → Lacks c p → find c (p ++ c ∷ s) ≡ some (length p)
unfolding find
find-append c [] s h = ground arith
find-append c (x ∷ p) s h = ground (arith, find-append c p s)

pub find-none : (c : ℕ) (s : Bytes) → Lacks c s → find c s ≡ none
unfolding find
find-none c [] h = refl
find-none c (x ∷ s) h = ground (arith, find-none c s)

-- One of two bytes
abbrev pub IsEither : ℕ → ℕ → ℕ → Type 0
IsEither a b c = (c ≡ a) ⊎ (c ≡ b)

pub find_any-append :
    (a b first : ℕ) (p s : Bytes)
    → IsEither a b first
    → Lacks a p
    → Lacks b p
    → find_any (a ∷ b ∷ []) (p ++ first ∷ s) ≡ some (length p)
unfolding find_any
find_any-append a b first [] s here h k = ground (arith, here)
find_any-append a b first (x ∷ p) s here h k =
    ground (arith, find_any-append a b first p s here h.1 k.1)

pub str_lt_asymm : (a b : Bytes) → str_lt a b ≡ true → str_lt b a ≡ false
unfolding str_lt
str_lt_asymm [] [] h = refl
str_lt_asymm (x ∷ a) [] h = cc
str_lt_asymm [] (y ∷ b) h = refl
str_lt_asymm (x ∷ a) (y ∷ b) h = ground (arith, str_lt_asymm a b)

pub str_lt_trans : (a b c : Bytes) → str_lt a b ≡ true → str_lt b c ≡ true → str_lt a c ≡ true
unfolding str_lt
str_lt_trans a b [] h k = cc
str_lt_trans a [] (z ∷ c) h k = cc
str_lt_trans [] (y ∷ b) (z ∷ c) h k = refl
str_lt_trans (x ∷ a) (y ∷ b) (z ∷ c) h k = ground (arith, str_lt_trans a b c)

-- Of two different strings one is less.
pub str_lt_connected : (a b : Bytes) → str_eq a b ≡ false → str_lt b a ≡ false → str_lt a b ≡ true
unfolding str_lt str_eq
str_lt_connected [] [] h k = cc
str_lt_connected [] (y ∷ b) h k = refl
str_lt_connected (x ∷ a) [] h k = cc
str_lt_connected (x ∷ a) (y ∷ b) h k = ground (arith, str_lt_connected a b)
