-- ===== src/Utility/StringParser.antt =====
-- include/simpleserv/utility/string_parser.hpp: a cursor over a request. The state of a
-- `StringParser` is its `view`; `str` only keeps the bytes alive. A method that reads or moves the
-- view is an `Action`. What has undefined behaviour on a `std::string_view` is `undefined`:
-- `remove_prefix` past the end (so with `npos`) and `view[0]` of an empty view.
pub mod Laws
pub mod Ensures
pub mod Reads
pub mod Inversion
use simple_serv.Common.{
  ℕ, zero, suc, Bool, ◌||◌, Option, none, some, List, [], ◌∷◌, Bytes, codes, length, take, drop,
  leb, ◌==◌, if◌then◌else◌, find, starts_with,
}
use simple_serv.Common.Outcome.{Outcome, Exception, returns, throws, undefined, out_of_range}

-- A `parser_error` by its kind, with what was expected. Its text goes to the log alone; what the
-- text quotes of the request is left out.
pub data ParserError : Type 0 where
  unspecified : ParserError
  expected_character : ℕ → ParserError
  expected_characters : Bytes → ParserError
  expected_either : ℕ → ℕ → ParserError
  invalid_method : ParserError
  missing_colon : ParserError
  no_terminator : ParserError

-- `utility::expected<A, utility::parser_error>`
pub data Expected {ℓ} (A : Type ℓ) : Type ℓ where
  value : A → Expected A
  unexpected : ParserError → Expected A

abbrev pub Action {ℓ} : Type ℓ → Type ℓ
Action A = Bytes → Outcome (A × Bytes)

abbrev pub pure {ℓ} : {A : Type ℓ} → A → Action A
pure a view = returns (a, view)

infixl 5 ◌>>=◌ ◌>>◌
unfoldable pub ◌>>=◌ {ℓ κ} : {A : Type ℓ} {B : Type κ} → Action A → (A → Action B) → Action B
◌>>=◌ m f view = elim (m view) [
  | returns (a, rest) ↦ f a rest
  | throws e ↦ throws e
  | undefined ↦ undefined
]

abbrev pub ◌>>◌ {ℓ κ} : {A : Type ℓ} {B : Type κ} → Action A → Action B → Action B
m >> k = m >>= λ _. k

-- `view.remove_prefix(steps)`: `steps` must not exceed the length.
unfoldable pub move : ℕ → Action (Unit {0})
move zero view = returns (tt, view)
move (suc steps) [] = undefined
move (suc steps) (x ∷ view) = move steps view

-- `view.starts_with(char1)`
abbrev pub starts_with_char : Bytes → ℕ → Bool
starts_with_char view c = starts_with view (c ∷ [])

-- What a failed `expect` does when its message reads `view[0]`.
abbrev pub refuse : ParserError → Action (Option ParserError)
refuse e [] = undefined
refuse e (x ∷ view) = returns (some e, x ∷ view)

unfoldable pub expect_char : ℕ → Action (Option ParserError)
expect_char c view =
    if starts_with_char view c
    then returns (none, drop 1 view)
    else refuse (expected_character c) view

unfoldable pub expect : Bytes → Action (Option ParserError)
expect chars view =
    if starts_with view chars
    then returns (none, drop (length chars) view)
    else returns (some (expected_characters chars), view)

unfoldable pub expect_two : ℕ → ℕ → Action (Option ParserError)
expect_two a b view =
    if starts_with_char view a || starts_with_char view b
    then returns (none, drop 1 view)
    else refuse (expected_either a b) view

skip : ℕ → Bytes → Bytes
skip c [] = []
skip c (x ∷ view) = let rest = skip c view in if x == c then rest else x ∷ view

skip_two : ℕ → ℕ → Bytes → Bytes
skip_two a b [] = []
skip_two a b (x ∷ view) =
    let rest = skip_two a b view in if x == a || x == b then rest else x ∷ view

unfoldable pub consume_all : ℕ → Action (Unit {0})
unfolding skip
consume_all c view = returns (tt, skip c view)

unfoldable pub consume_all_two : ℕ → ℕ → Action (Unit {0})
unfolding skip_two
consume_all_two a b view = returns (tt, skip_two a b view)

-- `view.at(0)`
unfoldable pub head : Action ℕ
head [] = throws out_of_range
head (x ∷ view) = returns (x, x ∷ view)

-- The static overload: the token, and the view behind it.
unfoldable pub next_token_of : Bytes → ℕ → Outcome (Bytes × Bytes)
next_token_of view delim = elim (find delim view) [
  | none ↦ undefined
  | some end ↦ returns (take end view, drop end view)
]

unfoldable pub next_token : ℕ → Action Bytes
next_token delim view = elim (find delim view) [
  | none ↦ undefined
  | some end ↦ returns (take end view, drop end view)
]
