-- ===== src/Http/Parser.antt =====
-- src/simpleserv/http/parser.cpp and include/simpleserv/http/parser.hpp: parsing a request.
-- A parsing function is an action that returns a `utility::expected`; a `do` block goes on with
-- the value and returns early with an error, as the `has_value` tests of the source do.
pub mod Headers
pub mod RequestLine
pub mod RoundTrip
pub mod Total
pub mod Refuses
pub mod Reads
pub mod Accepted
pub mod Grammar
pub mod Inversion
pub mod LineTexts
pub mod LinesRead
pub mod HeaderRounds
pub mod HeaderTexts
pub mod Language
use simple_serv.Common.{
  ℕ, zero, suc, ◌+◌, Bool, true, false, Option, none, some, List, [], ◌∷◌, ◌++◌, Bytes, codes,
  length, take, drop, leb, ◌==◌, if◌then◌else◌, starts_with, find_any,
}
use simple_serv.Common.Outcome
use simple_serv.Common.Outcome.{Outcome, returns, throws, undefined}
use simple_serv.Utility.StringParser
use simple_serv.Utility.StringParser.{
  Action, Expected, value, unexpected, ParserError, unspecified, missing_colon, no_terminator,
  expect, expect_two, consume_all_two, next_token, next_token_of,
}
use simple_serv.Http.Message.{
  HttpRequest, HttpMessage, HttpVersion, http_invalid, new_request, set_header, set_content,
  method_string_to_enum, version_string_to_enum, crlf,
}

abbrev pub ascii_ht : ℕ
ascii_ht = 9

abbrev pub Parse : Type 0 → Type 0
Parse A = Action (Expected A)

abbrev pub pure : {A : Type 0} → A → Parse A
pure a = StringParser.pure (value a)

abbrev pub fail : {A : Type 0} → ParserError → Parse A
fail e = StringParser.pure (unexpected e)

abbrev pub follow : {A B : Type 0} → Expected A → (A → Parse B) → Parse B
follow (value a) f = f a
follow (unexpected e) f = fail e

infixl 5 ◌>>=◌ ◌>>◌
unfoldable pub ◌>>=◌ : {A B : Type 0} → Parse A → (A → Parse B) → Parse B
unfolding StringParser.◌>>=◌
◌>>=◌ m f = StringParser.◌>>=◌ m (λ r. follow r f)

abbrev pub ◌>>◌ : {A B : Type 0} → Parse A → Parse B → Parse B
m >> k = m >>= λ _. k

-- An action that cannot fail.
unfoldable pub run : {A : Type 0} → Action A → Parse A
unfolding StringParser.◌>>=◌
run m = StringParser.◌>>=◌ m pure

abbrev pub refusal : Option ParserError → Parse (Unit {0})
refusal none = pure tt
refusal (some e) = fail e

-- An action that returns its error, if any.
unfoldable pub check : Action (Option ParserError) → Parse (Unit {0})
unfolding StringParser.◌>>=◌
check m = StringParser.◌>>=◌ m refusal

abbrev is_invalid : HttpVersion → Bool
is_invalid http_invalid = true
is_invalid _ = false

-- The test for an invalid version, and the end of the line.
abbrev pub finish_line : HttpRequest → Parse HttpRequest
finish_line request =
    if is_invalid request.version then fail unspecified else (do check (expect crlf); pure request)

unfoldable pub parse_request_line : Parse HttpRequest
parse_request_line = do
  method ← method_string_to_enum
  check (expect_two ascii_ht b' ')
  run (consume_all_two ascii_ht b' ')
  url ← run (next_token b' ')
  check (expect_two ascii_ht b' ')
  run (consume_all_two ascii_ht b' ')
  version ← run version_string_to_enum
  finish_line (new_request method url version)

pub record Header : Type 0 where
  pub key : Bytes
  pub val : Bytes

unfoldable pub ends_with_char : Bytes → ℕ → Bool
ends_with_char [] c = false
ends_with_char (x ∷ []) c = x == c
ends_with_char (x ∷ y ∷ s) c = ends_with_char (y ∷ s) c

-- `remove_suffix(1)`, on a view that is not empty
unfoldable pub drop_last : Bytes → Bytes
drop_last [] = []
drop_last (x ∷ []) = []
drop_last (x ∷ y ∷ s) = x ∷ drop_last (y ∷ s)

-- The error reads `field_name.back()`.
abbrev colon_missing : Bytes → Outcome (Expected Header)
colon_missing [] = undefined
colon_missing (x ∷ s) = returns (unexpected missing_colon)

-- `field_value.remove_prefix(1)`
abbrev header_of : Bytes → Bytes → Outcome (Expected Header)
header_of key [] = undefined
header_of key (x ∷ s) = returns (value (record { key = key; val = s }))

unfoldable pub parse_header : Bytes → Outcome (Expected Header)
unfolding next_token_of ends_with_char drop_last
parse_header header = Outcome.◌>>=◌ (next_token_of header b' ') λ (field_name, field_value).
    if ends_with_char field_name b':'
    then header_of (drop_last field_name) field_value
    else colon_missing field_name

-- One test and one round of the loop: the view behind the empty line, or a header and the view
-- behind its line.
pub data HeaderStep : Type 0 where
  last : Bytes → HeaderStep
  more : Header → Bytes → HeaderStep

-- `str_view.remove_prefix(next_header + 2)`
abbrev next_line : Header → ℕ → Bytes → Outcome (Expected HeaderStep)
next_line h n view =
    if leb n (length view) then returns (value (more h (drop n view))) else undefined

abbrev add_header : Expected Header → ℕ → Bytes → Outcome (Expected HeaderStep)
add_header (value h) n view = next_line h (n + 2) view
add_header (unexpected e) n view = returns (unexpected e)

abbrev header_line : Option ℕ → Bytes → Outcome (Expected HeaderStep)
header_line none view = returns (unexpected no_terminator)
header_line (some n) view =
    Outcome.◌>>=◌ (parse_header (take n view)) λ result. add_header result n view

unfoldable pub header_step : Bytes → Outcome (Expected HeaderStep)
header_step view =
    if starts_with view crlf
    then returns (value (last (drop 2 view)))
    else header_line (find_any crlf view) view

abbrev pub LoopResult : Type 0
LoopResult = Option (Outcome (Expected (List Header × Bytes)))

-- What a round leads to: the end of the loop, or the rounds behind it.
abbrev pub after_step :
    Outcome (Expected HeaderStep) → List Header → (List Header → Bytes → LoopResult) → LoopResult
after_step (returns (value (last rest))) headers next = some (returns (value (headers, rest)))
after_step (returns (value (more h rest))) headers next = next (headers ++ h ∷ []) rest
after_step (returns (unexpected e)) headers next = some (returns (unexpected e))
after_step (throws e) headers next = some (throws e)
after_step undefined headers next = some undefined

-- The loop, with fuel; `none` means that the fuel ran out.
unfoldable pub header_loop : ℕ → List Header → Bytes → LoopResult
header_loop zero headers view = none
header_loop (suc fuel) headers view = after_step (header_step view) headers (header_loop fuel)

-- `str` is written only when the loop has ended well.
abbrev pub finish_headers : LoopResult → Bytes → Outcome (Expected (List Header) × Bytes)
finish_headers none view = undefined
finish_headers (some undefined) view = undefined
finish_headers (some (throws e)) view = throws e
finish_headers (some (returns (unexpected e))) view = returns (unexpected e, view)
finish_headers (some (returns (value (headers, rest)))) view = returns (value headers, rest)

unfoldable pub parse_message_headers : Parse (List Header)
parse_message_headers view = finish_headers (header_loop (suc (length view)) [] view) view

-- The loop over the headers in `parse_http_request`
unfoldable pub set_headers : List Header → HttpMessage → HttpMessage
unfolding set_header
set_headers [] m = m
set_headers (h ∷ hs) m = set_headers hs (set_header h.key h.val m)

abbrev pub view_of : Action Bytes
view_of view = returns (view, view)

abbrev complete : HttpRequest → List Header → Bytes → HttpRequest
complete request headers content = record request {
  message = set_content content (set_headers headers request.message);
}

unfoldable pub parse_request : Parse HttpRequest
unfolding ◌>>=◌ run check
parse_request = do
  request ← parse_request_line
  headers ← parse_message_headers
  content ← run view_of
  pure (complete request headers content)

-- The parser object lives as long as the call: its last view is dropped.
unfoldable pub parse_http_request : Bytes → Outcome (Expected HttpRequest)
unfolding parse_request
parse_http_request str = Outcome.◌>>=◌ (parse_request str) λ (result, rest). returns result
