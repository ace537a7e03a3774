-- ===== src/Http/Parser/HeaderTexts.antt =====
-- The header lines that the loop reads are those of the grammar.
use mathlib.Core.Path.{subst}
use simple_serv.Common.{
  ℕ, zero, suc, ◌≤◌, ◌<◌, ◌≡◌, refl, sym, ap, ◌∙◌, arith, none, some, List, [], ◌∷◌, ◌++◌,
  append_assoc, append-nil, Bytes, length, length-append,
}
use simple_serv.Common.Outcome.{Outcome, returns, throws, undefined}
use simple_serv.Utility.StringParser.{Expected, value, unexpected}
use simple_serv.Http.Message.{crlf}
use simple_serv.Http.Parser.Headers.{line_of, header_step-line_of, header_step-crlf}
use simple_serv.Http.Parser.Grammar.{HeaderLines, no_lines, line}
use simple_serv.Http.Parser.{
  Header, HeaderStep, last, more, header_step, header_loop, LoopResult, after_step, finish_headers,
  parse_message_headers,
}
use simple_serv.Http.Parser.HeaderRounds.{header_step-StepText}

-- What the rounds from here on read
IsLoopText : ℕ → Type 0
IsLoopText fuel =
    (headers hs : List Header) (view rest : Bytes)
    → header_loop fuel headers view ≡ some (returns (value (hs, rest)))
    → (lines : List Header) × HeaderLines lines view rest × (hs ≡ headers ++ lines)

after_step-HeaderLines :
    (fuel : ℕ) (headers hs : List Header) (view rest : Bytes)
    → IsLoopText fuel
    → (o : Outcome (Expected HeaderStep)) → header_step view ≡ o
    → after_step o headers (header_loop fuel) ≡ some (returns (value (hs, rest)))
    → (lines : List Header) × HeaderLines lines view rest × (hs ≡ headers ++ lines)
unfolding IsLoopText
after_step-HeaderLines fuel headers hs view rest later (returns (value (last body))) e h =
    let at_end : body ≡ rest = cc h in
    let same : headers ≡ hs = cc h in
    (
      [],
      subst (λ v. HeaderLines [] v rest)
          (sym (header_step-StepText view (last body) e ∙ ap (λ t. crlf ++ t) at_end)) no_lines,
      sym same ∙ sym (append-nil headers),
    )
after_step-HeaderLines fuel headers hs view rest later (returns (value (more x body))) e h =
    let (first, second, plain, either, split) = header_step-StepText view (more x body) e in
    let (lines, are_lines, all) = later (headers ++ x ∷ []) hs body rest h in
    (
      x ∷ lines,
      subst (λ v. HeaderLines (x ∷ lines) v rest) (sym split)
          (line first second plain either are_lines),
      all ∙ append_assoc headers (x ∷ []) lines,
    )
after_step-HeaderLines fuel headers hs view rest later (returns (unexpected x)) e h = cc h
after_step-HeaderLines fuel headers hs view rest later (throws x) e h = cc h
after_step-HeaderLines fuel headers hs view rest later undefined e h = cc h

header_loop-HeaderLines : (fuel : ℕ) → IsLoopText fuel
unfolding header_loop IsLoopText
header_loop-HeaderLines zero headers hs view rest h = cc h
header_loop-HeaderLines (suc fuel) headers hs view rest h =
    after_step-HeaderLines fuel headers hs view rest (header_loop-HeaderLines fuel)
      (header_step view) refl h

-- Headers are read only from header lines of the grammar.
pub parse_message_headers-eq-value :
    (view rest : Bytes) (hs : List Header)
    → parse_message_headers view ≡ returns (value hs, rest)
    → HeaderLines hs view rest
unfolding parse_message_headers IsLoopText
parse_message_headers-eq-value view rest hs h = go (header_loop (suc (length view)) [] view) refl h
  where
    go :
        (o : LoopResult)
        → header_loop (suc (length view)) [] view ≡ o
        → finish_headers o view ≡ returns (value hs, rest)
        → HeaderLines hs view rest
    go none e k = cc k
    go (some undefined) e k = cc k
    go (some (throws x)) e k = cc k
    go (some (returns (unexpected x))) e k = cc k
    go (some (returns (value (found, body)))) e k =
        let left : body ≡ rest = cc k in
        let same : found ≡ hs = cc k in
        let (lines, are_lines, all) =
          header_loop-HeaderLines (suc (length view)) [] found view body e in
        subst (λ r. HeaderLines hs view r) left
          (subst (λ ls. HeaderLines ls view body) (sym all ∙ same) are_lines)

-- The other direction: with more fuel than there are lines, the loop reads them all.
header_loop-returns :
    (fuel : ℕ) (headers hs : List Header) (view body : Bytes)
    → length hs < fuel
    → HeaderLines hs view body
    → header_loop fuel headers view ≡ some (returns (value (headers ++ hs, body)))
unfolding header_loop
header_loop-returns zero headers hs view body lt h = absurd (omega (arith, lt))
header_loop-returns (suc fuel) headers hs view body lt no_lines =
    rw (header_step-crlf body, append-nil headers) refl
header_loop-returns (suc fuel) headers hs view body lt
      (line {h} {hs = later} {view = behind} first second plain either are_lines) =
    rw (header_step-line_of h first second behind plain either) (
      header_loop-returns fuel (headers ++ h ∷ []) later behind body (omega (arith, lt)) are_lines
      ∙ rw append_assoc)

length-HeaderLines :
    (hs : List Header) (view body : Bytes) → HeaderLines hs view body → length hs ≤ length view
length-HeaderLines hs view body no_lines = omega arith
length-HeaderLines hs view body
      (line {h} {hs = later} {view = behind} first second plain either are_lines) =
    omega (
      arith,
      length-HeaderLines later behind body are_lines,
      length-append {0} (line_of h) (first ∷ second ∷ behind),
    )

-- Header lines of the grammar are read.
pub parse_message_headers-HeaderLines :
    (view body : Bytes) (hs : List Header)
    → HeaderLines hs view body
    → parse_message_headers view ≡ returns (value hs, body)
unfolding parse_message_headers IsLoopText
parse_message_headers-HeaderLines view body hs h =
    let few = length-HeaderLines hs view body h in
    rw (header_loop-returns (suc (length view)) [] hs view body (omega (arith, few)) h) refl
