-- ===== src/Http/Parser/HeaderRounds.antt =====
-- What one round of the loop over the header lines has read.
use mathlib.Core.Path.{subst}
use simple_serv.Common.{
  ℕ, zero, suc, ◌+◌, ◌≤◌, ◌≡◌, sym, ap, ◌∙◌, arith, true, if◌then◌else◌, Bool-cases, Option-cases,
  inl, inr, some, [], ◌∷◌, ◌++◌, Bytes, Lacks, IsEither, take, drop, length, leb, starts_with,
  find_any,
}
use simple_serv.Common.Outcome
use simple_serv.Common.Outcome.{Outcome, returns, throws, undefined}
use simple_serv.Utility.StringParser.{Expected, value, unexpected, next_token_of}
use simple_serv.Utility.StringParser.Inversion.{
  starts_with-eq-true, next_token_of-eq, find_any_split,
}
use simple_serv.Http.Message.{crlf}
use simple_serv.Http.Parser.Headers.{line_of, IsPlain}
use simple_serv.Http.Parser.{
  Header, HeaderStep, last, more, ends_with_char, drop_last, parse_header, header_of, colon_missing,
  add_header, next_line, header_line, header_step,
}

drop_last-ends : (s : Bytes) (c : ℕ) → ends_with_char s c ≡ true → s ≡ drop_last s ++ c ∷ []
unfolding ends_with_char drop_last
drop_last-ends [] c h = cc h
drop_last-ends (x ∷ []) c h = ap (λ d. d ∷ []) (ground (arith, h))
drop_last-ends (x ∷ y ∷ s) c h = ap (λ t. x ∷ t) (drop_last-ends (y ∷ s) c h)

Lacks-drop_last : (b : ℕ) (s : Bytes) → Lacks b s → Lacks b (drop_last s)
unfolding drop_last
Lacks-drop_last b [] h = tt
Lacks-drop_last b (x ∷ []) h = tt
Lacks-drop_last b (x ∷ y ∷ s) h = (h.0, Lacks-drop_last b (y ∷ s) h.1)

-- A header is read only from its text.
parse_header-eq-value :
    (text : Bytes) (h : Header)
    → parse_header text ≡ returns (value h)
    → (text ≡ line_of h) × Lacks b' ' h.key
unfolding parse_header
parse_header-eq-value text h e =
    let ((name, content), first, second) = Outcome.>>=-eq-returns (next_token_of text b' ') _ e in
    let (tail, lacks, at_end, split) = next_token_of-eq b' ' text name content first in
    go name content tail lacks at_end split second
  where
    go :
        (name content tail : Bytes)
        → Lacks b' ' name
        → content ≡ b' ' ∷ tail
        → text ≡ name ++ content
        → (if ends_with_char name b':'
            then header_of (drop_last name) content
            else colon_missing name)
          ≡ returns (value h)
        → (text ≡ line_of h) × Lacks b' ' h.key
    go name content tail lacks at_end split second = elim (Bool-cases (ends_with_char name b':')) [
      | inl colon ↦
          let made : returns (value (record { key = drop_last name; val = tail }))
              ≡ returns (value h) =
            sym (ap (header_of (drop_last name)) at_end) ∙ rw colon at second in
          let same : record { key = drop_last name; val = tail } ≡ h = cc made in
          subst (λ g. (text ≡ line_of g) × Lacks b' ' g.key) same
            (
              split
                  ∙ ap (λ t. name ++ t) at_end
                  ∙ ap (λ t. t ++ b' ' ∷ tail) (drop_last-ends name b':' colon),
              Lacks-drop_last b' ' name lacks,
            )
      | inr absent ↦ missing name (rw absent at second)
    ]
      where
        missing :
            (name : Bytes)
            → colon_missing name ≡ returns (value h)
            → (text ≡ line_of h) × Lacks b' ' h.key
        missing [] bad = cc bad
        missing (x ∷ s) bad = cc bad

-- There is one more byte behind the first one of the end of a line.
line_end :
    (n : ℕ) (view tail : Bytes) (first : ℕ)
    → drop n view ≡ first ∷ tail
    → n + 2 ≤ length view
    → (second : ℕ) × (tail ≡ second ∷ drop (n + 2) view)
line_end zero [] tail first e le = absurd (omega (arith, le))
line_end zero (x ∷ []) tail first e le = absurd (omega (arith, le))
line_end zero (x ∷ y ∷ view) tail first e le = (y, cc e)
line_end (suc n) [] tail first e le = cc e
line_end (suc n) (x ∷ view) tail first e le =
    let (second, there) = line_end n view tail first e (omega (arith, le)) in
    let more_suc : suc n + 2 ≡ suc (n + 2) = omega arith in
    (second, there ∙ ap (λ m. second ∷ drop m (x ∷ view)) (sym more_suc))

-- What a round of the loop has read
abbrev pub StepText : Bytes → HeaderStep → Type 0
StepText view (last rest) = view ≡ crlf ++ rest
StepText view (more h rest) =
    (first : ℕ) × (second : ℕ) × IsPlain h
    × IsEither 13 10 first
    × (view ≡ line_of h ++ first ∷ second ∷ rest)

line-StepText :
    (n : ℕ) (view : Bytes) (h : Header) (step : HeaderStep)
    → find_any crlf view ≡ some n
    → parse_header (take n view) ≡ returns (value h)
    → next_line h (n + 2) view ≡ returns (value step)
    → StepText view step
line-StepText n view h step found parsed e = elim (Bool-cases (leb (n + 2) (length view))) [
  | inl fits ↦
      let (first, tail, either, no_cr, no_lf, at_end, split) = find_any_split 13 10 view n found in
      let (is_line, lacks) = parse_header-eq-value (take n view) h parsed in
      let (second, behind) = line_end n view tail first at_end (ground (arith, fits)) in
      let made : returns (value (more h (drop (n + 2) view))) ≡ returns (value step) =
        rw fits at e in
      let same : more h (drop (n + 2) view) ≡ step = cc made in
      subst (StepText view) same (
        first,
        second,
        record {
          key_no_space = lacks;
          line_no_cr = subst (Lacks 13) is_line no_cr;
          line_no_lf = subst (Lacks 10) is_line no_lf;
        },
        either,
        split
            ∙ ap (λ t. t ++ drop n view) is_line
            ∙ ap (λ t. line_of h ++ t) (at_end ∙ ap (λ t. first ∷ t) behind),
      )
  | inr too_long ↦ cc (rw too_long at e)
]

pub header_step-StepText :
    (view : Bytes) (step : HeaderStep)
    → header_step view ≡ returns (value step)
    → StepText view step
unfolding header_step
header_step-StepText view step e = elim (Bool-cases (starts_with view crlf)) [
  | inl at_end ↦
      let made : returns (value (last (drop 2 view))) ≡ returns (value step) =
        rw (header_step, at_end) at e in
      let same : last (drop 2 view) ≡ step = cc made in
      subst (StepText view) same (starts_with-eq-true view crlf at_end)
  | inr in_line ↦ in_a_line (rw (header_step, in_line) at e)
]
  where
    in_a_line : header_line (find_any crlf view) view ≡ returns (value step) → StepText view step
    in_a_line h = elim (Option-cases (find_any crlf view)) [
      | inl absent ↦ cc (rw absent at h)
      | inr (n, there) ↦
          let (result, parsed, added) =
            Outcome.>>=-eq-returns (parse_header (take n view)) (λ result. add_header result n view)
              (rw there at h) in
          go n there result parsed added
    ]
      where
        go :
            (n : ℕ)
            → find_any crlf view ≡ some n
            → (result : Expected Header) → parse_header (take n view) ≡ returns result
            → add_header result n view ≡ returns (value step)
            → StepText view step
        go n there (value h) parsed added = line-StepText n view h step there parsed added
        go n there (unexpected e) parsed added = cc added
