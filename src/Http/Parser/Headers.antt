-- ===== src/Http/Parser/Headers.antt =====
-- The header lines: what one round of the loop does to a printed header, and to the empty line.
use simple_serv.Common.{
  IsEither, ℕ, suc, ◌+◌, true, false, ◌≡◌, refl, ap, [], ◌∷◌, ◌++◌, arith, Bytes, Lacks, length,
  drop, starts_with, find_any-append, take-length-append, length-append, leb, ◌≢◌,
}
use simple_serv.Common.Outcome.{returns}
use simple_serv.Utility.StringParser.{value}
use simple_serv.Utility.StringParser.Laws.{next_token_of-append}
use simple_serv.Http.Message.{crlf}
use simple_serv.Http.Parser.{
  Header, ends_with_char, drop_last, parse_header, last, more, header_step,
}

ends_with_char-concat : (s : Bytes) (c : ℕ) → ends_with_char (s ++ c ∷ []) c ≡ true
unfolding ends_with_char
ends_with_char-concat [] c = ground arith
ends_with_char-concat (x ∷ []) c = ground arith
ends_with_char-concat (x ∷ y ∷ s) c = ends_with_char-concat (y ∷ s) c

drop_last-concat : (s : Bytes) (c : ℕ) → drop_last (s ++ c ∷ []) ≡ s
unfolding drop_last
drop_last-concat [] c = refl
drop_last-concat (x ∷ []) c = refl
drop_last-concat (x ∷ y ∷ s) c = ap (◌∷◌ x) (drop_last-concat (y ∷ s) c)

Lacks-concat : (b : ℕ) (s : Bytes) (c : ℕ) → Lacks b s → c ≢ b → Lacks b (s ++ c ∷ [])
Lacks-concat b [] c h k = (k, tt)
Lacks-concat b (x ∷ s) c h k = (h.0, Lacks-concat b s c h.1 k)

-- The text of a header, without the end of its line.
abbrev pub line_of : Header → Bytes
line_of h = (h.key ++ b':' ∷ []) ++ b' ' ∷ h.val

-- A header that can be printed and read again.
pub record IsPlain (h : Header) : Type 0 where
  pub key_no_space : Lacks b' ' h.key
  pub line_no_cr : Lacks 13 (line_of h)
  pub line_no_lf : Lacks 10 (line_of h)

pub parse_header-line_of :
    (h : Header) → Lacks b' ' h.key → parse_header (line_of h) ≡ returns (value h)
unfolding parse_header
parse_header-line_of h k =
    rw
      (next_token_of-append b' ' (h.key ++ b':' ∷ []) h.val
        (Lacks-concat b' ' h.key b':' k (omega arith)))
      (rw (ends_with_char-concat h.key b':', drop_last-concat h.key b':'))

-- A line that is not empty is no end of the headers.
pub starts_with-crlf : (l rest : Bytes) → Lacks 13 l → l ≢ [] → starts_with (l ++ rest) crlf ≡ false
unfolding starts_with
starts_with-crlf [] rest h ne = absurd (ne refl)
starts_with-crlf (x ∷ l) rest h ne = ground arith

length-line :
    (l rest : Bytes) (first second : ℕ)
    → leb (length l + 2) (length (l ++ first ∷ second ∷ rest)) ≡ true
length-line l rest first second = ground (arith, length-append {0} l (first ∷ second ∷ rest))

drop-line :
    (l rest : Bytes) (first second : ℕ) → drop (length l + 2) (l ++ first ∷ second ∷ rest) ≡ rest
drop-line [] rest first second = refl
drop-line (x ∷ l) rest first second = rw (length_suc) (drop-line l rest first second)
  where
    length_suc : suc (length l) + 2 ≡ suc (length l + 2)
    length_suc = omega arith

line_of-ne-nil : (h : Header) → line_of h ≢ []
line_of-ne-nil h e =
    absurd (omega (arith, ap (length {0}) e, length-append {0} (h.key ++ b':' ∷ []) (b' ' ∷ h.val)))

pub header_step-crlf : (rest : Bytes) → header_step (crlf ++ rest) ≡ returns (value (last rest))
unfolding header_step starts_with
header_step-crlf rest = refl

-- A line ends with CR or LF and one more byte.
pub header_step-line_of :
    (h : Header) (first second : ℕ) (rest : Bytes)
    → IsPlain h
    → IsEither 13 10 first
    → header_step (line_of h ++ first ∷ second ∷ rest) ≡ returns (value (more h rest))
unfolding header_step
header_step-line_of h first second rest p at_end =
    let l = line_of h in
    let view = first ∷ second ∷ rest in
    rw (starts_with-crlf l view p.line_no_cr (line_of-ne-nil h)) (
      rw (find_any-append 13 10 first l (second ∷ rest) at_end p.line_no_cr p.line_no_lf) (
        rw (take-length-append l view) (
          rw (parse_header-line_of h p.key_no_space)
            (rw (length-line l rest first second, drop-line l rest first second)))))
