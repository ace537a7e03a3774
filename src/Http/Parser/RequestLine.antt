-- ===== src/Http/Parser/RequestLine.antt =====
-- The request line: what is read from a printed one, and what is refused.
use simple_serv.Common.{
  ℕ, ◌≡◌, ◌≢◌, refl, ◌∙◌, none, some, [], ◌∷◌, ◌++◌, arith, Bytes, codes, Lacks, starts_with,
}
use simple_serv.Common.Outcome.{returns, undefined}
use simple_serv.Utility.StringParser
use simple_serv.Utility.StringParser.{
  Expected, value, unexpected, expected_characters, expect, expect_two, consume_all_two, next_token,
}
use simple_serv.Utility.StringParser.Laws.{
  >>=-returns, expect-append, next_token-append, consume_all_two-stop,
}
use simple_serv.Http.Status.{HttpMethod, http_method_strings}
use simple_serv.Http.Message.{
  HttpVersion, http_1_0, http_1_1, http_2_0, http_invalid, http_version_strings, new_request,
  method_string_to_enum, version_string_to_enum, crlf,
}
use simple_serv.Http.Message.Laws.{
  method_string_to_enum-http_method_strings, version-http_1_1, version-http_2_0, version-http_1_0,
}
use simple_serv.Http.Parser.{
  Parse, ascii_ht, ◌>>=◌, run, check, pure, refusal, follow, parse_request_line, finish_line,
}

-- The versions that are read back from their names.
abbrev pub IsReadable : HttpVersion → Type 0
IsReadable http_1_1 = Unit
IsReadable http_2_0 = Unit
IsReadable _ = ⊥

-- One rule for each kind of step of the `do` block: the step succeeds, and the rest goes on.
module _ {A B : Type 0} (k : A → Parse B) where
  pub bind-value :
      (m : Parse A) {view rest : Bytes} (a : A)
      → m view ≡ returns (value a, rest)
      → (m >>= k) view ≡ k a rest
  unfolding ◌>>=◌
  bind-value m a e = >>=-returns m (λ r. follow r k) e

  pub bind-unexpected :
      (m : Parse A) {view rest : Bytes} {e : StringParser.ParserError}
      → m view ≡ returns (unexpected e, rest)
      → (m >>= k) view ≡ returns (unexpected e, rest)
  unfolding ◌>>=◌
  bind-unexpected m h = >>=-returns m (λ r. follow r k) h

  pub bind-undefined :
      (m : Parse A) {view : Bytes} → m view ≡ undefined → (m >>= k) view ≡ undefined
  unfolding ◌>>=◌
  bind-undefined m h = rw (h, StringParser.◌>>=◌)

pub run-returns :
    {A : Type 0} (m : StringParser.Action A) {view rest : Bytes} {a : A}
    → m view ≡ returns (a, rest)
    → run m view ≡ returns (value a, rest)
unfolding run
run-returns m h = >>=-returns m pure h

pub check-none :
    (m : StringParser.Action _) {view rest : Bytes}
    → m view ≡ returns (none, rest)
    → check m view ≡ returns (value tt, rest)
unfolding check
check-none m h = >>=-returns m refusal h

pub check-some :
    (m : StringParser.Action _) {view rest : Bytes} {e : StringParser.ParserError}
    → m view ≡ returns (some e, rest)
    → check m view ≡ returns (unexpected e, rest)
unfolding check
check-some m h = >>=-returns m refusal h

expect_two-space : (s : Bytes) → expect_two ascii_ht b' ' (b' ' ∷ s) ≡ returns (none, s)
unfolding expect_two starts_with
expect_two-space s = refl

-- A path that the request line can hold: no space in it, and no tabulator in front.
abbrev pub IsPath : Bytes → Type 0
IsPath [] = ⊥
IsPath (x ∷ p) = (x ≢ ascii_ht) × Lacks b' ' (x ∷ p)

-- A blank, and no other behind it, is skipped.
module _ {B : Type 0} (k : Unit {0} → Parse B) where
  skip_space :
      (x : ℕ) (s : Bytes)
      → x ≢ ascii_ht
      → x ≢ b' '
      → ((check (expect_two ascii_ht b' ') >>= λ _. run (consume_all_two ascii_ht b' ') >>= k)
          (b' ' ∷ x ∷ s))
        ≡ k tt (x ∷ s)
  skip_space x s h g =
      bind-value (λ _. run (consume_all_two ascii_ht b' ') >>= k) (check (expect_two ascii_ht b' '))
        tt (check-none _ (expect_two-space (x ∷ s)))
      ∙ bind-value k (run (consume_all_two ascii_ht b' ')) tt
          (run-returns _ (consume_all_two-stop ascii_ht b' ' x s h g))

-- The part of the request line behind the method, up to the version
parse_request_line-path :
    (m : HttpMethod) (p tail : Bytes)
    → IsPath p
    → parse_request_line (http_method_strings m ++ b' ' ∷ (p ++ b' ' ∷ b'H' ∷ tail))
      ≡ (run version_string_to_enum >>= λ version. finish_line (new_request m p version))
          (b'H' ∷ tail)
unfolding parse_request_line
parse_request_line-path m [] tail h = absurd h
parse_request_line-path m (x ∷ p) tail (h, l) =
    bind-value _ method_string_to_enum m (method_string_to_enum-http_method_strings m _)
    ∙ skip_space _ x (p ++ b' ' ∷ b'H' ∷ tail) h l.0
    ∙ bind-value _ (run (next_token b' ')) (x ∷ p)
        (run-returns (next_token b' ') (next_token-append b' ' (x ∷ p) (b'H' ∷ tail) l))
    ∙ skip_space _ b'H' tail (omega arith) (omega arith)

finish_line-crlf :
    (m : HttpMethod) (p rest : Bytes) (v : HttpVersion)
    → IsReadable v
    → finish_line (new_request m p v) (crlf ++ rest) ≡ returns (value (new_request m p v), rest)
finish_line-crlf m p rest http_1_0 h = absurd h
finish_line-crlf m p rest http_invalid h = absurd h
finish_line-crlf m p rest http_1_1 h =
    bind-value _ (check (expect crlf)) tt (check-none _ (expect-append crlf rest))
finish_line-crlf m p rest http_2_0 h =
    bind-value _ (check (expect crlf)) tt (check-none _ (expect-append crlf rest))

version-IsReadable :
    (v : HttpVersion) {text : Bytes} (rest : Bytes)
    → IsReadable v
    → http_version_strings v ≡ returns text
    → (tail : Bytes) × (text ≡ b'H' ∷ tail)
      × (version_string_to_enum (b'H' ∷ (tail ++ rest)) ≡ returns (v, rest))
version-IsReadable http_1_0 rest h e = absurd h
version-IsReadable http_invalid rest h e = absurd h
version-IsReadable http_1_1 rest h e = (codes "TTP/1.1", cc, version-http_1_1 rest)
version-IsReadable http_2_0 rest h e = (codes "TTP/2.0", cc, version-http_2_0 rest)

-- A request line printed with version 1.1 or 2.0 and a path without a space gives back the method,
-- the path and the version, and leaves the text behind it.
pub parse_request_line-print :
    (m : HttpMethod) (p rest text : Bytes) (v : HttpVersion)
    → IsPath p
    → IsReadable v
    → http_version_strings v ≡ returns text
    → parse_request_line (http_method_strings m ++ b' ' ∷ (p ++ b' ' ∷ (text ++ (crlf ++ rest))))
      ≡ returns (value (new_request m p v), rest)
parse_request_line-print m p rest text v hp hv e =
    let (tail, is_text, reads) = version-IsReadable v (crlf ++ rest) hv e in
    rw is_text (
      parse_request_line-path m p (tail ++ (crlf ++ rest)) hp
      ∙ bind-value _ (run version_string_to_enum) v (run-returns _ reads)
      ∙ finish_line-crlf m p rest v hv)

-- A request line that says "HTTP/1.0" is refused, since its last digit is still unread.
pub parse_request_line-http_1_0 :
    (m : HttpMethod) (p rest : Bytes)
    → IsPath p
    → parse_request_line
        (http_method_strings m ++ b' ' ∷ (p ++ b' ' ∷ (codes "HTTP/1.0" ++ (crlf ++ rest))))
      ≡ returns (unexpected (expected_characters crlf), b'0' ∷ (crlf ++ rest))
unfolding expect starts_with
parse_request_line-http_1_0 m p rest hp =
    parse_request_line-path m p (codes "TTP/1.0" ++ (crlf ++ rest)) hp
    ∙ bind-value _ (run version_string_to_enum) http_1_1 (run-returns _ (version-http_1_0 _))
    ∙ bind-unexpected _ (check (expect crlf)) (check-some (expect crlf) refl)
