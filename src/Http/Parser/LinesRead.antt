-- ===== src/Http/Parser/LinesRead.antt =====
-- The request lines of the grammar are read.
use simple_serv.Common.{ℕ, ◌≡◌, refl, ap, ◌∙◌, inr, [], ◌∷◌, ◌++◌, append_assoc, Bytes, All, Lacks}
use simple_serv.Common.Outcome.{returns}
use simple_serv.Utility.StringParser.{value, expect, expect_two, consume_all_two, next_token}
use simple_serv.Utility.StringParser.Laws.{expect-append, next_token-append}
use simple_serv.Utility.StringParser.Inversion.{
  StartsOther, expect_two-either, consume_all_two-append,
}
use simple_serv.Http.Status.{HttpMethod}
use simple_serv.Http.Message.{
  HttpRequest, HttpVersion, new_request, crlf, method_string_to_enum, version_string_to_enum,
}
use simple_serv.Http.Message.Laws.{method_string_to_enum-http_method_strings}
use simple_serv.Http.Message.Version.{
  VersionNumber, two, one_zero, one_one, version_string_to_enum-VersionNumber,
}
use simple_serv.Http.Parser.RequestLine.{IsPath, bind-value, run-returns, check-none}
use simple_serv.Http.Parser.Grammar.{IsBlank, IsDark, IsVersionText, IsRequestLine}
use simple_serv.Http.Parser.{
  ascii_ht, run, check, Parse, ◌>>=◌, ◌>>◌, finish_line, parse_request_line,
}

-- Each part of the grammar is read.
blanks-returns :
    {B : Type 0} (k : Parse B) (blank : ℕ) (blanks mid : Bytes)
    → IsBlank blank
    → All IsBlank blanks
    → StartsOther ascii_ht b' ' mid
    → (check (expect_two ascii_ht b' ') >> (run (consume_all_two ascii_ht b' ') >> k))
        (blank ∷ (blanks ++ mid))
      ≡ k mid
blanks-returns k blank blanks mid is_blank are_blank other =
    bind-value _ (check (expect_two ascii_ht b' ')) tt
      (check-none _ (expect_two-either ascii_ht b' ' blank (blanks ++ mid) is_blank))
    ∙ bind-value _ (run (consume_all_two ascii_ht b' ')) tt
        (run-returns _ (consume_all_two-append ascii_ht b' ' blanks mid are_blank other))

IsPath-Lacks : (path : Bytes) → IsPath path → Lacks b' ' path
IsPath-Lacks [] h = absurd h
IsPath-Lacks (x ∷ path) h = h.1

IsPath-StartsOther : (path tail : Bytes) → IsPath path → StartsOther ascii_ht b' ' (path ++ tail)
IsPath-StartsOther [] tail h = absurd h
IsPath-StartsOther (x ∷ path) tail h = (h.0, h.1.0)

IsDark-StartsOther : (text tail : Bytes) → IsDark text → StartsOther ascii_ht b' ' (text ++ tail)
IsDark-StartsOther [] tail h = absurd h
IsDark-StartsOther (x ∷ text) tail h = h

version_line-returns :
    (method : HttpMethod) (path rest : Bytes) (v : HttpVersion) (text : Bytes)
    → IsVersionText v text
    → (run version_string_to_enum >>= λ version. finish_line (new_request method path version))
        (text ++ (crlf ++ rest))
      ≡ returns (value (new_request method path v), rest)
version_line-returns method path rest v text h =
    let there : text ++ (crlf ++ rest) ≡ h.name ++ (h.number ++ 13 ∷ 10 ∷ rest) =
      ap (λ t. t ++ (crlf ++ rest)) h.is_text ∙ append_assoc h.name h.number (crlf ++ rest) in
    ap (run version_string_to_enum >>= λ version. finish_line (new_request method path version))
      there
    ∙ bind-value (λ version. finish_line (new_request method path version))
        (run version_string_to_enum) v
        (run-returns version_string_to_enum (
          version_string_to_enum-VersionNumber v h.name h.number (10 ∷ rest) h.name_ok h.number_ok))
    ∙ finish_line-VersionNumber method path rest v h.number h.number_ok
  where
    finish_line-VersionNumber :
        (method : HttpMethod) (path rest : Bytes) (v : HttpVersion) (number : Bytes)
        → VersionNumber v number
        → finish_line (new_request method path v) (crlf ++ rest)
          ≡ returns (value (new_request method path v), rest)
    finish_line-VersionNumber method path rest v number (two optional) =
        bind-value _ (check (expect crlf)) tt (check-none _ (expect-append crlf rest))
    finish_line-VersionNumber method path rest v number (one_zero major point ne optional) =
        bind-value _ (check (expect crlf)) tt (check-none _ (expect-append crlf rest))
    finish_line-VersionNumber method path rest v number
          (one_one major minor point last ne optional ne' there) =
        bind-value _ (check (expect crlf)) tt (check-none _ (expect-append crlf rest))

-- A request line of the grammar is read.
pub parse_request_line-IsRequestLine :
    (view rest : Bytes) (r : HttpRequest)
    → IsRequestLine view r rest
    → parse_request_line view ≡ returns (value (new_request r.method r.path r.version), rest)
unfolding parse_request_line
parse_request_line-IsRequestLine view rest r h =
    let behind : Bytes = h.version_text ++ (crlf ++ rest) in
    let tail : Bytes = h.more_blanks ++ behind in
    ap parse_request_line h.is_line
    ∙ bind-value _ method_string_to_enum r.method
        (method_string_to_enum-http_method_strings r.method _)
    ∙ blanks-returns _ h.blank h.blanks (r.path ++ b' ' ∷ tail) h.is_blank h.are_blank
        (IsPath-StartsOther r.path (b' ' ∷ tail) h.path_ok)
    ∙ bind-value _ (run (next_token b' ')) r.path
        (run-returns _ (next_token-append b' ' r.path tail (IsPath-Lacks r.path h.path_ok)))
    ∙ blanks-returns _ b' ' h.more_blanks behind (inr refl) h.are_blank_too
        (IsDark-StartsOther h.version_text (crlf ++ rest) h.version_ok.dark)
    ∙ version_line-returns r.method r.path rest r.version h.version_text h.version_ok
