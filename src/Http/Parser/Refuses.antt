-- ===== src/Http/Parser/Refuses.antt =====
-- Whole requests that `parse_http_request` does not accept.
use simple_serv.Common.{
  inl, find_any-append, take-length-append, ◌≢◌, ◌∙◌, Lacks, ◌≡◌, refl, [], ◌∷◌, ◌++◌, Bytes, codes,
}
use simple_serv.Common.Outcome.{undefined, returns, throws, out_of_range}
use simple_serv.Utility.StringParser.{unexpected, expected_characters}
use simple_serv.Http.Status.{HttpMethod, http_method_strings}
use simple_serv.Http.Message.{new_request, http_1_1, method_string_to_enum, crlf}
use simple_serv.Http.Parser.RequestLine.{
  bind-value, bind-undefined, parse_request_line-print, IsPath, bind-unexpected,
  parse_request_line-http_1_0,
}
use simple_serv.Http.Parser.Headers.{starts_with-crlf}
use simple_serv.Utility.StringParser.Laws.{next_token_of-Lacks}
use simple_serv.Http.Parser.{
  parse_header, header_step, header_loop, parse_message_headers, parse_request_line, parse_request,
  parse_http_request,
}

-- A request that names HTTP/1.0 is refused because CR LF does not follow the version, whatever its
-- method, path, headers and body, if the path is not empty, has no space and does not start with a
-- tabulator.
pub parse_http_request-http_1_0 :
    (m : HttpMethod) (p rest : Bytes)
    → IsPath p
    → parse_http_request
        (http_method_strings m ++ b' ' ∷ (p ++ b' ' ∷ (codes "HTTP/1.0" ++ (crlf ++ rest))))
      ≡ returns (unexpected (expected_characters crlf))
unfolding parse_http_request parse_request
parse_http_request-http_1_0 m p rest h =
    rw (bind-unexpected _ parse_request_line (parse_request_line-http_1_0 m p rest h))

pub parse_http_request-nil : parse_http_request [] ≡ throws out_of_range
unfolding parse_http_request parse_request_line method_string_to_enum
parse_http_request-nil = refl

-- A header line with no space in it
abbrev pub IsUnspaced : Bytes → Type 0
IsUnspaced line = (line ≢ []) × Lacks b' ' line × Lacks 13 line × Lacks 10 line

parse_header-IsUnspaced : (line : Bytes) → Lacks b' ' line → parse_header line ≡ undefined
unfolding parse_header
parse_header-IsUnspaced line h = rw (next_token_of-Lacks b' ' line h)

header_step-IsUnspaced :
    (line rest : Bytes) → IsUnspaced line → header_step (line ++ 13 ∷ 10 ∷ rest) ≡ undefined
unfolding header_step
header_step-IsUnspaced line rest (ne, no_space, no_cr, no_lf) =
    rw (starts_with-crlf line (13 ∷ 10 ∷ rest) no_cr ne) (
      rw (find_any-append 13 10 13 line (10 ∷ rest) (inl refl) no_cr no_lf) (
        rw (take-length-append line (13 ∷ 10 ∷ rest)) (rw (parse_header-IsUnspaced line no_space))))

parse_message_headers-IsUnspaced :
    (line rest : Bytes)
    → IsUnspaced line
    → parse_message_headers (line ++ 13 ∷ 10 ∷ rest) ≡ undefined
unfolding parse_message_headers header_loop
parse_message_headers-IsUnspaced line rest h = rw (header_step-IsUnspaced line rest h)

parse_request-IsUnspaced :
    (m : HttpMethod) (p line rest : Bytes)
    → IsPath p
    → IsUnspaced line
    → parse_request (
        http_method_strings m
        ++ b' ' ∷ (p ++ b' ' ∷ (codes "HTTP/1.1" ++ (crlf ++ (line ++ 13 ∷ 10 ∷ rest)))))
      ≡ undefined
unfolding parse_request
parse_request-IsUnspaced m p line rest hp h =
    bind-value _ parse_request_line (new_request m p http_1_1)
      (parse_request_line-print m p (line ++ 13 ∷ 10 ∷ rest) (codes "HTTP/1.1") http_1_1 hp tt refl)
    ∙ bind-undefined _ parse_message_headers (parse_message_headers-IsUnspaced line rest h)

-- A request with version 1.1 and a path without a space, whose first header line is not empty and
-- has no space, CR or LF in it, has undefined behaviour: the prefix of length npos is removed.
pub parse_http_request-IsUnspaced :
    (m : HttpMethod) (p line rest : Bytes)
    → IsPath p
    → IsUnspaced line
    → parse_http_request (
        http_method_strings m
        ++ b' ' ∷ (p ++ b' ' ∷ (codes "HTTP/1.1" ++ (crlf ++ (line ++ 13 ∷ 10 ∷ rest)))))
      ≡ undefined
unfolding parse_http_request
parse_http_request-IsUnspaced m p line rest hp h = rw (parse_request-IsUnspaced m p line rest hp h)
