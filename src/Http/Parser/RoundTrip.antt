-- ===== src/Http/Parser/RoundTrip.antt =====
-- Parsing what `operator<<` prints for a request.
use simple_serv.Common.{
  inl, ℕ, zero, suc, ◌≤◌, ◌<◌, ◌≡◌, refl, ap, ◌∙◌, some, List, [], ◌∷◌, ◌++◌, append_assoc,
  append-nil, arith, Bytes, All, length, length-append,
}
use simple_serv.Common.Dict.{Dict}
use simple_serv.Common.Dict.Sorted.{IsSorted, insert_sorted-last, All-before}
use simple_serv.Common.Outcome.{returns}
use simple_serv.Utility.StringParser.{value}
use simple_serv.Http.Status.{http_method_strings}
use simple_serv.Http.Message.{
  HttpRequest, HttpMessage, HttpVersion, http_1_0, http_1_1, http_2_0, http_invalid,
  http_version_strings, new_request, print_headers, print_request, crlf, set_content,
}
use simple_serv.Http.Parser.Headers.{line_of, IsPlain, header_step-line_of, header_step-crlf}
use simple_serv.Http.Parser.RequestLine.{
  IsPath, IsReadable, bind-value, run-returns, parse_request_line-print,
}
use simple_serv.Http.Parser.{
  Header, header_loop, parse_message_headers, set_headers, parse_request, parse_request_line,
  parse_http_request, complete, run, view_of, pure,
}

abbrev header_of_pair : Bytes × Bytes → Header
header_of_pair (k, v) = record { key = k; val = v }

abbrev headers_of : Dict Bytes → List Header
headers_of [] = []
headers_of (p ∷ m) = header_of_pair p ∷ headers_of m

abbrev pub AllPlain : Dict Bytes → Type 0
AllPlain = All (λ p. IsPlain (header_of_pair p))

print_headers-cons :
    (k v rest : Bytes) (m : Dict Bytes)
    → print_headers ((k, v) ∷ m) ++ rest
      ≡ line_of (header_of_pair (k, v)) ++ 13 ∷ 10 ∷ (print_headers m ++ rest)
unfolding print_headers
print_headers-cons k v rest m = simp append_assoc

print_headers-nil : print_headers [] ≡ []
unfolding print_headers
print_headers-nil = refl

header_loop-print_headers :
    (fuel : ℕ) (hs : List Header) (m : Dict Bytes) (body : Bytes)
    → length m < fuel
    → AllPlain m
    → header_loop fuel hs (print_headers m ++ (crlf ++ body))
      ≡ some (returns (value (hs ++ headers_of m, body)))
unfolding header_loop
header_loop-print_headers zero hs m body h p = absurd (omega arith)
header_loop-print_headers (suc fuel) hs [] body h p =
    rw (print_headers-nil, header_step-crlf body, append-nil)
header_loop-print_headers (suc fuel) hs ((k, v) ∷ m) body h (p, ps) =
    rw (print_headers-cons k v (crlf ++ body) m) (
      rw
        (header_step-line_of (header_of_pair (k, v)) 13 10 (print_headers m ++ (crlf ++ body)) p
          (inl refl))
        (header_loop-print_headers fuel (hs ++ header_of_pair (k, v) ∷ []) m body (omega arith) ps
          ∙ rw append_assoc))

-- Headers set in the order of their keys come to stand in that order.
set_headers-IsSorted :
    (n : Dict Bytes) (m : HttpMessage)
    → IsSorted (m.headers ++ n)
    → set_headers (headers_of n) m ≡ record m { headers = m.headers ++ n }
unfolding set_headers
set_headers-IsSorted [] m h = rw append-nil
set_headers-IsSorted ((k, v) ∷ n) m h =
    ap (λ hs. set_headers (headers_of n) (record m { headers = hs }))
      (insert_sorted-last k v m.headers (All-before k m.headers n v h))
    ∙ set_headers-IsSorted n (record m { headers = m.headers ++ (k, v) ∷ [] }) (rw append_assoc h)
    ∙ rw append_assoc

length-print_headers : (m : Dict Bytes) (rest : Bytes) → length m ≤ length (print_headers m ++ rest)
length-print_headers [] rest = omega arith
length-print_headers ((k, v) ∷ m) rest = rw (print_headers-cons k v rest m) (
    omega (
      arith,
      length-print_headers m rest,
      length-append {0} (line_of (header_of_pair (k, v))) (13 ∷ 10 ∷ (print_headers m ++ rest)),
    ))

version_text :
    (v : HttpVersion) → IsReadable v → (text : Bytes) × (http_version_strings v ≡ returns text)
version_text http_1_0 h = absurd h
version_text http_invalid h = absurd h
version_text http_1_1 h = (_, refl)
version_text http_2_0 h = (_, refl)

-- A request that can be printed and read again.
pub record IsPrintable (r : HttpRequest) : Type 0 where
  pub path_ok : IsPath r.path
  pub version_ok : IsReadable r.version
  pub headers_plain : AllPlain r.headers
  pub headers_sorted : IsSorted r.headers

parse_message_headers-print_headers :
    (m : Dict Bytes) (body : Bytes)
    → AllPlain m
    → parse_message_headers (print_headers m ++ (crlf ++ body))
      ≡ returns (value (headers_of m), body)
unfolding parse_message_headers
parse_message_headers-print_headers m body h =
    let enough = length-print_headers m (crlf ++ body) in
    rw (
      header_loop-print_headers (suc (length (print_headers m ++ (crlf ++ body)))) [] m body
        (omega arith) h)

complete-IsSorted :
    (r : HttpRequest)
    → IsSorted r.headers
    → complete (new_request r.method r.path r.version) (headers_of r.headers) r.body ≡ r
complete-IsSorted r h =
    ap (λ m. record r { message = set_content r.body m })
      (set_headers-IsSorted r.headers (new_request r.method r.path r.version).message h)

-- What `operator<<` writes, with `version` for the text of the version
abbrev request_text : HttpRequest → Bytes → Bytes
request_text r version =
    http_method_strings r.method
    ++ b' '
      ∷ (r.path ++ b' ' ∷ (version ++ (crlf ++ (print_headers r.headers ++ (crlf ++ r.body)))))

parse_request-print :
    (r : HttpRequest) (text : Bytes)
    → IsPrintable r
    → http_version_strings r.version ≡ returns text
    → parse_request (request_text r text) ≡ returns (value r, r.body)
unfolding parse_request
parse_request-print r text h e =
    bind-value _ parse_request_line (new_request r.method r.path r.version)
      (parse_request_line-print r.method r.path _ text r.version h.path_ok h.version_ok e)
    ∙ bind-value _ parse_message_headers (headers_of r.headers)
        (parse_message_headers-print_headers r.headers r.body h.headers_plain)
    ∙ bind-value
        (λ content.
          pure (complete (new_request r.method r.path r.version) (headers_of r.headers) content))
        (run view_of) r.body (run-returns view_of refl)
    ∙ ap (λ s. returns (value s, r.body)) (complete-IsSorted r h.headers_sorted)

-- A request that is printable (path without space, version 1.1 or 2.0, plain header lines, headers
-- in key order) is read back by parse_http_request from what operator<< prints for it.
pub parse_http_request-print_request :
    (r : HttpRequest)
    → IsPrintable r
    → (text : Bytes) × (print_request r ≡ returns text)
      × (parse_http_request text ≡ returns (value r))
unfolding parse_http_request print_request
parse_http_request-print_request r h =
    let (text, e) = version_text r.version h.version_ok in
    (request_text r text, rw e, rw (parse_request-print r text h e))
