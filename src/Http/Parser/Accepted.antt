-- ===== src/Http/Parser/Accepted.antt =====
-- What holds of every request that the parser accepts.
use mathlib.Core.Path.{subst}
use simple_serv.Common.{ℕ, ◌≡◌, ◌≢◌, refl, sym, ◌∙◌, [], ◌∷◌, Bytes, Lacks, List}
use simple_serv.Common.Dict.Sorted.{IsSorted, insert_sorted-IsSorted}
use simple_serv.Common.Outcome
use simple_serv.Common.Outcome.{Outcome, returns, throws, undefined}
use simple_serv.Utility.StringParser
use simple_serv.Utility.StringParser.{
  Action, Expected, value, unexpected, expect, expect_two, consume_all_two, next_token,
}
use simple_serv.Utility.StringParser.Ensures.{Ensures, Ensures-pure, Ensures-if, Ensures-after}
use simple_serv.Utility.StringParser.Reads.{IsEnd}
use simple_serv.Utility.StringParser.Inversion.{next_token-eq}
use simple_serv.Http.Status.{HttpMethod}
use simple_serv.Http.Message.{
  HttpRequest, HttpMessage, HttpVersion, http_invalid, new_request, set_header, set_content, crlf,
  method_string_to_enum, version_string_to_enum,
}
use simple_serv.Http.Message.Laws.{Ensures-version}
use simple_serv.Http.Parser.Reads.{parse_http_request-body}
use simple_serv.Http.Parser.{
  Parse, ascii_ht, ◌>>=◌, fail, run, check, follow, finish_line, parse_request_line, Header,
  set_headers, parse_message_headers, view_of, parse_request, parse_http_request,
}

-- `P` holds of a value that is not an error.
abbrev OnValue : {A : Type 0} → (A → Type 0) → Expected A → Type 0
OnValue P (value a) = P a
OnValue P (unexpected e) = Unit

module _ {A : Type 0} where
  Accepts-any : (m : Parse A) → Ensures (OnValue (λ _. Unit)) m
  Accepts-any m = record {
    at = λ view rest r e. elim r as (λ r. OnValue (λ _. Unit) r) [
      | value a ↦ tt
      | unexpected x ↦ tt
    ];
  }

  Accepts-fail : (P : A → Type 0) (e : StringParser.ParserError) → Ensures (OnValue P) (fail e)
  Accepts-fail P e = Ensures-pure (unexpected e) tt

  Accepts-run : (P : A → Type 0) (m : Action A) → Ensures P m → Ensures (OnValue P) (run m)
  unfolding run
  Accepts-run P m h = Ensures-after m _ h (λ a p. Ensures-pure (value a) p)

module _ {A B : Type 0} where
  Accepts-follow :
      (P : B → Type 0) (Q : A → Type 0) (f : A → Parse B)
      → ((a : A) → Q a → Ensures (OnValue P) (f a))
      → (r : Expected A) → OnValue Q r
      → Ensures (OnValue P) (follow r f)
  Accepts-follow P Q f hf (value a) q = hf a q
  Accepts-follow P Q f hf (unexpected e) q = Accepts-fail P e

  Accepts-bind :
      (P : B → Type 0) (Q : A → Type 0) (m : Parse A) (f : A → Parse B)
      → Ensures (OnValue Q) m
      → ((a : A) → Q a → Ensures (OnValue P) (f a))
      → Ensures (OnValue P) (m >>= f)
  unfolding ◌>>=◌
  Accepts-bind P Q m f hm hf = Ensures-after m (λ r. follow r f) hm (Accepts-follow P Q f hf)

  -- A step whose value does not matter
  Accepts-then :
      (P : B → Type 0) (m : Parse A) (f : A → Parse B)
      → ((a : A) → Ensures (OnValue P) (f a))
      → Ensures (OnValue P) (m >>= f)
  Accepts-then P m f hf = Accepts-bind P (λ _. Unit) m f (Accepts-any m) (λ a _. hf a)

Ensures-next_token : (c : ℕ) → Ensures (Lacks c) (next_token c)
Ensures-next_token c = record {
  at = λ view rest token e. let (_, lacks, _, _) = next_token-eq c view token rest e in lacks;
}

-- What the constructor of a request is given
record IsLine (r : HttpRequest) : Type 0 where
  path_lacks : Lacks b' ' r.path
  version_ne : r.message.version ≢ http_invalid
  no_headers : r.message.headers ≡ []

finish_line-IsLine :
    (method : HttpMethod) (path : Bytes) (version : HttpVersion)
    → Lacks b' ' path
    → version ≢ http_invalid
    → Ensures (OnValue IsLine) (finish_line (new_request method path version))
finish_line-IsLine method path version lacks ne = Ensures-if _ _ _ (Accepts-fail IsLine _) (
    Accepts-then IsLine (check (expect crlf)) _ λ _.
      Ensures-pure (value (new_request method path version))
        (record { path_lacks = lacks; version_ne = ne; no_headers = refl }))

parse_request_line-IsLine : Ensures (OnValue IsLine) parse_request_line
unfolding parse_request_line
parse_request_line-IsLine = Accepts-then IsLine method_string_to_enum _ λ method.
    Accepts-then IsLine (check (expect_two ascii_ht b' ')) _ λ _.
      Accepts-then IsLine (run (consume_all_two ascii_ht b' ')) _ λ _.
        Accepts-bind IsLine (Lacks b' ') (run (next_token b' ')) _
          (Accepts-run _ _ (Ensures-next_token b' '))
          λ path lacks. Accepts-then IsLine (check (expect_two ascii_ht b' ')) _ λ _.
            Accepts-then IsLine (run (consume_all_two ascii_ht b' ')) _ λ _.
              Accepts-bind IsLine (λ v. v ≢ http_invalid) (run version_string_to_enum) _
                (Accepts-run _ _ Ensures-version)
                λ version ne. finish_line-IsLine method path version lacks ne

set_headers-IsSorted :
    (hs : List Header) (m : HttpMessage) → IsSorted m.headers → IsSorted (set_headers hs m).headers
unfolding set_headers set_header
set_headers-IsSorted [] m h = h
set_headers-IsSorted (x ∷ hs) m h =
    set_headers-IsSorted hs (set_header x.key x.val m)
      (insert_sorted-IsSorted x.key x.val m.headers h)

pub set_headers-version :
    (hs : List Header) (m : HttpMessage) → (set_headers hs m).version ≡ m.version
unfolding set_headers set_header
set_headers-version [] m = refl
set_headers-version (x ∷ hs) m = set_headers-version hs (set_header x.key x.val m)

-- What the handler may rely on
pub record IsAccepted (r : HttpRequest) : Type 0 where
  pub path_lacks : Lacks b' ' r.path
  pub version_ne : r.message.version ≢ http_invalid
  pub headers_sorted : IsSorted r.message.headers

complete-IsAccepted :
    (r : HttpRequest) (hs : List Header) (content : Bytes)
    → IsLine r
    → IsAccepted (record r { message = set_content content (set_headers hs r.message) })
complete-IsAccepted r hs content h = record {
  path_lacks = h.path_lacks;
  version_ne = λ e. h.version_ne (sym (set_headers-version hs r.message) ∙ e);
  headers_sorted = set_headers-IsSorted hs r.message (subst IsSorted (sym h.no_headers) tt);
}

parse_request-IsAccepted : Ensures (OnValue IsAccepted) parse_request
unfolding parse_request
parse_request-IsAccepted =
    Accepts-bind IsAccepted IsLine parse_request_line _ parse_request_line-IsLine λ r line.
      Accepts-then IsAccepted parse_message_headers _ λ hs.
        Accepts-then IsAccepted (run view_of) _ λ content.
          Ensures-pure
            (value (record r { message = set_content content (set_headers hs r.message) }))
            (complete-IsAccepted r hs content line)

-- A request that parse_http_request returns has a path without a space, a version other than
-- HTTP_INVALID and headers in strict key order, and its body is the end of the text.
pub parse_http_request-IsAccepted :
    (str : Bytes) (r : HttpRequest)
    → parse_http_request str ≡ returns (value r)
    → IsAccepted r × IsEnd str r.body
unfolding parse_http_request
parse_http_request-IsAccepted str r e =
    let ((result, rest), parsed, kept) = Outcome.>>=-eq-returns (parse_request str) _ e in
    let same : result ≡ value r = cc kept in
    (
      subst (OnValue IsAccepted) same (parse_request-IsAccepted.at str rest result parsed),
      parse_http_request-body str r e,
    )
