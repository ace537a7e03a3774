-- ===== src/Http/Parser/Language.antt =====
-- `parse_http_request` and the grammar.
use mathlib.Core.Path.{subst}
use simple_serv.Common.{◌≡◌, ◌↔◌, refl, sym, ap, ◌∙◌, List, Bytes}
use simple_serv.Common.Outcome
use simple_serv.Common.Outcome.{returns}
use simple_serv.Utility.StringParser.{value}
use simple_serv.Http.Message.{HttpRequest, HttpVersion, new_request}
use simple_serv.Http.Status.{HttpMethod}
use simple_serv.Http.Parser.Accepted.{set_headers-version}
use simple_serv.Http.Parser.Grammar.{HeaderLines, IsRequestLine, IsRequestText}
use simple_serv.Http.Parser.Inversion.{>>=-eq-value, run-eq-value}
use simple_serv.Http.Parser.RequestLine.{bind-value, run-returns}
use simple_serv.Http.Parser.LineTexts.{parse_request_line-eq-value}
use simple_serv.Http.Parser.LinesRead.{parse_request_line-IsRequestLine}
use simple_serv.Http.Parser.HeaderTexts.{
  parse_message_headers-eq-value, parse_message_headers-HeaderLines,
}
use simple_serv.Http.Parser.{
  Header, set_headers, parse_request_line, parse_message_headers, view_of, run, pure, ◌>>=◌,
  complete, parse_request, parse_http_request,
}

-- A request that is completed from its line, its header lines and its body
complete-IsRequestText :
    (str rest body : Bytes) (method : HttpMethod) (path : Bytes) (version : HttpVersion)
    (hs : List Header)
    → IsRequestLine str (new_request method path version) rest
    → HeaderLines hs rest body
    → IsRequestText str (complete (new_request method path version) hs body)
complete-IsRequestText str rest body method path version hs line_ok headers_ok =
    let kept : version ≡ (set_headers hs (new_request method path version).message).version =
      sym (set_headers-version hs (new_request method path version).message) in
    let h = subst (λ v. IsRequestLine str (new_request method path v) rest) kept line_ok in
    record {
      rest = rest;
      headers = hs;
      line_ok = record {
        blank = h.blank;
        blanks = h.blanks;
        more_blanks = h.more_blanks;
        version_text = h.version_text;
        is_blank = h.is_blank;
        are_blank = h.are_blank;
        path_ok = h.path_ok;
        are_blank_too = h.are_blank_too;
        version_ok = h.version_ok;
        is_line = h.is_line;
      };
      headers_ok = headers_ok;
      headers_set = ap (λ v. (set_headers hs (new_request method path v).message).headers) kept;
    }

-- The request is determined by these parts.
complete-headers :
    (r : HttpRequest) (hs : List Header)
    → r.headers ≡ (set_headers hs (new_request r.method r.path r.version).message).headers
    → complete (new_request r.method r.path r.version) hs r.body ≡ r
complete-headers r hs e =
    ap
      (λ v. record r {
        message = record {
          version = v;
          headers = (set_headers hs (new_request r.method r.path r.version).message).headers;
          body = r.body;
        };
      })
      (set_headers-version hs (new_request r.method r.path r.version).message)
    ∙ ap (λ m. record r { message = record { version = r.version; headers = m; body = r.body } })
        (sym e)

headers-IsRequestText :
    (str rest behind : Bytes) (line r : HttpRequest)
    → line ≡ new_request line.method line.path line.version
    → IsRequestLine str line behind
    → (parse_message_headers >>= λ headers.
          run view_of >>= λ content. pure (complete line headers content))
        behind
      ≡ returns (value r, rest)
    → IsRequestText str r
headers-IsRequestText str rest behind line r fresh line_ok h =
    let (headers, body, first, h') = >>=-eq-value parse_message_headers _ h in
    let (content, last, second, done) =
      >>=-eq-value (run view_of) (λ content. pure (complete line headers content)) {view = body}
        h' in
    let seen : view_of body ≡ returns (content, last) = run-eq-value view_of second in
    let whole : body ≡ content = cc seen in
    let made : complete line headers content ≡ r = cc done in
    let same : complete (new_request line.method line.path line.version) headers body ≡ r =
      ap (λ l. complete l headers body) (sym fresh) ∙ ap (complete line headers) whole ∙ made in
    subst (IsRequestText str) same (
      complete-IsRequestText str behind body line.method line.path line.version headers
        (subst (λ l. IsRequestLine str l behind) fresh line_ok)
        (parse_message_headers-eq-value behind body headers first))

parse_request-eq-value :
    (str rest : Bytes) (r : HttpRequest)
    → parse_request str ≡ returns (value r, rest)
    → IsRequestText str r
unfolding parse_request
parse_request-eq-value str rest r h =
    let (line, behind, first, h') = >>=-eq-value parse_request_line _ h in
    let (fresh, line_ok) = parse_request_line-eq-value str behind line first in
    headers-IsRequestText str rest behind line r fresh line_ok h'

parse_request-IsRequestText :
    (str : Bytes) (r : HttpRequest)
    → IsRequestText str r
    → parse_request str ≡ returns (value r, r.body)
unfolding parse_request
parse_request-IsRequestText str r h =
    let line : HttpRequest = new_request r.method r.path r.version in
    bind-value _ parse_request_line line (parse_request_line-IsRequestLine str h.rest r h.line_ok)
    ∙ bind-value _ parse_message_headers h.headers
        (parse_message_headers-HeaderLines h.rest r.body h.headers h.headers_ok)
    ∙ bind-value (λ content. pure (complete line h.headers content)) (run view_of) r.body
        (run-returns view_of refl)
    ∙ ap (λ s. returns (value s, r.body)) (complete-headers r h.headers h.headers_set)

-- parse_http_request returns a request exactly for the texts of a grammar: the name of its method,
-- blanks, its path (not empty, without a space, no tabulator in front), a space, blanks or none, a
-- version text, CR LF, header lines that each end with CR or LF and any one byte, CR LF, and its
-- body, where the headers are those of the lines, a later line with the same field overriding an
-- earlier one.
pub parse_http_request_iff :
    (str : Bytes) (r : HttpRequest)
    → (parse_http_request str ≡ returns (value r)) ↔ IsRequestText str r
unfolding parse_http_request
parse_http_request_iff str r = (
  λ e.
      let ((result, rest), parsed, kept) = Outcome.>>=-eq-returns (parse_request str) _ e in
      let same : result ≡ value r = cc kept in
      parse_request-eq-value str rest r (parsed ∙ ap (λ s. returns (s, rest)) same),
  λ h. rw (parse_request-IsRequestText str r h),
)
