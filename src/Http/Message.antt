-- ===== src/Http/Message.antt =====
-- include/simpleserv/http/message.hpp: reading a method and a version off a request, and the
-- messages themselves with their printers.
pub mod Laws
pub mod Inversion
pub mod Version
use simple_serv.Common.{
  ℕ, Bool, true, false, Option, none, some, List, [], ◌∷◌, ◌++◌, Bytes, codes, ◌==◌, if◌then◌else◌,
}
use simple_serv.Common.Dict.{Dict, insert_sorted}
use simple_serv.Common.Outcome
use simple_serv.Common.Outcome.{Outcome, returns, undefined}
use simple_serv.Utility.StringParser
use simple_serv.Utility.StringParser.{
  Action, Expected, value, unexpected, ParserError, invalid_method, pure, ◌>>=◌, ◌>>◌, move, expect,
  next_token,
}
use simple_serv.Http.Status.{
  HttpMethod, get, post, put, delete, head, options, trace, connect, http_method_strings,
  HttpStatusCode, status_code_to_string,
}

abbrev pub transform_fn : HttpMethod → Option ParserError → Expected HttpMethod
transform_fn method none = value method
transform_fn method (some e) = unexpected e

-- One case of the `switch`: the first letter is skipped, the others are expected.
abbrev finish_method : HttpMethod → Bytes → Action (Expected HttpMethod)
finish_method method others = do move 1; res ← expect others; pure (transform_fn method res)

abbrev post_or_put : Action (Expected HttpMethod)
post_or_put = do
  move 1
  second ← StringParser.head
  if second == b'O'
      then finish_method post (codes "ST")
      else do res ← expect (codes "UT"); pure (transform_fn put res)

abbrev no_method : Action (Expected HttpMethod)
no_method = do next_token b' '; pure (unexpected invalid_method)

-- The `switch` on the first letter
abbrev method_from : ℕ → Action (Expected HttpMethod)
method_from first =
    if first == b'G'
    then finish_method get (codes "ET")
    else if first == b'P'
    then post_or_put
    else if first == b'D'
    then finish_method delete (codes "ELETE")
    else if first == b'H'
    then finish_method head (codes "EAD")
    else if first == b'O'
    then finish_method options (codes "PTIONS")
    else if first == b'T'
    then finish_method trace (codes "RACE")
    else if first == b'C'
    then finish_method connect (codes "ONNECT")
    else no_method

unfoldable pub method_string_to_enum : Action (Expected HttpMethod)
unfolding ◌>>=◌ move expect next_token StringParser.head
method_string_to_enum = do first ← StringParser.head; method_from first

pub data HttpVersion : Type 0 where
  http_1_0 http_1_1 http_2_0 http_invalid : HttpVersion

-- `HTTP_VERSION_STRINGS[version]`: the array has three entries.
abbrev pub http_version_strings : HttpVersion → Outcome Bytes
http_version_strings http_1_0 = returns (codes "HTTP/1.0")
http_version_strings http_1_1 = returns (codes "HTTP/1.1")
http_version_strings http_2_0 = returns (codes "HTTP/2.0")
http_version_strings http_invalid = undefined

abbrev version_2 : Action HttpVersion
version_2 = do move 1; expect (codes ".0"); pure http_2_0

abbrev version_1 : Action HttpVersion
version_1 = do
  move 1
  expect (codes "1.")
  head1 ← StringParser.head
  if head1 == b'0' then (do move 1; pure http_1_0) else do move 1; expect (codes "1"); pure http_1_1

-- What `expect` returns is dropped each time.
unfoldable pub version_string_to_enum : Action HttpVersion
unfolding ◌>>=◌ move expect StringParser.head
version_string_to_enum = do
  expect (codes "HTTP/")
  first ← StringParser.head
  if first == b'2' then version_2 else version_1

pub record HttpMessage : Type 0 where
  pub version : HttpVersion
  pub headers : Dict Bytes
  pub body : Bytes

-- `SetHeader` and `SetContent`
unfoldable pub set_header : Bytes → Bytes → HttpMessage → HttpMessage
set_header key val m = record m { headers = insert_sorted key val m.headers }

abbrev pub set_content : Bytes → HttpMessage → HttpMessage
set_content content m = record m { body = content }

-- The derived classes hold their base class as `message`.
pub record HttpRequest : Type 0 where
  pub method : HttpMethod
  pub path : Bytes
  pub message : HttpMessage
  pub open message use *

pub record HttpResponse : Type 0 where
  pub status_code : HttpStatusCode
  pub message : HttpMessage
  pub open message use *

-- The constructors
abbrev pub new_request : HttpMethod → Bytes → HttpVersion → HttpRequest
new_request method path version = record {
  method = method;
  path = path;
  message = record { version = version; headers = []; body = [] };
}

abbrev pub new_response : HttpStatusCode → HttpVersion → HttpResponse
new_response status_code version = record {
  status_code = status_code;
  message = record { version = version; headers = []; body = [] };
}

abbrev pub crlf : Bytes
crlf = 13 ∷ 10 ∷ []

unfoldable pub print_headers : Dict Bytes → Bytes
print_headers [] = []
print_headers ((key, val) ∷ m) = key ++ b':' ∷ b' ' ∷ (val ++ 13 ∷ 10 ∷ print_headers m)

-- `operator<<`
unfoldable pub print_request : HttpRequest → Outcome Bytes
unfolding print_headers
print_request r = Outcome.◌>>=◌ (http_version_strings r.version) λ version. returns (
    http_method_strings r.method
    ++ b' '
      ∷ (r.path ++ b' ' ∷ (version ++ (crlf ++ (print_headers r.headers ++ (crlf ++ r.body))))))

unfoldable pub print_response : HttpResponse → Outcome Bytes
unfolding print_headers
print_response r = Outcome.◌>>=◌ (http_version_strings r.version) λ version. returns (
    version
    ++ b' '
      ∷ (status_code_to_string r.status_code
          ++ (crlf ++ (print_headers r.headers ++ (crlf ++ r.body)))))

-- `HTTPResponse::to_string`
unfoldable pub to_string : HttpResponse → Outcome Bytes
unfolding print_response
to_string r = print_response r
