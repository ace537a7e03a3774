-- ===== src/Http/RequestHandler.antt =====
-- src/simpleserv/http/request_handler.cpp and include/simpleserv/http/request_handler.hpp: one
-- function for each method, over a handler that the application supplies. A handler is an argument:
-- the member function that the source calls on it.
pub mod Laws
use simple_serv.Common.{Option, List, [], ◌∷◌, Bytes, codes, str_eq, if◌then◌else◌}
use simple_serv.Common.Dict.{Dict, lookup}
use simple_serv.Http.Status.{HttpStatusCode, accepted, internal_server_error, not_implemented}
use simple_serv.Http.Message.{
  HttpRequest, HttpResponse, HttpMessage, http_1_1, new_response, set_header, set_content,
}

pub data GetResultState : Type 0 where
  ok not_found error moved_permanently : GetResultState

pub record GetResult : Type 0 where
  pub state : GetResultState
  pub body : Bytes

abbrev pub GetCondition : Type 0
GetCondition = Option Bytes

pub record GetConditionals : Type 0 where
  pub modified_since : GetCondition
  pub unmodified_since : GetCondition
  pub if_match : GetCondition
  pub none_match : GetCondition

pub data PostResultState : Type 0 where
  ok created no_content see_other error : PostResultState

pub record PostResult : Type 0 where
  pub state : PostResultState
  pub body : Bytes

pub data PutResult : Type 0 where
  ok not_found error moved_permanently unimplemented : PutResult

pub data DeleteResult : Type 0 where
  deleted delete_accepted not_found error : DeleteResult

-- The interfaces: a class with one virtual member function is the type of that function.
abbrev pub IGetRequestHandler : Type 0
IGetRequestHandler = Bytes → GetConditionals → GetResult

abbrev pub IHeadRequestHandler : Type 0
IHeadRequestHandler = Bytes → Dict Bytes

abbrev pub IPostRequestHandler : Type 0
IPostRequestHandler = Bytes → Bytes → PostResult

abbrev pub IPutRequestHandler : Type 0
IPutRequestHandler = Bytes → Bytes → PutResult

abbrev pub IDeleteRequestHandler : Type 0
IDeleteRequestHandler = Bytes → DeleteResult

abbrev with_body : Bytes → HttpResponse → HttpResponse
with_body content r = record r { message = set_content content r.message }

unfoldable pub options_request : HttpRequest → HttpResponse
unfolding set_header str_eq
options_request request =
    let response = new_response HttpStatusCode.ok http_1_1 in
    if str_eq request.path (codes "*")
    then record response {
      message =
          set_header (codes "Allow") (codes "GET, HEAD, POST, PUT, DELETE, TRACE, OPTIONS")
            response.message;
    }
    else response

-- `find_if_exists`
unfoldable pub find_if_exists {ℓ} : {V : Type ℓ} → Dict V → Bytes → Option V
unfolding lookup
find_if_exists m key = lookup key m

abbrev pub conditionals_of : HttpRequest → GetConditionals
conditionals_of request = record {
  modified_since = find_if_exists request.headers (codes "If-Modified-Since");
  unmodified_since = find_if_exists request.headers (codes "If-Unmodified-Since");
  if_match = find_if_exists request.headers (codes "If-Match");
  none_match = find_if_exists request.headers (codes "If-None-Match");
}

-- The `switch` of `get_request`
abbrev get_response : Bytes → GetResultState → HttpResponse
get_response body GetResultState.ok = with_body body (new_response HttpStatusCode.ok http_1_1)
get_response body GetResultState.not_found = new_response HttpStatusCode.not_found http_1_1
get_response body GetResultState.error = new_response internal_server_error http_1_1
get_response body GetResultState.moved_permanently =
    new_response HttpStatusCode.moved_permanently http_1_1

unfoldable pub get_request : IGetRequestHandler → HttpRequest → HttpResponse
get_request get request =
    let result = get request.path (conditionals_of request) in get_response result.body result.state

-- The loop of `head_request`
unfoldable pub set_all : Dict Bytes → HttpMessage → HttpMessage
unfolding set_header
set_all [] m = m
set_all ((key, val) ∷ more) m = set_all more (set_header key val m)

unfoldable pub head_request : IHeadRequestHandler → HttpRequest → HttpResponse
unfolding set_all
head_request head request =
    let response = new_response HttpStatusCode.ok http_1_1 in
    record response { message = set_all (head request.path) response.message }

abbrev post_response : Bytes → PostResultState → HttpResponse
post_response body PostResultState.ok = with_body body (new_response HttpStatusCode.ok http_1_1)
post_response body PostResultState.created =
    with_body body (new_response HttpStatusCode.created http_1_1)
post_response body PostResultState.no_content = new_response HttpStatusCode.no_content http_1_1
post_response body PostResultState.see_other = new_response HttpStatusCode.see_other http_1_1
post_response body PostResultState.error = new_response internal_server_error http_1_1

unfoldable pub post_request : IPostRequestHandler → HttpRequest → HttpResponse
post_request post request =
    let result = post request.path request.body in post_response result.body result.state

abbrev put_response : PutResult → HttpResponse
put_response PutResult.ok = new_response HttpStatusCode.ok http_1_1
put_response PutResult.not_found = new_response HttpStatusCode.not_found http_1_1
put_response PutResult.error = new_response internal_server_error http_1_1
put_response PutResult.moved_permanently = new_response HttpStatusCode.moved_permanently http_1_1
put_response PutResult.unimplemented = new_response not_implemented http_1_1

unfoldable pub put_request : IPutRequestHandler → HttpRequest → HttpResponse
put_request put request = put_response (put request.path request.body)

abbrev delete_response : DeleteResult → HttpResponse
delete_response deleted = new_response HttpStatusCode.ok http_1_1
delete_response delete_accepted = new_response accepted http_1_1
delete_response DeleteResult.not_found = new_response HttpStatusCode.not_found http_1_1
delete_response DeleteResult.error = new_response internal_server_error http_1_1

unfoldable pub delete_request : IDeleteRequestHandler → HttpRequest → HttpResponse
delete_request del request = delete_response (del request.path)

unfoldable pub trace_request : HttpRequest → HttpResponse
trace_request request = with_body request.body (new_response HttpStatusCode.ok http_1_1)
