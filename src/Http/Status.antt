-- ===== src/Http/Status.antt =====
-- include/simpleserv/http/http.hpp: methods, status codes and their texts.
pub mod Laws
use simple_serv.Common.{ℕ, List, [], ◌∷◌, Bytes, codes}

pub data HttpMethod : Type 0 where
  get post put delete head options trace connect : HttpMethod

-- `HTTP_METHOD_STRINGS`, indexed by the enumerators in their order
abbrev pub http_method_strings : HttpMethod → Bytes
http_method_strings get = codes "GET"
http_method_strings post = codes "POST"
http_method_strings put = codes "PUT"
http_method_strings delete = codes "DELETE"
http_method_strings head = codes "HEAD"
http_method_strings options = codes "OPTIONS"
http_method_strings trace = codes "TRACE"
http_method_strings connect = codes "CONNECT"

pub data HttpStatusCode : Type 0 where
  continue switching_protocols : HttpStatusCode
  ok created accepted no_content : HttpStatusCode
  multiple_choices moved_permanently found see_other not_modified : HttpStatusCode
  bad_request unauthorized forbidden not_found : HttpStatusCode
  internal_server_error not_implemented bad_gateway service_unavailable : HttpStatusCode

-- The value of each enumerator.
unfoldable pub status_value : HttpStatusCode → ℕ
status_value continue = 100
status_value switching_protocols = 101
status_value ok = 200
status_value created = 201
status_value accepted = 202
status_value no_content = 204
status_value multiple_choices = 300
status_value moved_permanently = 301
status_value found = 302
status_value see_other = 303
status_value not_modified = 304
status_value bad_request = 400
status_value unauthorized = 401
status_value forbidden = 403
status_value not_found = 404
status_value internal_server_error = 500
status_value not_implemented = 501
status_value bad_gateway = 502
status_value service_unavailable = 503

-- `HTTP_RESPONSE_STATUS`
abbrev pub http_response_status : List Bytes
http_response_status =
    codes "100 Continue"
    ∷ codes "101 Switching Protocols"
    ∷ codes "200 OK"
    ∷ codes "201 Created"
    ∷ codes "202 Accepted"
    ∷ codes "204 No Content"
    ∷ codes "301 Moved Permanently"
    ∷ codes "302 Found"
    ∷ codes "304 Not Modified"
    ∷ codes "400 Bad Request"
    ∷ codes "401 Unauthorized"
    ∷ codes "403 Forbidden"
    ∷ codes "404 Not Found"
    ∷ codes "500 Internal Server Error"
    ∷ codes "501 Not Implemented"
    ∷ codes "502 Bad Gateway"
    ∷ codes "503 Service Unavailable"
    ∷ []

-- The `default` branch is for values that are no enumerator, and has no case here.
unfoldable pub status_code_to_string : HttpStatusCode → Bytes
status_code_to_string continue = codes "100 Continue"
status_code_to_string switching_protocols = codes "101 Switching Protocols"
status_code_to_string ok = codes "200 OK"
status_code_to_string created = codes "201 Created"
status_code_to_string accepted = codes "202 Accepted"
status_code_to_string no_content = codes "204 No Content"
status_code_to_string multiple_choices = codes "300 Multiple Choices"
status_code_to_string moved_permanently = codes "300 Moved Permanently"
status_code_to_string found = codes "301 Found"
status_code_to_string see_other = codes "303 See Other"
status_code_to_string not_modified = codes "304 Not Modified"
status_code_to_string bad_request = codes "400 Bad Request"
status_code_to_string unauthorized = codes "401 Unauthorized"
status_code_to_string forbidden = codes "403 Forbidden"
status_code_to_string not_found = codes "404 Not Found"
status_code_to_string internal_server_error = codes "500 Internal Server Error"
status_code_to_string not_implemented = codes "501 Not Implemented"
status_code_to_string bad_gateway = codes "502 Bad Gateway"
status_code_to_string service_unavailable = codes "503 Service Unavailable"
