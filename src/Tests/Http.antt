-- ===== src/Tests/Http.antt =====
-- Examples for the `http` namespace.
use simple_serv.Common.{
  ◌≡◌, ◌≢◌, ◌↔◌, List, refl, some, [], ◌∷◌, ◌++◌, arith, Bytes, codes, str_eq, str_lt, starts_with,
  find, find_any, take,
}
use simple_serv.Common.Dict.{lookup, insert_sorted}
use simple_serv.Common.Outcome.{undefined, Outcome, returns}
use simple_serv.Utility.StringParser.{
  Expected, value, unexpected, expected_characters, expect_two, consume_all_two,
}
use simple_serv.Utility.FileManager
use simple_serv.Utility.FileManager.{HttpFileData, get_file, cached_get_file, disk_get_file}
use simple_serv.Utility.FileManager.Serving.{IsFileAt}
use simple_serv.Utility.FileType.{text_html, FileEncoding}
use simple_serv.Http.Status.{HttpMethod, HttpStatusCode, ok, status_value, status_code_to_string}
use simple_serv.Http.Status.Laws.{three_digits, status_code_to_string-status_value}
use simple_serv.Http.Message.{
  http_1_1, crlf, new_request, set_content, method_string_to_enum, version_string_to_enum,
  print_request,
}
use simple_serv.Http.Parser.Grammar.{IsRequestText}
use simple_serv.Http.Parser.Language.{parse_http_request_iff}
use simple_serv.Http.Parser.{
  Header, header_step, set_headers, parse_header, header_loop, finish_headers,
  parse_message_headers, parse_request_line, parse_http_request,
}
use simple_serv.Http.Parser.RoundTrip.{IsPrintable, parse_http_request-print_request}
use simple_serv.Http.Parser.Refuses.{parse_http_request-IsUnspaced, parse_http_request-http_1_0}
use simple_serv.Http.Parser.Total.{parse_message_headers_total}
use simple_serv.Http.Handler.{
  convert_to_filedirectory, remove_query, file_response, prepare_response, handle,
}
use simple_serv.Http.Handler.Laws.{
  ok_text, Answered, prepare_response-IsFileAt, prepare_response-head, handle-Answered,
  handle-print_request,
}
use simple_serv.Tests.Site.{
  root, site, site_descriptors, manager, site_described, site-IsFresh, page_request, Lacks-any,
}

page-IsPrintable : IsPrintable page_request
page-IsPrintable = record {
  path_ok = (omega arith, Lacks-any b' ' page_request.path refl);
  version_ok = tt;
  headers_plain = (
    record {
      key_no_space = Lacks-any b' ' (codes "Host") refl;
      line_no_cr = Lacks-any 13 (codes "Host: example.org") refl;
      line_no_lf = Lacks-any 10 (codes "Host: example.org") refl;
    },
    tt,
  );
  headers_sorted = (tt, tt);
}

page_ok : (prepare_response site page_request manager).0.status_code ≡ ok
unfolding prepare_response get_file cached_get_file disk_get_file lookup str_eq
    convert_to_filedirectory remove_query find
page_ok = refl

abbrev page_data : HttpFileData
page_data = record {
  filetype = text_html;
  file_encoding = FileEncoding.none;
  content = codes "<p>";
}

page_on_disk :
    disk_get_file site site_descriptors (convert_to_filedirectory page_request.path)
    ≡ FileManager.value page_data
unfolding disk_get_file lookup str_eq convert_to_filedirectory remove_query find
page_on_disk = unfold simple_serv.Utility.FileType.encode_filetype in refl

prepare_response-IsFileAt_example :
    (d : HttpFileData) × IsFileAt site root site (convert_to_filedirectory page_request.path) d
    × ((prepare_response site page_request manager).0 ≡ file_response page_request d)
prepare_response-IsFileAt_example =
    prepare_response-IsFileAt site root site page_request manager site-IsFresh site_described
      page_ok

handle-print_request_example :
    (text : Bytes) × (m' : FileManager.FileManager) × (print_request page_request ≡ returns text)
    × (handle site text manager ≡ returns (some (ok_text page_data), m'))
handle-print_request_example =
    handle-print_request site page_request manager page-IsPrintable refl site-IsFresh page_on_disk

parse_http_request-print_request_example :
    (text : Bytes) × (print_request page_request ≡ returns text)
    × (parse_http_request text ≡ returns (value page_request))
parse_http_request-print_request_example =
    parse_http_request-print_request page_request page-IsPrintable

pub parsed_page :
    parse_http_request (codes "GET /a.html HTTP/1.1" ++ (crlf ++ crlf))
    ≡ returns (value (new_request HttpMethod.get (codes "/a.html") http_1_1))
unfolding parse_http_request parse_request_line method_string_to_enum version_string_to_enum
    parse_message_headers header_loop starts_with expect_two consume_all_two find header_step
    set_headers
parsed_page = refl

handle-Answered_example :
    Answered manager
      (value (new_request HttpMethod.get (codes "/a.html") http_1_1))
      (handle site (codes "GET /a.html HTTP/1.1" ++ (crlf ++ crlf)) manager)
handle-Answered_example = handle-Answered site _ manager _ parsed_page

prepare_response-head_example :
    (prepare_response site (record page_request { method = HttpMethod.head }) manager).0 ≡ (
      let full =
        (prepare_response site (record page_request { method = HttpMethod.get }) manager).0 in
      record full { message = set_content [] full.message })
prepare_response-head_example = prepare_response-head site page_request manager

parse_message_headers_total_example :
    (r : Outcome (Expected (List Header × Bytes))) × (header_loop 40 []
        (codes "Host: a" ++ (crlf ++ crlf))
      ≡ some r)
    × (parse_message_headers (codes "Host: a" ++ (crlf ++ crlf))
        ≡ finish_headers (some r) (codes "Host: a" ++ (crlf ++ crlf)))
parse_message_headers_total_example =
    parse_message_headers_total (codes "Host: a" ++ (crlf ++ crlf)) 40 (omega arith)

parse_http_request-http_1_0_example :
    parse_http_request
      (codes "GET" ++ b' ' ∷ (codes "/" ++ b' ' ∷ (codes "HTTP/1.0" ++ (crlf ++ crlf))))
    ≡ returns (unexpected (expected_characters crlf))
parse_http_request-http_1_0_example =
    parse_http_request-http_1_0 HttpMethod.get (codes "/") crlf (omega arith, (omega arith, tt))

read_version : version_string_to_enum (codes "HTTP/3.0") ≡ returns (http_1_1, codes "0")
unfolding version_string_to_enum starts_with
read_version = refl

status_code_to_string-status_value_example :
    (take 4 (status_code_to_string ok) ≡ three_digits (status_value ok))
    ↔ ((ok ≢ HttpStatusCode.moved_permanently) × (ok ≢ HttpStatusCode.found))
status_code_to_string-status_value_example = status_code_to_string-status_value ok

-- ParseMessageHeadersWithBody
headers_with_body :
    parse_http_request (
      codes "GET / HTTP/1.1"
      ++ (crlf
          ++ (codes "Content-Type: text/html"
              ++ (crlf ++ (codes "Content-Length: 100" ++ (crlf ++ (crlf ++ codes "<html>")))))))
    ≡ returns (
        value (record {
          method = HttpMethod.get;
          path = codes "/";
          message = record {
            version = http_1_1;
            headers =
                (codes "Content-Length", codes "100")
                ∷ (codes "Content-Type", codes "text/html")
                ∷ [];
            body = codes "<html>";
          };
        }))
unfolding parse_http_request parse_request_line method_string_to_enum version_string_to_enum
    parse_message_headers header_loop starts_with expect_two consume_all_two find header_step
    find_any parse_header insert_sorted str_eq str_lt set_headers
headers_with_body = refl

-- The input of MalformedMessageHeaders, which requires an error
parse_http_request-IsUnspaced_example :
    parse_http_request (
      codes "GET"
      ++ b' '
        ∷ (codes "/"
            ++ b' '
              ∷ (codes "HTTP/1.1"
                  ++ (crlf ++ (codes "Content" ++ 13 ∷ 10 ∷ (codes "-Type: text/html" ++ crlf))))))
    ≡ undefined
parse_http_request-IsUnspaced_example =
    parse_http_request-IsUnspaced HttpMethod.get (codes "/") (codes "Content")
      (codes "-Type: text/html" ++ crlf) (omega arith, (omega arith, tt))
      (
        cc,
        Lacks-any b' ' (codes "Content") refl,
        Lacks-any 13 (codes "Content") refl,
        Lacks-any 10 (codes "Content") refl,
      )

parse_http_request_iff_example :
    IsRequestText
      (codes "GET /a.html HTTP/1.1" ++ (crlf ++ crlf))
      (new_request HttpMethod.get (codes "/a.html") http_1_1)
parse_http_request_iff_example =
    (parse_http_request_iff (codes "GET /a.html HTTP/1.1" ++ (crlf ++ crlf))
        (new_request HttpMethod.get (codes "/a.html") http_1_1)).0
      parsed_page
