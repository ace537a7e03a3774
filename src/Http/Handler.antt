-- ===== src/Http/Handler.antt =====
-- src/simpleserv/http/http_handler.cpp: from the bytes of a request to the bytes of a response.
-- The log lines are left out. The file manager is a static object: it is state that each call
-- takes and returns.
pub mod Laws
use simple_serv.Common.{
  ℕ, Bool, true, false, Option, none, some, ◌++◌, Bytes, codes, find, take, str_eq, if◌then◌else◌,
}
use simple_serv.Common.Outcome.{Outcome, returns, throws, undefined, ◌>>=◌}
use simple_serv.Utility.StringParser
use simple_serv.Utility.StringParser.{Expected}
use simple_serv.Utility.FileSystem.{FileSystem}
use simple_serv.Utility.FileType.{FileEncoding, decode_filetype, decode_file_encoding}
use simple_serv.Utility.FileManager
use simple_serv.Utility.FileManager.{
  Fetched, HttpFileData, FileManagerException, FileManager, get_file,
}
use simple_serv.Http.Status.{HttpMethod, ok, not_found}
use simple_serv.Http.Message.{
  HttpRequest, HttpResponse, http_1_1, new_response, set_header, set_content, to_string,
}
use simple_serv.Http.Parser.{parse_http_request}

abbrev cut_at : Option ℕ → Bytes → Bytes
cut_at none str = str
cut_at (some query_index) str = take query_index str

unfoldable pub remove_query : Bytes → Bytes
unfolding find
remove_query str = cut_at (find b'?' str) str

unfoldable pub convert_to_filedirectory : Bytes → Bytes
unfolding remove_query
convert_to_filedirectory request_path = codes "../webdir" ++ remove_query request_path

abbrev is_none : FileEncoding → Bool
is_none FileEncoding.none = true
is_none _ = false

abbrev is_head : HttpMethod → Bool
is_head HttpMethod.head = true
is_head _ = false

-- The response to a file that was fetched
abbrev pub file_response : HttpRequest → HttpFileData → HttpResponse
file_response request data_ =
    let response = new_response ok http_1_1 in
    let typed = record response {
      message = set_header (codes "Content-Type") (decode_filetype data_.filetype) response.message;
    } in
    let encoded = if is_none data_.file_encoding then typed else record typed {
      message =
          set_header (codes "Content-Encoding") (decode_file_encoding data_.file_encoding)
            typed.message;
    } in
    if is_head request.method
    then encoded
    else record encoded { message = set_content data_.content encoded.message }

abbrev pub respond : HttpRequest → Fetched HttpFileData FileManagerException → HttpResponse
respond request (FileManager.unexpected e) = new_response not_found http_1_1
respond request (FileManager.value d) = file_response request d

unfoldable pub prepare_response :
    FileSystem → HttpRequest → FileManager → HttpResponse × FileManager
unfolding set_header decode_filetype decode_file_encoding
prepare_response fs request m =
    let (result, m') = get_file fs (convert_to_filedirectory request.path) m in
    (respond request result, m')

-- `nullopt` for a request that does not parse
abbrev pub answer :
    FileSystem → FileManager → Expected HttpRequest → Outcome (Option Bytes × FileManager)
answer fs m (StringParser.unexpected e) = returns (none, m)
answer fs m (StringParser.value request) =
    let (response, m') = prepare_response fs request m in
    to_string response >>= (λ text. returns (some text, m'))

unfoldable pub handle : FileSystem → Bytes → FileManager → Outcome (Option Bytes × FileManager)
unfolding prepare_response to_string
handle fs str m = parse_http_request str >>= answer fs m
