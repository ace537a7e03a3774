-- ===== src/Http/Handler/Laws.antt =====
-- What a request is answered with.
use mathlib.Core.Path.{subst}
use simple_serv.Common.{
  ◌≡◌, refl, sym, ap, ◌∙◌, Option, none, some, Bool-cases, inl, inr, [], ◌++◌, append_assoc, arith,
  Bytes, codes, str_eq, str_lt,
}
use simple_serv.Common.Dict.{insert_sorted}
use simple_serv.Common.Outcome.{Outcome, returns}
use simple_serv.Utility.StringParser
use simple_serv.Utility.StringParser.{Expected}
use simple_serv.Utility.FileSystem.{FileSystem}
use simple_serv.Utility.FileType.{FileType, FileEncoding, decode_filetype, decode_file_encoding}
use simple_serv.Utility.FileManager
use simple_serv.Utility.FileManager.{
  Fetched, HttpFileData, FileManagerException, FileManager, get_file, disk_get_file,
}
use simple_serv.Utility.FileManager.Descriptors.{AllDescribed}
use simple_serv.Utility.FileManager.Serving.{
  IsFileAt, IsFresh, get_file-IsFresh, disk_get_file-IsFileAt,
}
use simple_serv.Http.Status.{HttpMethod, ok, status_code_to_string}
use simple_serv.Http.Message.{
  HttpRequest, HttpResponse, http_1_1, crlf, set_header, set_content, to_string, print_headers,
  print_request,
}
use simple_serv.Http.Parser.{parse_http_request}
use simple_serv.Http.Parser.RoundTrip.{IsPrintable, parse_http_request-print_request}
use simple_serv.Http.Handler.{
  is_none, convert_to_filedirectory, file_response, respond, prepare_response, handle,
}

-- With a cache that agrees with the disk, the response is the one that the disk fetcher's answer
-- calls for, the cache still agrees, and the descriptors stay.
prepare_response-IsFresh :
    (fs : FileSystem) (r : HttpRequest) (m : FileManager)
    → IsFresh fs m
    → ((prepare_response fs r m).0
        ≡ respond r (disk_get_file fs m.file_descriptors (convert_to_filedirectory r.path)))
      × IsFresh fs (prepare_response fs r m).1
      × ((prepare_response fs r m).1.file_descriptors ≡ m.file_descriptors)
unfolding prepare_response
prepare_response-IsFresh fs r m h =
    let (same, fresh, kept) = get_file-IsFresh fs (convert_to_filedirectory r.path) m h in
    (ap (respond r) same, fresh, kept)

-- If the cache agrees with the disk and every descriptor describes a listed file, a response with
-- status 200 is made from a file that the directory listings show below the root, or from its
-- Brotli companion, with that file's type and bytes.
pub prepare_response-IsFileAt :
    (root_fs : FileSystem) (root : Bytes) (fs : FileSystem) (r : HttpRequest) (m : FileManager)
    → IsFresh fs m
    → AllDescribed root_fs root m.file_descriptors
    → (prepare_response fs r m).0.status_code ≡ ok
    → (d : HttpFileData) × IsFileAt root_fs root fs (convert_to_filedirectory r.path) d
      × ((prepare_response fs r m).0 ≡ file_response r d)
prepare_response-IsFileAt root_fs root fs r m fresh h is_ok =
    let same = (prepare_response-IsFresh fs r m fresh).0 in
    go (disk_get_file fs m.file_descriptors (convert_to_filedirectory r.path)) refl same
  where
    go :
        (f : Fetched HttpFileData FileManagerException)
        → disk_get_file fs m.file_descriptors (convert_to_filedirectory r.path) ≡ f
        → (prepare_response fs r m).0 ≡ respond r f
        → (d : HttpFileData) × IsFileAt root_fs root fs (convert_to_filedirectory r.path) d
          × ((prepare_response fs r m).0 ≡ file_response r d)
    go (FileManager.value d) e same =
        (d, disk_get_file-IsFileAt root_fs root fs _ m.file_descriptors h e, same)
    go (FileManager.unexpected x) e same =
        absurd (cc (sym is_ok ∙ ap (λ (p : HttpResponse). p.status_code) same))

-- The response to a HEAD request is the response to the GET request for the same path with an
-- empty body.
pub prepare_response-head :
    (fs : FileSystem) (r : HttpRequest) (m : FileManager)
    → (prepare_response fs (record r { method = HttpMethod.head }) m).0 ≡ (
        let full = (prepare_response fs (record r { method = HttpMethod.get }) m).0 in
        record full { message = set_content [] full.message })
unfolding prepare_response set_header
prepare_response-head fs r m = go (get_file fs (convert_to_filedirectory r.path) m).0
  where
    go :
        (f : Fetched HttpFileData FileManagerException)
        → respond (record r { method = HttpMethod.head }) f ≡ (
            let full = respond (record r { method = HttpMethod.get }) f in
            record full { message = set_content [] full.message })
    go (FileManager.unexpected e) = refl
    go (FileManager.value d) = elim (Bool-cases (is_none d.file_encoding)) [
      | inl plain ↦ rw plain refl
      | inr encoded ↦ rw encoded refl
    ]

-- A request that does not parse has no response, and leaves the file manager as it was.
-- A request that parses has one, and the descriptors stay.
abbrev pub Answered :
    FileManager → Expected HttpRequest → Outcome (Option Bytes × FileManager) → Type 0
Answered m (StringParser.unexpected e) o = o ≡ returns (none, m)
Answered m (StringParser.value r) o =
    (text : Bytes) × (m' : FileManager) × (o ≡ returns (some (codes "HTTP/1.1 " ++ text), m'))
    × (m'.file_descriptors ≡ m.file_descriptors)

-- The header lines of a response with a file
abbrev pub encoding_line : FileEncoding → Bytes
encoding_line FileEncoding.none = []
encoding_line e = codes "Content-Encoding: " ++ (decode_file_encoding e ++ crlf)

abbrev pub ok_text : HttpFileData → Bytes
ok_text d =
    codes "HTTP/1.1 200 OK"
    ++ (crlf
        ++ (encoding_line d.file_encoding
            ++ (codes "Content-Type: "
                ++ (decode_filetype d.filetype ++ (crlf ++ (crlf ++ d.content))))))

print_encoded :
    (r : HttpRequest) (type : FileType) (encoding : FileEncoding) (content : Bytes)
    → (let d : HttpFileData = record {
      filetype = type;
      file_encoding = encoding;
      content = content;
    } in
        to_string (file_response (record r { method = HttpMethod.get }) d) ≡ returns (ok_text d))
unfolding to_string set_header insert_sorted str_eq str_lt status_code_to_string
    decode_file_encoding
print_encoded r type FileEncoding.none content = simp append_assoc
print_encoded r type FileEncoding.brotli content = simp append_assoc
print_encoded r type FileEncoding.deflate content = simp append_assoc
print_encoded r type FileEncoding.gzip content = simp append_assoc

print_file_response :
    (r : HttpRequest) (d : HttpFileData)
    → r.method ≡ HttpMethod.get
    → to_string (file_response r d) ≡ returns (ok_text d)
print_file_response r d e =
    subst (λ m. to_string (file_response (record r { method = m }) d) ≡ returns (ok_text d)) (sym e)
      (print_encoded r d.filetype d.file_encoding d.content)

version-respond :
    (r : HttpRequest) (f : Fetched HttpFileData FileManagerException)
    → (respond r f).version ≡ http_1_1
unfolding set_header
version-respond r (FileManager.unexpected e) = refl
version-respond r (FileManager.value d) = ground arith

-- What is printed of a response behind its version
abbrev after_version : HttpResponse → Bytes
after_version p =
    status_code_to_string p.status_code ++ (crlf ++ (print_headers p.headers ++ (crlf ++ p.body)))

to_string-respond :
    (r : HttpRequest) (f : Fetched HttpFileData FileManagerException)
    → (text : Bytes) × (to_string (respond r f) ≡ returns (codes "HTTP/1.1 " ++ text))
unfolding to_string
to_string-respond r f = (after_version (respond r f), rw (version-respond r f) refl)

-- When parse_http_request returns, handle returns too: nothing and the same file manager for a
-- parse error, and a text that begins with "HTTP/1.1 " and the same descriptors for a request.
pub handle-Answered :
    (fs : FileSystem) (str : Bytes) (m : FileManager) (result : Expected HttpRequest)
    → parse_http_request str ≡ returns result
    → Answered m result (handle fs str m)
unfolding handle prepare_response get_file
handle-Answered fs str m (StringParser.unexpected e) h = rw h
handle-Answered fs str m (StringParser.value r) h =
    let (text, printed) = to_string-respond r (get_file fs (convert_to_filedirectory r.path) m).0 in
    (text, (prepare_response fs r m).1, rw h (rw printed), refl)

-- For a printable GET request whose file the disk fetcher has, and a cache that agrees with the
-- disk, the bytes of the request are answered by the status line 200, the Content-Encoding line if
-- there is one, the Content-Type line and the content.
pub handle-print_request :
    (fs : FileSystem) (r : HttpRequest) (m : FileManager) {d : HttpFileData}
    → IsPrintable r
    → r.method ≡ HttpMethod.get
    → IsFresh fs m
    → disk_get_file fs m.file_descriptors (convert_to_filedirectory r.path) ≡ FileManager.value d
    → (text : Bytes) × (m' : FileManager) × (print_request r ≡ returns text)
      × (handle fs text m ≡ returns (some (ok_text d), m'))
unfolding handle prepare_response
handle-print_request fs r m {d} p is_get fresh on_disk =
    let (text, printed, parsed) = parse_http_request-print_request r p in
    let (same, _, _) = prepare_response-IsFresh fs r m fresh in
    (
      text,
      (prepare_response fs r m).1,
      printed,
      rw parsed (rw same (rw on_disk (rw (print_file_response r d is_get)))),
    )
