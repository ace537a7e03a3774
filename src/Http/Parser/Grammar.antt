-- ===== src/Http/Parser/Grammar.antt =====
-- The texts of requests as src/simpleserv/http/parser.cpp reads them: the grammar of its accepted
-- inputs.
use simple_serv.Common.{IsEither, ℕ, ◌≡◌, ◌≢◌, List, [], ◌∷◌, ◌++◌, Bytes, codes, All}
use simple_serv.Http.Status.{http_method_strings}
use simple_serv.Http.Message.{HttpRequest, HttpVersion, new_request, crlf}
use simple_serv.Http.Message.Version.{IsOptional, VersionNumber}
use simple_serv.Http.Parser.{ascii_ht, Header, set_headers}
use simple_serv.Http.Parser.Headers.{line_of, IsPlain}
use simple_serv.Http.Parser.RequestLine.{IsPath}

abbrev pub IsBlank : ℕ → Type 0
IsBlank = IsEither ascii_ht b' '

-- The text is not empty, and begins with no blank.
abbrev pub IsDark : Bytes → Type 0
IsDark [] = ⊥
IsDark (c ∷ text) = (c ≢ ascii_ht) × (c ≢ b' ')

-- "HTTP/" may be missing.
pub record IsVersionText (version : HttpVersion) (text : Bytes) : Type 0 where
  pub name : Bytes
  pub number : Bytes
  pub name_ok : IsOptional (codes "HTTP/") name
  pub number_ok : VersionNumber version number
  pub dark : IsDark text
  pub is_text : text ≡ name ++ number

-- A view that begins with the request line of `r`, and goes on with `rest`.
pub record IsRequestLine (view : Bytes) (r : HttpRequest) (rest : Bytes) : Type 0 where
  pub blank : ℕ
  pub blanks : Bytes
  pub more_blanks : Bytes
  pub version_text : Bytes
  pub is_blank : IsBlank blank
  pub are_blank : All IsBlank blanks
  pub path_ok : IsPath r.path
  pub are_blank_too : All IsBlank more_blanks
  pub version_ok : IsVersionText r.version version_text
  pub is_line :
      view
      ≡ http_method_strings r.method
        ++ blank ∷ (blanks ++ (r.path ++ b' ' ∷ (more_blanks ++ (version_text ++ (crlf ++ rest)))))

-- A view that begins with header lines and the empty line, and goes on with the body. Any byte may
-- stand behind the first byte of the end of a line.
pub data HeaderLines : List Header → Bytes → Bytes → Type 0 where
  no_lines : {body : Bytes} → HeaderLines [] (crlf ++ body) body
  line :
      {h : Header} {hs : List Header} {view body : Bytes} (first second : ℕ)
      → IsPlain h
      → IsEither 13 10 first
      → HeaderLines hs view body
      → HeaderLines (h ∷ hs) (line_of h ++ first ∷ second ∷ view) body

pub record IsRequestText (str : Bytes) (r : HttpRequest) : Type 0 where
  pub rest : Bytes
  pub headers : List Header
  pub line_ok : IsRequestLine str r rest
  pub headers_ok : HeaderLines headers rest r.body
  pub headers_set :
      r.headers ≡ (set_headers headers (new_request r.method r.path r.version).message).headers
