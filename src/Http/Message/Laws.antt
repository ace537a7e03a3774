-- ===== src/Http/Message/Laws.antt =====
-- Reading a method and a version at the front of a view of a known shape.
use simple_serv.Common.{◌≡◌, ◌≢◌, refl, ◌∷◌, ◌++◌, Bytes, codes, starts_with}
use simple_serv.Common.Outcome.{returns}
use simple_serv.Utility.StringParser.{value}
use simple_serv.Utility.StringParser.Ensures.{Ensures, ensures_rules}
use simple_serv.Http.Status.{HttpMethod, get, http_method_strings}
use simple_serv.Http.Message.{
  HttpVersion, http_1_0, http_1_1, http_2_0, http_invalid, method_string_to_enum,
  version_string_to_enum,
}

-- Every method is read back from its name, and the text behind the name is left.
pub method_string_to_enum-http_method_strings :
    (m : HttpMethod) (rest : Bytes)
    → method_string_to_enum (http_method_strings m ++ rest) ≡ returns (value m, rest)
unfolding method_string_to_enum starts_with
method_string_to_enum-http_method_strings get rest = refl
method_string_to_enum-http_method_strings _ rest = refl

http_1_0-ne : http_1_0 ≢ http_invalid
http_1_0-ne = cc

http_1_1-ne : http_1_1 ≢ http_invalid
http_1_1-ne = cc

http_2_0-ne : http_2_0 ≢ http_invalid
http_2_0-ne = cc

pub Ensures-version : Ensures (λ v. v ≢ http_invalid) version_string_to_enum
unfolding version_string_to_enum
Ensures-version = search (ensures_rules, http_1_0-ne, http_1_1-ne, http_2_0-ne) depth 12

-- Whenever version_string_to_enum returns a version, it is not HTTP_INVALID: no input is refused
-- for its version.
pub version-ne-http_invalid :
    (view rest : Bytes) (v : HttpVersion)
    → version_string_to_enum view ≡ returns (v, rest)
    → v ≢ http_invalid
unfolding version_string_to_enum
version-ne-http_invalid view rest v h = Ensures-version.at view rest v h

pub version-http_1_1 :
    (rest : Bytes) → version_string_to_enum (codes "HTTP/1.1" ++ rest) ≡ returns (http_1_1, rest)
unfolding version_string_to_enum starts_with
version-http_1_1 rest = refl

pub version-http_2_0 :
    (rest : Bytes) → version_string_to_enum (codes "HTTP/2.0" ++ rest) ≡ returns (http_2_0, rest)
unfolding version_string_to_enum starts_with
version-http_2_0 rest = refl

-- "HTTP/1.0" is taken for HTTP/1.1, and its last digit is left.
pub version-http_1_0 :
    (rest : Bytes)
    → version_string_to_enum (codes "HTTP/1.0" ++ rest) ≡ returns (http_1_1, b'0' ∷ rest)
unfolding version_string_to_enum starts_with
version-http_1_0 rest = refl
