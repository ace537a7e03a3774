-- ===== src/Http/Parser/LineTexts.antt =====
-- The request lines that `parse_request_line` reads are those of the grammar.
use mathlib.Core.Path.{subst}
use simple_serv.Common.{
  ℕ, ◌≡◌, refl, sym, ap, ◌∙◌, Bool-cases, inl, inr, [], ◌∷◌, ◌++◌, append_assoc, Bytes, codes, All,
  Lacks,
}
use simple_serv.Common.Outcome.{returns}
use simple_serv.Utility.StringParser.{value, expect, expect_two, consume_all_two, next_token}
use simple_serv.Utility.StringParser.Inversion.{
  StartsOther, expect-eq-none, expect_two-eq-none, consume_all_two-eq, next_token-eq,
}
use simple_serv.Http.Status.{HttpMethod, http_method_strings}
use simple_serv.Http.Message.{
  HttpRequest, HttpVersion, new_request, crlf, method_string_to_enum, version_string_to_enum,
}
use simple_serv.Http.Message.Inversion.{method_string_to_enum-eq-value}
use simple_serv.Http.Message.Version.{
  IsOptional, present, missing, VersionNumber, two, one_zero, one_one,
  version_string_to_enum-eq-returns,
}
use simple_serv.Http.Parser.RequestLine.{IsPath}
use simple_serv.Http.Parser.Inversion.{>>=-eq-value, run-eq-value, check-eq-value}
use simple_serv.Http.Parser.Grammar.{IsBlank, IsDark, IsVersionText, IsRequestLine}
use simple_serv.Http.Parser.{
  ascii_ht, is_invalid, run, check, pure, Parse, ◌>>=◌, ◌>>◌, finish_line, parse_request_line,
}

-- What is left when the blanks are skipped begins with the path.
next_token-IsPath :
    (path tail : Bytes)
    → Lacks b' ' path
    → StartsOther ascii_ht b' ' (path ++ b' ' ∷ tail)
    → IsPath path
next_token-IsPath [] tail lacks other = other.1 refl
next_token-IsPath (x ∷ path) tail lacks other = (other.0, lacks)

version-IsDark :
    (v : HttpVersion) (name number tail : Bytes)
    → IsOptional (codes "HTTP/") name
    → VersionNumber v number
    → StartsOther ascii_ht b' ' (name ++ (number ++ tail))
    → IsDark (name ++ number)
version-IsDark v name number tail present h other = other
version-IsDark v name number tail missing (two optional) other = other
version-IsDark v name number tail missing (one_zero major point ne optional) other = other
version-IsDark v name number tail missing (one_one major minor point last ne optional ne' there)
      other =
    other

finish_line-eq-value :
    (r s : HttpRequest) (view rest : Bytes)
    → finish_line r view ≡ returns (value s, rest)
    → (r ≡ s) × (view ≡ crlf ++ rest)
finish_line-eq-value r s view rest h = elim (Bool-cases (is_invalid r.version)) [
  | inl bad ↦ cc (rw bad at h)
  | inr good ↦
      let (_, mid, checked, done) =
        >>=-eq-value (check (expect crlf)) (λ _. pure r) {view = view} (rw good at h) in
      let left : mid ≡ rest = cc done in
      (
        cc done,
        expect-eq-none crlf view mid (check-eq-value (expect crlf) checked)
            ∙ ap (λ t. crlf ++ t) left,
      )
]

-- Two views around a gap of blanks
abbrev IsGap : Bytes → Bytes → Type 0
IsGap view mid =
    (blank : ℕ) × (blanks : Bytes) × IsBlank blank
    × All IsBlank blanks
    × StartsOther ascii_ht b' ' mid
    × (view ≡ blank ∷ (blanks ++ mid))

blanks-eq-value :
    {B : Type 0} (k : Parse B) (view rest : Bytes) (b : B)
    → (check (expect_two ascii_ht b' ') >> (run (consume_all_two ascii_ht b' ') >> k)) view
      ≡ returns (value b, rest)
    → (mid : Bytes) × IsGap view mid × (k mid ≡ returns (value b, rest))
blanks-eq-value k view rest b h =
    let (_, behind, first, h') = >>=-eq-value (check (expect_two ascii_ht b' ')) _ h in
    let (_, mid, second, h'') = >>=-eq-value (run (consume_all_two ascii_ht b' ')) _ h' in
    let (blank, is_blank, split) =
      expect_two-eq-none ascii_ht b' ' view behind (check-eq-value _ first) in
    let (blanks, are_blank, split', other) =
      consume_all_two-eq ascii_ht b' ' behind mid (run-eq-value _ second) in
    (mid, (blank, blanks, is_blank, are_blank, other, split ∙ ap (λ t. blank ∷ t) split'), h'')

-- From the version on
version_line-eq-value :
    (method : HttpMethod) (path view rest : Bytes) (r : HttpRequest)
    → StartsOther ascii_ht b' ' view
    → (run version_string_to_enum >>= λ version. finish_line (new_request method path version)) view
      ≡ returns (value r, rest)
    → (version : HttpVersion) × (text : Bytes) × IsVersionText version text
      × (new_request method path version ≡ r)
      × (view ≡ text ++ (crlf ++ rest))
version_line-eq-value method path view rest r other h =
    let (version, mid, first, h') = >>=-eq-value (run version_string_to_enum) _ h in
    let (name, number, optional, is_number, split) =
      version_string_to_enum-eq-returns view mid version (run-eq-value _ first) in
    let (same, at_end) = finish_line-eq-value (new_request method path version) r mid rest h' in
    (
      version,
      name ++ number,
      record {
        name = name;
        number = number;
        name_ok = optional;
        number_ok = is_number;
        dark =
            version-IsDark version name number mid optional is_number
              (subst (StartsOther ascii_ht b' ') split other);
        is_text = refl;
      },
      same,
      split ∙ sym (append_assoc name number mid) ∙ ap (λ t. (name ++ number) ++ t) at_end,
    )

-- From the path on
url_line-eq-value :
    (method : HttpMethod) (view rest : Bytes) (r : HttpRequest)
    → StartsOther ascii_ht b' ' view
    → (run (next_token b' ') >>= λ path.
          check (expect_two ascii_ht b' ')
          >> (run (consume_all_two ascii_ht b' ')
              >> (run version_string_to_enum >>= λ version.
                  finish_line (new_request method path version))))
        view
      ≡ returns (value r, rest)
    → (path : Bytes) × (blanks : Bytes) × (version : HttpVersion) × (text : Bytes) × IsPath path
      × All IsBlank blanks
      × IsVersionText version text
      × (new_request method path version ≡ r)
      × (view ≡ path ++ b' ' ∷ (blanks ++ (text ++ (crlf ++ rest))))
url_line-eq-value method view rest r other h =
    let (path, mid, first, h') = >>=-eq-value (run (next_token b' ')) _ h in
    let (tail, lacks, at_end, split) = next_token-eq b' ' view path mid (run-eq-value _ first) in
    let (behind, (blank, blanks, _, are_blank, dark, gap), h'') = blanks-eq-value _ mid rest r h' in
    let (version, text, is_version, same, split') =
      version_line-eq-value method path behind rest r dark h'' in
    let both : b' ' ∷ tail ≡ blank ∷ (blanks ++ behind) = sym at_end ∙ gap in
    let tail_is : tail ≡ blanks ++ behind = cc both in
    (
      path,
      blanks,
      version,
      text,
      next_token-IsPath path tail lacks
          (subst (StartsOther ascii_ht b' ') (split ∙ ap (λ t. path ++ t) at_end) other),
      are_blank,
      is_version,
      same,
      split
          ∙ ap (λ t. path ++ t) at_end
          ∙ ap (λ t. path ++ b' ' ∷ t) (tail_is ∙ ap (λ t. blanks ++ t) split'),
    )

-- A request line is read only from one of the grammar.
pub parse_request_line-eq-value :
    (view rest : Bytes) (r : HttpRequest)
    → parse_request_line view ≡ returns (value r, rest)
    → (r ≡ new_request r.method r.path r.version) × IsRequestLine view r rest
unfolding parse_request_line
parse_request_line-eq-value view rest r h =
    let (method, mid, first, h') = >>=-eq-value method_string_to_enum _ h in
    let (behind, (blank, blanks, is_blank, are_blank, dark, gap), h'') =
      blanks-eq-value _ mid rest r h' in
    let (path, more, version, text, is_path, are_blank_too, is_version, same, split) =
      url_line-eq-value method behind rest r dark h'' in
    subst (λ s. (s ≡ new_request s.method s.path s.version) × IsRequestLine view s rest) same
      (
        refl,
        record {
          blank = blank;
          blanks = blanks;
          more_blanks = more;
          version_text = text;
          is_blank = is_blank;
          are_blank = are_blank;
          path_ok = is_path;
          are_blank_too = are_blank_too;
          version_ok = is_version;
          is_line =
              method_string_to_enum-eq-value view mid method first
              ∙ ap (λ t. http_method_strings method ++ t)
                  (gap ∙ ap (λ t. blank ∷ (blanks ++ t)) split);
        },
      )
