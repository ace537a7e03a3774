-- ===== src/Http/Message/Version.antt =====
-- The texts from which `version_string_to_enum` reads a version, in front of the end of a line.
use mathlib.Core.Path.{subst}
use simple_serv.Common.{
  ℕ, ◌≡◌, ◌≢◌, refl, sym, ap, ◌∙◌, arith, false, Bool-cases, inl, inr, Option, none, some, [], ◌∷◌,
  ◌++◌, append_assoc, Bytes, codes, ◌==◌, if◌then◌else◌, ==_iff, starts_with, length, drop,
}
use simple_serv.Common.Outcome.{returns}
use simple_serv.Utility.StringParser
use simple_serv.Utility.StringParser.{Action, ParserError, pure, ◌>>=◌, ◌>>◌, move, expect}
use simple_serv.Utility.StringParser.Ensures.{>>=-eq-returns}
use simple_serv.Utility.StringParser.Laws.{>>=-returns}
use simple_serv.Utility.StringParser.Inversion.{starts_with-eq-true}
use simple_serv.Http.Message.{
  HttpVersion, http_1_0, http_1_1, http_2_0, version_1, version_2, version_string_to_enum,
}

pub data IsOptional (part : Bytes) : Bytes → Type 0 where
  present : IsOptional part part
  missing : IsOptional part []

-- What may stand behind "HTTP/". Any byte that is no "2" begins a version 1.
pub data VersionNumber : HttpVersion → Bytes → Type 0 where
  two : {minor : Bytes} → IsOptional (codes ".0") minor → VersionNumber http_2_0 (b'2' ∷ minor)
  one_zero :
      (major : ℕ) (point : Bytes)
      → major ≢ b'2'
      → IsOptional (codes "1.") point
      → VersionNumber http_1_0 (major ∷ (point ++ b'0' ∷ []))
  one_one :
      (major minor : ℕ) (point last : Bytes)
      → major ≢ b'2'
      → IsOptional (codes "1.") point
      → minor ≢ b'0'
      → IsOptional (codes "1") last
      → VersionNumber http_1_1 (major ∷ (point ++ minor ∷ last))

-- What `expect` takes, if anything, when its result is dropped
expect-IsOptional :
    (p view rest : Bytes) (o : Option ParserError)
    → expect p view ≡ returns (o, rest)
    → (part : Bytes) × IsOptional p part × (view ≡ part ++ rest)
unfolding expect
expect-IsOptional p view rest o h = elim (Bool-cases (starts_with view p)) [
  | inl here ↦
      let same : returns (none, drop (length p) view) ≡ returns (o, rest) =
        rw (expect, here) at h in
      (p, present, starts_with-eq-true view p here ∙ ap (λ s. p ++ s) (cc same))
  | inr absent ↦
      let same : returns (some (StringParser.expected_characters p), view) ≡ returns (o, rest) =
        rw (expect, absent) at h in
      ([], missing, cc same)
]

version_2-eq-returns :
    (first : ℕ) (s rest : Bytes) (v : HttpVersion)
    → version_2 (first ∷ s) ≡ returns (v, rest)
    → (minor : Bytes) × IsOptional (codes ".0") minor × (http_2_0 ≡ v) × (s ≡ minor ++ rest)
unfolding move ◌>>=◌
version_2-eq-returns first s rest v h =
    let (o, mid, taken, done) =
      >>=-eq-returns (expect (codes ".0")) (λ _. pure http_2_0) {view = s} h in
    let (minor, optional, split) = expect-IsOptional (codes ".0") s mid o taken in
    let left : mid ≡ rest = cc done in (minor, optional, cc done, split ∙ ap (λ t. minor ++ t) left)

-- What stands behind "1." in a version 1
abbrev minor_version : Action HttpVersion
minor_version = do
  head1 ← StringParser.head
  if head1 == b'0' then (do move 1; pure http_1_0) else do move 1; expect (codes "1"); pure http_1_1

minor_version-eq-returns :
    (major : ℕ) (point s rest : Bytes) (v : HttpVersion)
    → major ≢ b'2'
    → IsOptional (codes "1.") point
    → minor_version s ≡ returns (v, rest)
    → (number : Bytes) × VersionNumber v number × (major ∷ (point ++ s) ≡ number ++ rest)
unfolding move ◌>>=◌ StringParser.head
minor_version-eq-returns major point [] rest v ne optional h = cc h
minor_version-eq-returns major point (y ∷ s) rest v ne optional h = elim (Bool-cases (y == b'0')) [
  | inl zero ↦
      let done : returns (http_1_0, s) ≡ returns (v, rest) = rw zero at h in
      let left : s ≡ rest = cc done in
      (
        major ∷ (point ++ b'0' ∷ []),
        subst (λ w. VersionNumber w (major ∷ (point ++ b'0' ∷ []))) (cc done)
            (one_zero major point ne optional),
        ap (λ t. major ∷ (point ++ t)) (ap (λ c. c ∷ s) ((==_iff y b'0').0 zero))
            ∙ ap (λ t. major ∷ (point ++ b'0' ∷ t)) left
            ∙ ap (λ t. major ∷ t) (sym (append_assoc point (b'0' ∷ []) rest)),
      )
  | inr other ↦
      let (o, mid, taken, done) =
        >>=-eq-returns (expect (codes "1")) (λ _. pure http_1_1) {view = s} (rw other at h) in
      let (last, there, split) = expect-IsOptional (codes "1") s mid o taken in
      let left : mid ≡ rest = cc done in
      (
        major ∷ (point ++ y ∷ last),
        subst (λ w. VersionNumber w (major ∷ (point ++ y ∷ last))) (cc done)
            (one_one major y point last ne optional (ground (arith, other)) there),
        ap (λ t. major ∷ (point ++ y ∷ t)) (split ∙ ap (λ t. last ++ t) left)
            ∙ ap (λ t. major ∷ t) (sym (append_assoc point (y ∷ last) rest)),
      )
]

-- What stands behind "HTTP/"
abbrev number_version : Action HttpVersion
number_version = do first ← StringParser.head; if first == b'2' then version_2 else version_1

number_version-eq-returns :
    (s rest : Bytes) (v : HttpVersion)
    → number_version s ≡ returns (v, rest)
    → (number : Bytes) × VersionNumber v number × (s ≡ number ++ rest)
unfolding move ◌>>=◌ StringParser.head
number_version-eq-returns [] rest v h = cc h
number_version-eq-returns (x ∷ s) rest v h = elim (Bool-cases (x == b'2')) [
  | inl is_two ↦
      let (minor, optional, same, split) = version_2-eq-returns x s rest v (rw is_two at h) in
      (
        b'2' ∷ minor,
        subst (λ w. VersionNumber w (b'2' ∷ minor)) same (two optional),
        ap (λ c. c ∷ s) ((==_iff x b'2').0 is_two) ∙ ap (λ t. b'2' ∷ t) split,
      )
  | inr other ↦
      let (o, mid, taken, h') =
        >>=-eq-returns (expect (codes "1.")) (λ _. minor_version) {view = s} (rw other at h) in
      let (point, optional, split) = expect-IsOptional (codes "1.") s mid o taken in
      let (number, is_number, there) =
        minor_version-eq-returns x point mid rest v (ground (arith, other)) optional h' in
      (number, is_number, ap (λ t. x ∷ t) split ∙ there)
]

-- A version is read only from "HTTP/", which may be missing, and a number.
pub version_string_to_enum-eq-returns :
    (view rest : Bytes) (v : HttpVersion)
    → version_string_to_enum view ≡ returns (v, rest)
    → (name : Bytes) × (number : Bytes) × IsOptional (codes "HTTP/") name
      × VersionNumber v number
      × (view ≡ name ++ (number ++ rest))
unfolding version_string_to_enum
version_string_to_enum-eq-returns view rest v h =
    let (o, mid, taken, h') = >>=-eq-returns (expect (codes "HTTP/")) (λ _. number_version) h in
    let (name, optional, split) = expect-IsOptional (codes "HTTP/") view mid o taken in
    let (number, is_number, there) = number_version-eq-returns mid rest v h' in
    (name, number, optional, is_number, split ∙ ap (λ t. name ++ t) there)

-- In front of the end of a line, a number is not taken for "HTTP/".
starts_with-name :
    (v : HttpVersion) (number rest : Bytes)
    → VersionNumber v number
    → starts_with (number ++ 13 ∷ rest) (codes "HTTP/") ≡ false
unfolding starts_with
starts_with-name v number rest (two present) = refl
starts_with-name v number rest (two missing) = refl
starts_with-name v number rest (one_zero major point ne present) = ground arith
starts_with-name v number rest (one_zero major point ne missing) = ground arith
starts_with-name v number rest (one_one major minor point last ne present ne' present) =
    ground arith
starts_with-name v number rest (one_one major minor point last ne present ne' missing) =
    ground arith
starts_with-name v number rest (one_one major minor point last ne missing ne' present) =
    ground arith
starts_with-name v number rest (one_one major minor point last ne missing ne' missing) =
    ground arith

ne_false : (x c : ℕ) → x ≢ c → (x == c) ≡ false
ne_false x c h = ground (arith, h)

expect-absent :
    (p view : Bytes)
    → starts_with view p ≡ false
    → expect p view ≡ returns (some (StringParser.expected_characters p), view)
unfolding expect
expect-absent p view h = rw h refl

minor_version-one :
    (minor : ℕ) (last rest : Bytes)
    → minor ≢ b'0'
    → IsOptional (codes "1") last
    → minor_version (minor ∷ (last ++ 13 ∷ rest)) ≡ returns (http_1_1, 13 ∷ rest)
unfolding expect starts_with move ◌>>=◌ StringParser.head
minor_version-one minor last rest ne present = rw (ne_false minor b'0' ne) refl
minor_version-one minor last rest ne missing = rw (ne_false minor b'0' ne) refl

-- A minor version is not taken for "1.".
starts_with-point :
    (minor : ℕ) (last rest : Bytes)
    → IsOptional (codes "1") last
    → starts_with (minor ∷ (last ++ 13 ∷ rest)) (codes "1.") ≡ false
unfolding starts_with
starts_with-point minor last rest present = ground arith
starts_with-point minor last rest missing = ground arith

number_version-VersionNumber :
    (v : HttpVersion) (number rest : Bytes)
    → VersionNumber v number
    → number_version (number ++ 13 ∷ rest) ≡ returns (v, 13 ∷ rest)
unfolding expect starts_with move ◌>>=◌ StringParser.head
number_version-VersionNumber v number rest (two present) = refl
number_version-VersionNumber v number rest (two missing) = refl
number_version-VersionNumber v number rest (one_zero major point ne present) =
    rw (ne_false major b'2' ne) refl
number_version-VersionNumber v number rest (one_zero major point ne missing) =
    rw (ne_false major b'2' ne) refl
number_version-VersionNumber v number rest (one_one major minor point last ne present ne' there) =
    rw (ne_false major b'2' ne) (minor_version-one minor last rest ne' there)
number_version-VersionNumber v number rest (one_one major minor point last ne missing ne' there) =
    rw (ne_false major b'2' ne) (
      >>=-returns (expect (codes "1.")) (λ _. minor_version) {view = minor ∷ (last ++ 13 ∷ rest)}
        {rest = minor ∷ (last ++ 13 ∷ rest)}
        (expect-absent (codes "1.") _ (starts_with-point minor last rest there))
      ∙ minor_version-one minor last rest ne' there)

-- With both texts in front of the end of a line, the version is read and the rest is left.
pub version_string_to_enum-VersionNumber :
    (v : HttpVersion) (name number rest : Bytes)
    → IsOptional (codes "HTTP/") name
    → VersionNumber v number
    → version_string_to_enum (name ++ (number ++ 13 ∷ rest)) ≡ returns (v, 13 ∷ rest)
unfolding version_string_to_enum ◌>>=◌ expect starts_with
version_string_to_enum-VersionNumber v name number rest present h =
    number_version-VersionNumber v number rest h
version_string_to_enum-VersionNumber v name number rest missing h =
    >>=-returns (expect (codes "HTTP/")) (λ _. number_version) {view = number ++ 13 ∷ rest}
      {rest = number ++ 13 ∷ rest}
      (expect-absent (codes "HTTP/") _ (starts_with-name v number rest h))
    ∙ number_version-VersionNumber v number rest h
