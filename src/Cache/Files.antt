-- ===== src/Cache/Files.antt =====
-- `FileStore` of include/simpleserv/cache.hpp with the parser for `std::string`: one file for each
-- key. `remove` and `clear` call a member of a `file` that no one declares, and have no definition
-- here.
pub mod Numbering
use simple_serv.Common.{
  ℕ, zero, suc, ◌+◌, ◌-◌, ◌/◌, ◌%◌, ◌^◌, ◌<◌, ◌≡◌, refl, sym, ap, ◌∙◌, arith, Bool, true, false,
  Option, none, some, List, [], ◌∷◌, ◌++◌, Bytes, ltb, leb, str_eq, str_eq_iff, if◌then◌else◌,
}
use simple_serv.Common.Dict.{Dict, lookup, insert, lookup-insert}
use simple_serv.Common.Outcome.{Outcome, returns, undefined}
use simple_serv.Utility.FileSystem.{FileSystem, write_file}

-- `ContentParser<std::string>`
abbrev pub encode : Bytes → Bytes
encode content = content

abbrev pub decode : Bytes → Option Bytes
decode content = some content

-- No constructor sets `id`; it is not negative here.
pub record FileStore : Type 0 where
  pub id : ℕ
  pub index : Dict Bytes
  pub path : Bytes

abbrev value_or_new : Bytes → Dict Bytes → Option Bytes → Bytes × Dict Bytes
value_or_new key m (some v) = (v, m)
value_or_new key m none = ([], insert key [] m)

-- `m[k]` puts an empty value behind a new key.
abbrev pub at_key : Bytes → Dict Bytes → Bytes × Dict Bytes
at_key key m = value_or_new key m (lookup key m)

-- `std::fstream` opens for reading and writing if nothing else is said.
abbrev pub open_both : FileSystem → Bytes → Option Bytes
open_both fs path = if fs.writable path then fs.content path else none

abbrev pub decode_opened : Option Bytes → Option Bytes
decode_opened none = none
decode_opened (some content) = decode content

unfoldable pub get : FileSystem → Bytes → FileStore → Option Bytes × FileStore
get fs key s =
    let (name, index) = at_key key s.index in
    (decode_opened (open_both fs (s.path ++ name)), record s { index = index })

-- The last `n` decimal digits, without leading zeros
unfoldable pub digits : ℕ → ℕ → Bytes
digits zero i = []
digits (suc n) i =
    let leading = digits n (i / 10) in
    if ltb i 10 then (48 + i) ∷ [] else leading ++ (48 + i % 10) ∷ []

abbrev pub write_opened : Bytes → Bytes → FileSystem → FileSystem
unfolding write_file
write_opened path value fs = if fs.writable path then write_file path value fs else fs

-- `id++` overflows at the largest `int`. What `encode` returns is dropped.
-- Ten digits are enough for an `int`.
abbrev pub to_string : ℕ → Bytes
to_string i = digits 10 i

unfoldable pub put : FileSystem → Bytes → Bytes → FileStore → Outcome (FileStore × FileSystem)
put fs key value s =
    let name = to_string s.id in
    if leb (2 ^ 31 - 1) s.id
    then undefined
    else returns (
      record s { id = suc s.id; index = insert key name s.index },
      write_opened (s.path ++ name) value fs,
    )
