-- ===== src/Utility/Url.antt =====
-- include/simpleserv/utility/url.hpp and src/simpleserv/utility/url.cpp: a path and its query, and
-- percent encoding. Positions are numbers; `npos` is `none`.
pub mod Percent
pub mod Search
pub mod Query
use mathlib.Core.Option
use simple_serv.Common.{
  ℕ, zero, suc, ◌+◌, ◌-◌, ◌*◌, ◌/◌, ◌%◌, ◌^◌, Bool, true, false, ◌&&◌, ◌||◌, Option, none, some,
  List, [], ◌∷◌, ◌++◌, Bytes, codes, find, length, take, drop, ltb, leb, ◌==◌, if◌then◌else◌, any,
}
use simple_serv.Common.Dict.{Dict, lookup, insert_sorted}
use simple_serv.Common.Outcome.{Outcome, returns, throws, undefined, invalid_argument, ◌>>=◌}

pub record Url : Type 0 where
  pub path : Bytes
  pub query : Dict Bytes

-- `GetQuery(key)`: `query[key]` makes an empty entry for a key that is not there.
abbrev query_at : Bytes → Option Bytes → Url → Bytes × Url
query_at key (some v) url = (v, url)
query_at key none url = ([], record url { query = insert_sorted key [] url.query })

unfoldable pub get_query : Bytes → Url → Bytes × Url
get_query key url = query_at key (lookup key url.query) url

abbrev cut_at : Option ℕ → Bytes → Bytes
cut_at none str = str
cut_at (some query_index) str = take query_index str

unfoldable pub path : Bytes → Bytes
unfolding find
path str = cut_at (find b'?' str) str

-- `str.find(c, start)`: nothing is found from beyond the end.
unfoldable pub find_from : ℕ → Bytes → ℕ → Option ℕ
unfolding find
find_from c str start = Option.map (λ i. start + i) (find c (drop start str))

-- `a - b` on `size_t`, for numbers below 2 ^ 64
abbrev pub sub_size : ℕ → ℕ → ℕ
sub_size a b = (a + 2 ^ 64 - b) % 2 ^ 64

-- `str.substr(pos, n)`, for a `pos` that is not beyond the end
abbrev pub substr : Bytes → ℕ → ℕ → Bytes
substr str pos n = take n (drop pos str)

-- One round with an equals sign at `eq_pos`
abbrev add_pair : Bytes → ℕ → ℕ → ℕ → Dict Bytes → Dict Bytes
add_pair str query_index eq_pos amp_pos query =
    insert_sorted (substr str query_index (sub_size eq_pos query_index))
      (substr str (eq_pos + 1) (sub_size (sub_size amp_pos eq_pos) 1)) query

-- The loop, with fuel; `none` means that the fuel ran out. What a `let` binds waits.
unfoldable pub searchpart_from : ℕ → Bytes → ℕ → Dict Bytes → Option (Dict Bytes)
unfolding find_from insert_sorted
searchpart_from zero str query_index query = none
searchpart_from (suc fuel) str query_index query =
    let amp_pos = Option.get_or (find_from b'&' str query_index) (length str) in
    elim (find_from b'=' str query_index) [
      | none ↦ some query
      | some eq_pos ↦
          searchpart_from fuel str (amp_pos + 1) (add_pair str query_index eq_pos amp_pos query)
    ]

unfoldable pub searchpart : Bytes → ℕ → Dict Bytes
unfolding searchpart_from
searchpart str start = Option.get_or (searchpart_from (suc (length str)) str start []) []

-- `from_string` has no error branch.
unfoldable pub from_string : Bytes → Url
unfolding path searchpart
from_string str =
    let path_str = path str in
    record { path = path_str; query = searchpart str (length path_str + 1) }

-- `std::stoi(hex, nullptr, 16)` on at most two bytes, as `strtol` reads them: blanks, a sign, an
-- optional "0x", and the digits.
abbrev within : ℕ → ℕ → ℕ → Bool
within lo hi c = leb lo c && leb c hi

unfoldable pub hex_digit : ℕ → Option ℕ
hex_digit c =
    if within b'0' b'9' c
    then some (c - b'0')
    else if within b'a' b'f' c
    then some (c - b'a' + 10)
    else if within b'A' b'F' c
    then some (c - b'A' + 10)
    else none

abbrev is_blank : ℕ → Bool
is_blank c = c == b' ' || within 9 13 c

abbrev one_digit : Option ℕ → Outcome ℕ
one_digit none = throws invalid_argument
one_digit (some d) = returns d

-- The sign, a blank or nothing in front of the last digit
abbrev behind_front : ℕ → Option ℕ → Outcome ℕ
behind_front a d =
    if is_blank a || a == b'+'
    then one_digit d
    else if a == b'-'
    then one_digit (Option.map (λ n. (256 - n) % 256) d)
    else throws invalid_argument

abbrev two_places : ℕ → Option ℕ → Option ℕ → Outcome ℕ
two_places a none second = behind_front a second
two_places a (some d) none = returns d
two_places a (some d) (some e) = returns (16 * d + e)

-- The result is cast to a `char`, so it is the byte that is given here.
unfoldable pub stoi : Bytes → Outcome ℕ
unfolding hex_digit
stoi [] = throws invalid_argument
stoi (a ∷ []) = one_digit (hex_digit a)
stoi (a ∷ b ∷ s) = two_places a (hex_digit a) (hex_digit b)

abbrev append_to : ℕ → Outcome Bytes → Outcome Bytes
append_to c rest = rest >>= (λ s. returns (c ∷ s))

-- `i` stands at the head of the text. Behind a `%`, `substr` takes what there is of two bytes.
unfoldable pub percent_decode : Bytes → Outcome Bytes
unfolding stoi
percent_decode [] = returns []
percent_decode (x ∷ []) =
    if x == b'%' then stoi [] >>= (λ c. append_to c (returns [])) else returns (x ∷ [])
percent_decode (x ∷ a ∷ []) =
    let plain = append_to x (percent_decode (a ∷ [])) in
    if x == b'%' then stoi (a ∷ []) >>= (λ c. append_to c (returns [])) else plain
percent_decode (x ∷ a ∷ b ∷ s) =
    let coded = percent_decode s in
    let plain = append_to x (percent_decode (a ∷ b ∷ s)) in
    if x == b'%' then stoi (a ∷ b ∷ []) >>= (λ c. append_to c coded) else plain

-- The cases of the `switch`
abbrev pub reserved : Bytes
reserved = codes " !\"#$%&'()*+,/:;=?@[]"

unfoldable pub is_reserved : ℕ → Bool
is_reserved c = any (λ r. c == r) reserved

-- `std::to_string` of a number with two digits, as all the reserved ones have
abbrev two_digits : ℕ → Bytes → Bytes
two_digits n rest = (n / 10 + b'0') ∷ (n % 10 + b'0') ∷ rest

unfoldable pub percent_encode : Bytes → Bytes
unfolding is_reserved
percent_encode [] = []
percent_encode (c ∷ s) =
    let rest = percent_encode s in if is_reserved c then b'%' ∷ two_digits c rest else c ∷ rest
