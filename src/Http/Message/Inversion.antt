-- ===== src/Http/Message/Inversion.antt =====
-- What the view was when a method has been read.
use mathlib.Core.Path.{subst}
use simple_serv.Common.{
  ℕ, ◌≡◌, refl, sym, ap, ◌∙◌, Bool, true, false, Bool-cases, inl, inr, Option, none, some, [], ◌∷◌,
  ◌++◌, Bytes, codes, ◌==◌, if◌then◌else◌, ==_iff,
}
use simple_serv.Common.Outcome.{returns}
use simple_serv.Utility.StringParser
use simple_serv.Utility.StringParser.{
  Action, Expected, value, unexpected, ParserError, pure, ◌>>=◌, move, expect, next_token,
}
use simple_serv.Utility.StringParser.Ensures.{>>=-eq-returns}
use simple_serv.Utility.StringParser.Inversion.{expect-eq-none}
use simple_serv.Http.Status.{
  HttpMethod, get, post, put, delete, head, options, trace, connect, http_method_strings,
}
use simple_serv.Http.Message.{
  transform_fn, finish_method, post_or_put, no_method, method_from, method_string_to_enum,
}

-- From a view that begins with `front` the action reads a method by its name.
abbrev ReadsName : Bytes → Action (Expected HttpMethod) → Type 0
ReadsName front act =
    (s rest : Bytes) (m : HttpMethod)
    → act (front ++ s) ≡ returns (value m, rest)
    → front ++ s ≡ http_method_strings m ++ rest

ReadsName-if :
    (front : Bytes) (b : Bool) (m n : Action (Expected HttpMethod))
    → (b ≡ true → ReadsName front m)
    → ReadsName front n
    → ReadsName front (if b then m else n)
ReadsName-if front true m n hm hn = hm refl
ReadsName-if front false m n hm hn = hn

-- What `transform_fn` makes of `expect` is a value only if the text was there.
expect_name :
    (method : HttpMethod) (others view rest : Bytes) {m : HttpMethod}
    → (expect others >>= λ res. pure (transform_fn method res)) view ≡ returns (value m, rest)
    → (method ≡ m) × (view ≡ others ++ rest)
expect_name method others view rest {m} h =
    let (res, mid, first, second) = >>=-eq-returns (expect others) _ h in go res mid first second
  where
    go :
        (res : Option ParserError) (mid : Bytes)
        → expect others view ≡ returns (res, mid)
        → pure (transform_fn method res) mid ≡ returns (value m, rest)
        → (method ≡ m) × (view ≡ others ++ rest)
    go none mid first second =
        let left : mid ≡ rest = cc second in
        (cc second, expect-eq-none others view mid first ∙ ap (λ s. others ++ s) left)
    go (some e) mid first second = cc second

finish_method-ReadsName :
    (method : HttpMethod) (first : ℕ) (others : Bytes)
    → http_method_strings method ≡ first ∷ others
    → ReadsName (first ∷ []) (finish_method method others)
unfolding move ◌>>=◌
finish_method-ReadsName method first others name s rest m h =
    let (same, there) = expect_name method others s rest h in
    ap (λ t. first ∷ t) there ∙ ap (λ t. t ++ rest) (sym name ∙ ap http_method_strings same)

post_or_put-ReadsName : ReadsName (codes "P") post_or_put
unfolding move ◌>>=◌ StringParser.head
post_or_put-ReadsName [] rest m h = cc h
post_or_put-ReadsName (y ∷ s) rest m h = elim (Bool-cases (y == b'O')) [
  | inl is_o ↦
      let (same, there) = expect_name post (codes "ST") s rest (rw is_o at h) in
      ap (λ c. b'P' ∷ c ∷ s) ((==_iff y b'O').0 is_o)
      ∙ ap (λ t. codes "PO" ++ t) there
      ∙ ap (λ n. http_method_strings n ++ rest) same
  | inr other ↦
      let (same, there) = expect_name put (codes "UT") (y ∷ s) rest (rw other at h) in
      ap (λ t. b'P' ∷ t) there ∙ ap (λ n. http_method_strings n ++ rest) same
]

no_method-ReadsName : (front : Bytes) → ReadsName front no_method
no_method-ReadsName front s rest m h =
    let (token, mid, first, second) = >>=-eq-returns (next_token b' ') _ h in cc second

letter : (x c : ℕ) (others : Bytes) → (x == c) ≡ true → c ∷ others ≡ x ∷ others
letter x c others h = ap (λ d. d ∷ others) (sym ((==_iff x c).0 h))

method_from-ReadsName : (x : ℕ) → ReadsName (x ∷ []) (method_from x)
method_from-ReadsName x =
    ReadsName-if (x ∷ []) (x == b'G') _ _
      (λ e. finish_method-ReadsName get x (codes "ET") (letter x b'G' _ e))
      (ReadsName-if (x ∷ []) (x == b'P') _ _
        (λ e.
          subst (λ c. ReadsName (c ∷ []) post_or_put) (sym ((==_iff x b'P').0 e))
            post_or_put-ReadsName)
        (ReadsName-if (x ∷ []) (x == b'D') _ _
          (λ e. finish_method-ReadsName delete x (codes "ELETE") (letter x b'D' _ e))
          (ReadsName-if (x ∷ []) (x == b'H') _ _
            (λ e. finish_method-ReadsName head x (codes "EAD") (letter x b'H' _ e))
            (ReadsName-if (x ∷ []) (x == b'O') _ _
              (λ e. finish_method-ReadsName options x (codes "PTIONS") (letter x b'O' _ e))
              (ReadsName-if (x ∷ []) (x == b'T') _ _
                (λ e. finish_method-ReadsName trace x (codes "RACE") (letter x b'T' _ e))
                (ReadsName-if (x ∷ []) (x == b'C') _ _
                  (λ e. finish_method-ReadsName connect x (codes "ONNECT") (letter x b'C' _ e))
                  (no_method-ReadsName (x ∷ []))))))))

-- A method is read only from its name.
pub method_string_to_enum-eq-value :
    (view rest : Bytes) (m : HttpMethod)
    → method_string_to_enum view ≡ returns (value m, rest)
    → view ≡ http_method_strings m ++ rest
unfolding method_string_to_enum StringParser.head ◌>>=◌
method_string_to_enum-eq-value [] rest m h = cc h
method_string_to_enum-eq-value (x ∷ view) rest m h = method_from-ReadsName x view rest m h
