-- ===== src/Http/Parser/Inversion.antt =====
-- What is known of the view when a step of the parser has returned a value.
use simple_serv.Common.{◌≡◌, ◌∙◌, Option, none, some, Bytes}
use simple_serv.Common.Outcome.{returns}
use simple_serv.Utility.StringParser
use simple_serv.Utility.StringParser.{
  Action, Expected, value, unexpected, expect, expect_two, consume_all_two, next_token,
}
use simple_serv.Utility.StringParser.Ensures.{>>=-eq-returns}
use simple_serv.Http.Parser.{Parse, ◌>>=◌, run, check, refusal, follow}

module _ {A B : Type 0} where
  -- A `do` block that has returned a value has taken its first step to a value.
  pub >>=-eq-value :
      (m : Parse A) (f : A → Parse B) {view rest : Bytes} {b : B}
      → (m >>= f) view ≡ returns (value b, rest)
      → (a : A) × (mid : Bytes) × (m view ≡ returns (value a, mid))
        × (f a mid ≡ returns (value b, rest))
  unfolding ◌>>=◌
  >>=-eq-value m f {view} {rest} {b} h =
      let (result, mid, first, second) =
        StringParser.Ensures.>>=-eq-returns m (λ r. follow r f) h in
      go result mid first second
    where
      go :
          (result : Expected A) (mid : Bytes)
          → m view ≡ returns (result, mid)
          → follow result f mid ≡ returns (value b, rest)
          → (a : A) × (mid : Bytes) × (m view ≡ returns (value a, mid))
            × (f a mid ≡ returns (value b, rest))
      go (value a) mid first second = (a, mid, first, second)
      go (unexpected e) mid first second = cc second

pub run-eq-value :
    {A : Type 0} (m : Action A) {view rest : Bytes} {a : A}
    → run m view ≡ returns (value a, rest)
    → m view ≡ returns (a, rest)
unfolding run
run-eq-value m h = let (a, mid, first, second) = >>=-eq-returns m _ h in first ∙ cc second

pub check-eq-value :
    (m : Action (Option StringParser.ParserError)) {view rest : Bytes} {u : Unit {0}}
    → check m view ≡ returns (value u, rest)
    → m view ≡ returns (none, rest)
unfolding check
check-eq-value m {view} {rest} {u} h =
    let (o, mid, first, second) = >>=-eq-returns m refusal h in go o mid first second
  where
    go :
        (o : Option StringParser.ParserError) (mid : Bytes)
        → m view ≡ returns (o, mid)
        → refusal o mid ≡ returns (value u, rest)
        → m view ≡ returns (none, rest)
    go none mid first second = first ∙ cc second
    go (some e) mid first second = cc second
