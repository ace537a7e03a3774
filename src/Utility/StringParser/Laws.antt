-- ===== src/Utility/StringParser/Laws.antt =====
-- What the cursor does on inputs of a known shape.
use simple_serv.Common.{
  ℕ, ◌≢◌, ◌≡◌, none, ◌∷◌, ◌++◌, arith, Bytes, Lacks, find-append, find-none, starts_with-append,
  take-length-append, drop-length-append,
}
use simple_serv.Common.Outcome.{returns, undefined}
use simple_serv.Utility.StringParser.{
  Action, ◌>>=◌, expect, consume_all_two, next_token, next_token_of,
}

-- The text that is expected is taken off the view.
pub expect-append : (p s : Bytes) → expect p (p ++ s) ≡ returns (none, s)
unfolding expect
expect-append p s = ground (arith, starts_with-append p s, drop-length-append p s)

pub next_token-append :
    (d : ℕ) (p s : Bytes) → Lacks d p → next_token d (p ++ d ∷ s) ≡ returns (p, d ∷ s)
unfolding next_token
next_token-append d p s h =
    ground (arith, find-append d p s h, take-length-append p (d ∷ s), drop-length-append p (d ∷ s))

pub next_token_of-append :
    (d : ℕ) (p s : Bytes) → Lacks d p → next_token_of (p ++ d ∷ s) d ≡ returns (p, d ∷ s)
unfolding next_token_of
next_token_of-append d p s h =
    ground (arith, find-append d p s h, take-length-append p (d ∷ s), drop-length-append p (d ∷ s))

-- Without a delimiter the prefix of length `npos` is removed.
pub next_token_of-Lacks : (d : ℕ) (s : Bytes) → Lacks d s → next_token_of s d ≡ undefined
unfolding next_token_of
next_token_of-Lacks d s h = ground (arith, find-none d s h)

pub next_token-Lacks : (d : ℕ) (s : Bytes) → Lacks d s → next_token d s ≡ undefined
unfolding next_token
next_token-Lacks d s h = ground (arith, find-none d s h)

-- One blank between two parts: it is expected, and there is no other to consume.
pub consume_all_two-stop :
    (a b x : ℕ) (s : Bytes) → x ≢ a → x ≢ b → consume_all_two a b (x ∷ s) ≡ returns (tt, x ∷ s)
unfolding consume_all_two
consume_all_two-stop a b x s h k = ground arith

-- An action that returns hands its value and its view to what follows.
pub >>=-returns {ℓ κ} :
    {A : Type ℓ} {B : Type κ} (m : Action A) (f : A → Action B) {view rest : Bytes} {a : A}
    → m view ≡ returns (a, rest)
    → (m >>= f) view ≡ f a rest
unfolding ◌>>=◌
>>=-returns m f e = rw (e, ◌>>=◌)
