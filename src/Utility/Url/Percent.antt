-- ===== src/Utility/Url/Percent.antt =====
-- `percent_encode` writes the code of a reserved byte in decimal; `percent_decode` reads it as a
-- hexadecimal number.
use simple_serv.Common.{
  ℕ, ◌+◌, ◌*◌, ◌/◌, ◌%◌, ◌≤◌, ◌≡◌, ◌≢◌, ◌↔◌, refl, sym, ap, ◌∙◌, true, false, Bool-cases, inl, inr,
  [], ◌∷◌, arith, All, Bytes, ◌==◌, if◌then◌else◌,
}
use simple_serv.Common.Outcome.{returns, ◌>>=◌}
use simple_serv.Utility.Url.{
  is_reserved, stoi, append_to, two_digits, percent_decode, percent_encode,
}

-- What decoding makes of the encoding of a byte
abbrev pub garbled : ℕ → ℕ
garbled c = if is_reserved c then 16 * (c / 10) + c % 10 else c

abbrev pub all_garbled : Bytes → Bytes
all_garbled [] = []
all_garbled (c ∷ s) = garbled c ∷ all_garbled s

reserved_bounds : (c : ℕ) → is_reserved c ≡ true → (32 ≤ c) × (c ≤ 93)
unfolding is_reserved
reserved_bounds c h = ground arith

percent_reserved : (c : ℕ) → is_reserved c ≡ false → (c == b'%') ≡ false
unfolding is_reserved
percent_reserved c h = ground arith

stoi-two_digits : (c : ℕ) → c ≤ 93 → stoi (two_digits c []) ≡ returns (16 * (c / 10) + c % 10)
unfolding stoi
stoi-two_digits c h = ground arith

percent_decode-coded :
    (c : ℕ) (s : Bytes)
    → c ≤ 93
    → percent_decode (b'%' ∷ two_digits c s) ≡ append_to (16 * (c / 10) + c % 10) (percent_decode s)
unfolding percent_decode
percent_decode-coded c s h =
    ap (λ o. o >>= (λ d. append_to d (percent_decode s))) (stoi-two_digits c h)

percent_decode-cons :
    (c : ℕ) (s : Bytes)
    → (c == b'%') ≡ false
    → percent_decode (c ∷ s) ≡ append_to c (percent_decode s)
unfolding percent_decode
percent_decode-cons c [] h = rw h
percent_decode-cons c (a ∷ []) h = rw h
percent_decode-cons c (a ∷ b ∷ s) h = rw h

-- Decoding what was encoded keeps the length, and puts another byte for every reserved one.
pub percent_decode-percent_encode :
    (s : Bytes) → percent_decode (percent_encode s) ≡ returns (all_garbled s)
unfolding percent_encode
percent_decode-percent_encode [] = unfold percent_decode in refl
percent_decode-percent_encode (c ∷ s) = elim (Bool-cases (is_reserved c)) [
  | inl yes_reserved ↦
      let bounds = reserved_bounds c yes_reserved in
      rw yes_reserved
        (percent_decode-coded c (percent_encode s) bounds.1 ∙ rw (percent_decode-percent_encode s))
  | inr plain ↦ rw plain (
      percent_decode-cons c (percent_encode s) (percent_reserved c plain)
      ∙ rw (percent_decode-percent_encode s))
]

returns-injective : {a b : Bytes} → returns a ≡ returns b → a ≡ b
returns-injective e = cc

garbled-ne : (c : ℕ) → is_reserved c ≡ true → garbled c ≢ c
garbled-ne c h e = let bounds = reserved_bounds c h in absurd (omega (arith, rw h at e))

all_garbled_iff : (s : Bytes) → (all_garbled s ≡ s) ↔ All (λ c. is_reserved c ≡ false) s
all_garbled_iff [] = ((λ _. tt), λ _. refl)
all_garbled_iff (c ∷ s) = elim (Bool-cases (is_reserved c)) [
  | inl yes_reserved ↦
      ((λ e. absurd (garbled-ne c yes_reserved (ground arith))), λ h. cc (h.0, yes_reserved))
  | inr plain ↦
      let tail_iff = all_garbled_iff s in
      ((λ e. (plain, tail_iff.0 (ground arith))), λ h. rw (plain) (ap (◌∷◌ c) (tail_iff.1 h.1)))
]

-- percent_decode gives back what percent_encode was given exactly when no byte of it is reserved.
pub percent_decode-percent_encode_iff :
    (s : Bytes)
    → (percent_decode (percent_encode s) ≡ returns s) ↔ All (λ c. is_reserved c ≡ false) s
percent_decode-percent_encode_iff s =
    let decoded = percent_decode-percent_encode s in
    (
      (λ e. (all_garbled_iff s).0 (returns-injective (sym decoded ∙ e))),
      λ h. decoded ∙ ap returns ((all_garbled_iff s).1 h),
    )
