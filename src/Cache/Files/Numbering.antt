-- ===== src/Cache/Files/Numbering.antt =====
-- The files of a `FileStore` have different names, so that it keeps what is put into it.
use mathlib.Core.List.{append_cancel_left}
use native.Mathlib.Nat.{pow-suc}
use simple_serv.Common.{
  some_inj, ℕ, zero, suc, ◌+◌, ◌*◌, ◌-◌, ◌/◌, ◌%◌, ◌^◌, ◌<◌, ◌≡◌, ◌≢◌, ◌⊎◌, inl, inr, refl, sym, ap,
  ◌∙◌, arith, true, false, Bool-cases, Option-cases, length, length-concat, Option, none, some, [],
  ◌∷◌, ◌++◌, Bytes, ltb, leb, str_eq, str_eq_refl, str_eq_iff, if◌then◌else◌,
}
use simple_serv.Common.Dict.{Dict, lookup, insert, lookup-insert}
use simple_serv.Common.Outcome.{returns}
use simple_serv.Utility.FileSystem.{FileSystem, write_file}
use simple_serv.Cache.Files.{FileStore, digits, at_key, open_both, write_opened, get, put}

-- The number that digits write
abbrev value_from : ℕ → Bytes → ℕ
value_from n [] = n
value_from n (d ∷ ds) = value_from (n * 10 + (d - 48)) ds

value_from-append :
    (n d : ℕ) (ds : Bytes) → value_from n (ds ++ d ∷ []) ≡ value_from n ds * 10 + (d - 48)
value_from-append n d [] = refl
value_from-append n d (e ∷ ds) = value_from-append (n * 10 + (e - 48)) d ds

value_from-digits : (n i : ℕ) → i < 10 ^ n → value_from 0 (digits n i) ≡ i
unfolding digits
value_from-digits zero i h = omega arith
value_from-digits (suc n) i h =
    let shorter : i / 10 < 10 ^ n = omega (arith, h, pow-suc 10 n) in
    elim (Bool-cases (ltb i 10)) [
      | inl one ↦ rw one (omega arith)
      | inr more ↦
          rw
            (
              more,
              value_from-append 0 (48 + i % 10) (digits n (i / 10)),
              value_from-digits n (i / 10) shorter,
            )
            (omega arith)
    ]

digits-injective : (i j : ℕ) → i < 10 ^ 10 → j < 10 ^ 10 → digits 10 i ≡ digits 10 j → i ≡ j
digits-injective i j hi hj e =
    sym (value_from-digits 10 i hi) ∙ ap (value_from 0) e ∙ value_from-digits 10 j hj

digits_positive : (n i : ℕ) → 0 < length (digits (suc n) i)
unfolding digits
digits_positive n i = elim (Bool-cases (ltb i 10)) [
  | inl one ↦ rw one (omega arith)
  | inr more ↦ rw (more, length-concat (digits n (i / 10)) (48 + i % 10)) (omega arith)
]

-- A file is named by an earlier `id`, or by nothing if it belongs to a key that was only looked for.
pub record IsNumbered (s : FileStore) : Type 0 where
  pub names :
      (k name : Bytes)
      → lookup k s.index ≡ some name
      → (name ≡ []) ⊎ ((i : ℕ) × (i < s.id) × (name ≡ digits 10 i))

abbrev name_of : Option Bytes → Bytes
name_of none = []
name_of (some name) = name

at_key-name_of : (k : Bytes) (m : Dict Bytes) → (at_key k m).0 ≡ name_of (lookup k m)
at_key-name_of k m = ground arith

-- The name for the next key is free.
name_of-ne-digits :
    (s : FileStore) (k : Bytes)
    → IsNumbered s
    → s.id < 10 ^ 10
    → name_of (lookup k s.index) ≢ digits 10 s.id
name_of-ne-digits s k h lt e = elim (Option-cases (lookup k s.index)) [
  | inl absent ↦ omega (arith, digits_positive 9 s.id, ap length (sym e ∙ ap name_of absent))
  | inr (name, there) ↦ elim (h.names k name there) [
    | inl empty ↦
        omega (arith, digits_positive 9 s.id, ap length (sym e ∙ ap name_of there ∙ empty))
    | inr (i, earlier, named) ↦
        omega
          (arith, digits-injective i s.id (omega arith) lt (sym named ∙ sym (ap name_of there) ∙ e))
  ]
]

insert-IsNumbered :
    (s : FileStore) (key : Bytes)
    → IsNumbered s
    → IsNumbered (record s { id = suc s.id; index = insert key (digits 10 s.id) s.index })
insert-IsNumbered s key h = record {
  names = λ k name there. elim (Bool-cases (str_eq key k)) [
    | inl same ↦
        let found = sym (lookup-insert key k (digits 10 s.id) s.index) ∙ there in
        inr (s.id, omega arith, sym (some_inj.0 (rw same at found)))
    | inr other ↦
        let found = sym (lookup-insert key k (digits 10 s.id) s.index) ∙ there in
        elim (h.names k name (rw other at found)) [
          | inl empty ↦ inl empty
          | inr (i, earlier, named) ↦ inr (i, omega arith, named)
        ]
  ];
}

-- A file that is written and another one
write_opened-here :
    (fs : FileSystem) (p value : Bytes)
    → fs.writable p ≡ true
    → open_both (write_opened p value fs) p ≡ some value
unfolding write_opened write_file
write_opened-here fs p value writable = rw (writable, str_eq_refl p, writable) refl

write_opened-other :
    (fs : FileSystem) (p q value : Bytes)
    → p ≢ q
    → open_both (write_opened p value fs) q ≡ open_both fs q
unfolding write_opened write_file
write_opened-other fs p q value ne = ground (arith, str_eq_iff p q)

-- If the names in the index are those of earlier ids or empty, the id is below 2 ^ 31 - 1 and the
-- new file can be written, put of a FileStore returns, the names are so again, and get gives the
-- value for the key and for every other key what it gave before.
pub put-get :
    (fs : FileSystem) (s : FileStore) (key value : Bytes)
    → IsNumbered s
    → suc s.id < 2 ^ 31
    → fs.writable (s.path ++ digits 10 s.id) ≡ true
    → (s' : FileStore) × (fs' : FileSystem) × (put fs key value s ≡ returns (s', fs'))
      × IsNumbered s'
      × ((j : Bytes) → (get fs' j s').0 ≡ (if str_eq key j then some value else (get fs j s).0))
unfolding put get
put-get fs s key value h lt writable =
    let name = digits 10 s.id in
    let s' : FileStore = record s { id = suc s.id; index = insert key name s.index } in
    let in_range : leb (2 ^ 31 - 1) s.id ≡ false = ground arith in
    (
      s',
      write_opened (s.path ++ name) value fs,
      rw in_range refl,
      insert-IsNumbered s key h,
      λ j. elim (Bool-cases (str_eq key j)) [
        | inl same ↦
            let at_name : (at_key j s'.index).0 ≡ name =
              at_key-name_of j s'.index ∙ rw (lookup-insert key j name s.index, same) refl in
            rw (same, at_name, write_opened-here fs (s.path ++ name) value writable) refl
        | inr other ↦
            let at_old : (at_key j s'.index).0 ≡ (at_key j s.index).0 =
              at_key-name_of j s'.index
              ∙ rw (lookup-insert key j name s.index, other) refl
              ∙ sym (at_key-name_of j s.index) in
            let free : s.path ++ name ≢ s.path ++ (at_key j s.index).0 = λ e.
              name_of-ne-digits s j h (omega arith)
                (sym (at_key-name_of j s.index) ∙ sym (append_cancel_left s.path _ _ e)) in
            rw (other, at_old, write_opened-other fs (s.path ++ name) _ value free) refl
      ],
    )
