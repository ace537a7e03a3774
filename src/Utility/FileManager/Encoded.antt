-- ===== src/Utility/FileManager/Encoded.antt =====
-- What `generate_encoded_files` does to the descriptors.
use mathlib.Core.Path.{subst}
use simple_serv.Common.{
  ℕ, false, ◌≡◌, ◌≢◌, ◌⊎◌, inl, inr, refl, ap, Option, none, some, Option-cases, [], ◌∷◌, ◌++◌,
  Bool-cases, arith, All, Bytes, codes, str_eq, str_eq_iff, str_eq_refl,
}
use simple_serv.Common.Dict.{Dict, lookup, lookup-insert}
use simple_serv.Common.Outcome.{Outcome, returns, throws, undefined, ◌>>=◌}
use simple_serv.Utility.ContentCoding.{encode, join_path, write_compressed}
use simple_serv.Utility.FileType.{filename}
use simple_serv.Utility.FileSystem.{FileSystem, read_file}
use simple_serv.Utility.FileManager.{
  FileDescriptor, add_brotli, parent_path, is_encoded_type, generate_one, generate_from,
  generate_encoded_files,
}
use simple_serv.Utility.FileManager.Descriptors.{IsDescribed, AllDescribed, All-insert, All-lookup}

abbrev IsKeyIn : {V : Type 0} → Dict V → Bytes × V → Type 0
IsKeyIn m p = lookup p.0 m ≢ none

abbrev IsOutput : Bytes → Bytes → Type 0
IsOutput path output = (output ≡ []) ⊎ (output ≡ path ++ codes ".br")

All-IsKeyIn-cons :
    {V : Type 0} (q : Bytes × V) (rest m : Dict V)
    → All (IsKeyIn m) rest
    → All (IsKeyIn (q ∷ m)) rest
unfolding lookup
All-IsKeyIn-cons q [] m h = tt
All-IsKeyIn-cons (j, w) (p ∷ rest) m (h, hs) = (still_in, All-IsKeyIn-cons (j, w) rest m hs)
  where
    still_in : IsKeyIn ((j, w) ∷ m) p
    still_in = ground arith

All-keys : {V : Type 0} (m : Dict V) → All (IsKeyIn m) m
unfolding lookup
All-keys [] = tt
All-keys ((k, v) ∷ m) = (own_key, All-IsKeyIn-cons (k, v) m m (All-keys m))
  where
    own_key : IsKeyIn ((k, v) ∷ m) (k, v)
    own_key = ground (arith, str_eq_refl k)

-- What `encode` returns, if it returns
abbrev Encoded : Bytes → Outcome (Bytes × FileSystem) → Type 0
Encoded path (returns (output, fs)) = IsOutput path output
Encoded path (throws e) = Unit
Encoded path undefined = Unit

-- What a round of the loop, or the loop, returns
abbrev Keeps : (Dict FileDescriptor → Type 0) → Outcome (Dict FileDescriptor × FileSystem) → Type 0
Keeps P (returns (ds, fs)) = P ds
Keeps P (throws e) = Unit
Keeps P undefined = Unit

module _ (compress : Bytes → ℕ → Option Bytes) where
  encode-Encoded : (path : Bytes) (fs : FileSystem) → Encoded path (encode compress path fs)
  unfolding encode
  encode-Encoded path fs = elim (Bool-cases (fs.is_present path)) [
    | inr absent ↦ rw absent tt
    | inl present ↦ rw present (output (read_file fs path) (compress (read_file fs path) _))
  ]
    where
      output :
          (input : Bytes) (c : Option Bytes)
          → IsOutput path (write_compressed compress path input c fs).0
      output input none = inl refl
      output input (some c) = elim (Bool-cases (fs.writable (path ++ codes ".br"))) [
        | inl opened ↦ rw opened (inr refl)
        | inr closed ↦ rw closed (inl refl)
      ]

  is_companion :
      (path output : Bytes)
      → IsOutput path output
      → str_eq output [] ≡ false
      → output ≡ path ++ codes ".br"
  is_companion path output (inl e) made = absurd (grind (arith, str_eq_iff output []))
  is_companion path output (inr e) made = e

  module _ (root_fs : FileSystem) (root : Bytes) where
    add_brotli-AllDescribed :
        (path output : Bytes) (d : FileDescriptor) (ds : Dict FileDescriptor)
        → lookup path ds ≡ some d
        → AllDescribed root_fs root ds
        → IsOutput (join_path (parent_path path) (filename path)) output
        → AllDescribed root_fs root (add_brotli path output ds)
    unfolding add_brotli
    add_brotli-AllDescribed path output d ds found h o = elim (Bool-cases (str_eq output [])) [
      | inl empty ↦ rw empty h
      | inr made ↦
          rw (made, found)
            (All-insert (IsDescribed root_fs root) path _ ds h (
              let was = All-lookup (IsDescribed root_fs root) path d ds h found in
              record {
                file = was.file;
                named = was.named;
                typed = was.typed;
                plain = was.plain;
                compressed = inr (ap some (is_companion _ output o made));
              }))
    ]

    -- The dictionary is described, and has the keys that are still to be visited.
    abbrev Ready : Dict FileDescriptor → Dict FileDescriptor → Type 0
    Ready rest ds = AllDescribed root_fs root ds × All (IsKeyIn ds) rest

    add_brotli-IsKeyIn :
        (path output : Bytes) (p : Bytes × FileDescriptor) (ds : Dict FileDescriptor)
        → IsKeyIn ds p
        → IsKeyIn (add_brotli path output ds) p
    unfolding add_brotli
    add_brotli-IsKeyIn path output p ds h = elim (Bool-cases (str_eq output [])) [
      | inl empty ↦ rw empty h
      | inr made ↦ rw made (rw lookup-insert (ground arith))
    ]

    All-IsKeyIn :
        (path output : Bytes) (rest ds : Dict FileDescriptor)
        → All (IsKeyIn ds) rest
        → All (IsKeyIn (add_brotli path output ds)) rest
    All-IsKeyIn path output [] ds h = tt
    All-IsKeyIn path output (p ∷ rest) ds (h, hs) =
        (add_brotli-IsKeyIn path output p ds h, All-IsKeyIn path output rest ds hs)

    generate_one-Ready :
        (path : Bytes) (d : FileDescriptor) (rest ds : Dict FileDescriptor) (fs : FileSystem)
        → IsDescribed root_fs root (path, d)
        → Ready ((path, d) ∷ rest) ds
        → Keeps (Ready rest) (generate_one compress path d ds fs)
    generate_one-Ready path d rest ds fs was (h, (here, later)) =
        elim (Bool-cases (is_encoded_type d.filetype)) [
          | inr skipped ↦ rw skipped (h, later)
          | inl chosen ↦ rw chosen (added _ (rw was.named (encode-Encoded _ fs)))
        ]
      where
        added :
            (o : Outcome (Bytes × FileSystem))
            → Encoded (join_path (parent_path path) (filename path)) o
            → Keeps (Ready rest) (o >>= (λ (output, fs'). returns (add_brotli path output ds, fs')))
        added (returns (output, fs')) e = elim (Option-cases (lookup path ds)) [
          | inl missing ↦ absurd (here missing)
          | inr (d', found) ↦ (
            add_brotli-AllDescribed path output d' ds found h e,
            All-IsKeyIn path output rest ds later,
          )
        ]
        added (throws e) _ = tt
        added undefined _ = tt

    generate_from-AllDescribed :
        (rest ds : Dict FileDescriptor) (fs : FileSystem)
        → AllDescribed root_fs root rest
        → Ready rest ds
        → Keeps (AllDescribed root_fs root) (generate_from compress rest ds fs)
    unfolding generate_from
    generate_from-AllDescribed [] ds fs was (h, _) = h
    generate_from-AllDescribed ((path, d) ∷ rest) ds fs (p, ps) ready =
        go (generate_one compress path d ds fs) (generate_one-Ready path d rest ds fs p ready)
          (λ ds' fs'. generate_from-AllDescribed rest ds' fs' ps)
      where
        go :
            (o : Outcome (Dict FileDescriptor × FileSystem))
            → Keeps (Ready rest) o
            → ((ds' : Dict FileDescriptor) (fs' : FileSystem)
                → Ready rest ds'
                → Keeps (AllDescribed root_fs root) (generate_from compress rest ds' fs'))
            → Keeps
                (AllDescribed root_fs root)
                (o >>= (λ (ds', fs'). generate_from compress rest ds' fs'))
        go (returns (ds', fs')) r next = next ds' fs' r
        go (throws e) r next = tt
        go undefined r next = tt

    -- When generate_encoded_files returns, descriptors that described listed files before still
    -- do: only the path of a file's own Brotli companion is added.
    pub generate_encoded_files-AllDescribed :
        (ds ds' : Dict FileDescriptor) (fs fs' : FileSystem)
        → AllDescribed root_fs root ds
        → generate_encoded_files compress ds fs ≡ returns (ds', fs')
        → AllDescribed root_fs root ds'
    unfolding generate_encoded_files
    generate_encoded_files-AllDescribed ds ds' fs fs' h e =
        subst (Keeps (AllDescribed root_fs root)) e
          (generate_from-AllDescribed ds ds fs h (h, All-keys ds))
