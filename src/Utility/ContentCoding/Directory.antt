-- ===== src/Utility/ContentCoding/Directory.antt =====
-- `FileEncoder::encode_directory` over directories that form a finite tree.
use mathlib.Core.Path.{subst}
use simple_serv.Common.{
  ℕ, zero, suc, ◌+◌, ◌≤◌, ◌≡◌, ◌⊎◌, inl, inr, refl, sym, ap, ◌∙◌, arith, Bool, true, Bool-cases,
  Option, none, some, List, [], ◌∷◌, ◌++◌, All, Bytes, codes, str_eq, str_eq_iff, length,
  if◌then◌else◌,
}
use simple_serv.Common.Dict.{Dict, insert}
use simple_serv.Common.Outcome.{returns}
use simple_serv.Utility.FileSystem.{DirEntry, FileSystem, read_file, write_file}
use simple_serv.Utility.FileType.{filename, extension}
use simple_serv.Utility.ContentCoding.{
  write_to_file, join_path, output_buffer, write_compressed, encode, is_compressed_type,
  encode_entry, encode_entries, encode_directories, encode_directory,
}
use simple_serv.Utility.FileManager.{FileDescriptor, describe, collect_entries}
use simple_serv.Utility.FileManager.Walk.{HasTrees, tree, collect_entries-HasTrees}

-- The second file system has the directories and files of the first; only the bytes of files whose
-- names end with ".br" may be others.
pub record IsBeside (fs fs' : FileSystem) : Type 0 where
  pub same_listing : fs'.listing ≡ fs.listing
  pub same_present : fs'.is_present ≡ fs.is_present
  pub others_same :
      (p : Bytes) → (fs'.content p ≡ fs.content p) ⊎ ((q : Bytes) × (p ≡ q ++ codes ".br"))

IsBeside-refl : (fs : FileSystem) → IsBeside fs fs
IsBeside-refl fs = record { same_listing = refl; same_present = refl; others_same = λ p. inl refl }

IsBeside-trans : {a b c : FileSystem} → IsBeside a b → IsBeside b c → IsBeside a c
IsBeside-trans h k = record {
  same_listing = k.same_listing ∙ h.same_listing;
  same_present = k.same_present ∙ h.same_present;
  others_same = λ p. elim (k.others_same p) [
    | inr written ↦ inr written
    | inl now ↦ elim (h.others_same p) [
      | inr written ↦ inr written
      | inl before ↦ inl (now ∙ before)
    ]
  ];
}

-- An entry is a directory, or its size can be asked for.
abbrev pub IsEntryPresent : (Bytes → Bool) → Bytes → DirEntry → Type 0
IsEntryPresent is_present d e =
    (e.is_directory ≡ true) ⊎ (is_present (join_path d (filename e.path)) ≡ true)

write_file-IsBeside :
    (q bytes : Bytes) (fs : FileSystem) → IsBeside fs (write_file (q ++ codes ".br") bytes fs)
unfolding write_file
write_file-IsBeside q bytes fs = record {
  same_listing = refl;
  same_present = refl;
  others_same = λ p. elim (Bool-cases (str_eq (q ++ codes ".br") p)) [
    | inl here ↦ inr (q, sym ((str_eq_iff _ p).0 here))
    | inr elsewhere ↦ inl (rw elsewhere refl)
  ];
}

write_to_file-IsBeside :
    (q bytes : Bytes) (fs : FileSystem) → IsBeside fs (write_to_file (q ++ codes ".br") bytes fs).1
unfolding write_to_file
write_to_file-IsBeside q bytes fs = elim (Bool-cases (fs.writable (q ++ codes ".br"))) [
  | inl can_write ↦ rw can_write (write_file-IsBeside q bytes fs)
  | inr cannot_write ↦ rw cannot_write (IsBeside-refl fs)
]

module _ (compress : Bytes → ℕ → Option Bytes) where
  write_compressed-IsBeside :
      (path input : Bytes) (o : Option Bytes) (fs : FileSystem)
      → IsBeside fs (write_compressed compress path input o fs).1
  write_compressed-IsBeside path input none fs = IsBeside-refl fs
  write_compressed-IsBeside path input (some compressed) fs =
      write_to_file-IsBeside path (output_buffer compress input compressed) fs

  encode_returns :
      (path : Bytes) (fs : FileSystem)
      → fs.is_present path ≡ true
      → (output : Bytes) × (fs' : FileSystem) × (encode compress path fs ≡ returns (output, fs'))
        × IsBeside fs fs'
  unfolding encode
  encode_returns path fs present =
      let input = read_file fs path in
      let compressed = compress input (length input) in
      let (output, fs') = write_compressed compress path input compressed fs in
      (output, fs', rw present refl, write_compressed-IsBeside path input compressed fs)

  encode_entry_returns :
      (d : Bytes) (e : DirEntry) (directories : List Bytes) (fs : FileSystem)
      → IsEntryPresent fs.is_present d e
      → (fs' : FileSystem) × (encode_entry compress d e directories fs
          ≡ returns (if e.is_directory then e.path ∷ directories else directories, fs'))
        × IsBeside fs fs'
  encode_entry_returns d e directories fs h = elim (Bool-cases e.is_directory) [
    | inl is_dir ↦ (fs, rw is_dir refl, IsBeside-refl fs)
    | inr is_file ↦ elim (Bool-cases (is_compressed_type compress (extension e.path))) [
      | inr other ↦ (fs, rw (is_file, other) refl, IsBeside-refl fs)
      | inl compressed ↦ elim h [
        | inl is_dir ↦ absurd (cc (sym is_file ∙ is_dir))
        | inr present ↦
            let (output, fs', e, beside) =
              encode_returns (join_path d (filename e.path)) fs present in
            (fs', rw (is_file, compressed, e) refl, beside)
      ]
    ]
  ]

  -- The loop over one directory puts the same directories on the stack as the walk does.
  encode_entries_returns :
      (d : Bytes) (es : List DirEntry) (directories : List Bytes) (ds : Dict FileDescriptor)
      (fs : FileSystem)
      → All (IsEntryPresent fs.is_present d) es
      → (fs' : FileSystem) × (encode_entries compress d es directories fs
          ≡ returns ((collect_entries es directories ds).0, fs'))
        × IsBeside fs fs'
  unfolding encode_entries collect_entries
  encode_entries_returns d [] directories ds fs h = (fs, refl, IsBeside-refl fs)
  encode_entries_returns d (e ∷ es) directories ds fs (present, h) =
      let (fs', first, beside) = encode_entry_returns d e directories fs present in
      let (fs'', others, beside') =
        encode_entries_returns d es (if e.is_directory then e.path ∷ directories else directories)
          (if e.is_directory then ds else insert e.path (describe e.path) ds) fs'
          (subst (λ q. All (IsEntryPresent q d) es) (sym beside.same_present) h) in
      (fs'', rw first others, IsBeside-trans beside beside')

  encode_directories_returns :
      (fuel : ℕ) (start : FileSystem) (directories : List Bytes) (n : ℕ) (fs : FileSystem)
      → ((d : Bytes) (es : List DirEntry)
          → start.listing d ≡ some es
          → All (IsEntryPresent start.is_present d) es)
      → HasTrees start directories n
      → n ≤ fuel
      → IsBeside start fs
      → (fs' : FileSystem) × (encode_directories compress fuel directories fs ≡ some (returns fs'))
        × IsBeside start fs'
  unfolding encode_directories
  encode_directories_returns fuel start [] n fs present h k beside = (fs, refl, beside)
  encode_directories_returns zero start (d ∷ directories) _ fs present (tree l below rest) k
        beside =
      absurd (omega arith)
  encode_directories_returns (suc fuel) start (d ∷ directories) _ fs present
        (tree {es} {m = m} {n = n} l below rest) k beside =
      let listed : fs.listing d ≡ some es = ap (λ f. f d) beside.same_listing ∙ l in
      let entries =
        subst (λ q. All (IsEntryPresent q d) es) (sym beside.same_present) (present d es l) in
      let (fs', round, beside') = encode_entries_returns d es directories [] fs entries in
      let (fs'', later, beside'') =
        encode_directories_returns fuel start (collect_entries es directories []).0 (m + n) fs'
          present (collect_entries-HasTrees start es directories [] m n below rest) (omega arith)
          (IsBeside-trans beside beside') in
      (fs'', rw (listed, round) later, beside'')

  -- If the directories below the root form a finite tree and the size of each file that a listing
  -- shows can be asked for, encode_directory returns with at least as much fuel as there are
  -- directories, whatever the compressor gives; the listings stay, and no file is changed whose
  -- name does not end with ".br".
  pub encode_directory_returns :
      (fs : FileSystem) (root : Bytes) (n fuel : ℕ)
      → HasTrees fs (root ∷ []) n
      → ((d : Bytes) (es : List DirEntry)
          → fs.listing d ≡ some es
          → All (IsEntryPresent fs.is_present d) es)
      → n ≤ fuel
      → (fs' : FileSystem) × (encode_directory compress fuel root fs ≡ some (returns fs'))
        × IsBeside fs fs'
  unfolding encode_directory
  encode_directory_returns fs root n fuel h present enough =
      encode_directories_returns fuel fs (root ∷ []) n fs present h enough (IsBeside-refl fs)
