-- ===== src/Utility/FileManager/Descriptors.antt =====
-- What the descriptors say of the directory listings that they come from.
use mathlib.Core.Path.{subst}
use simple_serv.Common.{
  ℕ, zero, suc, true, false, ◌≡◌, ◌⊎◌, inl, inr, refl, sym, ap, ◌∙◌, Option, none, some, List, [],
  ◌∷◌, ◌++◌, append_assoc, Bool-cases, arith, All, Bytes, codes, str_eq, str_eq_iff,
}
use simple_serv.Common.Dict.{Dict, lookup, insert}
use simple_serv.Common.Outcome.{Outcome, returns, throws, undefined}
use simple_serv.Utility.ContentCoding.{join_path}
use simple_serv.Utility.FileSystem.{DirEntry, FileSystem}
use simple_serv.Utility.FileType.{FileEncoding, brotli, filename, encode_filetype}
use simple_serv.Utility.FileManager.{
  FileDescriptor, describe, collect_entries, collect_listing, collect_directories,
  construct_file_descriptors, parent_path,
}

-- A predicate on every entry of a dictionary is kept by `insert` and read by `lookup`.
module _ {V : Type 0} (P : Bytes × V → Type 0) where
  pub All-insert : (k : Bytes) (v : V) (m : Dict V) → All P m → P (k, v) → All P (insert k v m)
  unfolding insert
  All-insert k v [] h p = (p, tt)
  All-insert k v ((j, w) ∷ m) (q, h) p = elim (Bool-cases (str_eq j k)) [
    | inl same ↦ rw same (p, h)
    | inr other ↦ rw other (q, All-insert k v m h p)
  ]

  pub All-lookup : (k : Bytes) (v : V) (m : Dict V) → All P m → lookup k m ≡ some v → P (k, v)
  unfolding lookup
  All-lookup k v [] h e = cc
  All-lookup k v ((j, w) ∷ m) (q, h) e = elim (Bool-cases (str_eq j k)) [
    | inl same ↦ subst P (same_entry ((str_eq_iff j k).0 same) (rw same at e)) q
    | inr other ↦ All-lookup k v m h (rw other at e)
  ]
    where
      same_entry : j ≡ k → some w ≡ some v → ◌≡◌ {A = Bytes × V} (j, w) (k, v)
      same_entry p q = ground arith

-- The directories below `root`, as the listings of `fs` show them.
pub data Below (fs : FileSystem) (root : Bytes) : Bytes → Type 0 where
  here : Below fs root root
  down :
      {d : Bytes} (before : List DirEntry) (e : DirEntry) (after : List DirEntry)
      → Below fs root d
      → fs.listing d ≡ some (before ++ e ∷ after)
      → e.is_directory ≡ true
      → Below fs root e.path

-- `path` is a file that the listing of a directory below `root` shows.
pub record IsListed (fs : FileSystem) (root path : Bytes) : Type 0 where
  pub dir : Bytes
  pub before : List DirEntry
  pub entry : DirEntry
  pub after : List DirEntry
  pub below : Below fs root dir
  pub listed : fs.listing dir ≡ some (before ++ entry ∷ after)
  pub is_file : entry.is_directory ≡ false
  pub path_is : entry.path ≡ path

-- The name of the compressed file that belongs to a path
abbrev pub companion : Bytes → Bytes
companion path = join_path (parent_path path) (filename path) ++ codes ".br"

pub record IsDescribed (fs : FileSystem) (root : Bytes) (p : Bytes × FileDescriptor) : Type 0 where
  pub file : IsListed fs root p.0
  pub named : p.1.name ≡ filename p.0
  pub typed : p.1.filetype ≡ encode_filetype (filename p.0)
  pub plain : p.1.file_paths FileEncoding.none ≡ some p.0
  pub compressed : (p.1.file_paths brotli ≡ none) ⊎ (p.1.file_paths brotli ≡ some (companion p.0))

module _ (fs : FileSystem) (root : Bytes) where
  abbrev pub AllDescribed : Dict FileDescriptor → Type 0
  AllDescribed = All (IsDescribed fs root)

  describe-IsDescribed :
      (path : Bytes) → IsListed fs root path → IsDescribed fs root (path, describe path)
  describe-IsDescribed path h = record {
    file = h;
    named = refl;
    typed = refl;
    plain = refl;
    compressed = inl refl;
  }

  collect_entries-AllDescribed :
      (dir : Bytes) (before es : List DirEntry) (directories : List Bytes)
      (ds : Dict FileDescriptor)
      → Below fs root dir
      → fs.listing dir ≡ some (before ++ es)
      → All (Below fs root) directories
      → AllDescribed ds
      → All (Below fs root) (collect_entries es directories ds).0
        × AllDescribed (collect_entries es directories ds).1
  unfolding collect_entries
  collect_entries-AllDescribed dir before [] directories ds b l h k = (h, k)
  collect_entries-AllDescribed dir before (e ∷ es) directories ds b l h k =
      let next = l ∙ ap some (sym (append_assoc before (e ∷ []) es)) in
      elim (Bool-cases e.is_directory) [
        | inl is_dir ↦ rw is_dir (
            collect_entries-AllDescribed dir (before ++ e ∷ []) es (e.path ∷ directories) ds b next
              (down before e es b l is_dir, h) k)
        | inr is_file ↦ rw is_file (
            collect_entries-AllDescribed dir (before ++ e ∷ []) es directories _ b next h (
              All-insert (IsDescribed fs root) e.path (describe e.path) ds k (
                describe-IsDescribed e.path (record {
                  dir = dir;
                  before = before;
                  entry = e;
                  after = es;
                  below = b;
                  listed = l;
                  is_file = is_file;
                  path_is = refl;
                }))))
      ]

  -- What the directory loop leaves, if it leaves anything
  abbrev pub Described : Option (Outcome (Dict FileDescriptor)) → Type 0
  Described (some (returns ds)) = AllDescribed ds
  Described (some (throws e)) = Unit
  Described (some undefined) = Unit
  Described none = Unit

  collect_listing-Described :
      (d : Bytes) (l : Option (List DirEntry)) (directories : List Bytes) (ds : Dict FileDescriptor)
      (next : List Bytes → Dict FileDescriptor → Option (Outcome (Dict FileDescriptor)))
      → fs.listing d ≡ l
      → All (Below fs root) (d ∷ directories)
      → AllDescribed ds
      → ((dirs : List Bytes) (ds' : Dict FileDescriptor)
          → All (Below fs root) dirs
          → AllDescribed ds'
          → Described (next dirs ds'))
      → Described (collect_listing l directories ds next)
  collect_listing-Described d none directories ds next e h k rest = tt
  collect_listing-Described d (some es) directories ds next e h k rest =
      let (below, described) = collect_entries-AllDescribed d [] es directories ds h.0 e h.1 k in
      rest _ _ below described

  collect_directories-Described :
      (fuel : ℕ) (directories : List Bytes) (ds : Dict FileDescriptor)
      → All (Below fs root) directories
      → AllDescribed ds
      → Described (collect_directories fuel fs directories ds)
  unfolding collect_directories
  collect_directories-Described fuel [] ds h k = k
  collect_directories-Described zero (d ∷ directories) ds h k = tt
  collect_directories-Described (suc fuel) (d ∷ directories) ds h k =
      collect_listing-Described d (fs.listing d) directories ds (collect_directories fuel fs) refl h
        k (collect_directories-Described fuel)

  -- Every descriptor that the walk from `root` makes is of a file listed below it.
  pub construct_file_descriptors-AllDescribed :
      (fuel : ℕ) {ds : Dict FileDescriptor}
      → construct_file_descriptors fuel fs root [] ≡ some (returns ds)
      → AllDescribed ds
  unfolding construct_file_descriptors
  construct_file_descriptors-AllDescribed fuel e =
      subst Described e (collect_directories-Described fuel (root ∷ []) [] (here, tt) tt)
