-- ===== src/Utility/FileManager/Serving.antt =====
-- What `get_file` answers, with the cache and with the descriptors of the start.
use mathlib.Core.Path.{subst}
use simple_serv.Common.{◌≡◌, ◌⊎◌, inl, inr, refl, none, some, Option-cases, arith, Bytes}
use simple_serv.Common.Dict.{Dict, lookup}
use simple_serv.Utility.FileSystem.{FileSystem, read_file}
use simple_serv.Utility.FileType.{FileEncoding, brotli, filename, encode_filetype}
use simple_serv.Utility.FileManager.{
  value, unexpected, FileDescriptor, HttpFileData, FileManagerException, FileManager, disk_get_file,
  read_descriptor, choose_file, load_file, not_found, get_file,
}
use simple_serv.Utility.FileManager.Cache.{IsCoherent, cached_get_file-IsCoherent}
use simple_serv.Utility.FileManager.Descriptors.{
  IsListed, IsDescribed, AllDescribed, All-lookup, companion,
}

-- `d` is what the file at `path` holds, plainly or in its Brotli companion, and `path` is listed
-- below the root.
pub record IsFileAt (root_fs : FileSystem) (root : Bytes) (fs : FileSystem) (path : Bytes)
    (d : HttpFileData) : Type 0 where
  pub file : IsListed root_fs root path
  pub typed : d.filetype ≡ encode_filetype (filename path)
  pub bytes :
      ((d.file_encoding ≡ FileEncoding.none) × (d.content ≡ read_file fs path))
      ⊎ ((d.file_encoding ≡ brotli) × (d.content ≡ read_file fs (companion path)))

-- The cache of the manager agrees with the disk.
abbrev pub IsFresh : FileSystem → FileManager → Type 0
IsFresh fs m = IsCoherent (disk_get_file fs m.file_descriptors) m.file_cache

module _ (root_fs : FileSystem) (root : Bytes) (fs : FileSystem) where
  load_file-IsFileAt :
      (path : Bytes) (f : FileDescriptor)
      → IsDescribed root_fs root (path, f)
      → IsFileAt root_fs root fs path (load_file fs f (choose_file f (f.file_paths brotli)))
  load_file-IsFileAt path f h = elim h.compressed [
    | inl no_brotli ↦
        rw no_brotli (record { file = h.file; typed = h.typed; bytes = inl (refl, rw h.plain) })
    | inr has_brotli ↦
        rw has_brotli (record { file = h.file; typed = h.typed; bytes = inr (refl, refl) })
  ]

  pub disk_get_file-IsFileAt :
      (path : Bytes) (ds : Dict FileDescriptor) {d : HttpFileData}
      → AllDescribed root_fs root ds
      → disk_get_file fs ds path ≡ value d
      → IsFileAt root_fs root fs path d
  unfolding disk_get_file
  disk_get_file-IsFileAt path ds {d} h e = elim (Option-cases (lookup path ds)) [
    | inl missing ↦ absurd (cc (rw missing at e))
    | inr (f, found) ↦
        subst (IsFileAt root_fs root fs path) (loaded f (rw found at e))
          (load_file-IsFileAt path f (All-lookup (IsDescribed root_fs root) path f ds h found))
  ]
    where
      loaded :
          (f : FileDescriptor)
          → read_descriptor fs path (some f) ≡ value d
          → load_file fs f (choose_file f (f.file_paths brotli)) ≡ d
      loaded f e = cc

-- The manager answers what the disk fetcher would, and its cache stays fresh.
pub get_file-IsFresh :
    (fs : FileSystem) (path : Bytes) (m : FileManager)
    → IsFresh fs m
    → ((get_file fs path m).0 ≡ disk_get_file fs m.file_descriptors path)
      × IsFresh fs (get_file fs path m).1
      × ((get_file fs path m).1.file_descriptors ≡ m.file_descriptors)
unfolding get_file
get_file-IsFresh fs path m h =
    let (same, fresh) =
      cached_get_file-IsCoherent (disk_get_file fs m.file_descriptors) path m.file_cache h in
    (same, fresh, refl)

-- The disk fetcher returns an error only for a path without a descriptor, and the error is "File
-- not found: " with that path.
pub disk_get_file-unexpected :
    (fs : FileSystem) (path : Bytes) (ds : Dict FileDescriptor) {e : FileManagerException}
    → disk_get_file fs ds path ≡ unexpected e
    → (lookup path ds ≡ none) × (e ≡ not_found path)
unfolding disk_get_file
disk_get_file-unexpected fs path ds h = ground arith
