-- ===== src/Utility/FileManager.antt =====
-- include/simpleserv/utility/file_manager.hpp and src/simpleserv/utility/file_manager.cpp: the
-- descriptors of the files found at the start, the fetcher that reads a file from the disk, and
-- the cache in front of it.
pub mod Cache
pub mod Descriptors
pub mod Walk
pub mod Encoded
pub mod Present
pub mod Serving
use mathlib.Core.Option
use simple_serv.Common.{
  ℕ, zero, suc, ◌-◌, Bool, true, false, ◌&&◌, ◌||◌, Option, none, some, List, [], ◌∷◌, ◌++◌, Bytes,
  codes, str_eq, if◌then◌else◌, take, length, ◌==◌,
}
use simple_serv.Common.Dict.{Dict, lookup, insert}
use simple_serv.Common.Outcome.{Outcome, returns, throws, undefined, filesystem_error, ◌>>=◌}
use simple_serv.Utility.ContentCoding.{encode, join_path}
use simple_serv.Utility.FileSystem.{DirEntry, FileSystem, read_file}
use simple_serv.Utility.FileType.{
  FileType, text_html, text_css, text_js, text_plain, FileEncoding, brotli, filename,
  encode_filetype,
}

-- `utility::expected<T, E>`
pub data Fetched (T E : Type 0) : Type 0 where
  value : T → Fetched T E
  unexpected : E → Fetched T E

-- `file_paths` is a map on the encodings, as a function.
pub record FileDescriptor : Type 0 where
  pub name : Bytes
  pub filetype : FileType
  pub file_paths : FileEncoding → Option Bytes

pub record HttpFileData : Type 0 where
  pub filetype : FileType
  pub file_encoding : FileEncoding
  pub content : Bytes

-- The message of a `FileManagerException`
pub record FileManagerException : Type 0 where
  pub message : Bytes

pub record CacheEntry (T : Type 0) : Type 0 where
  pub path : Bytes
  pub val : T

abbrev pub create_file_cache_entry : {T : Type 0} → Bytes → T → CacheEntry T
create_file_cache_entry path x = record { path = path; val = x }

abbrev pub from_file_cache_entry : {T : Type 0} → CacheEntry T → T
from_file_cache_entry e = e.val

-- The interface `FileFetcher` has one virtual member function.
abbrev pub FileFetcher : Type 0 → Type 0 → Type 0
FileFetcher T E = Bytes → Fetched T E

-- `CacheFileFetcher`: the fetcher behind it is the section's parameter.
module _ {T E : Type 0} (fetch : FileFetcher T E) where
  abbrev fill : Bytes → Fetched T E → Dict (CacheEntry T) → Fetched T E × Dict (CacheEntry T)
  fill path (value x) cache = (value x, insert path (create_file_cache_entry path x) cache)
  fill path (unexpected e) cache = (unexpected e, cache)

  abbrev answer :
      Bytes → Option (CacheEntry T) → Dict (CacheEntry T) → Fetched T E × Dict (CacheEntry T)
  answer path (some e) cache = (value (from_file_cache_entry e), cache)
  answer path none cache = fill path (fetch path) cache

  unfoldable pub cached_get_file : Bytes → Dict (CacheEntry T) → Fetched T E × Dict (CacheEntry T)
  cached_get_file path cache = answer path (lookup path cache) cache

-- `file_paths[encoding].path`: a missing entry is made, with an empty path.
abbrev pub path_or_empty : Option Bytes → Bytes
path_or_empty none = []
path_or_empty (some path) = path

-- The choice between the Brotli file and the plain one
abbrev pub choose_file : FileDescriptor → Option Bytes → FileEncoding × Bytes
choose_file d (some path) = (brotli, path)
choose_file d none = (FileEncoding.none, path_or_empty (d.file_paths FileEncoding.none))

abbrev pub load_file : FileSystem → FileDescriptor → FileEncoding × Bytes → HttpFileData
load_file fs d (encoding, path) = record {
  filetype = d.filetype;
  file_encoding = encoding;
  content = read_file fs path;
}

abbrev pub not_found : Bytes → FileManagerException
not_found path = record { message = codes "File not found: " ++ path }

abbrev pub read_descriptor :
    FileSystem → Bytes → Option FileDescriptor → Fetched HttpFileData FileManagerException
read_descriptor fs path none = unexpected (not_found path)
read_descriptor fs path (some d) = value (load_file fs d (choose_file d (d.file_paths brotli)))

-- `DiskFileFetcher::get_file`
unfoldable pub disk_get_file :
    FileSystem → Dict FileDescriptor → Bytes → Fetched HttpFileData FileManagerException
disk_get_file fs descriptors path = read_descriptor fs path (lookup path descriptors)

pub record FileManager : Type 0 where
  pub file_descriptors : Dict FileDescriptor
  pub file_cache : Dict (CacheEntry HttpFileData)

-- `FileManager::get_file`
unfoldable pub get_file :
    FileSystem → Bytes → FileManager → Fetched HttpFileData FileManagerException × FileManager
get_file fs path m =
    let (result, cache) = cached_get_file (disk_get_file fs m.file_descriptors) path m.file_cache in
    (result, record m { file_cache = cache })

-- The overload with a directory and a name
unfoldable pub get_file_in :
    FileSystem
    → Bytes
    → Bytes
    → FileManager
    → Fetched HttpFileData FileManagerException × FileManager
unfolding get_file
get_file_in fs path name m = get_file fs (path ++ name) m

abbrev only_plain : Bytes → FileEncoding → Option Bytes
only_plain path FileEncoding.none = some path
only_plain path _ = none

abbrev pub describe : Bytes → FileDescriptor
describe path = record {
  name = filename path;
  filetype = encode_filetype (filename path);
  file_paths = only_plain path;
}

-- The loop over one directory
unfoldable pub collect_entries :
    List DirEntry → List Bytes → Dict FileDescriptor → List Bytes × Dict FileDescriptor
collect_entries [] directories descriptors = (directories, descriptors)
collect_entries (e ∷ es) directories descriptors =
    collect_entries es (if e.is_directory then e.path ∷ directories else directories)
      (if e.is_directory then descriptors else insert e.path (describe e.path) descriptors)

-- The loop over the stack of directories, with fuel; an iterator that cannot be made throws.
abbrev pub collect_listing :
    Option (List DirEntry)
    → List Bytes
    → Dict FileDescriptor
    → (List Bytes → Dict FileDescriptor → Option (Outcome (Dict FileDescriptor)))
    → Option (Outcome (Dict FileDescriptor))
collect_listing none directories descriptors next = some (throws filesystem_error)
collect_listing (some es) directories descriptors next =
    let (directories', descriptors') = collect_entries es directories descriptors in
    next directories' descriptors'

unfoldable pub collect_directories :
    ℕ → FileSystem → List Bytes → Dict FileDescriptor → Option (Outcome (Dict FileDescriptor))
collect_directories fuel fs [] descriptors = some (returns descriptors)
collect_directories zero fs (d ∷ directories) descriptors = none
collect_directories (suc fuel) fs (d ∷ directories) descriptors =
    collect_listing (fs.listing d) directories descriptors (collect_directories fuel fs)

unfoldable pub construct_file_descriptors :
    ℕ → FileSystem → Bytes → Dict FileDescriptor → Option (Outcome (Dict FileDescriptor))
construct_file_descriptors fuel fs path descriptors =
    collect_directories fuel fs (path ∷ []) descriptors

abbrev is_encoded_type : FileType → Bool
is_encoded_type text_html = true
is_encoded_type text_css = true
is_encoded_type text_js = true
is_encoded_type _ = false

-- Slashes at the end are left out.
unfoldable pub strip_slashes : Bytes → Bytes
strip_slashes [] = []
strip_slashes (x ∷ s) =
    let rest = strip_slashes s in if x == b'/' && str_eq rest [] then [] else x ∷ rest

-- `path::parent_path`: what stands before the last part, or the root directory.
unfoldable pub parent_path : Bytes → Bytes
unfolding strip_slashes filename str_eq
parent_path path =
    let front = take (length path - length (filename path)) path in
    if str_eq (strip_slashes front) [] then take 1 front else strip_slashes front

abbrev pub with_brotli : Bytes → (FileEncoding → Option Bytes) → FileEncoding → Option Bytes
with_brotli output paths brotli = some output
with_brotli output paths e = paths e

-- A descriptor that `operator[]` makes
abbrev empty_descriptor : FileDescriptor
empty_descriptor = record { name = []; filetype = text_plain; file_paths = λ _. none }

-- `file_descriptors[path].file_paths[FileEncoding::BROTLI] = FileEntry{output}`, unless empty
unfoldable pub add_brotli : Bytes → Bytes → Dict FileDescriptor → Dict FileDescriptor
unfolding str_eq
add_brotli path output descriptors =
    let d = Option.get_or (lookup path descriptors) empty_descriptor in
    if str_eq output []
    then descriptors
    else insert path (record d { file_paths = with_brotli output d.file_paths }) descriptors

module _ (compress : Bytes → ℕ → Option Bytes) where
  abbrev generate_one :
      Bytes
      → FileDescriptor
      → Dict FileDescriptor
      → FileSystem
      → Outcome (Dict FileDescriptor × FileSystem)
  generate_one path d descriptors fs =
      if is_encoded_type d.filetype
      then encode compress (join_path (parent_path path) d.name) fs
        >>= (λ (output, fs'). returns (add_brotli path output descriptors, fs'))
      else returns (descriptors, fs)

  -- The loop visits the entries that the map had at its start. It changes only the value at the
  -- key that it visits.
  unfoldable pub generate_from :
      Dict FileDescriptor
      → Dict FileDescriptor
      → FileSystem
      → Outcome (Dict FileDescriptor × FileSystem)
  unfolding encode join_path parent_path add_brotli
  generate_from [] descriptors fs = returns (descriptors, fs)
  generate_from ((path, d) ∷ rest) descriptors fs =
      generate_one path d descriptors fs
      >>= (λ (descriptors', fs'). generate_from rest descriptors' fs')

  unfoldable pub generate_encoded_files :
      Dict FileDescriptor → FileSystem → Outcome (Dict FileDescriptor × FileSystem)
  unfolding generate_from
  generate_encoded_files descriptors fs = generate_from descriptors descriptors fs
