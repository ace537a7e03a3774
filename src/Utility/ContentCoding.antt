-- ===== src/Utility/ContentCoding.antt =====
-- src/simpleserv/utility/content_coding.cpp: compressing the files of a directory.
-- `BrotliEncoderCompress` belongs to the Brotli library: it is the parameter `compress`, which
-- takes the input and the room in the output buffer, and gives the compressed bytes or fails.
pub mod Directory
use simple_serv.Common.{
  ℕ, zero, suc, ◌-◌, Bool, true, false, ◌||◌, Option, none, some, List, [], ◌∷◌, ◌++◌, Bytes, codes,
  str_eq, length, if◌then◌else◌, replicate,
}
use simple_serv.Common.Outcome.{Outcome, returns, throws, undefined, filesystem_error, ◌>>=◌}
use simple_serv.Utility.FileSystem.{DirEntry, FileSystem, read_file, write_file}
use simple_serv.Utility.FileType.{filename, extension}

unfoldable pub write_to_file : Bytes → Bytes → FileSystem → Bool × FileSystem
unfolding write_file
write_to_file output_path output_data fs =
    if fs.writable output_path then (true, write_file output_path output_data fs) else (false, fs)

-- `dir / name`: a name that starts with a slash replaces the directory.
unfoldable pub join_path : Bytes → Bytes → Bytes
join_path [] name = name
join_path (x ∷ dir) [] = x ∷ dir ++ b'/' ∷ []
join_path (x ∷ dir) (y ∷ name) = x ∷ dir ++ b'/' ∷ y ∷ name

module _ (compress : Bytes → ℕ → Option Bytes) where
  -- The buffer has the size of the input and keeps it: the compressed bytes fill its front.
  abbrev pub output_buffer : Bytes → Bytes → Bytes
  output_buffer input compressed = compressed ++ replicate (length input - length compressed) 0

  abbrev pub write_compressed : Bytes → Bytes → Option Bytes → FileSystem → Bytes × FileSystem
  write_compressed path input none fs = ([], fs)
  write_compressed path input (some compressed) fs =
      let output_path = path ++ codes ".br" in
      let (written, fs') = write_to_file output_path (output_buffer input compressed) fs in
      (if written then output_path else [], fs')

  -- The path of the compressed file, or an empty path. `file_size` throws if there is no file.
  unfoldable pub encode : Bytes → FileSystem → Outcome (Bytes × FileSystem)
  unfolding write_to_file
  encode path fs =
      let input = read_file fs path in
      if fs.is_present path
      then returns (write_compressed path input (compress input (length input)) fs)
      else throws filesystem_error

  abbrev is_compressed_type : Bytes → Bool
  is_compressed_type ext =
      str_eq ext (codes ".html") || str_eq ext (codes ".css") || str_eq ext (codes ".js")

  -- One entry of the directory `current`.
  abbrev encode_entry :
      Bytes → DirEntry → List Bytes → FileSystem → Outcome (List Bytes × FileSystem)
  encode_entry current entry directories fs =
      if entry.is_directory
      then returns (entry.path ∷ directories, fs)
      else if is_compressed_type (extension entry.path)
      then encode (join_path current (filename entry.path)) fs
        >>= (λ (output_path, fs'). returns (directories, fs'))
      else returns (directories, fs)

  unfoldable pub encode_entries :
      Bytes → List DirEntry → List Bytes → FileSystem → Outcome (List Bytes × FileSystem)
  unfolding encode extension filename join_path str_eq
  encode_entries current [] directories fs = returns (directories, fs)
  encode_entries current (e ∷ es) directories fs =
      encode_entry current e directories fs
      >>= (λ (directories', fs'). encode_entries current es directories' fs')

  abbrev encode_listing :
      Bytes → Option (List DirEntry) → List Bytes → FileSystem → Outcome (List Bytes × FileSystem)
  encode_listing current none directories fs = throws filesystem_error
  encode_listing current (some entries) directories fs =
      encode_entries current entries directories fs

  abbrev pub go_on :
      Outcome (List Bytes × FileSystem)
      → (List Bytes → FileSystem → Option (Outcome FileSystem))
      → Option (Outcome FileSystem)
  go_on (returns (directories, fs)) next = next directories fs
  go_on (throws e) next = some (throws e)
  go_on undefined next = some undefined

  -- The loop over the stack of directories, with fuel.
  unfoldable pub encode_directories : ℕ → List Bytes → FileSystem → Option (Outcome FileSystem)
  unfolding encode_entries
  encode_directories fuel [] fs = some (returns fs)
  encode_directories zero (d ∷ directories) fs = none
  encode_directories (suc fuel) (d ∷ directories) fs =
      go_on (encode_listing d (fs.listing d) directories fs) (encode_directories fuel)

  unfoldable pub encode_directory : ℕ → Bytes → FileSystem → Option (Outcome FileSystem)
  unfolding encode_directories
  encode_directory fuel path fs = encode_directories fuel (path ∷ []) fs
