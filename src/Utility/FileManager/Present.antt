-- ===== src/Utility/FileManager/Present.antt =====
-- `generate_encoded_files` where the files that it compresses are present.
use mathlib.Core.Path.{subst}
use simple_serv.Common.{
  ℕ, true, ◌≡◌, refl, sym, Option, none, some, Bool, Bool-cases, inl, inr, [], ◌∷◌, ◌++◌, All,
  length, Bytes, codes,
}
use simple_serv.Common.Dict.{Dict}
use simple_serv.Common.Outcome.{returns}
use simple_serv.Utility.ContentCoding.{encode, join_path, write_to_file, write_compressed}
use simple_serv.Utility.FileSystem.{FileSystem, read_file, write_file}
use simple_serv.Utility.FileManager.{
  FileDescriptor, add_brotli, parent_path, is_encoded_type, generate_one, generate_from,
  generate_encoded_files,
}
use simple_serv.Utility.FileManager.Descriptors.{AllDescribed}
use simple_serv.Utility.FileManager.Encoded.{generate_encoded_files-AllDescribed}

-- The size of the file that would be compressed for an entry can be asked for.
abbrev pub IsPresent : (Bytes → Bool) → Bytes × FileDescriptor → Type 0
IsPresent is_present (path, d) = is_present (join_path (parent_path path) d.name) ≡ true

module _ (compress : Bytes → ℕ → Option Bytes) where
  write_to_file-is_present :
      (path bytes : Bytes) (fs : FileSystem)
      → (write_to_file path bytes fs).1.is_present ≡ fs.is_present
  unfolding write_to_file write_file
  write_to_file-is_present path bytes fs = elim (Bool-cases (fs.writable path)) [
    | inl can_write ↦ rw can_write refl
    | inr cannot_write ↦ rw cannot_write refl
  ]

  write_compressed-is_present :
      (path input : Bytes) (o : Option Bytes) (fs : FileSystem)
      → (write_compressed compress path input o fs).1.is_present ≡ fs.is_present
  write_compressed-is_present path input none fs = refl
  write_compressed-is_present path input (some compressed) fs =
      write_to_file-is_present (path ++ codes ".br") _ fs

  encode_returns :
      (path : Bytes) (fs : FileSystem)
      → fs.is_present path ≡ true
      → (output : Bytes) × (fs' : FileSystem) × (encode compress path fs ≡ returns (output, fs'))
        × (fs'.is_present ≡ fs.is_present)
  unfolding encode
  encode_returns path fs h =
      let input = read_file fs path in
      let compressed = compress input (length input) in
      let (output, fs') = write_compressed compress path input compressed fs in
      (output, fs', rw h refl, write_compressed-is_present path input compressed fs)

  generate_one_returns :
      (path : Bytes) (d : FileDescriptor) (ds : Dict FileDescriptor) (fs : FileSystem)
      → IsPresent fs.is_present (path, d)
      → (ds' : Dict FileDescriptor) × (fs' : FileSystem) × (generate_one compress path d ds fs
          ≡ returns (ds', fs'))
        × (fs'.is_present ≡ fs.is_present)
  generate_one_returns path d ds fs h = elim (Bool-cases (is_encoded_type d.filetype)) [
    | inr other ↦ (ds, fs, rw other refl, refl)
    | inl is_encoded ↦
        let (output, fs', e, same) = encode_returns _ fs h in
        (add_brotli path output ds, fs', rw is_encoded (rw e refl), same)
  ]

  generate_from_returns :
      (rest ds : Dict FileDescriptor) (fs : FileSystem)
      → All (IsPresent fs.is_present) rest
      → (ds' : Dict FileDescriptor) × (fs' : FileSystem) × (generate_from compress rest ds fs
          ≡ returns (ds', fs'))
  unfolding generate_from
  generate_from_returns [] ds fs h = (ds, fs, refl)
  generate_from_returns ((path, d) ∷ rest) ds fs (p, h) =
      let (ds', fs', e, same) = generate_one_returns path d ds fs p in
      let (ds'', fs'', later) =
        generate_from_returns rest ds' fs' (subst (λ q. All (IsPresent q) rest) (sym same) h) in
      (ds'', fs'', rw e later)

  -- If every descriptor describes a listed file and the size of each entry's file can be asked
  -- for, generate_encoded_files returns, and its descriptors still describe listed files: only the
  -- path of a file's own Brotli companion is added.
  pub generate_encoded_files_returns :
      (root_fs : FileSystem) (root : Bytes) (ds : Dict FileDescriptor) (fs : FileSystem)
      → AllDescribed root_fs root ds
      → All (IsPresent fs.is_present) ds
      → (ds' : Dict FileDescriptor) × (fs' : FileSystem) × (generate_encoded_files compress ds fs
          ≡ returns (ds', fs'))
        × AllDescribed root_fs root ds'
  unfolding generate_encoded_files
  generate_encoded_files_returns root_fs root ds fs described present =
      let (ds', fs', e) = generate_from_returns ds ds fs present in
      (
        ds',
        fs',
        e,
        generate_encoded_files-AllDescribed compress root_fs root ds ds' fs fs' described e,
      )
