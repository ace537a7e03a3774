-- ===== src/Tests/Files.antt =====
-- Examples for the files: the fetchers, the walk over the directories, and compression.
use simple_serv.Common.{
  List, sym, inl, inr, Bool-cases, str_eq_iff, some_inj, ℕ, true, false, ◌≡◌, refl, none, some,
  Option, [], ◌∷◌, arith, Bytes, codes, All, str_eq,
}
use simple_serv.Common.Dict.{Dict, insert, lookup}
use simple_serv.Common.Outcome.{returns}
use simple_serv.Utility.FileType.{filename, encode_filetype}
use mathlib.Core.Path.{subst}
use simple_serv.Utility.ContentCoding.Directory.{IsEntryPresent, IsBeside, encode_directory_returns}
use simple_serv.Utility.ContentCoding.{encode_directory}
use simple_serv.Utility.FileSystem.{DirEntry, FileSystem, write_file}
use simple_serv.Utility.ContentCoding.{encode, write_to_file, join_path}
use simple_serv.Utility.FileManager.{
  with_brotli, describe, Fetched, value, unexpected, FileDescriptor, cached_get_file,
  construct_file_descriptors, add_brotli, strip_slashes, parent_path, generate_encoded_files,
}
use simple_serv.Utility.FileManager.Cache.{IsCoherent, IsCoherent-nil, cached_get_file-IsCoherent}
use simple_serv.Utility.FileManager.Descriptors.{AllDescribed}
use simple_serv.Utility.FileManager.Walk.{
  HasTrees, no_trees, tree, construct_file_descriptors_returns,
}
use simple_serv.Utility.FileManager.Present.{IsPresent, generate_encoded_files_returns}
use simple_serv.Tests.Site.{page_entry, root, page, site, site_descriptors, site_described}

-- A fetcher that has one file
abbrev fetch_one : Bytes → Fetched ℕ ℕ
fetch_one path = elim (str_eq path page) [ true ↦ value 7 | false ↦ unexpected 404 ]

cached_get_file-IsCoherent_example :
    ((cached_get_file fetch_one page []).0 ≡ fetch_one page)
    × IsCoherent fetch_one (cached_get_file fetch_one page []).1
cached_get_file-IsCoherent_example =
    cached_get_file-IsCoherent fetch_one page [] (IsCoherent-nil fetch_one)

one_fetched : (cached_get_file fetch_one page []).0 ≡ value 7
unfolding cached_get_file lookup str_eq
one_fetched = refl

none_fetched : (cached_get_file fetch_one [] []).0 ≡ unexpected 404
unfolding cached_get_file lookup str_eq
none_fetched = refl

site_listed : site.listing root ≡ some (page_entry ∷ [])
unfolding str_eq
site_listed = refl

site-HasTrees : HasTrees site (root ∷ []) 1
site-HasTrees = tree site_listed no_trees no_trees

page_there : All (IsEntryPresent site.is_present root) (page_entry ∷ [])
unfolding join_path filename str_eq
page_there = (inr refl, tt)

site_entries :
    (d : Bytes) (es : List DirEntry)
    → site.listing d ≡ some es
    → All (IsEntryPresent site.is_present d) es
unfolding str_eq
site_entries d es h = elim (Bool-cases (str_eq d root)) [
  | inr other ↦ cc (rw other at h)
  | inl same ↦
      let all : All (IsEntryPresent site.is_present d) (page_entry ∷ []) =
        subst (λ d. All (IsEntryPresent site.is_present d) (page_entry ∷ []))
          (sym ((str_eq_iff d root).0 same)) page_there in
      subst (All (IsEntryPresent site.is_present d)) (some_inj.0 (rw same at h)) all
]

-- A compressor that gives one byte
abbrev one_byte : Bytes → ℕ → Option Bytes
one_byte input room = some (1 ∷ [])

encode_directory_returns_example :
    (fs' : FileSystem) × (encode_directory one_byte 1 root site ≡ some (returns fs'))
    × IsBeside site fs'
encode_directory_returns_example =
    encode_directory_returns one_byte site root 1 1 site-HasTrees site_entries (omega arith)

construct_file_descriptors_returns_example :
    (ds : Dict FileDescriptor) × (construct_file_descriptors 3 site root [] ≡ some (returns ds))
    × AllDescribed site root ds
construct_file_descriptors_returns_example =
    construct_file_descriptors_returns site root 1 3 site-HasTrees (omega arith)

-- A compressor that keeps the first byte
abbrev first_byte : Bytes → ℕ → Option Bytes
first_byte [] room = none
first_byte (x ∷ s) room = some (x ∷ [])

abbrev encoded_descriptors : Dict FileDescriptor
encoded_descriptors =
    (
      page,
      record (describe page) {
        file_paths = with_brotli (codes "../webdir/a.html.br") (describe page).file_paths;
      },
    )
    ∷ []

abbrev encoded_site : FileSystem
encoded_site = write_file (codes "../webdir/a.html.br") (b'<' ∷ 0 ∷ 0 ∷ []) site

site_encoded :
    generate_encoded_files first_byte site_descriptors site
    ≡ returns (encoded_descriptors, encoded_site)
unfolding generate_encoded_files add_brotli insert lookup str_eq filename encode_filetype encode
    write_to_file join_path parent_path strip_slashes
site_encoded = refl

page-IsPresent : All (IsPresent site.is_present) site_descriptors
unfolding join_path parent_path strip_slashes filename str_eq
page-IsPresent = (refl, tt)

generate_encoded_files_returns_example :
    (ds : Dict FileDescriptor) × (fs : FileSystem) × (generate_encoded_files first_byte
        site_descriptors site
      ≡ returns (ds, fs))
    × AllDescribed site root ds
generate_encoded_files_returns_example =
    generate_encoded_files_returns first_byte site root site_descriptors site site_described
      page-IsPresent
