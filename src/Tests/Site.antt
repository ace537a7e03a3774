-- ===== src/Tests/Site.antt =====
-- A small site: one page below the root directory, with the file manager that serves it.
use simple_serv.Common.{
  ℕ, true, false, ◌≡◌, refl, none, some, [], ◌∷◌, arith, Bytes, codes, Lacks, any, ◌==◌, str_eq,
  if◌then◌else◌,
}
use simple_serv.Common.Dict.{Dict, insert}
use simple_serv.Common.Outcome.{returns}
use simple_serv.Utility.FileSystem.{FileSystem, DirEntry}
use simple_serv.Utility.FileManager.{
  FileDescriptor, FileManager, describe, collect_entries, collect_directories,
  construct_file_descriptors,
}
use simple_serv.Utility.FileManager.Descriptors.{
  AllDescribed, construct_file_descriptors-AllDescribed,
}
use simple_serv.Utility.FileManager.Cache.{IsCoherent-nil}
use simple_serv.Utility.FileManager.Serving.{IsFresh}
use simple_serv.Http.Status.{HttpMethod}
use simple_serv.Http.Message.{HttpRequest, http_1_1}

abbrev pub root : Bytes
root = codes "../webdir"

abbrev pub page : Bytes
page = codes "../webdir/a.html"

abbrev pub page_entry : DirEntry
page_entry = record { path = page; is_directory = false }

abbrev pub site : FileSystem
site = record {
  listing = λ p. if str_eq p root then some (page_entry ∷ []) else none;
  content = λ p. if str_eq p page then some (codes "<p>") else none;
  is_present = str_eq page;
  writable = λ _. true;
}

abbrev pub site_descriptors : Dict FileDescriptor
site_descriptors = (page, describe page) ∷ []

abbrev pub manager : FileManager
manager = record { file_descriptors = site_descriptors; file_cache = [] }

pub site_built : construct_file_descriptors 1 site root [] ≡ some (returns site_descriptors)
unfolding construct_file_descriptors collect_directories collect_entries insert str_eq
site_built = refl

pub site_described : AllDescribed site root site_descriptors
site_described = construct_file_descriptors-AllDescribed site root 1 site_built

pub site-IsFresh : IsFresh site manager
site-IsFresh = IsCoherent-nil _

-- "GET /a.html?x=1 HTTP/1.1" with one header
abbrev pub page_request : HttpRequest
page_request = record {
  method = HttpMethod.get;
  path = codes "/a.html?x=1";
  message = record {
    version = http_1_1;
    headers = (codes "Host", codes "example.org") ∷ [];
    body = codes "?";
  };
}

-- A test that stands for `Lacks`
pub Lacks-any : (b : ℕ) (s : Bytes) → any (λ c. c == b) s ≡ false → Lacks b s
Lacks-any b [] h = tt
Lacks-any b (c ∷ s) h = ground (arith, Lacks-any b s)
