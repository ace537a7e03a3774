-- ===== src/Utility/FileSystem.antt =====
-- The file system as the sources see it through `std::filesystem` and `std::fstream`: a value that
-- the environment supplies, with the one change that the sources make to it.
use simple_serv.Common.{Bool, Option, none, some, List, [], Bytes, str_eq, if◌then◌else◌}

pub record DirEntry : Type 0 where
  pub path : Bytes
  pub is_directory : Bool

-- `listing` is what a `directory_iterator` visits, `none` where its constructor throws;
-- `content` is the bytes of a file that can be opened for reading; `is_present` tells the files
-- whose size can be asked for, and `writable` those that can be opened for writing.
pub record FileSystem : Type 0 where
  pub listing : Bytes → Option (List DirEntry)
  pub content : Bytes → Option Bytes
  pub is_present : Bytes → Bool
  pub writable : Bytes → Bool

-- All bytes of a `std::ifstream`; a stream that is not open has none.
abbrev pub bytes_or_none : Option Bytes → Bytes
bytes_or_none none = []
bytes_or_none (some bytes) = bytes

abbrev pub read_file : FileSystem → Bytes → Bytes
read_file fs path = bytes_or_none (fs.content path)

-- Opening for output truncates the file.
unfoldable pub write_file : Bytes → Bytes → FileSystem → FileSystem
write_file path bytes fs = record fs {
  content = λ p. if str_eq path p then some bytes else fs.content p;
}
