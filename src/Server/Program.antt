-- ===== src/Server/Program.antt =====
-- src/serverexec/main.cpp with the static object of include/simpleserv/http/http_handler.hpp.
-- `static utility::FileManager file_manager` stands in a header, so each file that includes it has
-- an object of its own: main.cpp prepares one, and http_handler.cpp serves from the other.
pub mod Managers
pub mod Workers
pub mod Main
use simple_serv.Common.{ℕ, Option, none, some, List, [], Bytes, codes}
use simple_serv.Common.Dict.{Dict}
use simple_serv.Common.Outcome.{Outcome, returns, throws, undefined, ◌>>=◌}
use simple_serv.Utility.FileSystem.{FileSystem}
use simple_serv.Utility.FileManager.{
  FileDescriptor, FileManager, construct_file_descriptors, generate_encoded_files,
}
use simple_serv.Http.Handler.{handle}
use simple_serv.Server.Connection.{HttpConnection, SocketEvent, handle_connection}

pub record Program : Type 0 where
  pub main_manager : FileManager
  pub handler_manager : FileManager

abbrev pub new_manager : FileManager
new_manager = record { file_descriptors = []; file_cache = [] }

-- Static objects before `main`
abbrev pub initial : Program
initial = record { main_manager = new_manager; handler_manager = new_manager }

abbrev pub webdir : Bytes
webdir = codes "../webdir"

module _ (compress : Bytes → ℕ → Option Bytes) where
  abbrev pub with_descriptors :
      Program → Dict FileDescriptor × FileSystem → Outcome (Program × FileSystem)
  with_descriptors p (ds, fs) =
      returns (record p { main_manager = record p.main_manager { file_descriptors = ds } }, fs)

  abbrev pub prepare_files :
      Program
      → FileSystem
      → Option (Outcome (Dict FileDescriptor))
      → Option (Outcome (Program × FileSystem))
  prepare_files p fs none = none
  prepare_files p fs (some o) =
      some (o >>= λ ds. generate_encoded_files compress ds fs >>= with_descriptors p)

  -- The first two lines of `main`, with fuel for the walk over the directories
  unfoldable pub start : ℕ → FileSystem → Program → Option (Outcome (Program × FileSystem))
  unfolding construct_file_descriptors generate_encoded_files
  start fuel fs p =
      prepare_files p fs (construct_file_descriptors fuel fs webdir p.main_manager.file_descriptors)

-- What a worker does with a connection
unfoldable pub serve : FileSystem → HttpConnection → Program → Outcome (List SocketEvent × Program)
unfolding handle_connection handle
serve fs conn_obj p = handle_connection (handle fs) conn_obj p.handler_manager >>= λ (events, m).
    returns (events, record p { handler_manager = m })
