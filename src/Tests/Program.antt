-- ===== src/Tests/Program.antt =====
-- Examples for the program and the servers' start and end.
use simple_serv.Common.{
  ℕ, ◌≡◌, ◌↔◌, List, refl, true, false, Option, none, some, [], ◌∷◌, ◌++◌, Bytes, codes, str_eq,
}
use simple_serv.Common.Dict.{insert}
use simple_serv.Common.Outcome.{returns}
use simple_serv.Utility.FileType.{filename, encode_filetype}
use simple_serv.Utility.ContentCoding.{encode, join_path}
use simple_serv.Utility.FileManager.{
  construct_file_descriptors, collect_directories, collect_entries, generate_encoded_files,
  add_brotli, strip_slashes, parent_path,
}
use simple_serv.Server.Program.{Program, new_manager, initial, start}
use simple_serv.Server.Units.{
  ServerConfig, http, https, tcp_server, tls_server, ServerUnit, configure_server, configure_all,
}
use simple_serv.Server.Manager.{with_results, server_manager, signal_handler, quick_exited}
use simple_serv.Server.Manager.End.{signal_handler_iff}
use simple_serv.Server.Program.Main.{main_program, exited, IsMainEnd, main_program-IsMainEnd}
use simple_serv.Server.Start.{
  StartResults, Call, get_address, make_socket, set_flags, bind_socket, listen_on, threadpool_start,
  init_tls, make_context, use_certificate, start_all, start_server, tcp_start, tls_start,
  open_socket,
}
use simple_serv.Tests.Site.{site, manager}

-- A compressor that always fails
abbrev pub no_compression : Bytes → ℕ → Option Bytes
no_compression input room = none

abbrev pub started_program : Program
started_program = record { main_manager = manager; handler_manager = new_manager }

pub site_started : start no_compression 1 site initial ≡ some (returns (started_program, site))
unfolding start construct_file_descriptors generate_encoded_files collect_directories
    collect_entries insert str_eq filename encode_filetype encode join_path parent_path
    strip_slashes add_brotli
site_started = refl

-- The configuration in `main`
abbrev http_config : ServerConfig
http_config = record { name = codes "HTTP"; server_type = http; port = 80 }

abbrev https_config : ServerConfig
https_config = record { name = codes "HTTPS"; server_type = https; port = 443 }

-- Every call succeeds.
abbrev all_good : StartResults
all_good = record {
  address_found = true;
  sockfd = some 3;
  bound = true;
  listening = true;
  ctx = some 1;
  certificate_loaded = true;
  key_loaded = true;
}

abbrev one_certificate : ServerUnit → StartResults
one_certificate u = elim u.server [
  | tcp_server port ↦ all_good
  | tls_server port ↦ record all_good { certificate_loaded = false }
]

signal_handler_iff_example :
    ((signal_handler
        (λ u. true)
        2
        (server_manager one_certificate (http_config ∷ https_config ∷ [])).servers).1
      ≡ quick_exited 2)
    ↔ (http_config ∷ https_config ∷ [] ≡ [])
signal_handler_iff_example =
    signal_handler_iff one_certificate (λ u. true) 2 (http_config ∷ https_config ∷ [])

abbrev socket_calls : ℕ → List Call
socket_calls port =
    get_address port ∷ make_socket ∷ set_flags (some 3) ∷ bind_socket 3 ∷ listen_on 3 4096 ∷ []

abbrev main_calls : List Call
main_calls =
    (socket_calls 80 ++ threadpool_start ∷ [])
    ++ (socket_calls 443 ++ init_tls ∷ make_context ∷ use_certificate 1 ∷ [])

-- The process exits, and the second server has not come to the end of its start.
main_exits : main_program no_compression one_certificate 1 site ≡ some (main_calls, exited 1)
unfolding main_program server_manager with_results configure_all configure_server start_all
    start_server tcp_start tls_start open_socket
main_exits = rw site_started refl

main_program-IsMainEnd_example :
    IsMainEnd no_compression one_certificate 1 site (main_calls, exited 1)
main_program-IsMainEnd_example =
    main_program-IsMainEnd no_compression one_certificate 1 site (main_calls, exited 1) main_exits
