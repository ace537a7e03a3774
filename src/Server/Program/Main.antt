-- ===== src/Server/Program/Main.antt =====
-- `main` of src/serverexec/main.cpp up to the wait for a signal. The results of the calls that the
-- servers make are arguments, as in Server.Start.
use mathlib.Core.Path.{subst}
use simple_serv.Common.{
  some_inj, ℕ, ◌<◌, ◌≡◌, refl, Option, none, some, List, [], ◌∷◌, All, Bytes, codes, length,
}
use simple_serv.Common.Outcome.{Outcome, Exception, returns, throws, undefined}
use simple_serv.Utility.FileSystem.{FileSystem}
use simple_serv.Server.Units.{
  http, https, ServerConfig, ServerUnit, configure_all, configure_server,
}
use simple_serv.Server.Manager.{
  ServerEvent, opened, for_all, with_results, Constructed, constructed, server_manager,
}
use simple_serv.Server.Start.{StartResults, Call, Started, quick_exit, goes_on, start_all}
use simple_serv.Server.Start.Listening.{IsReady, AllReady, start_ends, start_all-AllReady}
use simple_serv.Server.Program.{Program, initial, start}

abbrev pub http_port : ℕ
http_port = 80

abbrev pub https_port : ℕ
https_port = 443

abbrev pub server_configs : List ServerConfig
server_configs =
    record { name = codes "HTTP"; server_type = http; port = http_port }
    ∷ record { name = codes "HTTPS"; server_type = https; port = https_port }
    ∷ []

-- Where `main` has got to. An exception that leaves it ends the process.
pub data MainEnd : Type 0 where
  uncaught : Exception → MainEnd
  has_undefined : MainEnd
  exited : ℕ → MainEnd
  waiting_for_signal : Program → FileSystem → List ServerEvent → MainEnd

abbrev pub after_start : Program → FileSystem → Constructed → List Call × MainEnd
after_start p fs manager = elim manager.result [
  | quick_exit n ↦ (manager.calls, exited n)
  | goes_on x ↦ (manager.calls, waiting_for_signal p fs manager.events)
]

module _ (compress : Bytes → ℕ → Option Bytes) (results : ServerUnit → StartResults) where
  abbrev pub started_servers : List (ServerUnit × StartResults)
  unfolding with_results configure_all configure_server
  started_servers = with_results results (configure_all server_configs)

  abbrev after_files : Option (Outcome (Program × FileSystem)) → Option (List Call × MainEnd)
  after_files none = none
  after_files (some (returns (p, fs))) =
      some (after_start p fs (server_manager results server_configs))
  after_files (some (throws e)) = some ([], uncaught e)
  after_files (some undefined) = some ([], has_undefined)

  -- The fuel is that of the walk over the directories.
  unfoldable pub main_program : ℕ → FileSystem → Option (List Call × MainEnd)
  unfolding start server_manager
  main_program fuel fs = after_files (start compress fuel fs initial)

  -- What holds when `main` has come to its end
  abbrev pub IsMainEnd : ℕ → FileSystem → List Call × MainEnd → Type 0
  IsMainEnd fuel fs (calls, waiting_for_signal p fs' events) =
      (start compress fuel fs initial ≡ some (returns (p, fs')))
      × All (λ q. IsReady q.0.server q.1 calls) started_servers
      × (events ≡ for_all opened (configure_all server_configs))
  IsMainEnd fuel fs (calls, exited n) = (n ≡ 1) × (start_ends calls < length started_servers)
  IsMainEnd fuel fs (calls, uncaught e) =
      (calls ≡ []) × (start compress fuel fs initial ≡ some (throws e))
  IsMainEnd fuel fs (calls, has_undefined) =
      (calls ≡ []) × (start compress fuel fs initial ≡ some undefined)

  after_files-IsMainEnd :
      (fuel : ℕ) (fs : FileSystem) (o : Option (Outcome (Program × FileSystem)))
      → start compress fuel fs initial ≡ o
      → (r : List Call × MainEnd) → after_files o ≡ some r
      → IsMainEnd fuel fs r
  unfolding server_manager
  after_files-IsMainEnd fuel fs none e r h = cc h
  after_files-IsMainEnd fuel fs (some (throws x)) e r h =
      subst (IsMainEnd fuel fs) (some_inj.0 h) (refl, e)
  after_files-IsMainEnd fuel fs (some undefined) e r h =
      subst (IsMainEnd fuel fs) (some_inj.0 h) (refl, e)
  after_files-IsMainEnd fuel fs (some (returns (p, fs'))) e r h =
      go (start_all started_servers) (start_all-AllReady started_servers) h
    where
      go :
          (s : List Call × Started Unit)
          → AllReady started_servers s
          → some (after_start p fs' (constructed (configure_all server_configs) s)) ≡ some r
          → IsMainEnd fuel fs r
      go (calls, quick_exit n) ready h = subst (IsMainEnd fuel fs) (some_inj.0 h) ready
      go (calls, goes_on x) ready h = subst (IsMainEnd fuel fs) (some_inj.0 h) (e, ready, refl)

  -- Main waits for a signal only when the files have been prepared, each of the two servers has
  -- made all calls of its Start in order and successfully, from the address of its port to the
  -- last one, Threadpool::Start, and the threads of both have been opened in their order; else it
  -- has left with the code 1 and fewer servers have made the last call of their Start than are
  -- configured, or an exception or undefined behaviour of the preparation has ended it before any
  -- call.
  pub main_program-IsMainEnd :
      (fuel : ℕ) (fs : FileSystem) (r : List Call × MainEnd)
      → main_program fuel fs ≡ some r
      → IsMainEnd fuel fs r
  unfolding main_program
  main_program-IsMainEnd fuel fs r h = after_files-IsMainEnd fuel fs _ refl r h
