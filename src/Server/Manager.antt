-- ===== src/Server/Manager.antt =====
-- include/simpleserv/server/server_manager.hpp, with `signal_handler` of src/serverexec/main.cpp: the
-- servers, and the order of what is done to them. A call of a server, or of its thread, is an event.
pub mod End
use simple_serv.Common.{ℕ, Bool, true, false, List, [], ◌∷◌, ◌++◌, if◌then◌else◌}
use simple_serv.Server.Threadpool.{
  Ending, returned, thrown, terminated, num_threads, new_threadpool, destroy_threadpool,
}
use simple_serv.Server.Units.{ServerConfig, Server, ServerUnit, configure_all}
use simple_serv.Server.Start.{StartResults, Call, Started, quick_exit, goes_on, start_all}

pub data ServerEvent : Type 0 where
  opened stop_requested joined stopped : Server → ServerEvent

-- One pass over the servers
unfoldable pub for_all : (Server → ServerEvent) → List ServerUnit → List ServerEvent
for_all event [] = []
for_all event (u ∷ servers) = event u.server ∷ for_all event servers

-- The servers, each with what the calls of its `Start` return
unfoldable pub with_results :
    (ServerUnit → StartResults) → List ServerUnit → List (ServerUnit × StartResults)
with_results results [] = []
with_results results (u ∷ servers) = (u, results u) ∷ with_results results servers

-- What the constructor has done: its servers, the calls of their `Start`, the servers opened, and
-- whether the process has exited inside `Start`.
pub record Constructed : Type 0 where
  pub servers : List ServerUnit
  pub calls : List Call
  pub events : List ServerEvent
  pub result : Started Unit

-- `Open`, which starts a thread for each server, if `Start` has come back
abbrev pub open_all : List ServerUnit → Started Unit → List ServerEvent
open_all servers (quick_exit n) = []
open_all servers (goes_on x) = for_all opened servers

abbrev pub constructed : List ServerUnit → List Call × Started Unit → Constructed
constructed servers (calls, result) = record {
  servers = servers;
  calls = calls;
  events = open_all servers result;
  result = result;
}

-- `Start`, then `Open`
unfoldable pub server_manager : (ServerUnit → StartResults) → List ServerConfig → Constructed
unfolding configure_all for_all with_results start_all
server_manager results configs =
    let servers = configure_all configs in
    constructed servers (start_all (with_results results servers))

-- How the destructor of the manager ends: as a call does, or not at all, since it waits for a thread
-- that does not end.
pub data Destroyed : Type 0 where
  ends : Ending → Destroyed
  waits : Destroyed

abbrev pub and_then :
    List ServerEvent × Ending → List ServerEvent × Ending → List ServerEvent × Ending
and_then (events, returned) (later, e) = (events ++ later, e)
and_then (events, thrown) later = (events, thrown)
and_then (events, terminated) later = (events, terminated)

-- The destructor of a server calls `Stop`; then its thread pool goes, which nothing has joined.
unfoldable pub destroy_server : Server → List ServerEvent × Ending
unfolding new_threadpool destroy_threadpool
destroy_server s = (stopped s ∷ [], destroy_threadpool (new_threadpool num_threads))

-- The vector's elements, the first one first
unfoldable pub destroy_servers : List ServerUnit → List ServerEvent × Ending
unfolding destroy_server
destroy_servers [] = ([], returned)
destroy_servers (u ∷ servers) = and_then (destroy_server u.server) (destroy_servers servers)

-- `join` of the servers' threads. An accept loop may read on for ever without a look at its stop
-- token; `loop_ends` says whose comes to its end. The others are waited for.
unfoldable pub join_all : (ServerUnit → Bool) → List ServerUnit → List ServerEvent × Bool
join_all loop_ends [] = ([], true)
join_all loop_ends (u ∷ servers) =
    let later = join_all loop_ends servers in
    if loop_ends u then (joined u.server ∷ later.0, later.1) else ([], false)

abbrev then_ends :
    List ServerEvent × Bool → List ServerEvent × Ending → List ServerEvent × Destroyed
then_ends (events, true) (later, e) = (events ++ later, ends e)
then_ends (events, false) later = (events, waits)

-- The destructor: its body, where the thread at an index belongs to the server at that index, and
-- then the members.
unfoldable pub destroy : (ServerUnit → Bool) → List ServerUnit → List ServerEvent × Destroyed
unfolding for_all join_all destroy_servers
destroy loop_ends servers =
    let (joins, all_joined) = join_all loop_ends servers in
    then_ends (for_all stop_requested servers ++ joins, all_joined)
      (and_then (for_all stopped servers, returned) (destroy_servers servers))

-- `quick_exit` with a code, the signal of `std::terminate`, or neither
pub data ProcessEnd : Type 0 where
  quick_exited : ℕ → ProcessEnd
  aborted stays : ProcessEnd

-- The destructor may not throw.
abbrev pub ended : ℕ → List ServerEvent × Destroyed → List ServerEvent × ProcessEnd
ended signum (events, ends returned) = (events, quick_exited signum)
ended signum (events, ends thrown) = (events, aborted)
ended signum (events, ends terminated) = (events, aborted)
ended signum (events, waits) = (events, stays)

-- `signal_handler` of main.cpp, which destroys the manager
unfoldable pub signal_handler :
    (ServerUnit → Bool) → ℕ → List ServerUnit → List ServerEvent × ProcessEnd
unfolding destroy
signal_handler loop_ends signum servers = ended signum (destroy loop_ends servers)
