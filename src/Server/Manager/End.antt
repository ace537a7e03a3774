-- ===== src/Server/Manager/End.antt =====
-- How the process ends when a manager of servers is destroyed.
use simple_serv.Common.{
  ℕ, zero, suc, Bool, ◌≡◌, ◌≢◌, ◌↔◌, refl, sym, ap, ◌∙◌, List, [], ◌∷◌, ◌++◌, true, false,
  replicate, any,
}
use simple_serv.Server.Threadpool.{
  returned, terminated, new_threadpool, join, join_threads, destroy_threadpool,
}
use simple_serv.Server.Units.{ServerConfig, ServerUnit, configure_server, configure_all}
use simple_serv.Server.Start.{StartResults, start_all}
use simple_serv.Server.Manager.{
  ServerEvent, stop_requested, stopped, for_all, with_results, server_manager, then_ends, join_all,
  destroy_server, destroy_servers, destroy, quick_exited, ended, signal_handler,
}

join_threads_all : (n : ℕ) → join_threads (replicate n true) ≡ (returned, replicate n false)
unfolding join_threads
join_threads_all zero = refl
join_threads_all (suc n) = rw (join_threads_all n) refl

none_joinable : (n : ℕ) → any (λ joinable. joinable) (replicate n false) ≡ false
none_joinable zero = refl
none_joinable (suc n) = none_joinable n

-- A thread pool that is destroyed as it was made ends the process if it has a thread; one that has
-- been joined does not.
pub destroy_threadpool-join :
    (n : ℕ)
    → (destroy_threadpool (new_threadpool (suc n)) ≡ terminated)
      × ((join (new_threadpool n)).0 ≡ returned)
      × (destroy_threadpool (join (new_threadpool n)).1 ≡ returned)
unfolding new_threadpool join destroy_threadpool
destroy_threadpool-join n =
    (refl, rw (join_threads_all n) refl, rw (join_threads_all n, none_joinable n) refl)

-- With a server no destructor comes back: either a thread is waited for, or a thread pool ends the
-- process.
signal_handler-quick_exited :
    (joins : Bool) (signum : ℕ) (before later : List ServerEvent)
    → (ended signum (then_ends (before, joins) (later, terminated))).1 ≢ quick_exited signum
signal_handler-quick_exited true signum before later = λ e. cc e
signal_handler-quick_exited false signum before later = λ e. cc e

-- With a server all are asked to stop and the threads are joined. If these come to their ends, all
-- servers are stopped; then the first one is stopped again, and its thread pool ends the process.
destroy-terminated :
    (loop_ends : ServerUnit → Bool) (c : ServerConfig) (configs : List ServerConfig)
    → (let servers = configure_all (c ∷ configs) in
        destroy loop_ends servers
        ≡ then_ends
            (
              for_all stop_requested servers ++ (join_all loop_ends servers).0,
              (join_all loop_ends servers).1,
            )
            (for_all stopped servers ++ stopped (configure_server c) ∷ [], terminated))
unfolding configure_all destroy destroy_servers destroy_server new_threadpool destroy_threadpool
destroy-terminated loop_ends c configs = refl

-- Whatever the calls of Start return and whichever accept loops come to their ends, after a signal
-- the process leaves with the number of the signal exactly if no server is configured.
pub signal_handler_iff :
    (results : ServerUnit → StartResults) (loop_ends : ServerUnit → Bool) (signum : ℕ)
    (configs : List ServerConfig)
    → ((signal_handler loop_ends signum (server_manager results configs).servers).1
        ≡ quick_exited signum)
      ↔ (configs ≡ [])
unfolding signal_handler server_manager configure_all destroy destroy_servers join_all for_all
    start_all with_results
signal_handler_iff results loop_ends signum [] = (λ e. refl, λ e. refl)
signal_handler_iff results loop_ends signum (c ∷ configs) = (
  λ e.
      let end = ap (λ d. (ended signum d).1) (destroy-terminated loop_ends c configs) in
      absurd (signal_handler-quick_exited _ signum _ _ (sym end ∙ e)),
  λ e. cc e,
)
