-- ===== src/Server/Threadpool.antt =====
-- The threads of include/simpleserv/request_processing/threadpool.hpp. What its workers do is in
-- Server.Connection.
use simple_serv.Common.{ℕ, Bool, true, false, List, [], ◌∷◌, any, replicate, if◌then◌else◌}

-- How a call ends: it comes back, an exception leaves it, or `std::terminate` ends the process.
pub data Ending : Type 0 where
  returned thrown terminated : Ending

-- For each thread whether it is joinable: started, and not yet joined.
pub record Threadpool : Type 0 where
  pub threads : List Bool

-- The template argument of both servers
abbrev pub num_threads : ℕ
num_threads = 4

-- The constructor starts every thread.
unfoldable pub new_threadpool : ℕ → Threadpool
new_threadpool n = record { threads = replicate n true }

-- `join` of a thread that is not joinable throws.
abbrev pub joined_too : Ending × List Bool → Ending × List Bool
joined_too (e, threads) = (e, false ∷ threads)

unfoldable pub join_threads : List Bool → Ending × List Bool
join_threads [] = (returned, [])
join_threads (joinable ∷ threads) =
    let others = join_threads threads in
    if joinable then joined_too others else (thrown, joinable ∷ threads)

unfoldable pub join : Threadpool → Ending × Threadpool
unfolding join_threads
join pool = let (e, threads) = join_threads pool.threads in (e, record { threads = threads })

-- The destructor of a joinable thread calls `std::terminate`.
unfoldable pub destroy_threadpool : Threadpool → Ending
destroy_threadpool pool = if any (λ joinable. joinable) pool.threads then terminated else returned
