-- ===== src/Server/Start.antt =====
-- `Start` and `Stop` of include/simpleserv/server/tcp_server.hpp and tls_server.hpp. What the
-- system calls and the TLS library return is an argument; a call of theirs is an event.
pub mod Listening
use simple_serv.Common.{
  ℕ, Bool, true, false, Option, none, some, List, [], ◌∷◌, ◌++◌, if◌then◌else◌,
}
use simple_serv.Server.Accept.{maxbuflen}
use simple_serv.Server.Units.{Server, tcp_server, tls_server, ServerUnit}

-- What the calls return: whether an address was found, the descriptor of `socket` (`none` is -1),
-- whether `bind` and `listen` succeeded, the TLS context (`none` is null), and whether the
-- certificate and the key were loaded.
pub record StartResults : Type 0 where
  pub address_found : Bool
  pub sockfd : Option ℕ
  pub bound : Bool
  pub listening : Bool
  pub ctx : Option ℕ
  pub certificate_loaded : Bool
  pub key_loaded : Bool

-- The descriptors and the context are those that the call is given; `listen` has its backlog.
-- `threadpool_start` is the last call of `Start`, that of `Threadpool::Start`, which has an empty
-- body: the threads of the pool run since the constructor of the server.
pub data Call : Type 0 where
  get_address : (port : ℕ) → Call
  make_socket : Call
  set_flags : Option ℕ → Call
  bind_socket : (sockfd : ℕ) → Call
  listen_on : (sockfd backlog : ℕ) → Call
  init_tls make_context : Call
  use_certificate use_key : (ctx : ℕ) → Call
  threadpool_start : Call
  close_descriptor free_context : Option ℕ → Call
  clean_up_tls : Call

-- `quick_exit` with this code, or the value with which the function goes on
pub data Started (A : Type 0) : Type 0 where
  quick_exit : ℕ → Started A
  goes_on : A → Started A

-- The calls of a part, then those of what follows it
infixl 5 ◌>>=◌
abbrev pub ◌>>=◌ :
    {A : Type 0} {B : Type 0}
    → List Call × Started A
    → (A → List Call × Started B)
    → List Call × Started B
(calls, quick_exit n) >>= f = (calls, quick_exit n)
(calls, goes_on a) >>= f = (calls ++ (f a).0, (f a).1)

-- A call that must succeed: all failures end with the code `EXIT_FAILURE`, which is 1.
abbrev pub require : Call → Bool → List Call × Started Unit
require c true = (c ∷ [], goes_on tt)
require c false = (c ∷ [], quick_exit 1)

-- The flags are set before the descriptor is tested.
abbrev pub make_descriptor : Option ℕ → List Call × Started ℕ
make_descriptor none = (make_socket ∷ set_flags none ∷ [], quick_exit 1)
make_descriptor (some fd) = (make_socket ∷ set_flags (some fd) ∷ [], goes_on fd)

-- The part of `Start` that both servers have
unfoldable pub open_socket : ℕ → StartResults → List Call × Started ℕ
open_socket port r = require (get_address port) r.address_found >>= λ found.
    make_descriptor r.sockfd >>= λ fd. require (bind_socket fd) r.bound >>= λ bound.
    require (listen_on fd maxbuflen) r.listening >>= λ listening. ([], goes_on fd)

abbrev pub made_context : Option ℕ → List Call × Started ℕ
made_context none = (init_tls ∷ make_context ∷ [], quick_exit 1)
made_context (some ctx) = (init_tls ∷ make_context ∷ [], goes_on ctx)

unfoldable pub tcp_start : ℕ → StartResults → List Call × Started Unit
unfolding open_socket
tcp_start port r = open_socket port r >>= λ fd. (threadpool_start ∷ [], goes_on tt)

unfoldable pub tls_start : ℕ → StartResults → List Call × Started Unit
unfolding open_socket
tls_start port r = open_socket port r >>= λ fd. made_context r.ctx >>= λ ctx.
    require (use_certificate ctx) r.certificate_loaded >>= λ certificate.
    require (use_key ctx) r.key_loaded >>= λ key. (threadpool_start ∷ [], goes_on tt)

-- `Stop`, which the destructor calls too; nothing is reset.
abbrev pub tcp_stop : (client_fd sockfd : Option ℕ) → List Call
tcp_stop client_fd sockfd = close_descriptor client_fd ∷ close_descriptor sockfd ∷ []

abbrev pub tls_stop : (client_fd sockfd ctx : Option ℕ) → List Call
tls_stop client_fd sockfd ctx =
    close_descriptor client_fd ∷ close_descriptor sockfd ∷ free_context ctx ∷ clean_up_tls ∷ []

-- The virtual function
unfoldable pub start_server : Server → StartResults → List Call × Started Unit
unfolding tcp_start tls_start
start_server (tcp_server port) r = tcp_start port r
start_server (tls_server port) r = tls_start port r

-- `ServerManager::Start`, with the results for each server
unfoldable pub start_all : List (ServerUnit × StartResults) → List Call × Started Unit
unfolding start_server
start_all [] = ([], goes_on tt)
start_all ((u, r) ∷ servers) = start_server u.server r >>= λ started. start_all servers
