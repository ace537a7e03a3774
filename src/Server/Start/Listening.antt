-- ===== src/Server/Start/Listening.antt =====
-- When the start of the servers goes on, and which calls have been made then.
use simple_serv.Common.{
  ℕ, ◌+◌, ◌<◌, ◌≡◌, refl, arith, Bool, true, false, Option, none, some, List, [], ◌∷◌, ◌++◌, All,
  All-map, length,
}
use simple_serv.Common.Within.{IsWithin, leave_all, IsWithin-append, IsWithin-refl}
use simple_serv.Server.Accept.{maxbuflen}
use simple_serv.Server.Units.{Server, tcp_server, tls_server, ServerUnit}
use simple_serv.Server.Start.{
  StartResults, Call, get_address, make_socket, set_flags, bind_socket, listen_on, init_tls,
  make_context, use_certificate, use_key, threadpool_start, Started, quick_exit, goes_on, tcp_start,
  tls_start, open_socket, start_server, start_all, ◌>>=◌,
}

abbrev start_ends_of : Call → ℕ
start_ends_of threadpool_start = 1
start_ends_of _ = 0

-- How many thread start_ends the calls start
abbrev pub start_ends : List Call → ℕ
start_ends [] = 0
start_ends (c ∷ calls) = start_ends_of c + start_ends calls

abbrev socket_calls : ℕ → ℕ → List Call
socket_calls port fd =
    get_address port
    ∷ make_socket
    ∷ set_flags (some fd)
    ∷ bind_socket fd
    ∷ listen_on fd maxbuflen
    ∷ []

-- The calls of a server that is ready for connections
abbrev pub IsReady : Server → StartResults → List Call → Type 0
IsReady (tcp_server port) r calls =
    (fd : ℕ) × (r.sockfd ≡ some fd)
    × (r.address_found ≡ true)
    × (r.bound ≡ true)
    × (r.listening ≡ true)
    × IsWithin (socket_calls port fd ++ threadpool_start ∷ []) calls
IsReady (tls_server port) r calls =
    (fd : ℕ) × (ctx : ℕ) × (r.sockfd ≡ some fd)
    × (r.ctx ≡ some ctx)
    × (r.address_found ≡ true)
    × (r.bound ≡ true)
    × (r.listening ≡ true)
    × (r.certificate_loaded ≡ true)
    × (r.key_loaded ≡ true)
    × IsWithin
        (socket_calls port fd
          ++ init_tls ∷ make_context ∷ use_certificate ctx ∷ use_key ctx ∷ threadpool_start ∷ [])
        calls

abbrev IsServerStart : Server → StartResults → List Call × Started Unit → Type 0
IsServerStart s r (calls, goes_on x) = IsReady s r calls × (start_ends calls ≡ 1)
IsServerStart s r (calls, quick_exit n) = (n ≡ 1) × (start_ends calls ≡ 0)

abbrev results :
    (found : Bool) (sockfd : Option ℕ) (bound listening : Bool) (ctx : Option ℕ)
    (certificate key : Bool)
    → StartResults
results found sockfd bound listening ctx certificate key = record {
  address_found = found;
  sockfd = sockfd;
  bound = bound;
  listening = listening;
  ctx = ctx;
  certificate_loaded = certificate;
  key_loaded = key;
}

tcp_start-IsServerStart :
    (port : ℕ) (found : Bool) (sockfd : Option ℕ) (bound listening : Bool) (ctx : Option ℕ)
    (certificate key : Bool)
    → (let r = results found sockfd bound listening ctx certificate key in
        IsServerStart (tcp_server port) r (tcp_start port r))
unfolding tcp_start open_socket
tcp_start-IsServerStart port false sockfd bound listening ctx certificate key = (refl, refl)
tcp_start-IsServerStart port true none bound listening ctx certificate key = (refl, refl)
tcp_start-IsServerStart port true (some fd) false listening ctx certificate key = (refl, refl)
tcp_start-IsServerStart port true (some fd) true false ctx certificate key = (refl, refl)
tcp_start-IsServerStart port true (some fd) true true ctx certificate key =
    ((fd, refl, refl, refl, refl, IsWithin-refl _), refl)

tls_start-IsServerStart :
    (port : ℕ) (found : Bool) (sockfd : Option ℕ) (bound listening : Bool) (ctx : Option ℕ)
    (certificate key : Bool)
    → (let r = results found sockfd bound listening ctx certificate key in
        IsServerStart (tls_server port) r (tls_start port r))
unfolding tls_start open_socket
tls_start-IsServerStart port false sockfd bound listening ctx certificate key = (refl, refl)
tls_start-IsServerStart port true none bound listening ctx certificate key = (refl, refl)
tls_start-IsServerStart port true (some fd) false listening ctx certificate key = (refl, refl)
tls_start-IsServerStart port true (some fd) true false ctx certificate key = (refl, refl)
tls_start-IsServerStart port true (some fd) true true none certificate key = (refl, refl)
tls_start-IsServerStart port true (some fd) true true (some ctx) false key = (refl, refl)
tls_start-IsServerStart port true (some fd) true true (some ctx) true false = (refl, refl)
tls_start-IsServerStart port true (some fd) true true (some ctx) true true =
    ((fd, ctx, refl, refl, refl, refl, refl, refl, refl, IsWithin-refl _), refl)

start_server-IsServerStart : (s : Server) (r : StartResults) → IsServerStart s r (start_server s r)
unfolding start_server
start_server-IsServerStart (tcp_server port) r =
    tcp_start-IsServerStart port r.address_found r.sockfd r.bound r.listening r.ctx
      r.certificate_loaded r.key_loaded
start_server-IsServerStart (tls_server port) r =
    tls_start-IsServerStart port r.address_found r.sockfd r.bound r.listening r.ctx
      r.certificate_loaded r.key_loaded

IsReady-IsWithin :
    (s : Server) (r : StartResults) {es fs : List Call}
    → IsReady s r es
    → ((gs : List Call) → IsWithin gs es → IsWithin gs fs)
    → IsReady s r fs
IsReady-IsWithin (tcp_server port) r (fd, a, b, c, d, within) grow = (fd, a, b, c, d, grow _ within)
IsReady-IsWithin (tls_server port) r (fd, ctx, a, b, c, d, e, f, g, within) grow =
    (fd, ctx, a, b, c, d, e, f, g, grow _ within)

start_ends-append : (es fs : List Call) → start_ends (es ++ fs) ≡ start_ends es + start_ends fs
start_ends-append [] fs = omega arith
start_ends-append (e ∷ es) fs = omega (arith, start_ends-append es fs)

-- Every server is ready, or the process exits with code 1 and some server has not come to the end of its Start.
abbrev pub AllReady : List (ServerUnit × StartResults) → List Call × Started Unit → Type 0
AllReady servers (calls, goes_on x) = All (λ p. IsReady p.0.server p.1 calls) servers
AllReady servers (calls, quick_exit n) = (n ≡ 1) × (start_ends calls < length servers)

-- Either every server is ready, or the process exits with code 1 and some server has not come to the end of its Start.
pub start_all-AllReady :
    (servers : List (ServerUnit × StartResults)) → AllReady servers (start_all servers)
unfolding start_all
start_all-AllReady [] = tt
start_all-AllReady ((u, r) ∷ servers) =
    ready_after (start_server u.server r) (start_server-IsServerStart u.server r)
      (start_all servers) (start_all-AllReady servers)
  where
    ready_after :
        (now : List Call × Started Unit)
        → IsServerStart u.server r now
        → (later : List Call × Started Unit) → AllReady servers later
        → AllReady ((u, r) ∷ servers) (now >>= λ started. later)
    ready_after (calls, quick_exit n) (code, few) later h = (code, omega arith)
    ready_after (calls, goes_on x) (ready, one) (after, quick_exit n) (code, few) =
        (code, omega (arith, start_ends-append calls after))
    ready_after (calls, goes_on x) (ready, one) (after, goes_on y) all = (
      IsReady-IsWithin u.server r ready (λ gs h. IsWithin-append after h),
      All-map (λ p h. IsReady-IsWithin p.0.server p.1 h (λ gs h'. leave_all calls h')) servers all,
    )
