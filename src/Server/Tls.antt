-- ===== src/Server/Tls.antt =====
-- include/simpleserv/request_processing/tls_connection.hpp and
-- include/simpleserv/server/tls_server.hpp: the accept loop of the TLS server. What the calls of
-- the TLS library return is an argument; a session is a number.
pub mod Requests
use simple_serv.Common.{
  ℕ, ◌-◌, Bool, true, false, Option, none, some, List, [], ◌∷◌, ◌++◌, Bytes, take, if◌then◌else◌,
}
use simple_serv.Utility.LockFreeQueue.{LockFreeQueue, push}
use simple_serv.Server.Connection.{queue_capacity}
use simple_serv.Server.Accept.{
  after_round, maxbuflen, c_string, Received, waiting, broken, bytes, LoopEnd, open_, stopped,
  receive_failed, receiving,
}

-- The session is the pointer `ssl`, `none` if it could not be made.
pub record HttpsConnection : Type 0 where
  pub client_fd : ℕ
  pub ssl : Option ℕ
  pub request : Bytes

pub data TlsEvent : Type 0 where
  wrote : Option ℕ → Bytes → TlsEvent
  closed : ℕ → TlsEvent
  shut_down freed : Option ℕ → TlsEvent

-- `SendMsg`: the list says after which writes the library asks for another; `none` if it still
-- does at the end of the list.
abbrev pub add_event : TlsEvent → Option (List TlsEvent) → Option (List TlsEvent)
add_event e none = none
add_event e (some es) = some (e ∷ es)

unfoldable pub send_msg : HttpsConnection → Bytes → List Bool → Option (List TlsEvent)
send_msg conn_obj response [] = none
send_msg conn_obj response (want_write ∷ more) =
    let later = send_msg conn_obj response more in
    let event = wrote conn_obj.ssl response in
    if want_write then add_event event later else some (event ∷ [])

abbrev pub close_connection : HttpsConnection → List TlsEvent
close_connection conn_obj =
    closed conn_obj.client_fd ∷ shut_down conn_obj.ssl ∷ freed conn_obj.ssl ∷ []

-- A result of `wolfSSL_read`: a negative number, or the bytes at hand.
pub data ReadResult : Type 0 where
  failed : ReadResult
  arrived : Bytes → ReadResult

-- One round: the stop token, the descriptor and `errno` of `accept4`, the new session, and for each
-- read its result with whether `wolfSSL_get_error` then says WANT_READ. What `wolfSSL_accept`
-- returns is only handed to `wolfSSL_get_error`.
pub record TlsArrival : Type 0 where
  pub stop_requested : Bool
  pub accepted : Option ℕ
  pub errno_eagain : Bool
  pub session : Option ℕ
  pub reads : List (ReadResult × Bool)

pub record TlsState : Type 0 where
  pub client_fd : Option ℕ
  pub ssl : Option ℕ
  pub queue : LockFreeQueue HttpsConnection

-- The last read counts. It writes at most as many bytes as it is asked for.
abbrev last_read : ReadResult → Received
last_read failed = broken
last_read (arrived text) = bytes (take (maxbuflen - 1) text)

unfoldable pub read_request : List (ReadResult × Bool) → Received
read_request [] = waiting
read_request ((r, want_read) ∷ reads) =
    let later = read_request reads in if want_read then later else last_read r

abbrev pub finish_read : ℕ → Option ℕ → Received → TlsState → LoopEnd × TlsState
finish_read fd session waiting s = (receiving, s)
finish_read fd session broken s = (receive_failed, s)
finish_read fd session (bytes buf) s =
    let conn_obj : HttpsConnection = record {
      client_fd = fd;
      ssl = session;
      request = c_string buf;
    } in
    (open_, record s { queue = (push queue_capacity conn_obj s.queue).1 })

abbrev pub take_connection : Option ℕ → TlsArrival → TlsState → LoopEnd × TlsState
take_connection none a s = (open_, s)
take_connection (some fd) a s =
    if a.errno_eagain
    then (open_, s)
    else finish_read fd a.session (read_request a.reads) (record s { ssl = a.session })

unfoldable pub accept_round : TlsArrival → TlsState → LoopEnd × TlsState
unfolding read_request c_string push
accept_round a s =
    if a.stop_requested
    then (stopped, s)
    else take_connection a.accepted a (record s { client_fd = a.accepted })

unfoldable pub accept_incoming : List TlsArrival → TlsState → LoopEnd × TlsState
unfolding accept_round
accept_incoming [] s = (open_, s)
accept_incoming (a ∷ arrivals) s = after_round (accept_round a s) (accept_incoming arrivals)
