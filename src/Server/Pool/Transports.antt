-- ===== src/Server/Pool/Transports.antt =====
-- The two transports: what the workers of a TCP server cause is what `handle_connection` causes, and
-- both senders can send.
use simple_serv.Common.{
  ℕ, ◌<◌, ◌≡◌, refl, ap, ◌∙◌, sym, false, Option, none, some, List, [], ◌∷◌, ◌++◌, Bytes, get_elem?,
}
use simple_serv.Common.Outcome.{returns, ◌>>=◌}
use simple_serv.Server.Connection.{
  HttpConnection, SocketEvent, IHandler, send_msg, close_connection, send_response,
  handle_connection,
}
use simple_serv.Server.Tls
use simple_serv.Server.Tls.{HttpsConnection, TlsEvent}
use simple_serv.Server.Pool.{Pool, PoolReach, AnswerSends, http_transport, https_transport}
use simple_serv.Server.Pool.Runs.{IsPoolPaced}
use simple_serv.Server.Pool.Once.{count}
use simple_serv.Server.Pool.Records.{events_of, IsHandled}
use simple_serv.Server.Pool.Handled.{IsKept, PoolReach-IsHandled}

module _ {S : Type 0} (handler : IHandler S) where
  pub http-sends :
      (conn_obj : HttpConnection) (response : Option Bytes)
      → (events : List SocketEvent) × AnswerSends http_transport handler conn_obj response events
  http-sends conn_obj none = ([], refl)
  http-sends conn_obj (some response) = (send_msg conn_obj response, refl)

  https-sends :
      (conn_obj : HttpsConnection) (response : Option Bytes)
      → (events : List TlsEvent) × AnswerSends https_transport handler conn_obj response events
  unfolding Tls.send_msg
  https-sends conn_obj none = ([], refl)
  https-sends conn_obj (some response) = (_, (false ∷ [], refl))

  response-sent :
      (conn_obj : HttpConnection) (response : Option Bytes) (events : List SocketEvent)
      → AnswerSends http_transport handler conn_obj response events
      → events ≡ send_response handler conn_obj response
  response-sent conn_obj none events e = e
  response-sent conn_obj (some response) events e = e

  -- The events of a connection are those of a call of `handle_connection`.
  IsHandled-handle_connection :
      (Keeps : S → Type 0) (conn_obj : HttpConnection) (events : List SocketEvent)
      → IsHandled http_transport handler Keeps conn_obj events
      → (s : S) × (s' : S) × Keeps s × (handle_connection handler conn_obj s ≡ returns (events, s'))
  unfolding handle_connection
  IsHandled-handle_connection Keeps conn_obj events
        (response, sends, (s, s', keeps, given), sent_so, all) =
      (
        s,
        s',
        keeps,
        ap
              (λ o. o >>= λ (response, s').
                returns (send_response handler conn_obj response ++ close_connection conn_obj, s'))
              given
            ∙ ap (λ es. returns (es, s'))
                (ap (λ es. es ++ close_connection conn_obj)
                    (sym (response-sent conn_obj response sends sent_so))
                  ∙ sym all),
      )

  -- In every paced run of the accepting thread and n workers of a TCP server, if the handler stays
  -- in a class of states, the events of a connection that has been served are those of one call of
  -- handle_connection for it in one of these states, whatever the other workers do meanwhile. Here
  -- a run is paced if each push begins with fewer than 99 elements published from the head on, and
  -- fewer than 99 from the head on that any worker loaded which is inside pop and has not yet
  -- copied its element; room in the ring alone is not enough.
  pub PoolReach-handle_connection :
      (Keeps : S → Type 0) (n : ℕ) {arr : ℕ → HttpConnection} {state : S}
      {p : Pool HttpConnection SocketEvent S} (r : PoolReach http_transport handler n arr state p)
      (k : ℕ) (conn_obj : HttpConnection)
      → IsKept http_transport handler Keeps n
      → Keeps state
      → IsPoolPaced http_transport handler r
      → 0 < count k p.served
      → get_elem? p.system.pushed k ≡ some conn_obj
      → (s : S) × (s' : S) × Keeps s
        × (handle_connection handler conn_obj s ≡ returns (events_of k p.events, s'))
  PoolReach-handle_connection Keeps n {p = p} r k conn_obj kept keeps paced some_time there =
      IsHandled-handle_connection Keeps conn_obj (events_of k p.events) (
        PoolReach-IsHandled http_transport handler Keeps n r k conn_obj kept keeps paced some_time
          there)
