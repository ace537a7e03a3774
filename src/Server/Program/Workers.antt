-- ===== src/Server/Program/Workers.antt =====
-- The workers of the program, all at once, with the file manager that `main` has not prepared.
use mathlib.Core.Path.{subst}
use simple_serv.Common.{
  ℕ, ◌<◌, ◌≡◌, ◌∙◌, refl, sym, ap, Option, some, [], ◌∷◌, ◌++◌, Bytes, get_elem?,
}
use simple_serv.Common.Dict.{lookup}
use simple_serv.Http.Status.{status_code_to_string}
use simple_serv.Common.Outcome.{Outcome, returns, throws, undefined, ◌>>=◌}
use simple_serv.Utility.FileSystem.{FileSystem}
use simple_serv.Utility.FileManager.{FileManager, get_file, cached_get_file, disk_get_file}
use simple_serv.Utility.StringParser.{value, unexpected, Expected}
use simple_serv.Http.Message.{HttpRequest, to_string}
use simple_serv.Http.Parser.{parse_http_request}
use simple_serv.Http.Handler.{handle, answer, prepare_response}
use simple_serv.Server.Connection.{HttpConnection, SocketEvent, sent, closed}
use simple_serv.Server.Pool.{AnswerSends, Pool, PoolReach, http_transport}
use simple_serv.Server.Pool.Runs.{IsPoolPaced}
use simple_serv.Server.Pool.Once.{count}
use simple_serv.Server.Pool.Records.{events_of}
use simple_serv.Server.Pool.Handled.{PoolReach-IsHandled}
use simple_serv.Server.Program.{Program, new_manager, initial, start}
use simple_serv.Server.Program.Managers.{
  start-handler_manager, new_manager-not_found, not_found_text,
}

-- What an outcome of the handler says of the file manager
abbrev IsNewAfter : Outcome (Option Bytes × FileManager) → Type 0
IsNewAfter (returns (o, m)) = m ≡ new_manager
IsNewAfter (throws e) = Unit
IsNewAfter undefined = Unit

answer-IsNewAfter :
    (fs : FileSystem) (o : Outcome (Expected HttpRequest))
    → IsNewAfter (o >>= answer fs new_manager)
unfolding prepare_response get_file cached_get_file disk_get_file lookup to_string
    status_code_to_string
answer-IsNewAfter fs (returns (value request)) = refl
answer-IsNewAfter fs (returns (unexpected e)) = refl
answer-IsNewAfter fs (throws e) = tt
answer-IsNewAfter fs undefined = tt

handle-IsNewAfter : (fs : FileSystem) (str : Bytes) → IsNewAfter (handle fs str new_manager)
unfolding handle
handle-IsNewAfter fs str = answer-IsNewAfter fs (parse_http_request str)

abbrev pub IsNew : FileManager → Type 0
IsNew m = m ≡ new_manager

pub handle-IsNew :
    (fs : FileSystem) (str : Bytes) (o : Option Bytes) (m m' : FileManager)
    → IsNew m
    → handle fs str m ≡ returns (o, m')
    → IsNew m'
handle-IsNew fs str o m m' is_new h =
    subst IsNewAfter (sym (ap (handle fs str) is_new) ∙ h) (handle-IsNewAfter fs str)

-- After the start of the program, in every paced run of n workers at the same time, a connection
-- that has been served and whose request parses has been sent exactly the text of status 404, and
-- has then been closed. Here a run is paced if each push begins with fewer than 99 elements
-- published from the head on, and fewer than 99 from the head on that any worker loaded which is
-- inside pop and has not yet copied its element; room in the ring alone is not enough.
pub workers-not_found :
    (compress : Bytes → ℕ → Option Bytes) (fuel : ℕ) (fs fs' : FileSystem) (p : Program) (n : ℕ)
    (arr : ℕ → HttpConnection) {q : Pool HttpConnection SocketEvent FileManager}
    (r : PoolReach http_transport (handle fs') n arr p.handler_manager q) (k : ℕ)
    (c : HttpConnection) (request : HttpRequest)
    → start compress fuel fs initial ≡ some (returns (p, fs'))
    → IsPoolPaced http_transport (handle fs') r
    → 0 < count k q.served
    → get_elem? q.system.pushed k ≡ some c
    → parse_http_request c.request ≡ returns (value request)
    → events_of k q.events ≡ sent c.client_fd not_found_text ∷ closed c.client_fd ∷ []
workers-not_found compress fuel fs fs' p n arr {q} r k c request started paced some_time there
      parsed =
    let (response, sends, (m, m', is_new, given), sent_so, all) =
      PoolReach-IsHandled http_transport (handle fs') IsNew n r k c (handle-IsNew fs')
        (start-handler_manager compress fuel fs fs' initial p started) paced some_time there in
    let handled : returns (some not_found_text, new_manager) ≡ returns (response, m') =
      sym (new_manager-not_found fs' c.request request parsed)
      ∙ ap (handle fs' c.request) (sym is_new)
      ∙ given in
    let same : some not_found_text ≡ response = cc handled in
    let answered : sends ≡ sent c.client_fd not_found_text ∷ [] =
      subst (λ o. AnswerSends http_transport (handle fs') c o sends) (sym same) sent_so in
    all ∙ ap (λ events. events ++ closed c.client_fd ∷ []) answered
