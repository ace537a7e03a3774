-- ===== src/Tests/Pool.antt =====
-- A run of two workers: one serves a connection, and the other is overtaken.
use simple_serv.Common.Outcome.{returns}
use simple_serv.Common.{
  some, get_elem?, sym, ap, ◌∙◌, zero, suc, some_inj, Option, Bytes, ℕ, ◌+◌, ◌<◌, ◌≡◌, refl, arith,
  [], ◌∷◌,
}
use simple_serv.Utility.LockFreeQueue.{next}
use simple_serv.Utility.LockFreeQueue.Steps.{PushStep, PopStep, PopPc}
use simple_serv.Utility.LockFreeQueue.Steps.Pace.{HasRoom}
use simple_serv.Utility.FileManager.{FileManager}
use simple_serv.Http.Handler.{handle}
use simple_serv.Server.Connection.{
  HttpConnection, SocketEvent, sent, closed, handle_connection, queue_capacity,
}
use simple_serv.Server.Pool.{
  Pool, polling, WorkerStep, PoolReach, accept_step, worker_step, http_transport,
}
use simple_serv.Server.Pool.Runs.{IsPoolPaced}
use simple_serv.Server.Program.{new_manager}
use simple_serv.Server.Program.Managers.{not_found_text, new_manager-not_found}
use simple_serv.Server.Pool.Continuing.{Continues}
use simple_serv.Server.Pool.Settling.{CanServe}
use simple_serv.Server.Pool.Progress.{PoolReach-can_drain}
use simple_serv.Server.Pool.Once.{one_below, count, holders, PoolReach-IsConserving}
use simple_serv.Server.Pool.Records.{events_of, IsHandled}
use simple_serv.Server.Pool.Transports.{http-sends, PoolReach-handle_connection}
use simple_serv.Server.Pool.Drained.{PoolReach-drained}
use simple_serv.Server.Program.Workers.{IsNew, handle-IsNew, workers-not_found}
use simple_serv.Tests.Program.{no_compression, started_program, site_started}
use simple_serv.Tests.Site.{site}
use simple_serv.Tests.Http.{parsed_page}
use simple_serv.Tests.Server.{page_connection}

next-first : next queue_capacity 0 ≡ 1
unfolding next
next-first = refl

abbrev ReachesHere : Pool HttpConnection SocketEvent FileManager → Type 0
ReachesHere p = PoolReach http_transport (handle site) 2 (λ i. page_connection) new_manager p

abbrev accepted : (p : Pool HttpConnection SocketEvent FileManager) × ReachesHere p
accepted = (
  _,
  PoolReach.later
      (PoolReach.later
        (PoolReach.later
          (PoolReach.later PoolReach.start (accept_step (PushStep.load page_connection)))
          (accept_step PushStep.write))
        (accept_step PushStep.publish))
      (accept_step PushStep.count),
)

abbrev both_loaded : (p : Pool HttpConnection SocketEvent FileManager) × ReachesHere p
both_loaded = (
  _,
  PoolReach.later
      (PoolReach.later
        (PoolReach.later
          (PoolReach.later accepted.1 (worker_step 0 (omega arith) (WorkerStep.poll PopStep.load)))
          (worker_step 1 (omega arith) (WorkerStep.poll PopStep.load)))
        (worker_step 0 (omega arith)
          (WorkerStep.poll (PopStep.see_element (λ e. omega (arith, e, next-first))))))
      (worker_step 1 (omega arith)
        (WorkerStep.poll (PopStep.see_element (λ e. omega (arith, e, next-first))))),
)

-- The first worker claims the connection, and the exchange of the second fails.
abbrev popped : (p : Pool HttpConnection SocketEvent FileManager) × ReachesHere p
popped = (
  _,
  PoolReach.later
      (PoolReach.later
        (PoolReach.later
          (PoolReach.later both_loaded.1
            (worker_step 0 (omega arith) (WorkerStep.poll (PopStep.claim refl))))
          (worker_step 1 (omega arith) (WorkerStep.poll PopStep.fail)))
        (worker_step 0 (omega arith) (WorkerStep.poll PopStep.copy)))
      (worker_step 0 (omega arith) (WorkerStep.poll PopStep.discount)),
)

abbrev handled : (p : Pool HttpConnection SocketEvent FileManager) × ReachesHere p
handled = (
  _,
  PoolReach.later
      (PoolReach.later
        (PoolReach.later popped.1 (
          worker_step 0 (omega arith)
            (WorkerStep.handle (new_manager-not_found site page_connection.request _ parsed_page))))
        (worker_step 0 (omega arith) (WorkerStep.answer (sent 5 not_found_text ∷ []) refl)))
      (worker_step 0 (omega arith) WorkerStep.close),
)

first-HasRoom : HasRoom {T = HttpConnection} queue_capacity 0 0 (λ _. PopPc.idle)
first-HasRoom = record { behind_head = omega arith; behind_poppers = λ i. tt }

popped-IsPoolPaced : IsPoolPaced http_transport (handle site) popped.1
popped-IsPoolPaced =
    ((((((((((((tt, first-HasRoom), tt), tt), tt), tt), tt), tt), tt), tt), tt), tt), tt)

PoolReach-IsConserving_example : count 0 popped.0.served + holders 2 popped.0 0 ≡ 1
PoolReach-IsConserving_example =
    PoolReach-IsConserving http_transport (handle site) 2 popped.1 popped-IsPoolPaced 0

PoolReach-handle_connection_example :
    (m : FileManager) × (m' : FileManager) × IsNew m
    × (handle_connection (handle site) page_connection m
        ≡ returns (sent 5 not_found_text ∷ closed 5 ∷ [], m'))
PoolReach-handle_connection_example =
    PoolReach-handle_connection (handle site) IsNew 2 handled.1 0 page_connection
      (handle-IsNew site) refl popped-IsPoolPaced (omega arith) refl

handled-idle : (i : ℕ) → i < 2 → handled.0.system.poppers i ≡ PopPc.idle
handled-idle i lt = ground arith

handled-polling : (i : ℕ) → i < 2 → handled.0.jobs i ≡ polling
handled-polling i lt = ground arith

PoolReach-drained_example :
    (count 0 handled.0.served ≡ 1)
    × IsHandled http_transport
        (handle site)
        IsNew
        page_connection
        (sent 5 not_found_text ∷ closed 5 ∷ [])
PoolReach-drained_example =
    PoolReach-drained http_transport (handle site) 2 IsNew handled.1 0 page_connection
      (handle-IsNew site) refl popped-IsPoolPaced refl handled-idle handled-polling refl

workers-not_found_example : events_of 0 handled.0.events ≡ sent 5 not_found_text ∷ closed 5 ∷ []
workers-not_found_example =
    workers-not_found no_compression 1 site site started_program 2 (λ i. page_connection) handled.1
      0 page_connection _ site_started popped-IsPoolPaced (omega arith) refl parsed_page

both_loaded-IsPoolPaced : IsPoolPaced http_transport (handle site) both_loaded.1
both_loaded-IsPoolPaced = popped-IsPoolPaced.0.0.0.0

page-CanServe : CanServe http_transport (handle site) IsNew both_loaded.0.system.pushed
page-CanServe = record { responds = responds; sends = http-sends (handle site) }
  where
    responds :
        (k : ℕ) (conn_obj : HttpConnection) (m : FileManager)
        → get_elem? (page_connection ∷ []) k ≡ some conn_obj
        → IsNew m
        → (response : Option Bytes) × (m' : FileManager) × (handle site conn_obj.request m
            ≡ returns (response, m'))
    responds zero conn_obj m there is_new =
        let same : page_connection ≡ conn_obj = some_inj.0 there in
        (
          some not_found_text,
          new_manager,
          ap (λ c. handle site (http_transport.request c) m) (sym same)
              ∙ ap (handle site page_connection.request) is_new
              ∙ new_manager-not_found site page_connection.request _ parsed_page,
        )
    responds (suc k) conn_obj m there is_new = cc there

PoolReach-can_drain_example :
    (q : Pool HttpConnection SocketEvent FileManager) × Continues http_transport
      (handle site)
      2
      both_loaded.0
      q
    × (q.system.pushed ≡ page_connection ∷ [])
    × ((k : ℕ) → count k q.served ≡ one_below 1 k)
PoolReach-can_drain_example =
    PoolReach-can_drain http_transport (handle site) IsNew 2 (λ i. page_connection) new_manager
      (handle-IsNew site) refl both_loaded.0 both_loaded.1 both_loaded-IsPoolPaced (omega arith)
      page-CanServe
