-- ===== src/Server/Pool/Drained.antt =====
-- The pool at rest: the ring is empty and no worker holds a connection.
use simple_serv.Common.{ℕ, ◌<◌, ◌≡◌, sym, ap, ◌∙◌, arith, length, some, get_elem?, get_elem?-lt}
use simple_serv.Common.Family.{total-zero}
use simple_serv.Utility.LockFreeQueue.Steps.{PopPc}
use simple_serv.Utility.LockFreeQueue.Steps.Numbers.{window}
use simple_serv.Server.Connection.{IHandler, queue_capacity}
use simple_serv.Server.Pool.{Transport, polling, Pool, PoolReach}
use simple_serv.Server.Pool.Runs.{IsPoolPaced, PoolReach-IsDelivering}
use simple_serv.Server.Pool.Once.{
  one_below, count, held_in_pop, held_in_job, PoolReach-IsConserving,
}
use simple_serv.Server.Pool.Records.{events_of, IsHandled}
use simple_serv.Server.Pool.Handled.{IsKept, PoolReach-IsHandled}

one_below-one : (claims k : ℕ) → k < claims → one_below claims k ≡ 1
one_below-one claims k lt = ground (arith, lt)

module _ {C E S : Type 0} (transport : Transport C E) (handler : IHandler S) (n : ℕ) where
  -- Each connection that has been published has been served once, and no other number occurs.
  pub drained-count :
      {arr : ℕ → C} {state : S} {p : Pool C E S} (r : PoolReach transport handler n arr state p)
      → IsPoolPaced transport handler r
      → p.system.queue.head ≡ p.system.queue.tail
      → ((i : ℕ) → i < n → p.system.poppers i ≡ PopPc.idle)
      → ((i : ℕ) → i < n → p.jobs i ≡ polling)
      → (k : ℕ) → count k p.served ≡ one_below (length p.system.pushed) k
  drained-count {p} r paced same idle resting k =
      let h = PoolReach-IsDelivering transport handler r paced in
      let all_claimed : p.system.claims ≡ length p.system.pushed =
        window queue_capacity p.system.claims (length p.system.pushed) h.claimed_le h.room
          (sym h.numbered.head_is ∙ same ∙ h.numbered.tail_is) in
      omega (
        arith,
        PoolReach-IsConserving transport handler n r paced k,
        total-zero (held_in_pop k) n p.system.poppers (λ i lt. ap (held_in_pop k) (idle i lt)),
        total-zero (held_in_job k) n p.jobs (λ i lt. ap (held_in_job k) (resting i lt)),
        ap (λ c. one_below c k) all_claimed,
      )

  -- In every paced run of the accepting thread and n workers, if the handler stays in a class of
  -- states, then at rest, with the ring empty and every worker polling with nothing in hand, each
  -- accepted connection has been served exactly once, and its events are what the sender may cause
  -- for the response that the handler gave in one of these states, followed by the closing. Here a
  -- run is paced if each push begins with fewer than 99 elements published from the head on, and
  -- fewer than 99 from the head on that any worker loaded which is inside pop and has not yet
  -- copied its element; room in the ring alone is not enough.
  pub PoolReach-drained :
      (Keeps : S → Type 0) {arr : ℕ → C} {state : S} {p : Pool C E S}
      (r : PoolReach transport handler n arr state p) (k : ℕ) (conn_obj : C)
      → IsKept transport handler Keeps n
      → Keeps state
      → IsPoolPaced transport handler r
      → p.system.queue.head ≡ p.system.queue.tail
      → ((i : ℕ) → i < n → p.system.poppers i ≡ PopPc.idle)
      → ((i : ℕ) → i < n → p.jobs i ≡ polling)
      → get_elem? p.system.pushed k ≡ some conn_obj
      → (count k p.served ≡ 1) × IsHandled transport handler Keeps conn_obj (events_of k p.events)
  PoolReach-drained Keeps {p = p} r k conn_obj kept keeps paced same idle resting there =
      let once : count k p.served ≡ 1 =
        drained-count r paced same idle resting k
        ∙ one_below-one (length p.system.pushed) k (get_elem?-lt p.system.pushed k there) in
      (
        once,
        PoolReach-IsHandled transport handler Keeps n r k conn_obj kept keeps paced
            (omega (arith, once)) there,
      )
