-- ===== src/Server/Pool/Alone.antt =====
-- A connection that a worker holds is held by no other worker, and has not been served.
use simple_serv.Common.{ℕ, ◌≤◌, ◌<◌, ◌≡◌, ◌≢◌, refl, arith}
use simple_serv.Common.Family.{total-counts, total_two}
use simple_serv.Server.Pool.{polling, Pool}
use simple_serv.Server.Pool.Once.{count, held_in_pop, held_in_job, one_below, IsConserving}

pub one_below-lt : (claims k : ℕ) → 0 < one_below claims k → k < claims
one_below-lt claims k h = ground (arith, h)

one_below-le : (claims k : ℕ) → one_below claims k ≤ 1
one_below-le claims k = ground arith

module _ {C E S : Type 0} (n : ℕ) (p : Pool C E S) (h : IsConserving n p) where
  -- What holds for the number of a connection that worker `i` handles
  pub held_alone :
      (i k : ℕ)
      → i < n
      → held_in_job k (p.jobs i) ≡ 1
      → (k < p.system.claims)
        × (count k p.served ≡ 0)
        × ((j : ℕ) → j < n → held_in_pop k (p.system.poppers j) ≡ 0)
        × ((j : ℕ) → j < n → i ≢ j → held_in_job k (p.jobs j) ≡ 0)
  held_alone i k lt holds =
      let counts = total-counts (held_in_job k) n p.jobs i lt in
      let few = one_below-le p.system.claims k in
      (
        one_below-lt p.system.claims k (omega (arith, h k, holds, counts)),
        omega (arith, h k, holds, counts, few),
        λ j also. omega (
          arith,
          h k,
          holds,
          counts,
          few,
          total-counts (held_in_pop k) n p.system.poppers j also,
        ),
        λ j also other. omega (
          arith,
          h k,
          holds,
          few,
          total_two (held_in_job k) n p.jobs i j polling lt also other refl,
        ),
      )
