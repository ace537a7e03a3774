-- ===== src/Cache.antt =====
-- include/simpleserv/cache.hpp, which no other file includes. Keys are strings here; `Cache` takes
-- its storage as a parameter, as the template does.
pub mod Stores
pub mod InMemory
pub mod Files
pub mod Dictionary
use simple_serv.Common.{
  ℕ, suc, ◌-◌, ◌^◌, Bool, true, false, Option, none, some, List, [], ◌∷◌, Bytes, leb, length,
  if◌then◌else◌,
}
use simple_serv.Common.Outcome.{Outcome, returns, undefined, ◌>>=◌}
use simple_serv.Cache.Stores.{Storage}

-- `int`
pub data ℤ : Type 0 where
  pos negsuc : ℕ → ℤ

-- The comparison with `size()` converts an `int` to `size_t`.
abbrev pub to_size : ℤ → ℕ
to_size (pos n) = n
to_size (negsuc n) = 2 ^ 64 - suc n

module _ {V : Type 0} (storage : Storage V) where
  open storage use {State}

  -- No constructor sets `capacity`, and nothing reads the lifetime.
  pub record Cache : Type 0 where
    pub queue : List Bytes
    pub stored : State
    pub capacity : ℤ
    pub default_lifetime : ℤ

  unfoldable pub get : Bytes → Cache → Option V × Cache
  get key c = let (v, stored) = storage.get key c.stored in (v, record c { stored = stored })

  unfoldable pub remove : Bytes → Cache → Cache
  remove key c = record c { stored = storage.remove key c.stored }

  -- `front()` of an empty queue
  unfoldable pub evict : Cache → Outcome Cache
  unfolding remove
  evict c = elim c.queue [
    | [] ↦ undefined
    | key ∷ queue ↦ returns (remove key (record c { queue = queue }))
  ]

  -- The key does not go into the queue.
  unfoldable pub put : Bytes → V → Cache → Outcome Cache
  unfolding evict
  put key value c =
      (if leb (to_size c.capacity) (length c.queue) then evict c else returns c) >>= λ c'.
      returns (record c' { stored = storage.put key value c'.stored })

  unfoldable pub clear : Cache → Cache
  clear c = record c { stored = storage.clear c.stored; queue = [] }
