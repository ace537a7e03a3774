-- ===== src/Cache/InMemory.antt =====
-- `InMemoryStore` of include/simpleserv/cache.hpp: an `std::unordered_map` as a storage.
use simple_serv.Common.{◌≡◌, refl, Option, none, some, [], Bytes, str_eq, if◌then◌else◌}
use simple_serv.Common.Dict.{Dict, lookup, insert, erase, lookup-insert, lookup-erase}
use simple_serv.Cache.Stores.{Storage}

module _ {V : Type 0} where
  unfoldable pub get : Bytes → Dict V → Option V × Dict V
  get key store = (lookup key store, store)

  unfoldable pub put : Bytes → V → Dict V → Dict V
  put key value store = insert key value store

  unfoldable pub remove : Bytes → Dict V → Dict V
  remove key store = erase key store

  unfoldable pub clear : Dict V → Dict V
  clear store = []

  pub get_holds :
      (k j : Bytes) (s : Dict V) → ((get k s).0 ≡ lookup k s) × (lookup j (get k s).1 ≡ lookup j s)
  unfolding get
  get_holds k j s = (refl, refl)

  pub put_holds :
      (k j : Bytes) (v : V) (s : Dict V)
      → lookup j (put k v s) ≡ (if str_eq k j then some v else lookup j s)
  unfolding put
  put_holds k j v s = lookup-insert k j v s

  pub remove_holds :
      (k j : Bytes) (s : Dict V) → lookup j (remove k s) ≡ (if str_eq k j then none else lookup j s)
  unfolding remove
  remove_holds k j s = lookup-erase k j s

  pub clear_holds : (j : Bytes) (s : Dict V) → lookup j (clear s) ≡ none
  unfolding clear lookup
  clear_holds j s = refl

  -- The laws hold for the map.
  abbrev pub in_memory : Storage V
  in_memory = record {
    State = Dict V;
    get = get;
    put = put;
    remove = remove;
    clear = clear;
    holds = λ s k. lookup k s;
    get_holds = get_holds;
    put_holds = put_holds;
    remove_holds = remove_holds;
    clear_holds = clear_holds;
  }
