-- ===== src/Cache/Stores.antt =====
-- What the class `Cache` of include/simpleserv/cache.hpp takes as its storage: its operations,
-- and what they promise.
use simple_serv.Common.{◌≡◌, Option, none, some, Bytes, str_eq, if◌then◌else◌}

-- `holds` is the view of the storage as a function from keys.
pub record Storage (V : Type 0) : Type 1 where
  pub State : Type 0
  pub get : Bytes → State → Option V × State
  pub put : Bytes → V → State → State
  pub remove : Bytes → State → State
  pub clear : State → State
  pub holds : State → Bytes → Option V
  pub get_holds :
      (k j : Bytes) (s : State) → ((get k s).0 ≡ holds s k) × (holds (get k s).1 j ≡ holds s j)
  pub put_holds :
      (k j : Bytes) (v : V) (s : State)
      → holds (put k v s) j ≡ (if str_eq k j then some v else holds s j)
  pub remove_holds :
      (k j : Bytes) (s : State) → holds (remove k s) j ≡ (if str_eq k j then none else holds s j)
  pub clear_holds : (j : Bytes) (s : State) → holds (clear s) j ≡ none
