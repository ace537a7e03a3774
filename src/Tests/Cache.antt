-- ===== src/Tests/Cache.antt =====
-- Examples for include/simpleserv/cache.hpp.
use simple_serv.Common.{
  ℕ, ◌≡◌, refl, arith, true, false, none, some, List, [], ◌∷◌, Bytes, codes, str_eq, if◌then◌else◌,
}
use simple_serv.Common.Dict.{lookup}
use simple_serv.Common.Outcome.{returns, undefined}
use simple_serv.Utility.FileSystem.{FileSystem}
use simple_serv.Cache.{ℤ, pos, negsuc, Cache}
use simple_serv.Cache.InMemory.{in_memory}
use simple_serv.Cache.Files.{FileStore, digits, get, put}
use simple_serv.Cache.Files.Numbering.{IsNumbered, put-get}
use simple_serv.Cache.Dictionary.{
  Call, get_call, put_call, remove_call, clear_call, run, run-answers, run-undefined,
}

-- A cache in memory for numbers, of the given capacity
abbrev fresh : ℤ → Cache (in_memory {V = ℕ})
fresh capacity = record { queue = []; stored = []; capacity = capacity; default_lifetime = pos 0 }

abbrev key : Bytes
key = codes "k"

abbrev other : Bytes
other = codes "l"

-- Two keys fit into a cache of capacity 1.
abbrev two_puts : List (Call ℕ)
two_puts =
    put_call key 1
    ∷ put_call other 2
    ∷ get_call key
    ∷ remove_call key
    ∷ get_call key
    ∷ get_call other
    ∷ clear_call
    ∷ get_call other
    ∷ []

run-answers_example :
    run in_memory two_puts (fresh (pos 1)) ≡ returns (some 1 ∷ none ∷ some 2 ∷ none ∷ [])
unfolding str_eq lookup
run-answers_example = run-answers in_memory two_puts (fresh (pos 1)) refl (λ e. omega (arith, e))

-- A negative capacity is a large one.
negative_capacity :
    run in_memory two_puts (fresh (negsuc 0)) ≡ returns (some 1 ∷ none ∷ some 2 ∷ none ∷ [])
unfolding str_eq lookup
negative_capacity = run-answers in_memory two_puts (fresh (negsuc 0)) refl (λ e. omega (arith, e))

run-undefined_example : run in_memory (get_call key ∷ two_puts) (fresh (pos 0)) ≡ undefined
run-undefined_example =
    run-undefined in_memory (get_call key ∷ two_puts) (fresh (pos 0)) refl refl tt

abbrev disk : FileSystem
disk = record {
  listing = λ _. none;
  content = λ _. none;
  is_present = λ _. false;
  writable = λ _. true;
}

abbrev file_store : FileStore
file_store = record { id = 12; index = []; path = codes "cache/" }

file_store-IsNumbered : IsNumbered file_store
unfolding lookup
file_store-IsNumbered = record { names = λ k name e. cc e }

digits_12 : digits 10 12 ≡ codes "12"
unfolding digits
digits_12 = refl

put-get_example :
    (s' : FileStore) × (fs' : FileSystem) × (put disk key (codes "v") file_store
      ≡ returns (s', fs'))
    × IsNumbered s'
    × ((j : Bytes)
        → (get fs' j s').0 ≡ (if str_eq key j then some (codes "v") else (get disk j file_store).0))
put-get_example = put-get disk file_store key (codes "v") file_store-IsNumbered (omega arith) refl
