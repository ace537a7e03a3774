-- ===== src/Cache/Dictionary.antt =====
-- The class `Cache` against a dictionary without bounds.
use simple_serv.Common.{
  ◌≡◌, ◌≢◌, refl, ap, ◌∙◌, arith, false, leb, length, Option, none, some, List, [], ◌∷◌, Bytes,
  str_eq, if◌then◌else◌,
}
use simple_serv.Common.Outcome.{Outcome, returns, undefined, ◌>>=◌}
use simple_serv.Cache.Stores.{Storage}
use simple_serv.Cache.{Cache, to_size, get, evict, put, remove, clear}

-- A call from outside
pub data Call (V : Type 0) : Type 0 where
  get_call remove_call : Bytes → Call V
  put_call : Bytes → V → Call V
  clear_call : Call V

module _ {V : Type 0} where
  -- The specification: the answers of the calls of `get`, for a function from keys
  abbrev pub answers : (Bytes → Option V) → List (Call V) → List (Option V)
  answers d [] = []
  answers d (get_call k ∷ calls) = d k ∷ answers d calls
  answers d (remove_call k ∷ calls) = answers (λ j. if str_eq k j then none else d j) calls
  answers d (put_call k v ∷ calls) = answers (λ j. if str_eq k j then some v else d j) calls
  answers d (clear_call ∷ calls) = answers (λ j. none) calls

module _ {V : Type 0} (storage : Storage V) where
  -- The answers of a cache; a call of `put` may be undefined.
  unfoldable pub run : List (Call V) → Cache storage → Outcome (List (Option V))
  unfolding get put remove clear
  run [] c = returns []
  run (get_call k ∷ calls) c =
      let (v, c') = get storage k c in run calls c' >>= λ rest. returns (v ∷ rest)
  run (remove_call k ∷ calls) c = run calls (remove storage k c)
  run (put_call k v ∷ calls) c = put storage k v c >>= run calls
  run (clear_call ∷ calls) c = run calls (clear storage c)

  run-view :
      (calls : List (Call V)) (c : Cache storage) (d : Bytes → Option V)
      → c.queue ≡ []
      → to_size c.capacity ≢ 0
      → ((j : Bytes) → storage.holds c.stored j ≡ d j)
      → run calls c ≡ returns (answers d calls)
  unfolding run get put remove clear evict
  run-view [] c d empty some_room view = refl
  run-view (get_call k ∷ calls) c d empty some_room view =
      let rest =
        run-view calls (get storage k c).1 d empty some_room
          (λ j. (storage.get_holds k j c.stored).1 ∙ view j) in
      rw (rest, (storage.get_holds k k c.stored).0, view k) refl
  run-view (remove_call k ∷ calls) c d empty some_room view =
      run-view calls (remove storage k c) _ empty some_room
        (λ j. storage.remove_holds k j c.stored ∙ ap (λ o. if str_eq k j then none else o) (view j))
  run-view (put_call k v ∷ calls) c d empty some_room view =
      let rest =
        run-view calls (record c { stored = storage.put k v c.stored }) _ empty some_room
          (λ j.
            storage.put_holds k j v c.stored
            ∙ ap (λ o. if str_eq k j then some v else o) (view j)) in
      let no_need : leb (to_size c.capacity) (length c.queue) ≡ false = rw empty (ground arith) in
      rw no_need rest
  run-view (clear_call ∷ calls) c d empty some_room view =
      run-view calls (clear storage c) _ refl some_room (λ j. storage.clear_holds j c.stored)

  -- Over any storage that keeps its laws, a cache with an empty queue and a capacity other than 0
  -- answers every sequence of calls as a dictionary without bounds does, and never evicts.
  pub run-answers :
      (calls : List (Call V)) (c : Cache storage)
      → c.queue ≡ []
      → to_size c.capacity ≢ 0
      → run calls c ≡ returns (answers (storage.holds c.stored) calls)
  run-answers calls c empty some_room = run-view calls c _ empty some_room (λ j. refl)

  abbrev pub HasPut : List (Call V) → Type 0
  HasPut [] = ⊥
  HasPut (get_call k ∷ calls) = HasPut calls
  HasPut (remove_call k ∷ calls) = HasPut calls
  HasPut (put_call k v ∷ calls) = Unit
  HasPut (clear_call ∷ calls) = HasPut calls

  -- Over any storage, a sequence of calls that has a put is undefined on a cache with an empty
  -- queue and capacity 0, since front() is called on the empty queue.
  pub run-undefined :
      (calls : List (Call V)) (c : Cache storage)
      → c.queue ≡ []
      → to_size c.capacity ≡ 0
      → HasPut calls
      → run calls c ≡ undefined
  unfolding run get put remove clear evict
  run-undefined [] c empty no_room h = elim h [ ]
  run-undefined (get_call k ∷ calls) c empty no_room h =
      rw (run-undefined calls (get storage k c).1 empty no_room h) refl
  run-undefined (remove_call k ∷ calls) c empty no_room h =
      run-undefined calls (remove storage k c) empty no_room h
  run-undefined (put_call k v ∷ calls) c empty no_room h = rw (no_room, empty) refl
  run-undefined (clear_call ∷ calls) c empty no_room h =
      run-undefined calls (clear storage c) refl no_room h
