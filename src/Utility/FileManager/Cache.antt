-- ===== src/Utility/FileManager/Cache.antt =====
-- The cache in front of a fetcher: `CacheFileFetcher` against the fetcher that it hides.
use simple_serv.Common.{
  ◌≡◌, refl, sym, some, Option-cases, inl, inr, arith, Bytes, str_eq_iff, str_eq_refl, [],
}
use simple_serv.Common.Dict.{Dict, lookup, insert, lookup-insert}
use simple_serv.Utility.FileManager.{
  Fetched, value, unexpected, CacheEntry, create_file_cache_entry, fill, cached_get_file,
}

module _ {T E : Type 0} where
  -- Each entry holds what the fetcher returns for its path.
  pub record IsCoherent (fetch : Bytes → Fetched T E) (cache : Dict (CacheEntry T)) : Type 0 where
    pub at :
        (path : Bytes) (e : CacheEntry T) → lookup path cache ≡ some e → fetch path ≡ value e.val

  pub IsCoherent-nil : (fetch : Bytes → Fetched T E) → IsCoherent fetch []
  unfolding lookup
  IsCoherent-nil fetch = record { at = λ path e h. cc }

  IsCoherent-insert :
      (fetch : Bytes → Fetched T E) (path : Bytes) (x : T) (cache : Dict (CacheEntry T))
      → fetch path ≡ value x
      → IsCoherent fetch cache
      → IsCoherent fetch (insert path (create_file_cache_entry path x) cache)
  IsCoherent-insert fetch path x cache fx h = record {
    at = λ q e found. ground (
      arith,
      h.at q e,
      lookup-insert path q (create_file_cache_entry path x) cache,
      str_eq_iff path q,
    );
  }

  -- With a coherent cache in front, the answer is the one of the fetcher behind it, and the cache
  -- stays coherent.
  pub cached_get_file-IsCoherent :
      (fetch : Bytes → Fetched T E) (path : Bytes) (cache : Dict (CacheEntry T))
      → IsCoherent fetch cache
      → ((cached_get_file fetch path cache).0 ≡ fetch path)
        × IsCoherent fetch (cached_get_file fetch path cache).1
  unfolding cached_get_file
  cached_get_file-IsCoherent fetch path cache h = elim (Option-cases (lookup path cache)) [
    | inr (e, hit) ↦ rw hit (sym (h.at path e hit), h)
    | inl miss ↦ rw miss (filled (fetch path) refl)
  ]
    where
      filled :
          (r : Fetched T E)
          → fetch path ≡ r
          → ((fill fetch path r cache).0 ≡ r) × IsCoherent fetch (fill fetch path r cache).1
      filled (value x) e = (refl, IsCoherent-insert fetch path x cache e h)
      filled (unexpected x) e = (refl, h)

  -- A path that was answered with a value once is answered with that value by the next call, which
  -- leaves the cache alone, whatever fetcher then stands behind it.
  cached_get_file_again :
      (f g : Bytes → Fetched T E) (path : Bytes) (cache : Dict (CacheEntry T)) {x : T}
      → (cached_get_file f path cache).0 ≡ value x
      → cached_get_file g path (cached_get_file f path cache).1
        ≡ (value x, (cached_get_file f path cache).1)
  unfolding cached_get_file
  cached_get_file_again f g path cache {x} h =
      ground
        (arith, str_eq_refl path, lookup-insert path path (create_file_cache_entry path x) cache)

  -- A call that returns an error leaves the cache as it was.
  pub cached_get_file-unexpected :
      (f : Bytes → Fetched T E) (path : Bytes) (cache : Dict (CacheEntry T)) {e : E}
      → (cached_get_file f path cache).0 ≡ unexpected e
      → (cached_get_file f path cache).1 ≡ cache
  unfolding cached_get_file
  cached_get_file-unexpected f path cache h = ground arith
