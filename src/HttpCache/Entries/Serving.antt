-- ===== src/HttpCache/Entries/Serving.antt =====
-- What the middleware serves from what it stored.
use nimburion.Base.{
  ◌≡◌, refl, ◌∙◌, Text, codes, Bool, true, false, ◌&&◌, ◌||◌, Option, none, some, ℤ, pos, ◌+ℤ◌,
  ◌≤ℤ◌, ◌<ℤ◌, leb_ℤ, eq_text, eq_text_iff, trim_space, lookup-insert, if◌then◌else◌, arith,
}
use nimburion.Effect.{Result, ok}
use nimburion.CacheStore
use nimburion.CacheStore.{InMemoryItem, InMemoryStore}
use nimburion.Http.{to_upper, Headers}
use nimburion.HttpCache.{Config}
use nimburion.HttpCache.Keys.{Request, build_cache_key}
use nimburion.HttpCache.Entries.{
  CacheEntry, Response, fresh, Times, Flight, leading, stored_ttl, miss, entry_of,
  compute_and_store, load, serve_cached, serve_or_fly, handle,
}
use nimburion.HttpCache.Headers.{should_bypass, if_none_match_satisfied}

-- What is set is found until it expires.
set-get :
    (key raw : Text) (ttl set_at read_at : ℤ) (s : InMemoryStore)
    → pos 0 <ℤ ttl
    → read_at ≤ℤ set_at +ℤ ttl
    → CacheStore.get key read_at (CacheStore.set key raw ttl set_at s)
      ≡ (some raw, CacheStore.set key raw ttl set_at s)
unfolding CacheStore.get CacheStore.set
set-get key raw ttl set_at read_at s lasts before = ground (
  arith,
  lookup-insert key key
      (record {
        value = raw;
        expires_at = set_at +ℤ (if leb_ℤ ttl (pos 0) then pos 1_000_000_000 else ttl);
      })
      s.items,
  eq_text_iff key key,
)

module _ (digest sum : Text → Text) (seconds : ℤ → ℤ) (encode : CacheEntry → Option Text)
    (decode : Text → Option CacheEntry) where
  -- The request is looked up under the key.
  pub record IsCached (c : Config) (req : Request) (key : Text) : Type 0 where
    pub enabled : c.enabled && c.has_store ≡ true
    pub cacheable :
        eq_text (to_upper (trim_space req.method)) (codes "GET")
          || eq_text (to_upper (trim_space req.method)) (codes "HEAD")
        ≡ true
    pub looked_up : should_bypass c req ≡ false
    pub keyed : build_cache_key digest c req ≡ ok key

  handle-keyed :
      (c : Config) (req : Request) (key : Text) (h : Headers) (next : Headers → Result Response)
      (busy : Bool) (f : Flight) (now read_at : ℤ) (t : Times) (s : InMemoryStore)
      → IsCached c req key
      → handle digest sum seconds encode decode c req h next busy f now read_at t s
        ≡ serve_or_fly digest sum seconds encode decode c key req h next busy f t
            (load digest sum seconds encode decode c key now read_at s)
  unfolding handle
  handle-keyed c req key h next busy f now read_at t s v =
      ground (arith, v.enabled, v.cacheable, v.looked_up, v.keyed)

  load-stored :
      (c : Config) (key raw : Text) (e : CacheEntry) (now read_at : ℤ) (t : Times)
      (s : InMemoryStore)
      → decode raw ≡ some e
      → pos 0 <ℤ stored_ttl c
      → read_at ≤ℤ t.set_at +ℤ stored_ttl c
      → now ≤ℤ e.fresh_until
      → load digest sum seconds encode decode c key now read_at
          (CacheStore.set key raw (stored_ttl c) t.set_at s)
        ≡ (some (e, fresh), CacheStore.set key raw (stored_ttl c) t.set_at s)
  unfolding load
  load-stored c key raw e now read_at t s d lasts kept young =
      rw (set-get key raw (stored_ttl c) t.set_at read_at s lasts kept) (rw d (ground arith))

  compute-stores :
      (c : Config) (key raw : Text) (r : Response) (t : Times) (s : InMemoryStore)
      → r.status ≡ 200
      → encode (entry_of digest sum seconds encode decode c r t) ≡ some raw
      → (compute_and_store digest sum seconds encode decode c key (ok r) t s).1
        ≡ CacheStore.set key raw (stored_ttl c) t.set_at s
  unfolding compute_and_store
  compute-stores c key raw r t s st en = ground (arith, st, en)

  entry_of-fresh_until :
      (c : Config) (r : Response) (t : Times)
      → (entry_of digest sum seconds encode decode c r t).fresh_until ≡ t.fresh_at +ℤ c.ttl
  unfolding entry_of
  entry_of-fresh_until c r t = refl

  -- A request that misses and whose handler answers 200 is answered for the next ones: while the
  -- entry is fresh and the store keeps it, a request with the same key gets the entry of that answer,
  -- whatever its handler would do, and the store stays as it is.
  pub handle-hits :
      (c : Config) (x y : Request) (key raw : Text) (h g : Headers)
      (next other : Headers → Result Response) (busy crowded : Bool) (f : Flight)
      (now read_at later read_later : ℤ) (t u : Times) (s missed : InMemoryStore) (r : Response)
      → IsCached c x key
      → IsCached c y key
      → load digest sum seconds encode decode c key now read_at s ≡ (none, missed)
      → next (miss (codes "MISS") h) ≡ ok r
      → r.status ≡ 200
      → encode (entry_of digest sum seconds encode decode c r t) ≡ some raw
      → decode raw ≡ some (entry_of digest sum seconds encode decode c r t)
      → pos 0 <ℤ stored_ttl c
      → read_later ≤ℤ t.set_at +ℤ stored_ttl c
      → later ≤ℤ t.fresh_at +ℤ c.ttl
      → handle digest sum seconds encode decode c y g other crowded f later read_later u
          (handle digest sum seconds encode decode c x h next busy leading now read_at t s).1
        ≡ (
          ok (
              serve_cached digest sum seconds encode decode c y g
                (entry_of digest sum seconds encode decode c r t)
                (codes "HIT")),
          (handle digest sum seconds encode decode c x h next busy leading now read_at t s).1,
        )
  handle-hits c x y key raw h g next other busy crowded f now read_at later read_later t u s missed
        r vx vy miss_x answer st en de lasts kept young =
      let e = entry_of digest sum seconds encode decode c r t in
      let first = handle-keyed c x key h next busy leading now read_at t s vx in
      let stored : (handle digest sum seconds encode decode c x h next busy leading now read_at t
            s).1
          ≡ CacheStore.set key raw (stored_ttl c) t.set_at missed =
        rw first (rw miss_x (rw answer (compute-stores c key raw r t missed st en))) in
      rw stored (
        handle-keyed c y key g other crowded f later read_later u _ vy
        ∙ rw
            (load-stored c key raw e later read_later t missed de lasts kept
              (rw (entry_of-fresh_until c r t) young))
            refl)

  -- A client that asks by GET and has no copy gets the status and the body of the handler's answer.
  pub serve_cached-body :
      (c : Config) (req : Request) (h : Headers) (r : Response) (t : Times) (state : Text)
      → if_none_match_satisfied req (entry_of digest sum seconds encode decode c r t).etag ≡ false
      → eq_text (to_upper req.method) (codes "HEAD") ≡ false
      → ((serve_cached digest sum seconds encode decode c req h
            (entry_of digest sum seconds encode decode c r t)
            state).status
          ≡ r.status)
        × ((serve_cached digest sum seconds encode decode c req h
              (entry_of digest sum seconds encode decode c r t)
              state).body
            ≡ r.body)
  unfolding serve_cached entry_of
  serve_cached-body c req h r t state m n = (rw m refl, rw (m, n) refl)
