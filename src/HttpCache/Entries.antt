-- ===== src/HttpCache/Entries.antt =====
-- pkg/http/cache/cache.go: the entries that the middleware loads, computes and serves from the
-- in-process store of pkg/cache, and the handling of a request. Parameters: the JSON form of an
-- entry, the hexadecimal SHA-256 digest of a body, and int(d.Seconds()), which goes by a float64.
pub mod Serving
use nimburion.Base.{
  wrap_64, split_on, ℕ, ◌+◌, Text, codes, List, [], ◌∷◌, ◌++◌, Bool, true, false, not, ◌&&◌, ◌||◌,
  Option, none, some, ℤ, pos, ◌+ℤ◌, ltb_ℤ, leb_ℤ, ◌==◌, eq_text, any, is_empty, if◌then◌else◌,
  trim_space, lookup, insert, remove, show_ℤ,
}
use nimburion.Errors.{Err}
use nimburion.Effect.{Result, ok, err}
use nimburion.Policy.{join, to_lower}
use nimburion.CacheStore
use nimburion.CacheStore.{InMemoryStore}
use nimburion.Http.{Headers, get_header, set_header, has_text, to_upper}
use nimburion.HttpCache.{Config}
use nimburion.HttpCache.Headers.{should_bypass, if_none_match_satisfied, apply_vary, filter_headers}
use nimburion.HttpCache.Keys.{Request, Claims, build_cache_key}

pub record CacheEntry : Type 0 where
  pub status_code : ℕ
  pub headers : Headers
  pub body : Text
  pub etag : Text
  pub fresh_until : ℤ
  pub stale_until : ℤ

-- What the client gets.
pub record Response : Type 0 where
  pub status : ℕ
  pub headers : Headers
  pub body : Text

pub data EntryState : Type 0 where
  fresh stale : EntryState

-- The times that one computation reads: for the two limits of the entry, and in the store.
pub record Times : Type 0 where
  pub fresh_at : ℤ
  pub stale_at : ℤ
  pub set_at : ℤ

abbrev stored_ttl : Config → ℤ
stored_ttl c =
    let ttl = wrap_64 (c.ttl +ℤ c.stale_while_revalidate) in
    if leb_ℤ ttl (pos 0) then c.ttl else ttl

-- What a call of Do does: its function, or the outcome of the call it waits for.
pub data Flight : Type 0 where
  leading : Flight
  joining : Result (Option CacheEntry) → Flight

abbrev miss : Text → Headers → Headers
miss state h = set_header (codes "X-Cache") state h

module _ (digest sum : Text → Text) (seconds : ℤ → ℤ) (encode : CacheEntry → Option Text)
    (decode : Text → Option CacheEntry) where
  unfoldable pub compute_etag : Text → Text
  compute_etag body = codes "W/\"" ++ (sum body ++ codes "\"")

  abbrev at_least_zero : ℤ → ℤ
  at_least_zero n = if ltb_ℤ n (pos 0) then pos 0 else n

  unfoldable pub build_cache_control : Config → Text
  unfolding join show_ℤ
  build_cache_control c =
      let scope = if c.public then codes "public" else codes "private" in
      let age = codes "max-age=" ++ show_ℤ (at_least_zero (seconds c.ttl)) in
      let stale = codes "stale-while-revalidate=" ++ show_ℤ (seconds c.stale_while_revalidate) in
      join (codes ", ")
        (scope ∷ age ∷ (if ltb_ℤ (pos 0) c.stale_while_revalidate then stale ∷ [] else []))

  abbrev controlled : Config → Headers → Headers
  controlled c h =
      if is_empty (trim_space (get_header (codes "Cache-Control") h))
      then set_header (codes "Cache-Control") (build_cache_control c) h
      else h

  abbrev with_etag : Text → Headers → Text × Headers
  with_etag body h =
      let etag = trim_space (get_header (codes "Etag") h) in
      let computed = compute_etag body in
      if is_empty etag then (computed, set_header (codes "Etag") computed h) else (etag, h)

  -- The entry of a response of the handler.
  unfoldable pub entry_of : Config → Response → Times → CacheEntry
  unfolding filter_headers get_header set_header compute_etag build_cache_control apply_vary
      trim_space ◌+ℤ◌
  entry_of c r t =
      let (etag, h) = with_etag r.body (filter_headers r.headers) in
      record {
        status_code = r.status;
        headers = controlled c (apply_vary h c.vary_headers);
        body = r.body;
        etag = etag;
        fresh_until = t.fresh_at +ℤ c.ttl;
        stale_until = t.stale_at +ℤ wrap_64 (c.ttl +ℤ c.stale_while_revalidate);
      }

  -- What the handler gave, with the writer that captures its status and body.
  unfoldable pub compute_and_store :
      Config
      → Text
      → Result Response
      → Times
      → InMemoryStore
      → Result (Option CacheEntry) × InMemoryStore
  unfolding entry_of CacheStore.set
  compute_and_store c key (err e) t s = (err e, s)
  compute_and_store c key (ok r) t s =
      let entry = entry_of c r t in
      if not (r.status == 200) then (ok none, s) else elim (encode entry) [
        | none ↦ (ok none, s)
        | some raw ↦ (ok (some entry), CacheStore.set key raw (stored_ttl c) t.set_at s)
      ]

  abbrev entry_state : Config → ℤ → Option CacheEntry → Option (CacheEntry × EntryState)
  entry_state c now none = none
  entry_state c now (some e) =
      if leb_ℤ now e.fresh_until
      then some (e, fresh)
      else if ltb_ℤ (pos 0) c.stale_while_revalidate && ltb_ℤ now e.stale_until
      then some (e, stale)
      else none

  abbrev decoded : Option Text → Option CacheEntry
  decoded none = none
  decoded (some raw) = decode raw

  -- `now` is read by the middleware, `read_at` by the store.
  unfoldable pub load :
      Config → Text → ℤ → ℤ → InMemoryStore → Option (CacheEntry × EntryState) × InMemoryStore
  unfolding CacheStore.get
  load c key now read_at s =
      let (raw, s') = CacheStore.get key read_at s in (entry_state c now (decoded raw), s')

  abbrev copy_all : Headers → Headers → Headers
  copy_all [] h = h
  copy_all ((k, values) ∷ entries) h = copy_all entries (insert k values h)

  abbrev with_entry_etag : CacheEntry → Headers → Headers
  with_entry_etag e h =
      if is_empty (trim_space e.etag) then h else set_header (codes "Etag") e.etag h

  -- `h` are the headers that the response has already.
  unfoldable pub serve_cached : Config → Request → Headers → CacheEntry → Text → Response
  unfolding if_none_match_satisfied apply_vary set_header get_header build_cache_control insert
      trim_space to_upper
  serve_cached c req h e state =
      let headers =
        set_header (codes "X-Cache") state
          (with_entry_etag e (apply_vary (controlled c (copy_all e.headers h)) c.vary_headers)) in
      if if_none_match_satisfied req e.etag
      then record { status = 304; headers = headers; body = [] }
      else record {
        status = e.status_code;
        headers = headers;
        body = if eq_text (to_upper req.method) (codes "HEAD") then [] else e.body;
      }

  -- The handler adds to the headers that it finds.
  abbrev joined :
      Config
      → Request
      → Headers
      → (Headers → Result Response)
      → Result (Option CacheEntry)
      → Result Response
  joined c req h next (ok (some e)) = ok (serve_cached c req h e (codes "HIT"))
  joined c req h next (ok none) = next (miss (codes "MISS") h)
  joined c req h next (err e) = next (miss (codes "MISS") h)

  abbrev fly :
      Config
      → Text
      → Request
      → Headers
      → (Headers → Result Response)
      → Flight
      → Times
      → InMemoryStore
      → Result Response × InMemoryStore
  fly c key req h next leading t s =
      let answer = next (miss (codes "MISS") h) in (answer, (compute_and_store c key answer t s).1)
  fly c key req h next (joining outcome) t s = (joined c req h next outcome, s)

  abbrev serve_or_fly :
      Config
      → Text
      → Request
      → Headers
      → (Headers → Result Response)
      → Bool
      → Flight
      → Times
      → Option (CacheEntry × EntryState) × InMemoryStore
      → Result Response × InMemoryStore
  serve_or_fly c key req h next busy f t (some (e, fresh), s) =
      (ok (serve_cached c req h e (codes "HIT")), s)
  serve_or_fly c key req h next busy f t (some (e, stale), s) =
      if ltb_ℤ (pos 0) c.stale_while_revalidate && busy
      then (ok (serve_cached c req h e (codes "STALE")), s)
      else fly c key req h next f t s
  serve_or_fly c key req h next busy f t (none, s) = fly c key req h next f t s

  abbrev keyed :
      Config
      → Request
      → Headers
      → (Headers → Result Response)
      → Bool
      → Flight
      → ℤ
      → ℤ
      → Times
      → InMemoryStore
      → Result Text
      → Result Response × InMemoryStore
  keyed c req h next busy f now read_at t s (err e) = (next (miss (codes "MISS") h), s)
  keyed c req h next busy f now read_at t s (ok key) =
      serve_or_fly c key req h next busy f t (load c key now read_at s)

  -- `busy` is what InFlight answers, and `f` what the call of Do does.
  unfoldable pub handle :
      Config
      → Request
      → Headers
      → (Headers → Result Response)
      → Bool
      → Flight
      → ℤ
      → ℤ
      → Times
      → InMemoryStore
      → Result Response × InMemoryStore
  unfolding load compute_and_store serve_cached set_header should_bypass build_cache_key trim_space
      to_upper
  handle c req h next busy f now read_at t s =
      let method = to_upper (trim_space req.method) in
      if not c.enabled
        || not c.has_store
        || not (eq_text method (codes "GET") || eq_text method (codes "HEAD"))
      then (next h, s)
      else if should_bypass c req
      then (next (miss (codes "BYPASS") h), s)
      else keyed c req h next busy f now read_at t s (build_cache_key digest c req)
