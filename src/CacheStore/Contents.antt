-- ===== src/CacheStore/Contents.antt =====
-- What the in-process cache store holds at each time.
use nimburion.Base.{
  ◌≡◌, refl, Text, Option, none, some, Option-cases, inl, inr, ℤ, pos, ◌+ℤ◌, ◌≤ℤ◌, ltb_ℤ, leb_ℤ,
  if◌then◌else◌, eq_text, eq_text_iff, lookup, lookup-insert, lookup-remove, arith,
}
use nimburion.CacheStore.{InMemoryItem, InMemoryStore, get, set, delete}

abbrev pub fresh_value : ℤ → Option InMemoryItem → Option Text
fresh_value now none = none
fresh_value now (some item) = if ltb_ℤ item.expires_at now then none else some item.value

-- The map that the store stands for: at each time, the values that have not expired.
abbrev pub live : ℤ → Text → InMemoryStore → Option Text
live now key s = fresh_value now (lookup key s.items)

pub set-live :
    (k key value : Text) (ttl now later : ℤ) (s : InMemoryStore)
    → live later k (set key value ttl now s) ≡ (
        if eq_text key k
        then (if ltb_ℤ (now +ℤ (if leb_ℤ ttl (pos 0) then pos 1_000_000_000 else ttl)) later
            then none
            else some value)
        else live later k s)
unfolding set
set-live k key value ttl now later s = ground (
  arith,
  lookup-insert key k
      (record {
        value = value;
        expires_at = now +ℤ (if leb_ℤ ttl (pos 0) then pos 1_000_000_000 else ttl);
      })
      s.items,
)

delete-live :
    (k key : Text) (now : ℤ) (s : InMemoryStore)
    → live now k (delete key s) ≡ (if eq_text key k then none else live now k s)
unfolding delete
delete-live k key now s = ground (arith, lookup-remove key k s.items)

get-found : (key : Text) (now : ℤ) (s : InMemoryStore) → (get key now s).0 ≡ live now key s
unfolding get
get-found key now s = elim (Option-cases (lookup key s.items)) [
  | inl missing ↦ rw (missing, get) refl
  | inr (item, there) ↦ rw (there, get) (ground arith)
]

get-kept :
    (k key : Text) (now later : ℤ) (s : InMemoryStore)
    → now ≤ℤ later
    → live later k (get key now s).1 ≡ live later k s
unfolding get
get-kept k key now later s h = elim (Option-cases (lookup key s.items)) [
  | inl missing ↦ rw (missing, get) refl
  | inr (item, there) ↦
      rw (there, get) (ground (arith, there, lookup-remove key k s.items, eq_text_iff key k))
]

-- The store is that map: Get answers with the value that has not expired, and, although it
-- deletes what has, changes nothing that it will hold at any later time.
get-live :
    (key : Text) (now : ℤ) (s : InMemoryStore)
    → ((get key now s).0 ≡ live now key s)
      × ((k : Text) (later : ℤ) → now ≤ℤ later → live later k (get key now s).1 ≡ live later k s)
get-live key now s = (get-found key now s, λ k later h. get-kept k key now later s h)
