-- ===== src/CacheStore.antt =====
-- pkg/cache/store_inmemory.go: the in-process cache store. A call takes the time that it reads.
pub mod Contents
mod Examples
use nimburion.Base.{
  Text, List, [], Option, none, some, ℤ, pos, ◌+ℤ◌, ltb_ℤ, leb_ℤ, if◌then◌else◌, lookup, insert,
  remove,
}

pub record InMemoryItem : Type 0 where
  pub value : Text
  pub expires_at : ℤ

pub record InMemoryStore : Type 0 where
  pub items : List (Text × InMemoryItem)

abbrev pub new_in_memory_store : InMemoryStore
new_in_memory_store = record { items = [] }

-- none is ErrCacheMiss.
unfoldable pub get : Text → ℤ → InMemoryStore → Option Text × InMemoryStore
unfolding lookup remove
get key now s = elim (lookup key s.items) [
  | none ↦ (none, s)
  | some item ↦
      if ltb_ℤ item.expires_at now
      then (none, record s { items = remove key s.items })
      else (some item.value, s)
]

unfoldable pub set : Text → Text → ℤ → ℤ → InMemoryStore → InMemoryStore
unfolding insert ◌+ℤ◌
set key value ttl now s =
    let lasting = if leb_ℤ ttl (pos 0) then pos 1_000_000_000 else ttl in
    record s { items = insert key (record { value = value; expires_at = now +ℤ lasting }) s.items }

unfoldable pub delete : Text → InMemoryStore → InMemoryStore
unfolding remove
delete key s = record s { items = remove key s.items }
