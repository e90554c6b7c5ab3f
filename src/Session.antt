-- ===== src/Session.antt =====
-- pkg/session/store_inmemory.go: sessions with an expiry in one map. Save, Delete and Touch hold
-- the lock throughout and are one step each; Load reads under one lock and deletes what has
-- expired under another, so it is two steps.
pub mod Steps
mod Examples
use nimburion.Base.{
  Text, List, [], ◌∷◌, Bool, true, false, Option, none, some, ℤ, ltb_ℤ, ◌+ℤ◌, insert, lookup,
  remove,
}
use nimburion.Errors.{Err, sentinel, session_not_found}
use nimburion.Effect.{Result, ok, err}

abbrev pub Data : Type 0
Data = List (Text × Text)

pub record Entry : Type 0 where
  pub values : Data
  pub expires_at : ℤ

-- A map is a value here, so cloning one changes nothing.
abbrev pub Store : Type 0
Store = List (Text × Entry)

-- time.Now().After(entry.expiresAt)
abbrev pub is_expired : ℤ → Entry → Bool
is_expired now e = ltb_ℤ e.expires_at now

-- The first half of Load: what is returned, and whether the session is deleted.
unfoldable pub peek : ℤ → Option Entry → Result Data × Bool
peek now none = (err (sentinel session_not_found), false)
peek now (some e) = elim (is_expired now e) [
  | true ↦ (err (sentinel session_not_found), true)
  | false ↦ (ok e.values, false)
]

-- The second half.
unfoldable pub evict : Bool → Text → Store → Store
evict true id s = remove id s
evict false id s = s

unfoldable pub load : Text → ℤ → Store → Result Data × Store
unfolding peek evict
load id now s = let (answer, expired) = peek now (lookup id s) in (answer, evict expired id s)

unfoldable pub save : Text → Data → ℤ → ℤ → Store → Store
save id values ttl now s = insert id (record { values = values; expires_at = now +ℤ ttl }) s

unfoldable pub delete : Text → Store → Store
delete id s = remove id s

unfoldable pub touch : Text → ℤ → ℤ → Store → Option Err × Store
touch id ttl now s = elim (lookup id s) [
  | none ↦ (some (sentinel session_not_found), s)
  | some e ↦ (none, insert id (record e { expires_at = now +ℤ ttl }) s)
]
