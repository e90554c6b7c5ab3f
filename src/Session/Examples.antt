-- ===== src/Session/Examples.antt =====
-- A store with two sessions, one of which has expired.
use nimburion.Base.{codes, [], ◌∷◌, ◌≡◌, some, pos, ◌+ℤ◌, lookup}
use nimburion.Session.{Data, Entry, Store}
use nimburion.Session.Steps.{loads, deletes, touches, run, lookup-run}

abbrev cart : Data
cart = (codes "item", codes "book") ∷ []

abbrev old : Entry
old = record { values = cart; expires_at = pos 50 }

abbrev store : Store
store = (codes "a", old) ∷ (codes "b", record { values = []; expires_at = pos 500 }) ∷ []

lookup-run_example :
    lookup (codes "a") (
      run store (
        touches (codes "a") (pos 30) (pos 40)
        ∷ deletes (codes "b")
        ∷ loads (codes "a") (pos 60)
        ∷ []))
    ≡ some (record { values = cart; expires_at = pos 70 })
unfolding lookup ◌+ℤ◌
lookup-run_example =
    lookup-run (codes "a") store (
      touches (codes "a") (pos 30) (pos 40) ∷ deletes (codes "b") ∷ loads (codes "a") (pos 60) ∷ [])
