-- ===== src/Idempotency/Examples.antt =====
-- A key that is executed three times, with a database that lists the processed keys.
use nimburion.Base.{
  Text, codes, ◌≡◌, refl, ◌≤◌, List, [], ◌∷◌, any, Bool, ◌&&◌, Option, none, some, arith, ℤ, pos,
  eq_text, eq_text_refl,
}
use nimburion.Errors.{Err, message}
use nimburion.Effect.{Result, ok, err}
use nimburion.Transaction.Direct.{direct, direct-IsTransactional}
use nimburion.Idempotency.{TxStore, Cleanup, CleanerConfig, execute_once_transactional}
use nimburion.Idempotency.Once.{Remembers, executions, executions-le-one}

abbrev Database : Type 0
Database = List (Text × Text)

abbrev same : Text → Text → Text × Text → Bool
same scope key entry = eq_text scope entry.0 && eq_text key entry.1

abbrev store : TxStore Database
store = record {
  is_processed = λ scope key d. ok (any (same scope key) d);
  mark_processed = λ scope key at d. (none, (scope, key) ∷ d);
}

store-Remembers : Remembers store
store-Remembers = record {
  recall = λ scope key at d d' h. ground (arith, eq_text_refl scope, eq_text_refl key);
}

abbrev works : Database → Option Err × Database
works d = (none, (codes "effect", []) ∷ d)

abbrev breaks : Database → Option Err × Database
breaks d = (some (message (codes "down")), [])

abbrev attempts : List (ℤ × (Database → Option Err × Database))
attempts = (pos 1, breaks) ∷ (pos 2, works) ∷ (pos 3, works) ∷ []

executions_one : executions store direct (codes "orders") (codes "k") attempts [] ≡ 1
unfolding executions execute_once_transactional
executions_one = refl

executions-le-one_example : executions store direct (codes "orders") (codes "k") attempts [] ≤ 1
executions-le-one_example =
    executions-le-one store direct (codes "orders") (codes "k") direct-IsTransactional attempts []
      store-Remembers

abbrev cleaner : CleanerConfig
cleaner = record { cleanup_every = pos 10; retention = pos 100; batch_size = pos 7 }

-- The third cleanup fails.
abbrev answers : List Cleanup → Result ℤ
answers (_ ∷ _ ∷ _ ∷ calls) = err (message (codes "down"))
answers _ = ok (pos 2)
