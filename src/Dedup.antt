-- ===== src/Dedup.antt =====
-- pkg/reliability/dedup/dedup.go: the duplicate check, which queries the store and then writes
-- the marker, and the periodic cleanup.
pub mod Marking
mod Examples
use nimburion.Base.{
  ℕ, ◌*◌, Text, codes, List, [], ◌∷◌, Bool, true, false, Option, none, some, ℤ, pos, ◌+ℤ◌, is_empty,
  if◌then◌else◌,
}
use nimburion.Errors.{Err, message, wrapped}
use nimburion.Effect.{Run, Result, ok, err, pure}
use nimburion.Retry.{positive_or}

-- The store over its state `D`, which the application provides. MarkSeen is given the scope, the
-- key, the time and the end of the retention.
pub record Store (D : Type 0) : Type 0 where
  pub is_duplicate : Text → Text → D → Result Bool
  pub mark_seen : Text → Text → ℤ → ℤ → D → Option Err × D

abbrev pub default_retention : ℤ
default_retention = pos (24 * 3600 * 1_000_000_000)

module _ {D : Type 0} (s : Store D) (scope key : Text) where
  -- The first half: the query.
  unfoldable pub check : D → Result Bool
  check d = elim (s.is_duplicate scope key d) [
    | err e ↦ err (wrapped (codes "check duplicate failed: ") e)
    | ok b ↦ ok b
  ]

  -- The second half: what the query found, and the marker.
  marked : Option Err × D → Result Bool × D
  marked (some e, d) = (err (wrapped (codes "mark seen failed: ") e), d)
  marked (none, d) = (ok false, d)

  unfoldable pub conclude : ℤ → ℤ → Result Bool → D → Result Bool × D
  unfolding marked
  conclude now retention (err e) d = (err e, d)
  conclude now retention (ok true) d = (ok true, d)
  conclude now retention (ok false) d =
      marked (s.mark_seen scope key now (now +ℤ positive_or retention default_retention) d)

-- CheckAndMark on a deduplicator with a store, or without one (`none`).
unfoldable pub check_and_mark :
    {D : Type 0} → Option (Store D) → Text → Text → ℤ → ℤ → D → Result Bool × D
check_and_mark none scope key retention now d =
    (err (message (codes "deduplicator is not initialized")), d)
check_and_mark (some s) scope key retention now d =
    if is_empty scope
    then (err (message (codes "scope is required")), d)
    else if is_empty key
    then (err (message (codes "key is required")), d)
    else conclude s scope key now retention (check s scope key d) d

pub record CleanerConfig : Type 0 where
  pub cleanup_every : ℤ
  pub batch_size : ℤ

unfoldable pub normalize : CleanerConfig → CleanerConfig
normalize c = record {
  cleanup_every = positive_or c.cleanup_every (pos (3600 * 1_000_000_000));
  batch_size = positive_or c.batch_size (pos 1000);
}

-- CleanupExpiredBefore(before, limit)
pub record Cleanup : Type 0 where
  pub before : ℤ
  pub limit : ℤ

-- Cleaner.Run: the times of the ticks before the context is done, and ctx.Err() then.
module _ (answer : List Cleanup → Result ℤ) (c : CleanerConfig) where
  unfoldable pub clean : Err → List ℤ → Run Cleanup Err
  clean cause [] calls = (cause, calls)
  clean cause (now ∷ ticks) calls =
      let made = record { before = now; limit = c.batch_size } ∷ calls in
      elim (answer made) [
        | err e ↦ (wrapped (codes "cleanup expired dedup markers failed: ") e, made)
        | ok n ↦ clean cause ticks made
      ]

  unfoldable pub run_cleaner : Option (List ℤ × Err) → Run Cleanup Err
  run_cleaner none = pure (message (codes "context is nil"))
  run_cleaner (some (ticks, cause)) = clean cause ticks
