-- ===== src/Idempotency.antt =====
-- pkg/reliability/idempotency/idempotency.go: the guard over an atomic store, the transactional
-- variant, and the periodic cleanup. `none` stands for a nil argument.
pub mod Once
pub mod Cleaning
mod Examples
use nimburion.Base.{
  ℕ, ◌*◌, Text, codes, List, [], ◌∷◌, Bool, true, false, Option, none, some, ℤ, pos, ◌-ℤ◌, is_empty,
  if◌then◌else◌,
}
use nimburion.Errors.{Err, message, wrapped, sentinel, atomic_execution_required}
use nimburion.Effect.{Run, Result, ok, err, pure, perform, ◌>>=◌}
use nimburion.Retry.{positive_or}
use nimburion.Transaction.{Body, TxExecutor}

-- The store of a guard, as far as it is an `AtomicStore`, which the application provides.
pub record AtomicStore (D : Type 0) : Type 0 where
  pub execute_atomically : Text → Text → (D → Option Err × D) → D → Result Bool × D

-- The operations inside a transaction on the database `D`.
pub record TxStore (D : Type 0) : Type 0 where
  pub is_processed : Text → Text → D → Result Bool
  pub mark_processed : Text → Text → ℤ → D → Option Err × D

-- The checks that both entry points make, in this order.
abbrev named : {D : Type 0} → Text → Text → Option (D → Option Err × D) → Option Err
named scope key (some handler) =
    if is_empty scope
    then some (message (codes "scope is required"))
    else if is_empty key
    then some (message (codes "key is required"))
    else none
named scope key none =
    if is_empty scope
    then some (message (codes "scope is required"))
    else if is_empty key
    then some (message (codes "key is required"))
    else some (message (codes "handler is required"))

module _ {D : Type 0} where
  guarded :
      Option (AtomicStore D)
      → Text
      → Text
      → Option (D → Option Err × D)
      → Option Err
      → D
      → Result Bool × D
  guarded store scope key handler (some e) d = (err e, d)
  guarded store scope key none none d = (err (message (codes "handler is required")), d)
  guarded none scope key (some handler) none d = (err (sentinel atomic_execution_required), d)
  guarded (some s) scope key (some handler) none d = s.execute_atomically scope key handler d

  -- ExecuteOnce on a guard with a store, which may be an `AtomicStore` or not.
  unfoldable pub execute_once :
      Option (Option (AtomicStore D))
      → Text
      → Text
      → Option (D → Option Err × D)
      → D
      → Result Bool × D
  unfolding guarded
  execute_once none scope key handler d =
      (err (message (codes "idempotency guard is not initialized")), d)
  execute_once (some store) scope key handler d =
      guarded store scope key handler (named scope key handler) d

  outcome : Option Err × D × Bool → Result Bool × D
  outcome (some e, d, executed) = (err e, d)
  outcome (none, d, executed) = (ok executed, d)

  marked : Option Err × D → Bool → Option Err × D × Bool
  marked (some e, d) executed =
      (some (wrapped (codes "mark processed key failed: ") e), d, executed)
  marked (none, d) executed = (none, d, true)

module _ {D : Type 0} (s : TxStore D) (scope key : Text) (now : ℤ)
    (handler : D → Option Err × D) where
  ran : Option Err × D → Bool → Option Err × D × Bool
  unfolding marked
  ran (some e, d) executed = (some e, d, executed)
  ran (none, d) executed = marked (s.mark_processed scope key now d) executed

  checked : Result Bool → Body D Bool
  unfolding ran
  checked (err e) d executed =
      (some (wrapped (codes "check processed key failed: ") e), d, executed)
  checked (ok true) d executed = (none, d, false)
  checked (ok false) d executed = ran (handler d) executed

  -- The function that is run in the transaction; it captures `executed`.
  unfoldable pub process : Body D Bool
  unfolding checked
  process d executed = checked (s.is_processed scope key d) d executed

module _ {D : Type 0} (s : TxStore D) where
  begin :
      TxExecutor D
      → Text
      → Text
      → ℤ
      → Option (D → Option Err × D)
      → Option Err
      → D
      → Result Bool × D
  unfolding process outcome
  begin x scope key now handler (some e) d = (err e, d)
  begin x scope key now none none d = (err (message (codes "handler is required")), d)
  begin x scope key now (some handler) none d =
      outcome (x.with_transaction Bool (process s scope key now handler) d false)

  unfoldable pub execute_once_transactional :
      Option (TxExecutor D) → Text → Text → ℤ → Option (D → Option Err × D) → D → Result Bool × D
  unfolding begin
  execute_once_transactional none scope key now handler d =
      (err (message (codes "transaction executor is required")), d)
  execute_once_transactional (some x) scope key now handler d =
      begin x scope key now handler (named scope key handler) d

pub record CleanerConfig : Type 0 where
  pub cleanup_every : ℤ
  pub retention : ℤ
  pub batch_size : ℤ

abbrev hour : ℕ
hour = 3600 * 1_000_000_000

unfoldable pub normalize : CleanerConfig → CleanerConfig
normalize c = record {
  cleanup_every = positive_or c.cleanup_every (pos hour);
  retention = positive_or c.retention (pos (30 * 24 * hour));
  batch_size = positive_or c.batch_size (pos 1000);
}

-- CleanupProcessedBefore(before, limit)
pub record Cleanup : Type 0 where
  pub before : ℤ
  pub limit : ℤ

-- Cleaner.Run: the times of the ticks before the context is done, and ctx.Err() then.
module _ (answer : List Cleanup → Result ℤ) (c : CleanerConfig) where
  unfoldable pub clean : Err → List ℤ → Run Cleanup Err
  clean cause [] calls = (cause, calls)
  clean cause (now ∷ ticks) calls =
      let made = record { before = now -ℤ c.retention; limit = c.batch_size } ∷ calls in
      elim (answer made) [
        | err e ↦ (wrapped (codes "cleanup processed keys failed: ") e, made)
        | ok n ↦ clean cause ticks made
      ]

  unfoldable pub run_cleaner : Option (List ℤ × Err) → Run Cleanup Err
  run_cleaner none = pure (message (codes "context is nil"))
  run_cleaner (some (ticks, cause)) = clean cause ticks
