-- ===== src/Outbox/Relay.antt =====
-- The relay of outbox.go: one entry, one tick, one cleanup, and the loop of `Run`.
use nimburion.Base.{
  ℕ, Text, codes, List, [], ◌∷◌, Bool, true, false, not, Option, none, some, ℤ, inc_64, ◌+ℤ◌, ◌-ℤ◌,
  if◌then◌else◌,
}
use nimburion.Errors.{Err, message, wrapped, wrapped_two, error_text}
use nimburion.Effect.{Run, Result, ok, err, pure, perform, ◌>>=◌}
use nimburion.Outbox.{Record, Entry, validate, PublisherConfig, normalize, exponential_backoff}

-- What the relay asks of its environment.
pub data Call : Type 0 where
  fetch_pending : ℤ → ℤ → Call
  publish : Text → Option Record → Call
  mark_published : Text → ℤ → Call
  mark_failed : Text → ℤ → ℤ → Text → Call
  cleanup_published_before : ℤ → ℤ → Call
  pending_count : ℤ → Call
  oldest_pending_age : ℤ → Call
  set_pending : ℤ → Call
  set_oldest_age : ℕ → Call
  inc_published inc_failed : Call

-- The answers, by the calls made so far (the answered one first).
pub record Environment : Type 0 where
  pub fetch : List Call → Result (List Entry)
  pub publishes : List Call → Option Err
  pub marks : List Call → Option Err
  pub cleans : List Call → Result ℤ
  pub counts : List Call → Result ℤ
  pub ages : List Call → Result ℕ

-- The relay's fields; `metrics` says whether the pointer is not nil.
pub record Relay : Type 0 where
  pub config : PublisherConfig
  pub metrics : Bool

-- A method call on a `*Metrics` that may be nil.
abbrev measured : Relay → Call → Run Call (Unit {0})
measured r c = if r.metrics then perform c (λ _. tt) else pure tt

-- NewRelay: `none` is a nil argument.
unfoldable pub new_relay : Bool → Bool → Bool → Bool → PublisherConfig → Result Relay
new_relay store publisher log metrics config =
    if not store
    then err (message (codes "outbox store is required"))
    else if not publisher
    then err (message (codes "outbox publisher is required"))
    else if not log
    then err (message (codes "logger is required"))
    else ok (record { config = normalize config; metrics = metrics })

module _ (env : Environment) (r : Relay) where
  -- now.Add(exponentialBackoff(retryCount, …))
  unfoldable pub next_attempt : ℤ → ℤ → ℤ
  next_attempt retry_count now =
      now +ℤ exponential_backoff retry_count r.config.initial_backoff r.config.max_backoff

  after_mark_failed : Err → Option Err → Run Call (Option Err)
  after_mark_failed e (some f) =
      pure (some (wrapped_two (codes "mark failed error after publish error (") e (codes "): ") f))
  after_mark_failed e none = do _ ← measured r inc_failed; pure (some e)

  after_mark_published : Option Err → Run Call (Option Err)
  after_mark_published (some f) = pure (some (wrapped (codes "mark published failed: ") f))
  after_mark_published none = do _ ← measured r inc_published; pure none

  after_publish : Entry → ℤ → Option Err → Run Call (Option Err)
  unfolding after_mark_failed after_mark_published next_attempt
  after_publish entry now (some e) = do
    let retry_count = inc_64 entry.retry_count
    f ←
        perform (mark_failed entry.id retry_count (next_attempt retry_count now) (error_text e))
          env.marks
    after_mark_failed e f
  after_publish entry now none = do
    f ← perform (mark_published entry.id now) env.marks
    after_mark_published f

  publish_valid : Entry → ℤ → Option Err → Run Call (Option Err)
  publish_valid entry now (some e) = pure (some (wrapped (codes "invalid outbox entry: ") e))
  publish_valid entry now none = do
    e ← perform (publish entry.topic entry.payload_record) env.publishes
    after_publish entry now e

  unfoldable pub publish_entry : Entry → ℤ → Run Call (Option Err)
  unfolding publish_valid after_publish
  publish_entry entry now = publish_valid entry now (validate (some entry))

  -- The loop of `tick`: an error is logged, and the next entry is tried.
  unfoldable pub publish_all : List Entry → ℤ → Run Call (Unit {0})
  publish_all [] now = pure tt
  publish_all (entry ∷ entries) now = do _ ← publish_entry entry now; publish_all entries now

  set_if_ok : {A : Type 0} → (A → Call) → Result A → Run Call (Unit {0})
  set_if_ok gauge (ok a) = perform (gauge a) (λ _. tt)
  set_if_ok gauge (err e) = pure tt

  -- Metrics.Snapshot, where the metrics are not nil.
  unfoldable pub snapshot : ℤ → Run Call (Unit {0})
  unfolding set_if_ok
  snapshot now = do
    pending ← perform (pending_count now) env.counts
    _ ← set_if_ok set_pending pending
    age ← perform (oldest_pending_age now) env.ages
    set_if_ok set_oldest_age age

  unfoldable pub tick_fetched : ℤ → Result (List Entry) → Run Call (Option Err)
  tick_fetched now (err e) = pure (some (wrapped (codes "fetch pending outbox entries failed: ") e))
  tick_fetched now (ok entries) = do
    _ ← publish_all entries now
    _ ← if r.metrics then snapshot now else pure tt
    pure none

  unfoldable pub tick : ℤ → Run Call (Option Err)
  unfolding tick_fetched
  tick now = do
    fetched ← perform (fetch_pending r.config.batch_size now) env.fetch
    tick_fetched now fetched

  cleaned : Result ℤ → Option Err
  cleaned (ok n) = none
  cleaned (err e) = some (wrapped (codes "cleanup published entries failed: ") e)

  unfoldable pub cleanup : ℤ → Run Call (Option Err)
  unfolding cleaned
  cleanup now = do
    done ←
        perform (cleanup_published_before (now -ℤ r.config.cleanup_retention) r.config.batch_size)
          env.cleans
    pure (cleaned done)

-- What the `select` of `Run` receives before the context is done; each with its time.
pub data Signal : Type 0 where
  poll clean : ℤ → Signal

module _ (env : Environment) (r : Relay) where
  unfoldable pub serve : Err → List Signal → Run Call (Option Err)
  serve cause [] = pure (some cause)
  serve cause (poll now ∷ signals) = do _ ← tick env r now; serve cause signals
  serve cause (clean now ∷ signals) = do _ ← cleanup env r now; serve cause signals

  -- `Run` on a relay that is running or not, with the time at which it starts, and its
  -- context: the signals that come before it is done, and ctx.Err() then; or nil. It is not running any more when `Run` returns, unless it was refused.
  unfoldable pub run : Bool → ℤ → Option (List Signal × Err) → Run Call (Option Err × Bool)
  run running start none = pure (some (message (codes "context is nil")), running)
  run true start (some (signals, cause)) =
      pure (some (message (codes "outbox relay already running")), true)
  run false start (some (signals, cause)) = do
    _ ← tick env r start
    e ← serve cause signals
    pure (e, false)
