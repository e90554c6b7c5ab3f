-- ===== src/Jobs/Configuration.antt =====
-- What a new worker is given, which handler it finds, and how often it renews a lease.
use nimburion.Base.{
  lookup-insert, ℕ, ◌<◌, Text, List, [], ◌∷◌, Bool, false, some, pos, ◌≡◌, arith, ◌≤ℤ◌, ◌<ℤ◌,
  half_64, All, is_empty, eq_text, trim_space, if◌then◌else◌,
}
use nimburion.Effect.{ok}
use nimburion.Retry
use nimburion.Jobs.{WorkerConfig, Worker, trimmed, new_worker, renew_interval}
use nimburion.Jobs.Processing.{register, lookup_handler}

trimmed-named : (qs : List Text) → All (λ q. is_empty q ≡ false) (trimmed qs)
unfolding trimmed
trimmed-named [] = tt
trimmed-named (q ∷ qs) = ground (arith, trimmed-named qs)

-- A worker that `NewWorker` returns has a queue, each with a name that is not blank, and positive
-- times, concurrency and attempts; the queue suffix of the dead letters is not blank either.
pub record IsReady (w : Worker) : Type 0 where
  pub some_queue : is_empty w.config.queues ≡ false
  pub named_queues : All (λ q. is_empty q ≡ false) w.config.queues
  pub concurrency : pos 1 ≤ℤ w.config.concurrency
  pub lease_ttl : pos 1 ≤ℤ w.config.lease_ttl
  pub reserve_timeout : pos 1 ≤ℤ w.config.reserve_timeout
  pub stop_timeout : pos 1 ≤ℤ w.config.stop_timeout
  pub max_attempts : pos 1 ≤ℤ w.config.retry.max_attempts
  pub initial_backoff : pos 1 ≤ℤ w.config.retry.initial_backoff
  pub max_backoff : pos 1 ≤ℤ w.config.retry.max_backoff
  pub attempt_timeout : pos 1 ≤ℤ w.config.retry.attempt_timeout

-- Whatever configuration `NewWorker` accepts, the worker has at least one queue and only queues
-- whose names are not blank, and positive times, concurrency, attempts and backoffs.
new_worker-IsReady :
    (has_backend has_log : Bool) (c : WorkerConfig) (w : Worker)
    → new_worker has_backend has_log c ≡ ok w
    → IsReady w
unfolding new_worker Retry.normalize
new_worker-IsReady has_backend has_log c w h = ground (arith, trimmed-named c.queues)

-- After a registration the worker finds the new handler under every spelling of its name that
-- differs only in the space around it, and what it found before under every other name.
pub lookup_handler-register :
    (w w' : Worker) (name other : Text) (h : ℕ)
    → register w name (some h) ≡ ok w'
    → lookup_handler w' other
      ≡ (if eq_text (trim_space name) (trim_space other) then some h else lookup_handler w other)
unfolding register lookup_handler
lookup_handler-register w w' name other h e =
    ground (arith, lookup-insert (trim_space name) (trim_space other) h w.handlers)

-- A lease of more than 100 ms is renewed before it ends, at intervals of at least 100 ms.
pub renew_interval_bounds :
    (ttl : ℕ)
    → 100_000_000 < ttl
    → (pos 100_000_000 ≤ℤ renew_interval (pos ttl)) × (renew_interval (pos ttl) <ℤ pos ttl)
unfolding renew_interval half_64
renew_interval_bounds ttl h = ground arith
