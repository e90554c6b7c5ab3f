-- ===== src/Jobs.antt =====
-- pkg/jobs: jobs and leases (backend.go, contract.go), the errors of the package (errors.go), and
-- the worker's configuration (worker.go). The worker itself is below, in `Processing`.
pub mod Processing
pub mod Messages
pub mod Lifecycle
pub mod Shutdown
pub mod Exchange
pub mod Configuration
pub mod Leases
pub mod Settlement
pub mod Retries
mod Examples
use nimburion.Base.{
  ℕ, ◌*◌, Text, codes, List, [], ◌∷◌, ◌++◌, Bool, true, false, not, ◌&&◌, Option, none, some, ℤ,
  pos, leb_ℤ, ltb_ℤ, half_64, is_empty, if◌then◌else◌, trim_space,
}
use nimburion.Errors.{
  Err, Sentinel, wrapped, sentinel, jobs_validation, jobs_conflict, jobs_not_found, jobs_retryable,
  jobs_invalid_argument, jobs_not_initialized, jobs_closed,
}
use nimburion.Effect.{Result, ok, err}
use nimburion.Retry
use nimburion.Retry.{positive_or, Budget}

pub record Job : Type 0 where
  pub id : Text
  pub name : Text
  pub queue : Text
  pub payload : List ℕ
  pub headers : List (Text × Text)
  pub content_type : Text
  pub tenant_id : Text
  pub correlation_id : Text
  pub idempotency_key : Text
  pub partition_key : Text
  pub run_at : ℤ
  pub attempt : ℤ
  pub max_attempts : ℤ
  pub created_at : ℤ

pub record Lease : Type 0 where
  pub job_id : Text
  pub token : Text
  pub queue : Text
  pub expire_at : ℤ
  pub attempt : ℤ

-- `jobsError` on the package's own kinds, with a message that is not empty: an `AppError` that
-- wraps the kind and shows the message before it.
unfoldable pub jobs_error : Sentinel → Text → Err
jobs_error kind text = wrapped (text ++ codes ": ") (sentinel kind)

-- Job.Validate; a nil job is `none`.
unfoldable pub validate : Option Job → Option Err
unfolding jobs_error
validate none = some (jobs_error jobs_validation (codes "job is nil"))
validate (some j) =
    if is_empty (trim_space j.id)
    then some (jobs_error jobs_validation (codes "job id is required"))
    else if is_empty (trim_space j.name)
    then some (jobs_error jobs_validation (codes "job name is required"))
    else if is_empty (trim_space j.queue)
    then some (jobs_error jobs_validation (codes "job queue is required"))
    else if is_empty j.payload
    then some (jobs_error jobs_validation (codes "job payload is required"))
    else if ltb_ℤ j.attempt (pos 0)
    then some (jobs_error jobs_validation (codes "job attempt must be >= 0"))
    else if ltb_ℤ j.max_attempts (pos 0)
    then some (jobs_error jobs_validation (codes "job max attempts must be >= 0"))
    else if ltb_ℤ (pos 0) j.max_attempts && ltb_ℤ j.max_attempts j.attempt
    then some (jobs_error jobs_validation (codes "job attempt cannot exceed max attempts"))
    else none

abbrev pub second : ℕ
second = 1_000_000_000

-- RetryPolicy has the fields of `retry.Budget`, and is normalised through it.
abbrev pub RetryPolicy : Type 0
RetryPolicy = Budget

unfoldable pub normalize_retry : RetryPolicy → RetryPolicy
normalize_retry p = Retry.normalize p (record {
  max_attempts = pos 5;
  initial_backoff = pos second;
  max_backoff = pos (60 * second);
  attempt_timeout = pos (30 * second);
})

pub record DlqPolicy : Type 0 where
  pub enabled : Bool
  pub queue_suffix : Text
  pub has_quarantine : Bool

unfoldable pub normalize_dlq : DlqPolicy → DlqPolicy
normalize_dlq p = record p {
  queue_suffix = if is_empty (trim_space p.queue_suffix) then codes ".dlq" else p.queue_suffix;
}

pub record WorkerConfig : Type 0 where
  pub queues : List Text
  pub concurrency : ℤ
  pub lease_ttl : ℤ
  pub reserve_timeout : ℤ
  pub stop_timeout : ℤ
  pub retry : RetryPolicy
  pub dlq : DlqPolicy

unfoldable pub normalize : WorkerConfig → WorkerConfig
unfolding normalize_retry normalize_dlq
normalize c = record {
  queues = c.queues;
  concurrency = positive_or c.concurrency (pos 1);
  lease_ttl = positive_or c.lease_ttl (pos (30 * second));
  reserve_timeout = positive_or c.reserve_timeout (pos second);
  stop_timeout = positive_or c.stop_timeout (pos (10 * second));
  retry = normalize_retry c.retry;
  dlq = normalize_dlq c.dlq;
}

-- The loop of `NewWorker` that keeps the queues whose trimmed name is not empty.
unfoldable pub trimmed : List Text → List Text
trimmed [] = []
trimmed (q ∷ qs) =
    let rest = trimmed qs in if is_empty (trim_space q) then rest else trim_space q ∷ rest

-- The handlers by job name; a handler is a number that names it.
pub record Worker : Type 0 where
  pub config : WorkerConfig
  pub handlers : List (Text × ℕ)

-- NewWorker; the flags say whether the backend and the logger are not nil.
unfoldable pub new_worker : Bool → Bool → WorkerConfig → Result Worker
unfolding jobs_error normalize trimmed
new_worker has_backend has_log c =
    let queues = trimmed c.queues in
    if not has_backend
    then err (jobs_error jobs_invalid_argument (codes "backend is required"))
    else if not has_log
    then err (jobs_error jobs_invalid_argument (codes "logger is required"))
    else if is_empty c.queues
    then err (jobs_error jobs_validation (codes "at least one queue is required"))
    else if is_empty queues
    then err (jobs_error jobs_validation (codes "at least one non-empty queue is required"))
    else ok (record { config = record (normalize c) { queues = queues }; handlers = [] })

-- Half of the lease's time, and at least 100 ms.
unfoldable pub renew_interval : ℤ → ℤ
renew_interval lease_ttl =
    let half = half_64 lease_ttl in
    let interval = if leb_ℤ half (pos 0) then lease_ttl else half in
    if ltb_ℤ interval (pos 100_000_000) then pos 100_000_000 else interval
