-- ===== src/Scheduler/Dispatch.antt =====
-- pkg/scheduler/runtime.go: dispatchTask and startLeaseRenewal, which enqueue the job of a run
-- under a lock whose lease a ticker renews. What the lock provider (pkg/coordination) and the jobs
-- runtime answer depends on the calls made so far; the numbers of ticks that come before and while
-- the job is enqueued are arguments, since the ticker's clock decides them.
pub mod Keys
pub mod Locked
use nimburion.Base.{
  ℕ, zero, suc, ◌/◌, Text, codes, List, [], ◌∷◌, ◌++◌, Bool, true, false, Option, none, some, ℤ,
  pos, negsuc, ◌-ℤ◌, leb_ℤ, ltb_ℤ, ◌+ℤ◌, ◌&&◌, eq_text, is_empty, if◌then◌else◌, insert, trim_space,
  show_ℤ,
}
use nimburion.Errors.{Err, Sentinel, joined, scheduler_retryable}
use nimburion.Effect.{Result, ok, err, Run, pure, perform, ◌>>=◌}
use nimburion.Jobs.{Job}
use nimburion.Retry.{positive_or}
use nimburion.Scheduler.{scheduler_error}

pub record Task : Type 0 where
  pub name : Text
  pub schedule : Text
  pub queue : Text
  pub job_name : Text
  pub payload : List ℕ
  pub headers : List (Text × Text)
  pub tenant_id : Text
  pub idempotency_key : Text
  pub timezone : Text
  pub lock_ttl : ℤ
  pub misfire_policy : Text

-- coordination.LockLease
pub record LockLease : Type 0 where
  pub key : Text
  pub token : Text
  pub expire_at : ℤ

pub data Call : Type 0 where
  acquire : Text → ℤ → Call
  renew : LockLease → ℤ → Call
  enqueue : Job → Call
  release : LockLease → Call

-- What a call is answered. Acquire returns a lease, which may be nil, and whether it was acquired.
pub record Environment : Type 0 where
  pub acquired : List Call → Result (Option LockLease × Bool)
  pub renewed : List Call → Option Err
  pub enqueued : List Call → Option Err
  pub released : List Call → Option Err

-- time.Time.Unix: whole seconds since 1970, of nanoseconds since the year 1.
abbrev second : ℕ
second = 1_000_000_000

abbrev seconds : ℤ → ℤ
seconds (pos n) = pos (n / second)
seconds (negsuc n) = negsuc (n / second)

unfoldable pub unix : ℤ → ℤ
unix t = seconds t -ℤ pos 62_135_596_800

abbrev run_name : Text → ℤ → Text
run_name name run_at = name ++ b':' ∷ show_ℤ (unix run_at)

unfoldable pub lock_key : Task → ℤ → Text
lock_key t run_at = codes "scheduler:" ++ run_name t.name run_at

abbrev pub misfire_skip : Text
misfire_skip = codes "skip"

abbrev pub misfire_fire_once : Text
misfire_fire_once = codes "fire_once"

abbrev misfire_grace_window : ℤ
misfire_grace_window = pos 500_000_000

-- The run that runTaskLoop dispatches when it wakes up, if it does: a task may skip a run that it is
-- late for, or run at the time it woke up.
unfoldable pub due : Task → ℤ → ℤ → Option ℤ
unfolding ◌+ℤ◌
due t next_run actual_now =
    if ltb_ℤ (next_run +ℤ misfire_grace_window) actual_now && eq_text t.misfire_policy misfire_skip
    then none
    else if ltb_ℤ next_run actual_now && eq_text t.misfire_policy misfire_fire_once
    then some actual_now
    else some next_run

-- A lock without a time to live of its own has that of the configuration.
unfoldable pub lock_ttl_of : ℤ → Task → ℤ
lock_ttl_of default_lock_ttl t = positive_or t.lock_ttl default_lock_ttl

unfoldable pub idempotency_key_of : Task → ℤ → Text
idempotency_key_of t run_at =
    let key = trim_space t.idempotency_key in if is_empty key then run_name t.name run_at else key

-- The job of a run, with its id, the time it is made at, and how a time is written.
unfoldable pub job_of : (ℤ → Text) → Text → ℤ → Task → ℤ → Job
unfolding idempotency_key_of
job_of format id now t run_at = record {
  id = id;
  name = trim_space t.job_name;
  queue = trim_space t.queue;
  payload = if is_empty t.payload then codes "{}" else t.payload;
  headers =
      insert (codes "scheduler_run_at") (format run_at)
        (insert (codes "scheduler_task") t.name t.headers);
  content_type = [];
  tenant_id = trim_space t.tenant_id;
  correlation_id = [];
  idempotency_key = idempotency_key_of t run_at;
  partition_key = [];
  run_at = run_at;
  attempt = pos 0;
  max_attempts = pos 0;
  created_at = now;
}

-- errors.Join of two.
unfoldable pub join : Option Err → Option Err → Option Err
join none f = f
join (some e) none = some e
join (some e) (some f) = some (joined e f)

unfoldable pub retry_error : Text → Err → Err
unfolding scheduler_error
retry_error text e = joined (scheduler_error scheduler_retryable text) e

module _ (env : Environment) where
  -- The ticker's loop: a renewal that fails ends it.
  unfoldable pub renew_loop : LockLease → ℤ → ℕ → Run Call (Option Err)
  unfolding retry_error
  renew_loop l ttl zero = pure none
  renew_loop l ttl (suc ticks) = do
    failure ← perform (renew l ttl) env.renewed
    elim failure [
      | some e ↦ pure (some (retry_error (codes "renew lock failed") e))
      | none ↦ renew_loop l ttl ticks
    ]

  -- Without a lease or a time to live nothing is renewed.
  unfoldable pub renewals : Option LockLease → ℤ → ℕ → Run Call (Option Err)
  unfolding renew_loop
  renewals none ttl ticks = pure none
  renewals (some l) ttl ticks = if leb_ℤ ttl (pos 0) then pure none else renew_loop l ttl ticks

  -- A loop that has ended does not go on.
  unfoldable pub renew_on : Option LockLease → ℤ → ℕ → Option Err → Run Call (Option Err)
  unfolding renewals
  renew_on l ttl ticks none = renewals l ttl ticks
  renew_on l ttl ticks (some e) = pure (some e)

  unfoldable pub release_lease : Option LockLease → Run Call (Option Err)
  release_lease none = pure none
  release_lease (some l) = perform (release l) env.released

  -- What is done under the lock.
  unfoldable pub run_locked : Option LockLease → ℤ → ℕ → ℕ → Job → Run Call (Option Err)
  unfolding renewals renew_on release_lease join
  run_locked l ttl before during job = do
    early ← renewals l ttl before
    enqueue_error ← perform (enqueue job) env.enqueued
    renew_error ← renew_on l ttl during early
    release_error ← release_lease l
    pure (join (join enqueue_error renew_error) release_error)

  unfoldable pub after_acquire :
      ℤ → ℕ → ℕ → Job → Result (Option LockLease × Bool) → Run Call (Option Err)
  unfolding run_locked retry_error
  after_acquire ttl before during job (err e) =
      pure (some (retry_error (codes "acquire lock failed") e))
  after_acquire ttl before during job (ok (l, false)) = pure none
  after_acquire ttl before during job (ok (l, true)) = run_locked l ttl before during job

  unfoldable pub dispatch : ℤ → ℕ → ℕ → (ℤ → Text) → Text → ℤ → Task → ℤ → Run Call (Option Err)
  unfolding after_acquire
  dispatch default_lock_ttl before during format id now t run_at = do
    let ttl = lock_ttl_of default_lock_ttl t
    answer ← perform (acquire (lock_key t run_at) ttl) env.acquired
    after_acquire ttl before during (job_of format id now t run_at) answer
