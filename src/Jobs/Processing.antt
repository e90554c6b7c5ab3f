-- ===== src/Jobs/Processing.antt =====
-- The worker of worker.go: registration, one job from its handler to its settlement, the failure
-- path, and the loop of one queue. The backend, the handlers, the quarantine sink and the clock
-- are the environment; traces, log lines and the in-flight gauge are left out.
use nimburion.Base.{
  insert, lookup, ℕ, zero, suc, Text, codes, List, [], ◌∷◌, ◌++◌, Bool, Option, none, some, ℤ, pos,
  ltb_ℤ, inc_64, ◌+ℤ◌, is_empty, if◌then◌else◌, trim_space, show_ℤ,
}
use nimburion.Errors.{
  Err, joined, error_text, jobs_conflict, jobs_not_found, jobs_retryable, jobs_invalid_argument,
  tagged, poison,
}
use nimburion.Effect.{Run, Result, ok, err}
use nimburion.Retry.{
  Disposition, delayed_retry, immediate_retry, dead_letter, quarantine, drop, Decision,
  QuarantineRecord, classify, decide, positive_or,
}
use nimburion.Breaker.{Race, with_timeout}
use nimburion.Jobs.{Job, Lease, Worker, WorkerConfig, jobs_error}

-- Register: `none` is a nil handler.
unfoldable pub register : Worker → Text → Option ℕ → Result Worker
unfolding jobs_error
register w name handler =
    if is_empty (trim_space name)
    then err (jobs_error jobs_invalid_argument (codes "job name is required"))
    else elim handler [
      | none ↦ err (jobs_error jobs_invalid_argument (codes "handler is required"))
      | some h ↦ ok (record w { handlers = insert (trim_space name) h w.handlers })
    ]

unfoldable pub lookup_handler : Worker → Text → Option ℕ
lookup_handler w name = lookup (trim_space name) w.handlers

pub data Call : Type 0 where
  reserve : Text → ℤ → Call
  -- one run of a handler under its timeout, with the renewal of the lease beside it
  handle : ℕ → Job → Lease → Call
  ack : Lease → Call
  nack : Lease → ℤ → Err → Call
  move_to_dlq : Lease → Err → Call
  quarantines : QuarantineRecord → Call
  -- recordJobProcessed, recordJobRetry, recordJobDLQ
  record_processed : Text → Text → Text → Call
  record_retry record_dlq : Text → Text → Call

-- What Reserve returns.
pub data Reservation : Type 0 where
  reserved : Option Job → Option Lease → Reservation
  refused : Err → Reservation

-- The answers. `renewals` is the error of the backend that ended the renewal of the lease.
pub record Environment : Type 0 where
  pub reservations : List Call → Reservation
  pub runs : List Call → Race
  pub renewals : List Call → Option Err
  pub acks : List Call → Option Err
  pub nacks : List Call → Option Err
  pub moves : List Call → Option Err
  pub stores : List Call → Option Err
  pub clock : List Call → ℤ
  pub stopped : List Call → Bool

-- errors.Join(jobsError(ErrRetryable, text), err)
unfoldable pub retryable_error : Text → Err → Err
unfolding jobs_error
retryable_error text e = joined (jobs_error jobs_retryable text) e

-- The limit of the job, or of the worker.
unfoldable pub max_attempts_of : WorkerConfig → Job → ℤ
max_attempts_of c j =
    let chosen = if ltb_ℤ (pos 0) j.max_attempts then j.max_attempts else c.retry.max_attempts in
    positive_or chosen (pos 1)

module _ (env : Environment) (w : Worker) where
  -- A backend call, and the metrics behind it, or the error that wraps the backend's.
  unfoldable pub settled :
      Call → (List Call → Option Err) → Text → Option Err → List Call → Run Call (Option Err)
  unfolding retryable_error
  settled k answer text result counts calls =
      let made = k ∷ calls in
      elim (answer made) [
        | some e ↦ (some (retryable_error text e), made)
        | none ↦ (result, counts ++ made)
      ]

  unfoldable pub failure_decision : Job → Err → Decision
  failure_decision j failure =
      let limit = max_attempts_of w.config j in
      decide (classify (some failure)) (inc_64 j.attempt) limit
        (record {
          max_attempts = limit;
          initial_backoff = w.config.retry.initial_backoff;
          max_backoff = w.config.retry.max_backoff;
          attempt_timeout = w.config.retry.attempt_timeout;
        })
        (record {
          dead_letter_enabled = w.config.dlq.enabled;
          quarantine_enabled = w.config.dlq.has_quarantine;
        })

  quarantine_record : Job → Err → Decision → ℤ → QuarantineRecord
  quarantine_record j failure d now = record {
    scope = codes "jobs";
    key = j.queue ++ (codes ":" ++ j.id);
    classification = d.classification;
    reason = error_text failure;
    attempt = d.attempt;
    max_attempts = d.max_attempts;
    occurred_at = now;
    metadata = (codes "queue", j.queue) ∷ (codes "job_id", j.id) ∷ (codes "job_name", j.name) ∷ [];
  }

  processed : Job → Text → Call
  processed j status = record_processed j.queue j.name status

  retry_job : Job → Lease → Err → ℤ → Run Call (Option Err)
  unfolding settled processed
  retry_job j l failure delay calls =
      settled (nack l (env.clock calls +ℤ delay) failure) env.nacks (codes "nack failed") none
        (processed j (codes "retry") ∷ record_retry j.queue j.name ∷ []) calls

  move_job : Job → Lease → Err → Run Call (Option Err)
  unfolding settled processed
  move_job j l failure calls =
      settled (move_to_dlq l failure) env.moves (codes "dlq move failed") none
        (processed j (codes "dlq") ∷ record_dlq j.queue j.name ∷ []) calls

  drop_job : Job → Lease → Err → Run Call (Option Err)
  unfolding settled processed
  drop_job j l failure calls =
      settled (ack l) env.acks (codes "ack failed while dropping job")
        (some (
          joined
            (jobs_error jobs_conflict (
              codes "job dropped after "
              ++ (show_ℤ (max_attempts_of w.config j) ++ codes " attempts")))
            failure))
        (processed j (codes "dropped") ∷ []) calls

  quarantine_job : Job → Lease → Err → Decision → Run Call (Option Err)
  unfolding settled processed quarantine_record
  quarantine_job j l failure d calls =
      let stored = quarantines (quarantine_record j failure d (env.clock calls)) ∷ calls in
      elim (env.stores stored) [
        | some e ↦ (some (retryable_error (codes "quarantine failed") e), stored)
        | none ↦
            settled (ack l) env.acks (codes "ack failed after quarantine") none
              (processed j (codes "quarantine") ∷ []) stored
      ]

  unfoldable pub dispose : Disposition → Job → Lease → Err → Decision → Run Call (Option Err)
  unfolding retry_job move_job drop_job quarantine_job
  dispose delayed_retry j l failure d = retry_job j l failure d.delay
  dispose dead_letter j l failure d = move_job j l failure
  dispose quarantine j l failure d =
      if w.config.dlq.has_quarantine then quarantine_job j l failure d else move_job j l failure
  dispose immediate_retry j l failure d = drop_job j l failure
  dispose drop j l failure d = drop_job j l failure

  unfoldable pub handle_failure : Job → Lease → Err → Run Call (Option Err)
  unfolding dispose
  handle_failure j l failure =
      let d = failure_decision j failure in dispose d.disposition j l failure d

  -- The handler's error and that of the renewal, joined where there are both.
  unfoldable pub both_errors : Option Err → Option Err → Option Err
  both_errors e none = e
  both_errors none (some r) = some (retryable_error (codes "renew lease failed") r)
  both_errors (some e) (some r) = some (joined e (retryable_error (codes "renew lease failed") r))

  unfoldable pub after_handler : Job → Lease → Option Err → Run Call (Option Err)
  unfolding settled processed
  after_handler j l (some e) calls = handle_failure j l e calls
  after_handler j l none calls =
      settled (ack l) env.acks (codes "ack failed") none (processed j (codes "success") ∷ []) calls

  -- The quotes stand for %q, which also escapes what the name holds of quotes and control
  -- characters.
  unfoldable pub missing_handler : Job → Err
  missing_handler j = tagged poison (
      jobs_error jobs_not_found
        (codes "handler not registered for job \"" ++ (j.name ++ codes "\"")))

  unfoldable pub process : Job → Lease → Run Call (Option Err)
  unfolding after_handler both_errors missing_handler lookup_handler
  process j l calls = elim (lookup_handler w j.name) [
    | none ↦ handle_failure j l (missing_handler j) calls
    | some h ↦
        let made = handle h j l ∷ calls in
        after_handler j l (both_errors (with_timeout (env.runs made)) (env.renewals made)) made
  ]

  -- What `runQueueLoop` does with a reservation.
  unfoldable pub serve : Text → Reservation → Run Call (Unit {0})
  serve queue (refused e) calls = (tt, calls)
  serve queue (reserved none lease) calls = (tt, calls)
  serve queue (reserved (some j) none) calls = (tt, calls)
  serve queue (reserved (some j) (some l)) calls =
      let (e, done) = process j l calls in
      elim e [
        | none ↦ (tt, done)
        | some f ↦ (tt, record_processed queue j.name (codes "error") ∷ done)
      ]

  -- The first rounds of `runQueueLoop`, which ends when the context is done.
  unfoldable pub queue_loop : ℕ → Text → Run Call (Unit {0})
  queue_loop zero queue calls = (tt, calls)
  queue_loop (suc rounds) queue calls =
      let asked = reserve queue w.config.lease_ttl ∷ calls in
      let next = queue_loop rounds queue (serve queue (env.reservations asked) asked).1 in
      if env.stopped calls then (tt, calls) else next
