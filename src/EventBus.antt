-- ===== src/EventBus.antt =====
-- pkg/eventbus/retry_dlq.go: consumption of one message with retries, a circuit breaker, and the
-- dead-letter topic or the quarantine behind them. The handler, the producer, the sink, the
-- timers and the clock are the environment; log lines are left out, and of the metrics the
-- counters that the consumer itself moves are kept.
pub mod Consume
mod Handover
pub mod Delivery
pub mod Masking
mod Examples
use nimburion.Base.{
  ℕ, ◌*◌, Text, codes, List, [], Bool, Option, none, some, ℤ, pos, leb_ℤ, ltb_ℤ, eq_ℤ, is_empty,
  if◌then◌else◌,
}
use nimburion.Errors.{Err}
use nimburion.Retry.{positive_or, QuarantineRecord}
use nimburion.Breaker.{Race}

pub record Message : Type 0 where
  pub id : Text
  pub key : Text
  pub value : List ℕ
  pub headers : List (Text × Text)
  pub content_type : Text
  pub timestamp : ℤ

pub record DlqPayload : Type 0 where
  pub original_topic : Text
  pub original_id : Text
  pub original_key : Text
  pub original_body : List ℕ
  pub original_header : List (Text × Text)
  pub failure_reason : Text
  pub stack_trace : Text
  pub attempt_count : ℤ
  pub failed_at : ℤ

-- The message for the dead-letter topic; the payload stands for its JSON text.
pub record DlqMessage : Type 0 where
  pub id : Text
  pub key : Text
  pub value : DlqPayload
  pub headers : List (Text × Text)
  pub content_type : Text
  pub timestamp : ℤ

pub record RetryDlqConfig : Type 0 where
  pub max_retries : ℤ
  pub initial_backoff : ℤ
  pub max_backoff : ℤ
  pub attempt_timeout : ℤ
  pub circuit_breaker_failures : ℤ
  pub circuit_breaker_reset : ℤ
  pub dlq_topic_suffix : Text

abbrev pub second : ℕ
second = 1_000_000_000

-- The two tests on `MaxRetries` together replace every value that is not positive.
unfoldable pub normalize : RetryDlqConfig → RetryDlqConfig
normalize c =
    let floored = if ltb_ℤ c.max_retries (pos 0) then pos 0 else c.max_retries in
    record {
      max_retries = if eq_ℤ floored (pos 0) then pos 5 else floored;
      initial_backoff = positive_or c.initial_backoff (pos second);
      max_backoff = positive_or c.max_backoff (pos (60 * second));
      attempt_timeout = positive_or c.attempt_timeout (pos (30 * second));
      circuit_breaker_failures = positive_or c.circuit_breaker_failures (pos 5);
      circuit_breaker_reset = positive_or c.circuit_breaker_reset (pos (30 * second));
      dlq_topic_suffix = if is_empty c.dlq_topic_suffix then codes ".dlq" else c.dlq_topic_suffix;
    }

pub data Call : Type 0 where
  -- one run of the handler under its timeout
  handles : Message → Call
  -- time.After(delay)
  waits : ℤ → Call
  publishes : Text → DlqMessage → Call
  quarantines : QuarantineRecord → Call
  inc_retry : Text → Call
  inc_processed inc_dlq inc_dlq_failure : Call

-- The answers: how the handler's race with its timeout ended, whether the context was done
-- before the timer, the broker's and the sink's errors, the clock, and debug.Stack().
pub record Environment : Type 0 where
  pub runs : List Call → Race
  pub interrupts : List Call → Option Err
  pub sends : List Call → Option Err
  pub stores : List Call → Option Err
  pub clock : List Call → ℤ
  pub stack : List Call → Text
