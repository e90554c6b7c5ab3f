-- ===== src/EventBus/Masking.antt =====
-- The retries and the circuit breaker together: with the default configuration the breaker opens
-- before the last attempt.
use nimburion.Base.{
  ℕ, suc, Text, codes, List, [], ◌∷◌, false, Option, none, some, ℤ, pos, ◌+ℤ◌, double_64, half_64,
  inc_64, sub_time, ltb_ℤ, ◌<ℤ◌, ◌*◌, ◌∙◌, ap, ◌≡◌, refl, arith,
}
use nimburion.Errors.{Err, retryable, error_text, sentinel, circuit_open, find_tag}
use nimburion.Effect.{Run}
use nimburion.Retry.{Budget, classify, decide, exponential_backoff}
use nimburion.Breaker
use nimburion.Breaker.{Race, CircuitBreaker, finished, with_timeout}
use nimburion.EventBus.{
  Message, RetryDlqConfig, normalize, Call, handles, waits, publishes, Environment, second,
}
use nimburion.EventBus.Consume.{
  Consumer, LoopEnd, gave_up, consume, attempt_loop, send_to_dlq, dispose, conclude,
}
use nimburion.EventBus.Handover.{tries}

-- The time that the waits so far have taken.
abbrev pub waited : List Call → ℤ
waited [] = pos 0
waited (waits d ∷ calls) = d +ℤ waited calls
waited (_ ∷ calls) = waited calls

-- The failure reason and the attempt count of the last message for the dead-letter topic.
abbrev pub dead_letter : List Call → Option (Text × ℤ)
dead_letter [] = none
dead_letter (publishes t m ∷ calls) = some (m.value.failure_reason, m.value.attempt_count)
dead_letter (_ ∷ calls) = dead_letter calls

-- A handler that always fails with `e` and takes no time, no context that is done, and sinks
-- that take what they get; time passes only in the waits between the attempts.
abbrev pub failing : Err → Environment
failing e = record {
  runs = λ calls. finished (some e);
  interrupts = λ calls. none;
  sends = λ calls. none;
  stores = λ calls. none;
  clock = waited;
  stack = λ calls. [];
}

-- Every field left at its zero value.
abbrev pub defaults : RetryDlqConfig
defaults = record {
  max_retries = pos 0;
  initial_backoff = pos 0;
  max_backoff = pos 0;
  attempt_timeout = pos 0;
  circuit_breaker_failures = pos 0;
  circuit_breaker_reset = pos 0;
  dlq_topic_suffix = [];
}

abbrev pub default_consumer : Text → Consumer
default_consumer topic = record {
  topic = topic;
  has_quarantine = false;
  has_metrics = false;
  config = defaults;
}

module _ (e : Err) (topic : Text) (m : Message) (h : classify (some e) ≡ retryable) where
  abbrev env : Environment
  env = failing e

  abbrev consumer : Consumer
  consumer = default_consumer topic

  abbrev budget : Budget
  budget = record {
    max_attempts = pos 6;
    initial_backoff = pos second;
    max_backoff = pos (60 * second);
    attempt_timeout = pos (30 * second);
  }

  abbrev loop : ℕ → ℤ → CircuitBreaker → ℤ → Option Err → Run Call LoopEnd
  loop = attempt_loop env consumer m budget

  -- One failed attempt with a closed breaker, before the last.
  retried :
      (rounds : ℕ) (attempt : ℤ) (b : CircuitBreaker) (used : ℤ) (last : Option Err)
      (calls : List Call)
      → b.state ≡ Breaker.closed
      → attempt <ℤ pos 6
      → loop (suc rounds) attempt b used last calls
        ≡ loop rounds (inc_64 attempt) (Breaker.record_failure (waited calls) b) attempt (some e) (
            waits (exponential_backoff attempt (pos second) (pos (60 * second)))
            ∷ handles m
            ∷ calls)
  unfolding attempt_loop Breaker.execute decide with_timeout
  retried rounds attempt b used last calls c l = ground (arith, h)

  -- The last round: the breaker refuses, and the attempts are used up.
  refused :
      (b : CircuitBreaker) (used : ℤ) (last : Option Err) (calls : List Call)
      → b.state ≡ Breaker.open_circuit
      → ltb_ℤ b.timeout (sub_time (waited calls) b.last_fail_time) ≡ false
      → loop 1 (pos 6) b used last calls ≡ (gave_up (pos 6) (some (sentinel circuit_open)), calls)
  unfolding attempt_loop Breaker.execute decide classify find_tag
  refused b used last calls o t = ground arith

  abbrev wait : ℕ → List Call → List Call
  wait n calls = waits (pos (n * second)) ∷ handles m ∷ calls

  abbrev five : List Call
  five = wait 16 (wait 8 (wait 4 (wait 2 (wait 1 []))))

  abbrev start : CircuitBreaker
  start = Breaker.new (pos 5) (pos (30 * second))

  exhausted :
      loop 6 (pos 1) start (pos 0) none [] ≡ (gave_up (pos 6) (some (sentinel circuit_open)), five)
  unfolding Breaker.new Breaker.record_failure inc_64 exponential_backoff ◌+ℤ◌ double_64 half_64
      sub_time
  exhausted =
      retried 5 (pos 1) _ _ _ _ refl (omega arith)
      ∙ retried 4 (pos 2) _ _ _ _ refl (omega arith)
      ∙ retried 3 (pos 3) _ _ _ _ refl (omega arith)
      ∙ retried 2 (pos 4) _ _ _ _ refl (omega arith)
      ∙ retried 1 (pos 5) _ _ _ _ refl (omega arith)
      ∙ refused _ _ _ _ refl refl

-- With the default configuration, a handler that always fails with an error that may be retried
-- runs five times, not six: the sixth attempt meets the open breaker. The dead letter counts six
-- attempts, and names the breaker as the reason instead of the handler's error.
default_masks_failure :
    (e : Err) (topic : Text) (m : Message)
    → classify (some e) ≡ retryable
    → let calls = (consume (failing e) (default_consumer topic) m []).1 in
      (tries calls ≡ 5) × (dead_letter calls ≡ some (codes "circuit breaker is open", pos 6))
unfolding consume normalize inc_64 dispose decide classify find_tag send_to_dlq error_text
    exponential_backoff
default_masks_failure e topic m h =
    let c = default_consumer topic in
    let end : consume (failing e) c m []
        ≡ conclude (failing e) c m (normalize defaults)
            (gave_up (pos 6) (some (sentinel circuit_open))) (five e topic m h) =
      ap (λ (t : LoopEnd × List Call). conclude (failing e) c m (normalize defaults) t.0 t.1)
        (exhausted e topic m h) in
    (
      ap (λ (t : Option Err × List Call). tries t.1) end,
      ap (λ (t : Option Err × List Call). dead_letter t.1) end,
    )
