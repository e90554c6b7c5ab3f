-- ===== src/EventBus/Consume.antt =====
-- `ConsumeWithRetry` and `sendToDLQ`.
use nimburion.Base.{
  ℕ, zero, suc, Text, codes, [], ◌∷◌, ◌++◌, Bool, true, false, not, Option, none, some, ℤ, pos,
  pos_part, List, inc_64, is_empty, if◌then◌else◌, show_ℤ,
}
use nimburion.Errors.{Err, message, wrapped, wrapped_two, error_text}
use nimburion.Effect.{Run, pure, perform, ◌>>=◌}
use nimburion.Retry.{
  Budget, Disposition, delayed_retry, quarantine, Decision, QuarantineRecord, classify, decide,
}
use nimburion.Breaker
use nimburion.Breaker.{CircuitBreaker, with_timeout}
use nimburion.EventBus.{
  Message, DlqPayload, DlqMessage, RetryDlqConfig, normalize, Call, handles, waits, publishes,
  quarantines, inc_retry, inc_processed, inc_dlq, inc_dlq_failure, Environment,
}

-- The arguments; the flags say which of them are not nil.
pub record Consumer : Type 0 where
  pub topic : Text
  pub has_quarantine : Bool
  pub has_metrics : Bool
  pub config : RetryDlqConfig

-- How the loop is left.
pub data LoopEnd : Type 0 where
  processed : LoopEnd
  interrupted : Err → LoopEnd
  gave_up : ℤ → Option Err → LoopEnd

abbrev pub is_retry : Disposition → Bool
is_retry delayed_retry = true
is_retry _ = false

abbrev pub is_quarantine : Disposition → Bool
is_quarantine quarantine = true
is_quarantine _ = false

-- fmt.Errorf(prefix + "%w", lastErr)
abbrev wrap_last : Text → Option Err → Err
wrap_last t none = message (t ++ codes "%!w(<nil>)")
wrap_last t (some e) = wrapped t e

abbrev wrap_last_two : Text → Option Err → Text → Err → Err
wrap_last_two t none u f = wrapped (t ++ (codes "%!w(<nil>)" ++ u)) f
wrap_last_two t (some e) u f = wrapped_two t e u f

abbrev last_text : Option Err → Text
last_text none = []
last_text (some e) = error_text e

-- `attempts` is `MaxRetries + 1` on 64 bits.
abbrev pub budget_of : RetryDlqConfig → Budget
budget_of c = record {
  max_attempts = inc_64 c.max_retries;
  initial_backoff = c.initial_backoff;
  max_backoff = c.max_backoff;
  attempt_timeout = c.attempt_timeout;
}

module _ (env : Environment) (c : Consumer) (m : Message) where
  unfoldable pub count : Call → Run Call (Unit {0})
  count k = if c.has_metrics then perform k (λ _. tt) else pure tt

  unfoldable pub count_retry : Text → Run Call (Unit {0})
  unfolding count
  count_retry reason = count (inc_retry (if is_empty reason then codes "unknown" else reason))

  abbrev pub handle : Run Call (Option Err)
  handle calls = let made = handles m ∷ calls in (with_timeout (env.runs made), made)

  -- The decision behind a failed attempt. Quarantine plays no part in it.
  abbrev pub attempt_decision : Budget → ℤ → Err → Decision
  attempt_decision b attempt e =
      decide (classify (some e)) attempt b.max_attempts b
        (record { dead_letter_enabled = true; quarantine_enabled = false })

  -- The `for` loop with the rounds left, the attempt, the breaker, and what the round before left.
  unfoldable pub attempt_loop : Budget → ℕ → ℤ → CircuitBreaker → ℤ → Option Err → Run Call LoopEnd
  unfolding count_retry count
  attempt_loop b zero attempt breaker used last calls = (gave_up used last, calls)
  attempt_loop b (suc rounds) attempt breaker used last calls =
      let ((e, breaker'), tried) = Breaker.execute env.clock handle breaker calls in
      elim e [
        | none ↦ (processed, (count inc_processed tried).1)
        | some f ↦
            let counted = (count_retry (error_text f) tried).1 in
            let d = attempt_decision b attempt f in
            let waited = waits d.delay ∷ counted in
            elim (is_retry d.disposition) [
              | false ↦ (gave_up attempt (some f), counted)
              | true ↦ elim (env.interrupts waited) [
                | some cause ↦ (interrupted cause, waited)
                | none ↦ attempt_loop b rounds (inc_64 attempt) breaker' attempt (some f) waited
              ]
            ]
      ]

  -- The message that sendToDLQ publishes.
  abbrev pub dlq_message : Option Err → ℤ → List Call → DlqMessage
  dlq_message failure attempts calls =
      let payload : DlqPayload = record {
        original_topic = c.topic;
        original_id = m.id;
        original_key = m.key;
        original_body = m.value;
        original_header = m.headers;
        failure_reason = elim failure [ none ↦ codes "unknown failure" | some e ↦ error_text e ];
        stack_trace = env.stack calls;
        attempt_count = attempts;
        failed_at = env.clock calls;
      } in
      record {
        id = m.id;
        key = m.key;
        value = payload;
        headers = (codes "dlq", codes "true") ∷ (codes "original_topic", c.topic) ∷ [];
        content_type = codes "application/json";
        timestamp = env.clock calls;
      }

  -- sendToDLQ, with a producer and a message that are not nil.
  unfoldable pub send_to_dlq : Text → Option Err → ℤ → Run Call (Option Err)
  send_to_dlq dlq_topic failure attempts calls =
      let sent = publishes dlq_topic (dlq_message failure attempts calls) ∷ calls in
      elim (env.sends sent) [
        | none ↦ (none, sent)
        | some e ↦ (some (wrapped (codes "publish dlq message failed: ") e), sent)
      ]

  after_dlq : ℤ → Option Err → Option Err → Run Call (Option Err)
  unfolding count
  after_dlq used last (some e) = do
    _ ← count inc_dlq_failure
    pure (
        some (
          wrap_last_two (codes "handler failed after retries (") last
            (codes ") and dlq publish failed: ") e))
  after_dlq used last none = do
    _ ← count inc_dlq
    pure (
        some
          (wrap_last (codes "handler failed after " ++ (show_ℤ used ++ codes " attempts: ")) last))

  after_quarantine : ℤ → Option Err → Option Err → Option Err
  after_quarantine used last (some e) = some (
      wrap_last_two (codes "handler failed after retries (") last
        (codes ") and quarantine failed: ") e)
  after_quarantine used last none =
      some (
        wrap_last (codes "handler quarantined after " ++ (show_ℤ used ++ codes " attempts: ")) last)

  abbrev pub quarantine_record : Decision → Option Err → ℤ → QuarantineRecord
  quarantine_record d last now = record {
    scope = codes "eventbus";
    key = c.topic ++ (codes ":" ++ m.id);
    classification = d.classification;
    reason = last_text last;
    attempt = d.attempt;
    max_attempts = d.max_attempts;
    occurred_at = now;
    metadata = (codes "topic", c.topic) ∷ (codes "message_id", m.id) ∷ [];
  }

  -- What follows the loop, unless the message was processed or the context was done.
  unfoldable pub dispose : RetryDlqConfig → ℤ → Option Err → Run Call (Option Err)
  unfolding after_dlq after_quarantine
  dispose config used last calls =
      let b = budget_of config in
      let d =
        decide (classify last) used b.max_attempts b
          (record { dead_letter_enabled = true; quarantine_enabled = c.has_quarantine }) in
      let stored = quarantines (quarantine_record d last (env.clock calls)) ∷ calls in
      elim (is_quarantine d.disposition) [
        | true ↦ (after_quarantine used last (env.stores stored), stored)
        | false ↦
            let (e, sent) = send_to_dlq (c.topic ++ config.dlq_topic_suffix) last used calls in
            after_dlq used last e sent
      ]

  unfoldable pub conclude : RetryDlqConfig → LoopEnd → Run Call (Option Err)
  conclude config processed calls = (none, calls)
  conclude config (interrupted cause) calls = (some cause, calls)
  conclude config (gave_up used last) calls = dispose config used last calls

  -- From the normalised configuration on.
  unfoldable pub consume : Run Call (Option Err)
  unfolding conclude
  consume calls =
      let config = normalize c.config in
      let b = budget_of config in
      let breaker = Breaker.new config.circuit_breaker_failures config.circuit_breaker_reset in
      let (end, tried) =
        attempt_loop b (pos_part b.max_attempts) (pos 1) breaker (pos 0) none calls in
      conclude config end tried

-- The checks of the arguments, in their order; a flag is false where the argument is nil.
unfoldable pub consume_with_retry :
    Environment → Bool → Consumer → Option Message → Bool → Bool → Bool → Run Call (Option Err)
consume_with_retry env has_context c m has_handler has_producer has_log calls =
    if not has_context
    then (some (message (codes "context is nil")), calls)
    else if is_empty c.topic
    then (some (message (codes "consumer topic is required")), calls)
    else elim m [
      | none ↦ (some (message (codes "message is nil")), calls)
      | some msg ↦
          if not has_handler
          then (some (message (codes "handler is required")), calls)
          else if not has_producer
          then (some (message (codes "producer is required")), calls)
          else if not has_log
          then (some (message (codes "logger is required")), calls)
          else consume env c msg calls
    ]
