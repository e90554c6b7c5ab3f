-- ===== src/EventBus/Delivery.antt =====
-- What becomes of a message: it is handled, it is given back when the context is done, or it goes
-- to exactly one of the quarantine and the dead-letter topic.
use nimburion.Base.{
  is_empty, Bool-cases, Bool, true, false, not, ◌&&◌, ℕ, zero, suc, ◌+◌, ◌≤◌, Text, List, ◌∷◌,
  is_none, false, Option, none, some, ℤ, pos, pos_part, ◌≡◌, refl, ◌⊎◌, inl, inr, arith, inc_64,
  Option-cases,
}
use nimburion.Errors.{Err, sentinel, circuit_open, error_text}
use nimburion.Retry.{Budget}
use nimburion.Breaker
use nimburion.Breaker.{CircuitBreaker, with_timeout}
use nimburion.EventBus.{Message, normalize, Call, handles, waits, inc_processed, Environment}
use nimburion.EventBus.Consume.{
  Consumer, LoopEnd, processed, interrupted, gave_up, handle, count_retry, attempt_decision,
  attempt_loop, conclude, consume, consume_with_retry, budget_of,
}
use nimburion.EventBus.Handover.{tries, handed, IsHandedOver, dispose-Handed}

-- The last thing that happened is a run of the handler without an error, and its count.
abbrev pub JustHandled : Environment → List Call → Type 0
JustHandled env (inc_processed ∷ calls) = JustHandled env calls
JustHandled env (handles m ∷ calls) = with_timeout (env.runs (handles m ∷ calls)) ≡ none
JustHandled env _ = ⊥

-- The last thing that happened is that the context was done before a timer.
abbrev pub JustInterrupted : Environment → Err → List Call → Type 0
JustInterrupted env cause (waits d ∷ calls) = env.interrupts (waits d ∷ calls) ≡ some cause
JustInterrupted env cause _ = ⊥

module _ (env : Environment) (c : Consumer) (m : Message) where
  abbrev Left : LoopEnd → List Call → Type 0
  Left processed calls = JustHandled env calls
  Left (interrupted cause) calls = JustInterrupted env cause calls
  Left (gave_up used last) calls = Unit {0}

  record Looped (rounds : ℕ) (calls : List Call) (t : LoopEnd × List Call) : Type 0 where
    left : Left t.0 t.1
    quiet : handed t.1 ≡ handed calls
    few : tries t.1 ≤ rounds + tries calls

  execute-cases :
      (b : CircuitBreaker) (calls : List Call)
      → let r = Breaker.execute env.clock (handle env c m) b calls in
        ((r.1 ≡ calls) × (r.0.0 ≡ some (sentinel circuit_open)))
        ⊎ ((r.1 ≡ handles m ∷ calls) × (r.0.0 ≡ with_timeout (env.runs (handles m ∷ calls))))
  unfolding Breaker.execute
  execute-cases b calls = ground arith

  handed-count_retry :
      (t : Text) (calls : List Call) → handed (count_retry env c m t calls).1 ≡ handed calls
  unfolding count_retry
  handed-count_retry t calls = ground arith

  tries-count_retry :
      (t : Text) (calls : List Call) → tries (count_retry env c m t calls).1 ≡ tries calls
  unfolding count_retry
  tries-count_retry t calls = ground arith

  attempt_loop-Looped :
      (b : Budget) (rounds : ℕ) (attempt : ℤ) (breaker : CircuitBreaker) (used : ℤ)
      (last : Option Err) (calls : List Call)
      → Looped rounds calls (attempt_loop env c m b rounds attempt breaker used last calls)
  unfolding attempt_loop
  attempt_loop-Looped b zero attempt breaker used last calls = record {
    left = tt;
    quiet = refl;
    few = omega arith;
  }
  attempt_loop-Looped b (suc rounds) attempt breaker used last calls =
      let r = Breaker.execute env.clock (handle env c m) breaker calls in
      elim (Option-cases r.0.0) [
        | inl fine ↦ ground (arith, execute-cases breaker calls)
        | inr (f, bad) ↦
            let counted = (count_retry env c m (error_text f) r.1).1 in
            let waited = waits (attempt_decision env c m b attempt f).delay ∷ counted in
            ground (
              arith,
              execute-cases breaker calls,
              handed-count_retry (error_text f) r.1,
              tries-count_retry (error_text f) r.1,
              attempt_loop-Looped b rounds (inc_64 attempt) r.0.1 attempt (some f) waited,
            )
      ]

  -- The three ways out of `ConsumeWithRetry` for arguments that are not nil.
  abbrev pub Ended : List Call → Option Err × List Call → Type 0
  Ended calls r =
      ((r.0 ≡ none) × JustHandled env r.1 × (handed r.1 ≡ handed calls))
      ⊎ ((e : Err) × (r.0 ≡ some e) × JustInterrupted env e r.1 × (handed r.1 ≡ handed calls))
      ⊎ ((sink : Call) × (is_none r.0 ≡ false)
          × IsHandedOver c m sink
          × (handed r.1 ≡ sink ∷ handed calls))

  conclude-Ended :
      (rounds : ℕ) (end : LoopEnd) (calls tried : List Call)
      → Looped rounds calls (end, tried)
      → let r = conclude env c m (normalize c.config) end tried in
        Ended calls r × (tries r.1 ≤ rounds + tries calls)
  unfolding conclude
  conclude-Ended rounds processed calls tried v = (inl (refl, v.left, v.quiet), v.few)
  conclude-Ended rounds (interrupted cause) calls tried v =
      (inr (inl (cause, refl, v.left, v.quiet)), v.few)
  conclude-Ended rounds (gave_up used last) calls tried v =
      let (failed, (sink, is, h, t)) = dispose-Handed env c m used last tried in
      (inr (inr (sink, failed, is, cc (h, v.quiet))), omega (arith, t, v.few))

  consume-Ended :
      (calls : List Call)
      → Ended calls (consume env c m calls)
        × (tries (consume env c m calls).1
            ≤ pos_part (budget_of (normalize c.config)).max_attempts + tries calls)
  unfolding consume
  consume-Ended calls =
      let config = normalize c.config in
      let b = budget_of config in
      let breaker = Breaker.new config.circuit_breaker_failures config.circuit_breaker_reset in
      let rounds = pos_part b.max_attempts in
      let t = attempt_loop env c m b rounds (pos 1) breaker (pos 0) none calls in
      conclude-Ended rounds t.0 calls t.1
        (attempt_loop-Looped b rounds (pos 1) breaker (pos 0) none calls)

-- An error is returned, and nothing happens.
abbrev pub Rejected : List Call → Option Err × List Call → Type 0
Rejected calls r = (is_none r.0 ≡ false) × (r.1 ≡ calls)

abbrev pub Consumed : Environment → Consumer → Message → List Call → Option Err × List Call → Type 0
Consumed env c m calls r =
    Ended env c m calls r
    × (tries r.1 ≤ pos_part (budget_of (normalize c.config)).max_attempts + tries calls)

-- A message that is consumed is never lost. Where an argument is missing or the topic is empty, an
-- error is returned and nothing happens. Otherwise its handler has just run without an error and
-- nothing is sent; or the context was done while a retry was awaited, its error is returned and
-- nothing is sent; or an error is returned and the message was handed over exactly once: to the
-- dead-letter topic, which is the consumer's with the suffix, with its id, key, headers and body,
-- or, where there is one, to the quarantine, under its topic and id. The handler runs at most
-- `MaxRetries + 1` times.
pub consume_with_retry-Consumed :
    (env : Environment) (has_context : Bool) (c : Consumer) (m : Option Message)
    (has_handler has_producer has_log : Bool) (calls : List Call)
    → let r = consume_with_retry env has_context c m has_handler has_producer has_log calls in
      let complete =
        has_context
        && not (is_empty c.topic)
        && not (is_none m)
        && has_handler
        && has_producer
        && has_log in
      ((complete ≡ false) × Rejected calls r)
      ⊎ ((complete ≡ true) × (msg : Message) × (m ≡ some msg) × Consumed env c msg calls r)
unfolding consume_with_retry
consume_with_retry-Consumed env false c m h p l calls = inl (refl, (refl, refl))
consume_with_retry-Consumed env true c none h p l calls =
    inl (ground arith, (ground arith, ground arith))
consume_with_retry-Consumed env true c (some m) false p l calls =
    inl (ground arith, (ground arith, ground arith))
consume_with_retry-Consumed env true c (some m) true false l calls =
    inl (ground arith, (ground arith, ground arith))
consume_with_retry-Consumed env true c (some m) true true false calls =
    inl (ground arith, (ground arith, ground arith))
consume_with_retry-Consumed env true c (some m) true true true calls =
    elim (Bool-cases (is_empty c.topic)) [
      | inl unnamed ↦
          inl (ground (arith, unnamed), (ground (arith, unnamed), ground (arith, unnamed)))
      | inr named ↦ rw named (inr (refl, m, refl, consume-Ended env c m calls))
    ]
