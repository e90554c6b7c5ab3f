-- ===== src/Breaker.antt =====
-- pkg/resilience/circuitbreaker.go and timeout.go. Each of the breaker's methods runs under its
-- mutex, so a method is one step; `Execute` is three steps with the guarded call between them.
-- Times are nanoseconds; the counters wrap at 64 bits.
pub mod Tripping
pub mod Probing
pub mod Interleavings
mod Examples
use nimburion.Base.{
  List, Bool, true, false, Option, none, some, ℤ, pos, leb_ℤ, ltb_ℤ, inc_64, sub_time,
  if◌then◌else◌,
}
use nimburion.Errors.{Err, sentinel, circuit_open, timed_out, canceled}
use nimburion.Effect.{Run}

pub data State : Type 0 where
  closed open_circuit half_open : State

pub record CircuitBreaker : Type 0 where
  pub max_failures : ℤ
  pub timeout : ℤ
  pub state : State
  pub failures : ℤ
  pub successes : ℤ
  pub last_fail_time : ℤ

-- The zero time stands in `lastFailTime` until the first failure.
unfoldable pub new : ℤ → ℤ → CircuitBreaker
new max_failures timeout = record {
  max_failures = max_failures;
  timeout = timeout;
  state = closed;
  failures = pos 0;
  successes = pos 0;
  last_fail_time = pos 0;
}

admit : State → ℤ → CircuitBreaker → Bool × CircuitBreaker
admit closed now cb = (true, cb)
admit open_circuit now cb =
    if ltb_ℤ cb.timeout (sub_time now cb.last_fail_time)
    then (true, record cb { state = half_open; successes = pos 0 })
    else (false, cb)
admit half_open now cb = (true, cb)

unfoldable pub can_execute : ℤ → CircuitBreaker → Bool × CircuitBreaker
unfolding admit
can_execute now cb = admit cb.state now cb

fail_in : State → CircuitBreaker → CircuitBreaker
fail_in half_open cb = record cb { state = open_circuit; failures = pos 0; successes = pos 0 }
fail_in _ cb =
    let counted = record cb { failures = inc_64 cb.failures } in
    if leb_ℤ cb.max_failures (inc_64 cb.failures)
    then record counted { state = open_circuit }
    else counted

unfoldable pub record_failure : ℤ → CircuitBreaker → CircuitBreaker
unfolding fail_in
record_failure now cb = fail_in cb.state (record cb { last_fail_time = now })

succeed_in : State → CircuitBreaker → CircuitBreaker
succeed_in half_open cb = record cb { state = closed; failures = pos 0; successes = pos 0 }
succeed_in closed cb = record cb { failures = pos 0 }
succeed_in open_circuit cb = cb

unfoldable pub record_success : CircuitBreaker → CircuitBreaker
unfolding succeed_in
record_success cb = succeed_in cb.state cb

unfoldable pub reset : CircuitBreaker → CircuitBreaker
reset cb = record cb { state = closed; failures = pos 0; successes = pos 0 }

unfoldable pub get_state : CircuitBreaker → State
get_state cb = cb.state

unfoldable pub get_failures : CircuitBreaker → ℤ
get_failures cb = cb.failures

-- The time that time.Now reads depends on the calls made so far.
settle : Option Err → ℤ → CircuitBreaker → CircuitBreaker
settle none now cb = record_success cb
settle (some e) now cb = record_failure now cb

-- `fn` runs only if the breaker lets it; the caller gets its error, or ErrCircuitBreakerOpen.
unfoldable pub execute {ℓ} :
    {C : Type ℓ}
    → (List C → ℤ)
    → Run C (Option Err)
    → CircuitBreaker
    → Run C (Option Err × CircuitBreaker)
unfolding can_execute record_failure record_success settle
execute clock fn cb calls =
    let (allowed, cb') = can_execute (clock calls) cb in
    let (e, calls') = fn calls in
    if allowed
    then ((e, settle e (clock calls') cb'), calls')
    else ((some (sentinel circuit_open), cb'), calls)

-- timeout.go: how the race between the function and its context ends. Where the parent's
-- deadline passes first the context's error is DeadlineExceeded too.
pub data Race : Type 0 where
  finished : Option Err → Race
  deadline : Race
  cancelled : Race

unfoldable pub with_timeout : Race → Option Err
with_timeout (finished e) = e
with_timeout deadline = some (sentinel timed_out)
with_timeout cancelled = some (sentinel canceled)
