-- ===== src/Breaker/Interleavings.antt =====
-- Any interleaving of concurrent callers is a list of the breaker's critical sections.
use nimburion.Base.{◌≡◌, ◌⊎◌, List, [], ◌∷◌, arith, ℤ, pos, ◌<ℤ◌}
use nimburion.Breaker.{
  State, closed, CircuitBreaker, new, can_execute, record_failure, record_success, reset,
}

pub data Event : Type 0 where
  asks : ℤ → Event
  fails : ℤ → Event
  succeeds : Event
  resets : Event

unfoldable pub step : CircuitBreaker → Event → CircuitBreaker
step cb (asks now) = (can_execute now cb).1
step cb (fails now) = record_failure now cb
step cb succeeds = record_success cb
step cb resets = reset cb

unfoldable pub run : CircuitBreaker → List Event → CircuitBreaker
run cb [] = cb
run cb (e ∷ es) = run (step cb e) es

-- A closed breaker has counted fewer failures than its limit, or none.
abbrev pub Below : State → ℤ → ℤ → Type 0
Below closed n m = (n ≡ pos 0) ⊎ (n <ℤ m)
Below _ n m = Unit {0}

pub record Inv (m timeout : ℤ) (cb : CircuitBreaker) : Type 0 where
  pub limit : cb.max_failures ≡ m
  pub patience : cb.timeout ≡ timeout
  pub below : Below cb.state cb.failures m

step-Inv :
    (m timeout : ℤ) (cb : CircuitBreaker) (e : Event) → Inv m timeout cb → Inv m timeout (step cb e)
unfolding step can_execute record_failure record_success reset
step-Inv m timeout cb (asks now) v = ground arith
step-Inv m timeout cb (fails now) v = ground arith
step-Inv m timeout cb succeeds v = ground arith
step-Inv m timeout cb resets v = ground arith

run-Inv :
    (m timeout : ℤ) (cb : CircuitBreaker) (es : List Event)
    → Inv m timeout cb
    → Inv m timeout (run cb es)
unfolding run
run-Inv m timeout cb [] v = v
run-Inv m timeout cb (e ∷ es) v = run-Inv m timeout (step cb e) es (step-Inv m timeout cb e v)

-- However many callers interleave their steps from a new breaker on, the limit and the timeout
-- stay, and while the breaker is closed it has counted no failure or fewer than its limit.
pub run-new-Inv : (m timeout : ℤ) (es : List Event) → Inv m timeout (run (new m timeout) es)
unfolding new
run-new-Inv m timeout es = run-Inv m timeout (new m timeout) es (ground arith)
