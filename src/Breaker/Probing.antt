-- ===== src/Breaker/Probing.antt =====
-- What one call of `Execute` does in each state of the breaker.
use nimburion.Base.{
  ◌≡◌, refl, ◌⊎◌, inl, inr, List, arith, ℤ, pos, leb_ℤ, ltb_ℤ, ◌≤ℤ◌, ◌<ℤ◌, inc_64, sub_time, Option,
  none, some, Bool-cases, if◌then◌else◌,
}
use nimburion.Errors.{Err, sentinel, circuit_open}
use nimburion.Effect.{Run}
use nimburion.Breaker.{
  State, closed, open_circuit, half_open, CircuitBreaker, can_execute, record_failure,
  record_success, execute, settle,
}

-- What one probe leaves behind: closed with no failure counted, or open again from now on.
abbrev pub Probed : Option Err → ℤ → CircuitBreaker → Type 0
Probed none now cb = (cb.state ≡ closed) × (cb.failures ≡ pos 0)
Probed (some e) now cb =
    (cb.state ≡ open_circuit) × (cb.failures ≡ pos 0) × (cb.last_fail_time ≡ now)

-- What a call through a closed breaker leaves behind: the failures in a row, and open at the limit.
abbrev pub Counted : CircuitBreaker → Option Err → ℤ → CircuitBreaker → Type 0
Counted before none now cb = (cb.state ≡ closed) × (cb.failures ≡ pos 0)
Counted before (some e) now cb =
    (cb.failures ≡ inc_64 before.failures)
    × (cb.last_fail_time ≡ now)
    × (cb.state
        ≡ (if leb_ℤ before.max_failures (inc_64 before.failures) then open_circuit else closed))

settle-Probed :
    (e : Option Err) (now : ℤ) (cb : CircuitBreaker)
    → cb.state ≡ half_open
    → Probed e now (settle e now cb)
unfolding settle record_failure record_success
settle-Probed none now cb h = ground arith
settle-Probed (some e) now cb h = ground arith

settle-Counted :
    (e : Option Err) (now : ℤ) (cb : CircuitBreaker)
    → cb.state ≡ closed
    → Counted cb e now (settle e now cb)
unfolding settle record_failure record_success
settle-Counted none now cb h = ground arith
settle-Counted (some e) now cb h = ground arith

State-cases : (s : State) → (s ≡ closed) ⊎ (s ≡ open_circuit) ⊎ (s ≡ half_open)
State-cases closed = inl refl
State-cases open_circuit = inr (inl refl)
State-cases half_open = inr (inr refl)

module _ {ℓ} {C : Type ℓ} (clock : List C → ℤ) (fn : Run C (Option Err)) (cb : CircuitBreaker) where
  abbrev elapsed : List C → ℤ
  elapsed calls = sub_time (clock calls) cb.last_fail_time

  -- Either refused without a call, or the function ran and its error is reported.
  abbrev pub Executed : List C → (Option Err × CircuitBreaker) × List C → Type ℓ
  Executed calls r =
      ((cb.state ≡ open_circuit)
        × (elapsed calls ≤ℤ cb.timeout)
        × (r ≡ ((some (sentinel circuit_open), cb), calls)))
      ⊎ (((cb.state ≡ half_open) ⊎ ((cb.state ≡ open_circuit) × (cb.timeout <ℤ elapsed calls)))
          × (r.0.0 ≡ (fn calls).0)
          × (r.1 ≡ (fn calls).1)
          × Probed (fn calls).0 (clock (fn calls).1) r.0.1)
      ⊎ ((cb.state ≡ closed)
          × (r.0.0 ≡ (fn calls).0)
          × (r.1 ≡ (fn calls).1)
          × Counted cb (fn calls).0 (clock (fn calls).1) r.0.1)

  -- While not more than the timeout has passed since an open breaker's last failure, `Execute`
  -- makes no call, returns ErrCircuitBreakerOpen and leaves the breaker as it was. In every
  -- other case it makes the call and reports its error. An open breaker and a half-open one are
  -- then closed by success and open again, from the end of the call on, by failure; a closed one
  -- forgets its failures on success, counts one more on failure, and opens at its limit.
  pub execute-Executed : (calls : List C) → Executed calls (execute clock fn cb calls)
  unfolding execute
  execute-Executed calls =
      let done = (fn calls).0 in
      let end : ℤ = clock (fn calls).1 in
      let admitted = (can_execute (clock calls) cb).1 in
      elim (State-cases cb.state) [
        | inl c ↦
            let after : (execute clock fn cb calls).0.1 ≡ settle done end cb = ground arith in
            inr (inr (c, ground arith, ground arith, rw after (settle-Counted done end cb c)))
        | inr (inr h) ↦
            let after : (execute clock fn cb calls).0.1 ≡ settle done end cb = ground arith in
            inr (inl (inl h, ground arith, ground arith, rw after (settle-Probed done end cb h)))
        | inr (inl o) ↦ elim (Bool-cases (ltb_ℤ cb.timeout (elapsed calls))) [
          | inl late ↦
              let after : (execute clock fn cb calls).0.1 ≡ settle done end admitted =
                ground arith in
              inr (
                inl (
                  inr (o, ground arith),
                  ground arith,
                  ground arith,
                  rw after (settle-Probed done end admitted (ground arith)),
                ))
          | inr early ↦ inl (o, ground arith, ground arith)
        ]
      ]
