-- ===== src/Breaker/Tripping.antt =====
-- When a closed breaker opens: after `maxFailures` failures with no success between them.
use Prim.Native.Nat.add
use native.Mathlib.Nat.{add-zero}
use nimburion.Base.{
  ℕ, suc, ◌+◌, ◌<◌, ◌≡◌, List, [], ◌∷◌, arith, ℤ, pos, two_63, inc_64-pos, length, if◌then◌else◌,
  ltb,
}
use nimburion.Breaker.{
  closed, open_circuit, CircuitBreaker, record_failure, record_success, get_state,
}

-- Failures at the listed times, one after the other.
unfoldable pub fail_all : List ℤ → CircuitBreaker → CircuitBreaker
fail_all [] cb = cb
fail_all (t ∷ ts) cb = fail_all ts (record_failure t cb)

-- What a breaker looks like after `n` failures in a row.
abbrev Counts : ℕ → ℕ → CircuitBreaker → Type 0
Counts m n cb =
    (cb.max_failures ≡ pos m)
    × (cb.failures ≡ pos n)
    × (cb.state ≡ (if ltb n m then closed else open_circuit))

Counts-record_failure :
    (m n : ℕ) (t : ℤ) (cb : CircuitBreaker)
    → n + 1 < two_63
    → Counts m n cb
    → Counts m (n + 1) (record_failure t cb)
unfolding record_failure
Counts-record_failure m n t cb h c = ground (arith, inc_64-pos n h)

record_success-Counts :
    (m : ℕ) (cb : CircuitBreaker)
    → 0 < m
    → cb.max_failures ≡ pos m
    → cb.state ≡ closed
    → Counts m 0 (record_success cb)
unfolding record_success
record_success-Counts m cb h k c = ground arith

Counts-fail_all :
    (m n : ℕ) (ts : List ℤ) (cb : CircuitBreaker)
    → n + length ts < two_63
    → Counts m n cb
    → Counts m (n + length ts) (fail_all ts cb)
unfolding fail_all
Counts-fail_all m n [] cb h c = rw add-zero c
Counts-fail_all m n (t ∷ ts) cb h c =
    let e : n + suc (length ts) ≡ (n + 1) + length ts = omega arith in
    rw e (
      Counts-fail_all m (n + 1) ts (record_failure t cb) (omega arith)
        (Counts-record_failure m n t cb (omega arith) c))

-- Behind a success, a closed breaker whose limit `m` is positive stays closed for fewer than `m`
-- failures in a row, and is open after `m` or more, whatever the times of the failures.
pub fail_all-opens :
    (m : ℕ) (ts : List ℤ) (cb : CircuitBreaker)
    → 0 < m
    → cb.max_failures ≡ pos m
    → cb.state ≡ closed
    → length ts < two_63
    → get_state (fail_all ts (record_success cb))
      ≡ (if ltb (length ts) m then closed else open_circuit)
unfolding get_state
fail_all-opens m ts cb h k c l = ground (
  arith,
  Counts-fail_all m 0 ts (record_success cb) (omega arith) (record_success-Counts m cb h k c),
  add.zero (length ts),
)
