-- ===== src/Outbox/Backoff.antt =====
-- The relay's own `exponentialBackoff` beside the one of pkg/reliability/retry: the relay doubles
-- before it compares, the other compares with half of the limit.
use Prim.Native.Nat.{min}
use nimburion.Base.{
  ℕ, zero, suc, ◌+◌, ◌*◌, ◌^◌, ◌≤◌, ◌<◌, ◌≡◌, Bool-cases, inl, inr, arith, pos, leb, ◌<ℤ◌, two_63,
  double_64, double_64-pos,
}
use nimburion.Retry
use nimburion.Retry.Backoff.{double-pow, pow-ge-one, exponential_backoff-min}
use nimburion.Outbox.{backoff_loop, exponential_backoff}

-- Below 2^62 nothing overflows: a start that is too large ends the loop in its first round.
pub backoff_loop-min :
    (n i m : ℕ)
    → i < 4611686018427387904
    → m ≤ 4611686018427387904
    → backoff_loop n (pos i) (pos m) ≡ pos (min (i * 2 ^ n) m)
unfolding backoff_loop
backoff_loop-min zero i m g h = ground arith
backoff_loop-min (suc n) i m g h = elim (Bool-cases (leb m (i + i))) [
  | inl big ↦ ground (arith, double_64-pos i, pow-ge-one (i + i) n, double-pow i n)
  | inr small ↦
      ground (arith, double_64-pos i, double-pow i n, backoff_loop-min n (i + i) m (ground arith) h)
]

-- For a start below 2^62 and an even limit up to 2^62 nanoseconds (146 years) the relay waits as
-- long as `retry.ExponentialBackoff` says, at every attempt from 1 on.
pub backoff-eq-retry :
    (n i k : ℕ)
    → i < 4611686018427387904
    → k + k ≤ 4611686018427387904
    → exponential_backoff (pos (suc n)) (pos i) (pos (k + k))
      ≡ Retry.exponential_backoff (pos (suc n)) (pos i) (pos (k + k))
unfolding exponential_backoff
backoff-eq-retry n i k g h =
    ground (arith, backoff_loop-min n i (k + k) g h, exponential_backoff-min n i k (omega arith))

-- From 2^62 on the doubling wraps: with such a start the second attempt has a negative delay,
-- under any limit that is not negative, so the entry is due again at once.
pub backoff_overflows :
    (i m : ℕ)
    → 4611686018427387904 ≤ i
    → i < two_63
    → exponential_backoff (pos 2) (pos i) (pos m) <ℤ pos 0
unfolding exponential_backoff backoff_loop double_64
backoff_overflows i m h k = ground arith
