-- ===== src/Retry/Backoff.antt =====
-- Bounds and closed form of `ExponentialBackoff`.
use native.Mathlib.Nat.{pow-suc}
use Prim.Native.Nat.{min}
use nimburion.Base.{
  ℕ, zero, suc, ◌+◌, ◌-◌, ◌*◌, ◌^◌, ◌≤◌, ◌<◌, ◌≡◌, Bool-cases, inl, inr, arith, ℤ, pos, pos_part,
  leb, ◌≤ℤ◌, two_63, double_64, double_64-pos, half_64-pos,
}
use nimburion.Retry.{backoff_loop, exponential_backoff}

backoff_loop-le-max : (n : ℕ) (b m : ℤ) → backoff_loop n b m ≤ℤ m
unfolding backoff_loop
backoff_loop-le-max zero b m = ground arith
backoff_loop-le-max (suc n) b m = ground (arith, backoff_loop-le-max n (double_64 b) m)

-- From the first attempt on, the delay is at most `maxBackoff`, whatever the other arguments.
pub exponential_backoff-le-max :
    (attempt initial m : ℤ) → pos 1 ≤ℤ attempt → exponential_backoff attempt initial m ≤ℤ m
unfolding exponential_backoff
exponential_backoff-le-max attempt initial m h =
    ground (arith, backoff_loop-le-max (pos_part attempt - 1) initial m)

pub double-pow : (i n : ℕ) → (i + i) * 2 ^ n ≡ i * 2 ^ (suc n)
double-pow i n = rw pow-suc (grind arith)

pub pow-ge-one : (i n : ℕ) → i ≤ i * 2 ^ n
pow-ge-one i zero = omega arith
pow-ge-one i (suc n) = omega (arith, pow-ge-one (i + i) n, double-pow i n)

backoff_loop-min :
    (n i k : ℕ)
    → k + k < two_63
    → backoff_loop n (pos i) (pos (k + k)) ≡ pos (min (i * 2 ^ n) (k + k))
unfolding backoff_loop
backoff_loop-min zero i k h = ground arith
backoff_loop-min (suc n) i k h = elim (Bool-cases (leb k i)) [
  | inl big ↦ ground (arith, half_64-pos (k + k), pow-ge-one (i + i) n, double-pow i n)
  | inr small ↦
      ground (
        arith,
        half_64-pos (k + k),
        double_64-pos i,
        double-pow i n,
        backoff_loop-min n (i + i) k h,
      )
]

-- From attempt `n + 1` on an even limit below 2^63 the delay is the smaller of `initial * 2^n`
-- and the limit: no doubling overflows.
pub exponential_backoff-min :
    (n i k : ℕ)
    → k + k < two_63
    → exponential_backoff (pos (suc n)) (pos i) (pos (k + k)) ≡ pos (min (i * 2 ^ n) (k + k))
unfolding exponential_backoff
exponential_backoff-min n i k h = ground (arith, backoff_loop-min n i k h)
