-- ===== src/Base/Int.antt =====
-- Go's `int`, `int64` and `time.Duration`: integers over the native numbers, and the wrap of
-- 64-bit arithmetic. `time.Time` is an integer too: nanoseconds from Go's zero time.
use Prim.Native.Nat.{ℕ, suc, ◌+◌, ◌-◌, ◌/◌, ◌%◌, ◌≤◌, ◌<◌}
use mathlib.Core.Path.{◌≡◌, refl}
use mathlib.Core.Bool.{Bool}
use native.Mathlib.Omega.{arith}
use nimburion.Base.Tests.{ltb, leb, ◌==◌, if◌then◌else◌}

-- `negsuc n` is -(n + 1).
pub data ℤ : Type 0 where
  pos : ℕ → ℤ
  negsuc : ℕ → ℤ

abbrev pub pos_part : ℤ → ℕ
pos_part (pos n) = n
pos_part (negsuc n) = 0

abbrev pub neg_part : ℤ → ℕ
neg_part (pos n) = 0
neg_part (negsuc n) = suc n

-- a - b, as an integer.
abbrev pub sub_ℕ : ℕ → ℕ → ℤ
sub_ℕ a b = if leb b a then pos (a - b) else negsuc (b - a - 1)

infixl 65 ◌+ℤ◌ ◌-ℤ◌
infix 50 ◌≤ℤ◌ ◌<ℤ◌
unfoldable pub ◌+ℤ◌ : ℤ → ℤ → ℤ
a +ℤ b = sub_ℕ (pos_part a + pos_part b) (neg_part a + neg_part b)

unfoldable pub ◌-ℤ◌ : ℤ → ℤ → ℤ
a -ℤ b = sub_ℕ (pos_part a + neg_part b) (neg_part a + pos_part b)

abbrev pub ◌≤ℤ◌ : ℤ → ℤ → Type 0
a ≤ℤ b = pos_part a + neg_part b ≤ pos_part b + neg_part a

abbrev pub ◌<ℤ◌ : ℤ → ℤ → Type 0
a <ℤ b = pos_part a + neg_part b < pos_part b + neg_part a

abbrev pub ltb_ℤ : ℤ → ℤ → Bool
ltb_ℤ a b = ltb (pos_part a + neg_part b) (pos_part b + neg_part a)

abbrev pub leb_ℤ : ℤ → ℤ → Bool
leb_ℤ a b = leb (pos_part a + neg_part b) (pos_part b + neg_part a)

abbrev pub eq_ℤ : ℤ → ℤ → Bool
eq_ℤ a b = (pos_part a + neg_part b) == (pos_part b + neg_part a)

abbrev pub two_63 : ℕ
two_63 = 9223372036854775808

abbrev pub two_64 : ℕ
two_64 = 18446744073709551616

-- The value of a 64-bit result: reduced modulo 2^64 into [-2^63, 2^63).
unfoldable pub wrap_64 : ℤ → ℤ
wrap_64 (pos n) = let m = n % two_64 in if ltb m two_63 then pos m else negsuc (two_64 - 1 - m)
wrap_64 (negsuc n) = let m = n % two_64 in if ltb m two_63 then negsuc m else pos (two_64 - 1 - m)

-- x++ and x *= 2 on a 64-bit variable.
unfoldable pub inc_64 : ℤ → ℤ
unfolding wrap_64 ◌+ℤ◌
inc_64 x = wrap_64 (x +ℤ pos 1)

unfoldable pub double_64 : ℤ → ℤ
unfolding wrap_64 ◌+ℤ◌
double_64 x = wrap_64 (x +ℤ x)

-- x / 2, which rounds towards zero.
unfoldable pub half_64 : ℤ → ℤ
half_64 (pos n) = pos (n / 2)
half_64 (negsuc n) = sub_ℕ 0 (suc n / 2)

pub inc_64-pos : (n : ℕ) → n + 1 < two_63 → inc_64 (pos n) ≡ pos (n + 1)
unfolding inc_64
inc_64-pos n h = ground arith

pub double_64-pos : (n : ℕ) → n + n < two_63 → double_64 (pos n) ≡ pos (n + n)
unfolding double_64
double_64-pos n h = ground arith

pub half_64-pos : (n : ℕ) → half_64 (pos n) ≡ pos (n / 2)
unfolding half_64
half_64-pos n = refl

-- t.Sub(u) saturates at the ends of the 64-bit range.
unfoldable pub sub_time : ℤ → ℤ → ℤ
unfolding ◌-ℤ◌
sub_time t u =
    let d = t -ℤ u in
    if leb_ℤ (pos two_63) d
    then pos (two_63 - 1)
    else if ltb_ℤ d (negsuc (two_63 - 1))
    then negsuc (two_63 - 1)
    else d

pub +ℤ_mono_right : (a b c : ℤ) → b ≤ℤ c → a +ℤ b ≤ℤ a +ℤ c
unfolding ◌+ℤ◌
+ℤ_mono_right a b c h = ground arith
