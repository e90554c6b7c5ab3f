-- ===== src/Base/Decimal.antt =====
-- Decimal numerals: what %d prints, and strconv.ParseInt(s, 10, 64).
use Prim.Native.Nat.{ℕ, zero, suc, ◌+◌, ◌-◌, ◌*◌, ◌/◌, ◌%◌, ◌<◌}
use mathlib.Core.Path.{◌≡◌, refl}
use mathlib.Core.Logic.{inl, inr}
use mathlib.Core.Bool.{Bool, true, false, ◌&&◌}
use mathlib.Core.Option.{Option, none, some}
use mathlib.Core.List.{[], ◌∷◌}
use native.Mathlib.Omega.{arith}
use nimburion.Base.Tests.{leb, ltb, ◌==◌, if◌then◌else◌, Bool-cases}
use nimburion.Base.Int.{ℤ, pos, negsuc, two_63, sub_ℕ}
use nimburion.Base.Strings.{Text, Dense}
use nimburion.Base.Lists.{All, is_empty}

-- The digits of `n` before `rest`; each round of the fuel prints one.
digits : ℕ → ℕ → Text → Text
digits zero n rest = rest
digits (suc fuel) n rest =
    let shown = (48 + n % 10) ∷ rest in
    elim (n / 10 == 0) [ true ↦ shown | false ↦ digits fuel (n / 10) shown ]

unfoldable pub show_ℕ : ℕ → Text
unfolding digits
show_ℕ n = digits (suc n) n []

unfoldable pub show_ℤ : ℤ → Text
unfolding show_ℕ
show_ℤ (pos n) = show_ℕ n
show_ℤ (negsuc n) = b'-' ∷ show_ℕ (suc n)

abbrev pub is_digit : ℕ → Bool
is_digit c = leb 48 c && leb c 57

-- A run of digits read on top of `n`, or nothing.
unfoldable pub read_digits : ℕ → Text → Option ℕ
read_digits n [] = some n
read_digits n (c ∷ cs) = if is_digit c then read_digits (n * 10 + (c - 48)) cs else none

abbrev read_unsigned : Text → Option ℕ
read_unsigned [] = none
read_unsigned (c ∷ cs) = read_digits 0 (c ∷ cs)

abbrev signed : Bool → Option ℕ → Option ℤ
signed negative none = none
signed true (some n) = if leb n two_63 then some (sub_ℕ 0 n) else none
signed false (some n) = if ltb n two_63 then some (pos n) else none

-- ParseInt: an optional sign and digits within 64 bits; `none` is an error.
unfoldable pub parse_int : Text → Option ℤ
unfolding read_digits
parse_int [] = none
parse_int (c ∷ cs) =
    if c == b'-'
    then signed true (read_unsigned cs)
    else if c == b'+'
    then signed false (read_unsigned cs)
    else signed false (read_unsigned (c ∷ cs))

-- Reading what was printed: the fuel is enough, and the digits denote the number.
read_last : (n : ℕ) (rest : Text) → read_digits (n / 10) ((48 + n % 10) ∷ rest) ≡ read_digits n rest
unfolding read_digits
read_last n rest = ground (arith, last_value n)
  where
    last_value : (n : ℕ) → n / 10 * 10 + (48 + n % 10 - 48) ≡ n
    last_value n = omega arith

read_digits-digits :
    (fuel n : ℕ) (rest : Text) → n < fuel → read_digits 0 (digits fuel n rest) ≡ read_digits n rest
unfolding digits
read_digits-digits zero n rest h = elim h [ ]
read_digits-digits (suc fuel) n rest h = elim (Bool-cases (n / 10 == 0)) [
  | inl small ↦ ground (arith, small, read_last n rest)
  | inr big ↦ ground (
    arith,
    big,
    read_last n rest,
    read_digits-digits fuel (n / 10) ((48 + n % 10) ∷ rest) (ground arith),
  )
]

pub read-show_ℕ : (n : ℕ) → read_digits 0 (show_ℕ n) ≡ some n
unfolding show_ℕ read_digits
read-show_ℕ n = read_digits-digits (suc n) n [] (omega arith)

-- A numeral: digits of which the first is not 0.
abbrev pub Leads : Text → Type 0
Leads [] = ⊥
Leads (c ∷ t) = (is_digit c ≡ true) × ((c == 48) ≡ false) × All (λ d. is_digit d ≡ true) t

digits-Leads :
    (fuel n : ℕ) (rest : Text)
    → 0 < n
    → n < fuel
    → All (λ d. is_digit d ≡ true) rest
    → Leads (digits fuel n rest)
unfolding digits
digits-Leads zero n rest p h a = elim h [ ]
digits-Leads (suc fuel) n rest p h a = elim (Bool-cases (n / 10 == 0)) [
  | inl small ↦ ground (arith, small)
  | inr big ↦ ground (
    arith,
    big,
    digits-Leads fuel (n / 10) ((48 + n % 10) ∷ rest) (ground arith) (ground arith) (ground arith),
  )
]

pub show_ℕ-Leads : (n : ℕ) → Leads (show_ℕ (suc n))
unfolding show_ℕ
show_ℕ-Leads n = digits-Leads (suc (suc n)) (suc n) [] (omega arith) (omega arith) tt

pub show_zero : show_ℕ 0 ≡ 48 ∷ []
unfolding show_ℕ digits
show_zero = refl

-- Printing a number and reading it with ParseInt.
pub parse_int-show_ℕ : (n : ℕ) → n < two_63 → parse_int (show_ℕ n) ≡ some (pos n)
unfolding parse_int
parse_int-show_ℕ zero h = rw show_zero (ground (arith, read-show_ℕ 0, show_zero))
parse_int-show_ℕ (suc n) h = go (show_ℕ (suc n)) (show_ℕ-Leads n) (read-show_ℕ (suc n))
  where
    go : (t : Text) → Leads t → read_digits 0 t ≡ some (suc n) → parse_int t ≡ some (pos (suc n))
    go [] l r = absurd l
    go (c ∷ t) l r = ground arith

digits-Dense : (t : Text) → All (λ c. is_digit c ≡ true) t → Dense t
digits-Dense [] h = tt
digits-Dense (c ∷ t) h = (ground (arith, h.0), digits-Dense t h.1)

Leads-Dense : (t : Text) → Leads t → Dense t
Leads-Dense [] l = absurd l
Leads-Dense (c ∷ t) l = (ground (arith, l.0), digits-Dense t l.2)

pub Dense-show_ℕ : (n : ℕ) → Dense (show_ℕ n)
Dense-show_ℕ zero = rw show_zero (refl, tt)
Dense-show_ℕ (suc n) = Leads-Dense (show_ℕ (suc n)) (show_ℕ-Leads n)

pub is_empty-show_ℕ : (n : ℕ) → is_empty (show_ℕ n) ≡ false
is_empty-show_ℕ zero = rw show_zero refl
is_empty-show_ℕ (suc n) = go (show_ℕ (suc n)) (show_ℕ-Leads n)
  where
    go : (t : Text) → Leads t → is_empty t ≡ false
    go [] l = absurd l
    go (c ∷ t) l = refl

signed-lt : (negative : Bool) (o : Option ℕ) (n : ℕ) → signed negative o ≡ some (pos n) → n < two_63
signed-lt negative none n h = cc
signed-lt true (some m) n h = ground arith
signed-lt false (some m) n h = ground arith

-- What ParseInt returns fits into 64 bits.
pub parse_int-lt : (t : Text) (n : ℕ) → parse_int t ≡ some (pos n) → n < two_63
unfolding parse_int
parse_int-lt [] n h = cc
parse_int-lt (c ∷ cs) n h = ground (
  arith,
  signed-lt true (read_unsigned cs) n,
  signed-lt false (read_unsigned cs) n,
  signed-lt false (read_unsigned (c ∷ cs)) n,
)
