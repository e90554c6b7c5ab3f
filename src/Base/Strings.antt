-- ===== src/Base/Strings.antt =====
-- Go strings as lists of code points, and what the program uses of package `strings`.
use Prim.Native.Nat.{ℕ}
use Prim.Native.Char.{code}
use Prim.Native.String.{String}
use mathlib.Core.Path.{◌≡◌, refl, sym, ap, subst, ◌∙◌}
use mathlib.Core.Logic.{◌↔◌}
use mathlib.Core.Bool.{Bool, true, false, ◌&&◌, ◌||◌}
use mathlib.Core.List.{List, [], ◌∷◌, ◌++◌, reverse, reverse-cons, reverse-reverse, reverse-append}
use native.Mathlib.Omega.{arith}
use nimburion.Base.Tests.{leb, ◌==◌, if◌then◌else◌}
use nimburion.Base.Lists.{All, All-append}

abbrev pub Text : Type 0
Text = List ℕ

abbrev pub codes : String → Text
codes String.[] = []
codes (String.◌∷◌ c s) = code c ∷ codes s

-- a == b on strings
abbrev pub eq_text : Text → Text → Bool
eq_text [] [] = true
eq_text [] (_ ∷ _) = false
eq_text (_ ∷ _) [] = false
eq_text (a ∷ s) (b ∷ t) = (a == b) && eq_text s t

pub eq_text_refl : (s : Text) → eq_text s s ≡ true
eq_text_refl [] = refl
eq_text_refl (a ∷ s) = ground (arith, eq_text_refl s)

pub eq_text→eq : (s t : Text) → eq_text s t ≡ true → s ≡ t
eq_text→eq [] [] h = refl
eq_text→eq [] (_ ∷ _) h = cc
eq_text→eq (_ ∷ _) [] h = cc
eq_text→eq (a ∷ s) (b ∷ t) h = ground (arith, eq_text→eq s t)

pub eq_text_iff : (s t : Text) → (eq_text s t ≡ true) ↔ (s ≡ t)
eq_text_iff s t = (eq_text→eq s t, λ e. ground (arith, eq_text_refl s))

-- unicode.IsSpace
abbrev pub is_space : ℕ → Bool
is_space c =
    (leb 9 c && leb c 13)
    || (c == 32)
    || (c == 0x85)
    || (c == 0xa0)
    || (c == 0x1680)
    || (leb 0x2000 c && leb c 0x200a)
    || (c == 0x2028)
    || (c == 0x2029)
    || (c == 0x202f)
    || (c == 0x205f)
    || (c == 0x3000)

unfoldable pub trim_left : Text → Text
trim_left [] = []
trim_left (c ∷ s) = if is_space c then trim_left s else c ∷ s

-- strings.TrimSpace
unfoldable pub trim_space : Text → Text
unfolding trim_left
trim_space s = reverse (trim_left (reverse (trim_left s)))

trim_left_id : (s : Text) → All (λ c. is_space c ≡ false) s → trim_left s ≡ s
unfolding trim_left
trim_left_id [] h = refl
trim_left_id (c ∷ s) h = ground (arith, h.0)

All-reverse : (P : ℕ → Type 0) (s : Text) → All P s → All P (reverse s)
All-reverse P [] h = tt
All-reverse P (c ∷ s) h =
    rw (reverse-cons c s) (All-append P (reverse s) (c ∷ []) (All-reverse P s h.1) (h.0, tt))

-- A text without spaces is not trimmed.
abbrev pub Dense : Text → Type 0
Dense = All (λ c. is_space c ≡ false)

pub trim_space_id : (s : Text) → Dense s → trim_space s ≡ s
unfolding trim_space
trim_space_id s h =
    rw (trim_left_id s h) (rw (trim_left_id (reverse s) (All-reverse _ s h)) (reverse-reverse s))

-- The text is empty or starts with a character that is no space.
abbrev IsTrimmed : Text → Type 0
IsTrimmed [] = Unit {0}
IsTrimmed (c ∷ s) = is_space c ≡ false

trim_left-IsTrimmed : (s : Text) → IsTrimmed (trim_left s)
unfolding trim_left
trim_left-IsTrimmed [] = tt
trim_left-IsTrimmed (c ∷ s) = ground (arith, trim_left-IsTrimmed s)

IsTrimmed-trim_left : (s : Text) → IsTrimmed s → trim_left s ≡ s
unfolding trim_left
IsTrimmed-trim_left [] h = refl
IsTrimmed-trim_left (c ∷ s) h = ground (arith, h)

-- What trim_left drops.
abbrev dropped : Text → Text
dropped [] = []
dropped (c ∷ s) = let rest = dropped s in if is_space c then c ∷ rest else []

dropped-trim_left : (s : Text) → dropped s ++ trim_left s ≡ s
unfolding trim_left
dropped-trim_left [] = refl
dropped-trim_left (c ∷ s) = ground (arith, dropped-trim_left s)

IsTrimmed-prefix : (s t : Text) → IsTrimmed (s ++ t) → IsTrimmed s
IsTrimmed-prefix [] t h = tt
IsTrimmed-prefix (c ∷ s) t h = h

reverse-IsTrimmed : (s : Text) → IsTrimmed s → IsTrimmed (reverse (trim_left (reverse s)))
reverse-IsTrimmed s h =
    let kept = reverse (trim_left (reverse s)) in
    let gone = reverse (dropped (reverse s)) in
    let e : kept ++ gone ≡ s =
      sym (reverse-append (dropped (reverse s)) (trim_left (reverse s)))
      ∙ ap reverse (dropped-trim_left (reverse s))
      ∙ reverse-reverse s in
    IsTrimmed-prefix kept gone (subst IsTrimmed (sym e) h)

-- Trimming twice is trimming once.
pub trim_space_twice : (s : Text) → trim_space (trim_space s) ≡ trim_space s
unfolding trim_space
trim_space_twice s =
    let t = trim_left s in
    let u = trim_left (reverse t) in
    rw (IsTrimmed-trim_left (reverse u) (reverse-IsTrimmed t (trim_left-IsTrimmed s)))
      (rw (reverse-reverse u) (rw (IsTrimmed-trim_left u (trim_left-IsTrimmed (reverse t))) refl))
