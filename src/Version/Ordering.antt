-- ===== src/Version/Ordering.antt =====
-- The order of versions: comparing the other way round, and the increments.
use nimburion.Base.{
  ℕ, zero, suc, ◌+◌, ◌<◌, Text, List, [], ◌∷◌, ◌++◌, ◌≡◌, ◌≢◌, refl, sym, ap, ◌∙◌, false, not,
  Option, none, some, arith, ℤ, pos, negsuc, inc_64-pos, two_63, eq_text, eq_text_iff, parse_int,
  Bool-cases, inl, inr,
}
use nimburion.Version.{
  SemVer, next_major, next_minor, next_patch, split, onto_first, less_text, compare_int,
  compare_parsed, compare_parts, compare_pre_release, compare,
}

abbrev pub opposite : ℤ → ℤ
opposite (pos zero) = pos 0
opposite (pos (suc n)) = negsuc n
opposite (negsuc n) = pos (suc n)

abbrev join : List Text → Text
join [] = []
join (p ∷ []) = p
join (p ∷ q ∷ ps) = p ++ b'.' ∷ join (q ∷ ps)

join-onto_first : (c : ℕ) (ps : List Text) → join (onto_first c ps) ≡ c ∷ join ps
join-onto_first c [] = refl
join-onto_first c (p ∷ []) = refl
join-onto_first c (p ∷ q ∷ ps) = refl

join_after_dot : (s : Text) → join ([] ∷ split s) ≡ b'.' ∷ join (split s)
unfolding split
join_after_dot [] = refl
join_after_dot (c ∷ s) = ground arith

join-split : (s : Text) → join (split s) ≡ s
unfolding split
join-split [] = refl
join-split (c ∷ s) = ground (arith, join_after_dot s, join-onto_first c (split s), join-split s)

split_differs : (a b : Text) → eq_text a b ≡ false → split a ≢ split b
split_differs a b h e =
    let same : a ≡ b = sym (join-split a) ∙ ap join e ∙ join-split b in
    ground (arith, eq_text_iff a b)

compare_int-opposite : (m n : ℤ) → compare_int n m ≡ opposite (compare_int m n)
unfolding compare_int
compare_int-opposite m n = ground arith

less_text-swap : (a b : Text) → eq_text a b ≡ false → less_text b a ≡ not (less_text a b)
less_text-swap [] [] h = ground arith
less_text-swap [] (_ ∷ _) h = refl
less_text-swap (_ ∷ _) [] h = refl
less_text-swap (a ∷ s) (b ∷ t) h = ground (arith, less_text-swap s t)

compare_parsed-opposite :
    (m n : Option ℤ) (a b : Text)
    → eq_text a b ≡ false
    → compare_parsed n m b a ≡ opposite (compare_parsed m n a b)
compare_parsed-opposite (some m) (some n) a b h = compare_int-opposite m n
compare_parsed-opposite (some m) none a b h = refl
compare_parsed-opposite none (some n) a b h = refl
compare_parsed-opposite none none a b h = ground (arith, less_text-swap a b h)

compare_parts-opposite :
    (xs ys : List Text) → xs ≢ ys → compare_parts ys xs ≡ opposite (compare_parts xs ys)
unfolding compare_parts
compare_parts-opposite [] [] h = absurd (h refl)
compare_parts-opposite [] (_ ∷ _) h = refl
compare_parts-opposite (_ ∷ _) [] h = refl
compare_parts-opposite (a ∷ xs) (b ∷ ys) h = elim (Bool-cases (eq_text a b)) [
  | inl same ↦
      let e : a ≡ b = (eq_text_iff a b).0 same in
      let rest = compare_parts-opposite xs ys (λ k. h (cc)) in
      ground (arith, same, eq_text_iff a b, eq_text_iff b a, rest)
  | inr other ↦ ground (
    arith,
    other,
    eq_text_iff a b,
    eq_text_iff b a,
    compare_parsed-opposite (parse_int a) (parse_int b) a b other,
  )
]

compare_pre_release-opposite :
    (a b : Text) → compare_pre_release b a ≡ opposite (compare_pre_release a b)
unfolding compare_pre_release
compare_pre_release-opposite a b = elim (Bool-cases (eq_text a b)) [
  | inl same ↦ ground (arith, same, eq_text_iff a b, eq_text_iff b a)
  | inr other ↦ ground (
    arith,
    other,
    eq_text_iff a b,
    eq_text_iff b a,
    compare_parts-opposite (split a) (split b) (split_differs a b other),
  )
]

-- Comparing two versions the other way round gives the opposite answer.
compare-opposite : (v w : SemVer) → compare w v ≡ opposite (compare v w)
unfolding compare
compare-opposite v w = ground (
  arith,
  compare_int-opposite v.major w.major,
  compare_int-opposite v.minor w.minor,
  compare_int-opposite v.patch w.patch,
  compare_pre_release-opposite v.pre_release w.pre_release,
)

-- A part of a version that can still be raised.
abbrev pub Raisable : ℤ → Type 0
Raisable x = (n : ℕ) × (x ≡ pos n) × (n + 1 < two_63)

-- The next patch, minor and major version come behind a version, while the part that is raised
-- fits into 64 bits.
pub compare-next :
    (v : SemVer)
    → Raisable v.major
    → Raisable v.minor
    → Raisable v.patch
    → (compare v (next_major v) ≡ negsuc 0)
      × (compare v (next_minor v) ≡ negsuc 0)
      × (compare v (next_patch v) ≡ negsuc 0)
unfolding compare compare_int next_major next_minor next_patch
compare-next v (a, p, q) (b, r, s) (c, t, u) =
    let x = inc_64-pos a q in
    let y = inc_64-pos b s in
    let z = inc_64-pos c u in (ground (arith, x), ground (arith, y), ground (arith, z))
