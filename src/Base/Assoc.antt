-- ===== src/Base/Assoc.antt =====
-- Go maps with string keys as association lists.
use Prim.Native.Nat.{ℕ, ◌+◌}
use mathlib.Core.Path.{◌≡◌, refl, subst, ◌∙◌}
use mathlib.Core.Logic.{inl, inr}
use mathlib.Core.Option.{Option, none, some}
use mathlib.Core.List.{List, [], ◌∷◌}
use native.Mathlib.Omega.{arith}
use nimburion.Base.Tests.{if◌then◌else◌, Bool-cases}
use nimburion.Base.Strings.{Text, eq_text, eq_text_iff, eq_text→eq}

module _ {ℓ} {A : Type ℓ} where
  -- m[key] = value
  unfoldable pub insert : Text → A → List (Text × A) → List (Text × A)
  insert key a [] = (key, a) ∷ []
  insert key a ((k, b) ∷ m) =
      let rest = insert key a m in if eq_text k key then (key, a) ∷ m else (k, b) ∷ rest

  -- value, ok := m[key]
  unfoldable pub lookup : Text → List (Text × A) → Option A
  lookup key [] = none
  lookup key ((k, b) ∷ m) = let rest = lookup key m in if eq_text k key then some b else rest

  -- delete(m, key)
  unfoldable pub remove : Text → List (Text × A) → List (Text × A)
  remove key [] = []
  remove key ((k, b) ∷ m) = let rest = remove key m in if eq_text k key then rest else (k, b) ∷ rest

  pub lookup-insert :
      (key k : Text) (a : A) (m : List (Text × A))
      → lookup k (insert key a m) ≡ (if eq_text key k then some a else lookup k m)
  unfolding lookup insert
  lookup-insert key k a [] = refl
  lookup-insert key k a ((i, b) ∷ m) =
      ground (arith, eq_text_iff key k, eq_text_iff i key, eq_text_iff i k, lookup-insert key k a m)

  pub lookup-remove :
      (key k : Text) (m : List (Text × A))
      → lookup k (remove key m) ≡ (if eq_text key k then none else lookup k m)
  unfolding lookup remove
  lookup-remove key k [] = ground arith
  lookup-remove key k ((i, b) ∷ m) =
      ground (arith, eq_text_iff key k, eq_text_iff i key, eq_text_iff i k, lookup-remove key k m)

  -- No key stands twice.
  abbrev pub HasUniqueKeys : List (Text × A) → Type ℓ
  HasUniqueKeys [] = Unit
  HasUniqueKeys ((k, a) ∷ m) = (lookup k m ≡ none) × HasUniqueKeys m

  pub insert-HasUniqueKeys :
      (key : Text) (a : A) (m : List (Text × A)) → HasUniqueKeys m → HasUniqueKeys (insert key a m)
  unfolding insert lookup
  insert-HasUniqueKeys key a [] h = (refl, tt)
  insert-HasUniqueKeys key a ((k, b) ∷ m) h = elim (Bool-cases (eq_text k key)) [
    | inl same ↦ rw same (subst (λ i. lookup i m ≡ none) (eq_text→eq k key same) h.0, h.1)
    | inr other ↦ rw other (
      lookup-insert key k a m ∙ ground (arith, eq_text_iff key k, eq_text_iff k key, other, h.0),
      insert-HasUniqueKeys key a m h.1,
    )
  ]

  pub remove-HasUniqueKeys :
      (key : Text) (m : List (Text × A)) → HasUniqueKeys m → HasUniqueKeys (remove key m)
  unfolding remove
  remove-HasUniqueKeys key [] h = tt
  remove-HasUniqueKeys key ((k, b) ∷ m) h = elim (Bool-cases (eq_text k key)) [
    | inl same ↦ rw same (remove-HasUniqueKeys key m h.1)
    | inr other ↦ rw other (
      lookup-remove key k m ∙ ground (arith, eq_text_iff key k, eq_text_iff k key, other, h.0),
      remove-HasUniqueKeys key m h.1,
    )
  ]

  remove_id : (key : Text) (m : List (Text × A)) → lookup key m ≡ none → remove key m ≡ m
  unfolding remove lookup
  remove_id key [] h = refl
  remove_id key ((k, b) ∷ m) h = ground (arith, remove_id key m)

  -- The sum of a weight over the values.
  abbrev pub total : (A → ℕ) → List (Text × A) → ℕ
  total w [] = 0
  total w ((k, a) ∷ m) = w a + total w m

  pub total-insert :
      (w : A → ℕ) (key : Text) (a : A) (m : List (Text × A))
      → lookup key m ≡ none
      → total w (insert key a m) ≡ total w m + w a
  unfolding insert lookup
  total-insert w key a [] h = omega arith
  total-insert w key a ((k, b) ∷ m) h = ground (arith, total-insert w key a m)

  pub total-replace :
      (w : A → ℕ) (key : Text) (a b : A) (m : List (Text × A))
      → lookup key m ≡ some b
      → w a ≡ w b
      → total w (insert key a m) ≡ total w m
  unfolding insert lookup
  total-replace w key a b [] h e = cc
  total-replace w key a b ((k, c) ∷ m) h e = ground (arith, total-replace w key a b m)

  pub total-remove :
      (w : A → ℕ) (key : Text) (a : A) (m : List (Text × A))
      → HasUniqueKeys m
      → lookup key m ≡ some a
      → total w (remove key m) + w a ≡ total w m
  unfolding remove lookup
  total-remove w key a [] u h = cc
  total-remove w key a ((k, b) ∷ m) u h = elim (Bool-cases (eq_text k key)) [
    | inl same ↦
        let gone = remove_id key m (subst (λ i. lookup i m ≡ none) (eq_text→eq k key same) u.0) in
        ground (arith, same, gone)
    | inr other ↦ ground (arith, other, total-remove w key a m u.1)
  ]
