-- ===== src/PubSub/Members.antt =====
-- The subscribers of a topic as a list without repetitions.
use nimburion.Base.{
  ℕ, ◌+◌, ◌<◌, ◌≡◌, refl, List, [], ◌∷◌, Bool, false, Bool-cases, inl, inr, ◌==◌, All, any, arith,
}
use nimburion.PubSub.{without}

abbrev pub has : ℕ → List ℕ → Bool
has id = any (λ i. i == id)

abbrev pub Distinct : List ℕ → Type 0
Distinct [] = Unit
Distinct (i ∷ ids) = (has i ids ≡ false) × Distinct ids

pub All-later : (n : ℕ) (ids : List ℕ) → All (λ i. i < n) ids → All (λ i. i < n + 1) ids
All-later n [] h = tt
All-later n (i ∷ ids) h = (omega arith, All-later n ids h.1)

pub new-has : (n : ℕ) (ids : List ℕ) → All (λ i. i < n) ids → has n ids ≡ false
new-has n [] h = refl
new-has n (i ∷ ids) h = ground (arith, h.0, new-has n ids h.1)

pub All-without :
    (n id : ℕ) (ids : List ℕ) → All (λ i. i < n) ids → All (λ i. i < n) (without id ids)
unfolding without
All-without n id [] h = tt
All-without n id (i ∷ ids) h =
    let rest = All-without n id ids h.1 in
    elim (Bool-cases (i == id)) [ inl e ↦ rw e rest | inr e ↦ rw e (h.0, rest) ]

has-without : (i id : ℕ) (ids : List ℕ) → has i ids ≡ false → has i (without id ids) ≡ false
unfolding without
has-without i id [] h = refl
has-without i id (j ∷ ids) h = ground (arith, has-without i id ids)

pub Distinct-without : (id : ℕ) (ids : List ℕ) → Distinct ids → Distinct (without id ids)
unfolding without
Distinct-without id [] h = tt
Distinct-without id (i ∷ ids) h =
    let rest = Distinct-without id ids h.1 in
    elim (Bool-cases (i == id)) [
      | inl e ↦ rw e rest
      | inr e ↦ rw e (has-without i id ids h.0, rest)
    ]
