-- ===== src/Saga/Definitions.antt =====
-- What `Definition.Validate` accepts.
use nimburion.Base.{
  ℕ, ◌+◌, Text, List, [], ◌∷◌, true, false, none, some, ◌≡◌, refl, ◌↔◌, arith, any, All, eq_text,
  is_empty,
}
use nimburion.Saga.{Step, Definition, validate_steps, validate}

abbrev pub IsSound : Step → Type 0
IsSound s = (is_empty s.name ≡ false) × (s.has_execute ≡ true)

-- No name is among those given.
abbrev pub Avoids : List Text → Step → Type 0
Avoids seen s = any (eq_text s.name) seen ≡ false

abbrev pub Distinct : List Step → Type 0
Distinct [] = Unit {0}
Distinct (s ∷ steps) = All (λ t. eq_text t.name s.name ≡ false) steps × Distinct steps

pub record IsCoherent (d : Definition) : Type 0 where
  pub named : is_empty d.name ≡ false
  pub nonempty : is_empty d.steps ≡ false
  pub sound : All IsSound d.steps
  pub distinct : Distinct d.steps

split-Avoids :
    (name : Text) (seen : List Text) (steps : List Step)
    → All (Avoids (name ∷ seen)) steps
    → All (λ t. eq_text t.name name ≡ false) steps × All (Avoids seen) steps
split-Avoids name seen [] h = (tt, tt)
split-Avoids name seen (s ∷ steps) h =
    let rest = split-Avoids name seen steps h.1 in ((ground arith, rest.0), (ground arith, rest.1))

join-Avoids :
    (name : Text) (seen : List Text) (steps : List Step)
    → All (λ t. eq_text t.name name ≡ false) steps
    → All (Avoids seen) steps
    → All (Avoids (name ∷ seen)) steps
join-Avoids name seen [] h k = tt
join-Avoids name seen (s ∷ steps) h k = (ground arith, join-Avoids name seen steps h.1 k.1)

abbrev Accepted : List Text → List Step → Type 0
Accepted seen steps = All IsSound steps × All (Avoids seen) steps × Distinct steps

validate_steps-Accepted :
    (idx : ℕ) (seen : List Text) (steps : List Step)
    → validate_steps idx seen steps ≡ none
    → Accepted seen steps
unfolding validate_steps
validate_steps-Accepted idx seen [] h = (tt, tt, tt)
validate_steps-Accepted idx seen (s ∷ steps) h =
    let tail : validate_steps (idx + 1) (s.name ∷ seen) steps ≡ none = ground arith in
    let rest = validate_steps-Accepted (idx + 1) (s.name ∷ seen) steps tail in
    let apart = split-Avoids s.name seen steps rest.1 in
    ((ground arith, rest.0), (ground arith, apart.1), (apart.0, rest.2))

Accepted-validate_steps :
    (idx : ℕ) (seen : List Text) (steps : List Step)
    → Accepted seen steps
    → validate_steps idx seen steps ≡ none
unfolding validate_steps
Accepted-validate_steps idx seen [] h = refl
Accepted-validate_steps idx seen (s ∷ steps) h = ground (
  arith,
  Accepted-validate_steps (idx + 1) (s.name ∷ seen) steps
      (h.0.1, join-Avoids s.name seen steps h.2.0 h.1.1, h.2.1),
)

-- A definition is accepted exactly when it has a name and at least one step, each step has a
-- name and something to execute, and no two steps have the same name.
pub validate-IsCoherent_iff : (d : Definition) → (validate (some d) ≡ none) ↔ IsCoherent d
unfolding validate
validate-IsCoherent_iff d = (forth, back)
  where
    clear : (steps : List Step) → All (Avoids []) steps
    clear [] = tt
    clear (s ∷ steps) = (refl, clear steps)

    forth : validate (some d) ≡ none → IsCoherent d
    forth h =
        let tail : validate_steps 0 [] d.steps ≡ none = ground arith in
        let a = validate_steps-Accepted 0 [] d.steps tail in
        record { named = ground arith; nonempty = ground arith; sound = a.0; distinct = a.2 }

    back : IsCoherent d → validate (some d) ≡ none
    back c =
        ground (arith, Accepted-validate_steps 0 [] d.steps (c.sound, clear d.steps, c.distinct))
