-- ===== src/Policy/Scopes.antt =====
-- EvaluateScopes against its description on the raw lists.
use nimburion.Base.{
  Text, List, [], ◌∷◌, ◌≡◌, refl, ◌∙◌, ap, Bool, true, false, not, ◌&&◌, ◌||◌, arith, any, is_empty,
  eq_text, eq_text_iff, Bool-cases, inl, inr, trim_space, if◌then◌else◌,
}
use nimburion.Policy.{
  Subject, ScopeLogic, scope_logic_and, scope_logic_or, ScopeRequirement, member, normalize_loop,
  normalize_strings, satisfies, evaluate_scopes,
}

-- What a loop over the normalised values sees of a raw one.
abbrev seen_as : (Text → Bool) → List Text → Text → Bool
seen_as p seen v =
    not (is_empty (trim_space v)) && (not (member (trim_space v) seen) && p (trim_space v))

any_more_seen :
    (p : Text → Bool) (t : Text) (seen vs : List Text)
    → p t ≡ false
    → any (seen_as p (t ∷ seen)) vs ≡ any (seen_as p seen) vs
any_more_seen p t seen [] h = refl
any_more_seen p t seen (v ∷ vs) h =
    ground (arith, eq_text_iff (trim_space v) t, any_more_seen p t seen vs h)

any-normalize_loop :
    (p : Text → Bool) (seen vs : List Text)
    → any p (normalize_loop seen vs) ≡ any (seen_as p seen) vs
unfolding normalize_loop
any-normalize_loop p seen [] = refl
any-normalize_loop p seen (v ∷ vs) = elim (Bool-cases (p (trim_space v))) [
  | inl yes_ ↦
      ground
        (arith, yes_, any-normalize_loop p seen vs, any-normalize_loop p (trim_space v ∷ seen) vs)
  | inr no_ ↦ ground (
    arith,
    no_,
    any-normalize_loop p seen vs,
    any-normalize_loop p (trim_space v ∷ seen) vs,
    any_more_seen p (trim_space v) seen vs no_,
  )
]

-- The subject has the scope, up to the space around its own.
abbrev pub holds : Subject → Text → Bool
holds s t = not (is_empty t) && any (λ v. eq_text t (trim_space v)) s.scopes

abbrev pub is_named : Text → Bool
is_named v = not (is_empty (trim_space v))

-- All the named scopes, or one of them if there is any.
abbrev pub granted : ScopeLogic → Subject → List Text → Bool
granted scope_logic_and s required =
    not (any (λ r. is_named r && not (holds s (trim_space r))) required)
granted scope_logic_or s required =
    not (any is_named required) || any (λ r. is_named r && holds s (trim_space r)) required

any_cong : (f g : Text → Bool) (vs : List Text) → ((v : Text) → f v ≡ g v) → any f vs ≡ any g vs
any_cong f g [] h = refl
any_cong f g (v ∷ vs) h = ground (arith, h v, any_cong f g vs h)

any_and_false :
    (f q : Text → Bool) (vs : List Text) → any f vs ≡ false → any (λ v. f v && q v) vs ≡ false
any_and_false f q [] h = refl
any_and_false f q (v ∷ vs) h = ground (arith, any_and_false f q vs)

is_empty-any : (vs : List Text) → is_empty vs ≡ not (any (λ v. true) vs)
is_empty-any [] = refl
is_empty-any (v ∷ vs) = refl

is_empty-normalize_strings :
    (vs : List Text) → is_empty (normalize_strings vs) ≡ not (any is_named vs)
unfolding normalize_strings
is_empty-normalize_strings vs =
    let same : any (λ v. is_named v && true) vs ≡ any is_named vs =
      any_cong (λ v. is_named v && true) is_named vs (λ v. ground arith) in
    is_empty-any (normalize_loop [] vs) ∙ ap not (any-normalize_loop (λ v. true) [] vs ∙ same)

any_named_equal :
    (t : Text) (vs : List Text)
    → any (λ v. is_named v && eq_text t (trim_space v)) vs
      ≡ (not (is_empty t) && any (λ v. eq_text t (trim_space v)) vs)
any_named_equal t [] = ground arith
any_named_equal t (v ∷ vs) = ground (arith, eq_text_iff t (trim_space v), any_named_equal t vs)

member-normalize_strings :
    (s : Subject) (t : Text) → member t (normalize_strings s.scopes) ≡ holds s t
unfolding normalize_strings
member-normalize_strings s t =
    any-normalize_loop (eq_text t) [] s.scopes ∙ any_named_equal t s.scopes

satisfies-granted :
    (l : ScopeLogic) (s : Subject) (vs : List Text)
    → (if is_empty (normalize_strings vs)
        then true
        else satisfies l (normalize_strings s.scopes) (normalize_strings vs))
      ≡ granted l s vs
unfolding normalize_strings
satisfies-granted scope_logic_and s vs =
    let set = normalize_strings s.scopes in
    let q : Text → Bool = λ r. not (holds s (trim_space r)) in
    let p : Text → Bool = λ r. not (member r set) in
    let same =
      any_cong (λ r. is_named r && p (trim_space r)) (λ r. is_named r && q r) vs
        (λ r. ap (λ b. is_named r && not b) (member-normalize_strings s (trim_space r))) in
    let all = any-normalize_loop p [] vs ∙ same in
    elim (Bool-cases (any is_named vs)) [
      | inl some_ ↦ ground (arith, some_, is_empty-normalize_strings vs, all)
      | inr none_ ↦
          ground (arith, none_, is_empty-normalize_strings vs, any_and_false is_named q vs none_)
    ]
satisfies-granted scope_logic_or s vs =
    let set = normalize_strings s.scopes in
    let q : Text → Bool = λ r. holds s (trim_space r) in
    let p : Text → Bool = λ r. member r set in
    let same =
      any_cong (λ r. is_named r && p (trim_space r)) (λ r. is_named r && q r) vs
        (λ r. ap (λ b. is_named r && b) (member-normalize_strings s (trim_space r))) in
    let all = any-normalize_loop p [] vs ∙ same in
    elim (Bool-cases (any is_named vs)) [
      | inl some_ ↦ ground (arith, some_, is_empty-normalize_strings vs, all)
      | inr none_ ↦ ground (arith, none_, is_empty-normalize_strings vs)
    ]

-- A requirement is met exactly when the subject has all of its scopes, or one of them for the
-- logic `or`, where space around scopes, blank scopes and repeated ones do not matter; one
-- without scopes is always met.
pub evaluate_scopes-granted :
    (s : Subject) (r : ScopeRequirement) → evaluate_scopes s r ≡ granted r.logic s r.scopes
unfolding evaluate_scopes
evaluate_scopes-granted s r = satisfies-granted r.logic s r.scopes
