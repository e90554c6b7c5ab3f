-- ===== src/FeatureFlag/Evaluating.antt =====
-- What an evaluation returns, and whom it tells.
use nimburion.Base.{◌≡◌, ◌≢◌, ◌⊎◌, Text, List, [], ◌++◌, map, reverse, Option, none, some}
use nimburion.Errors.{Err}
use nimburion.Effect.{ok, err}
use nimburion.FeatureFlag.{
  evaluated, Kind, Source, TargetContext, Event, Raw, Provider, Definition, Evaluation, Registry,
  Cast, cast, mismatch,
}

module _ {ℓ} {A : Type ℓ} (kind : Kind) (cast_raw : Raw → Cast A) where
  -- The flag is registered, and the provider answered its value, which is of the flag's kind.
  pub record FromProvider (d : Option (Definition A)) (p : Option Provider) (key : Text)
      (target : TargetContext) (e : Evaluation A) : Type ℓ where
    pub flag : Definition A
    pub lookup_of : Provider
    pub raw : Raw
    pub is_registered : d ≡ some flag
    pub is_set : p ≡ some lookup_of
    pub answer : lookup_of key target ≡ ok (some raw)
    pub value : cast_raw raw ≡ cast e.value
    pub source : e.source ≡ Source.provider
    pub no_error : e.error ≡ []

  -- Why there is no value of the flag's kind for a registered flag: no provider, or what it answers.
  pub data Unusable (p : Option Provider) (key : Text) (target : TargetContext) : Type ℓ where
    no_provider : p ≡ none → Unusable p key target
    failed : (q : Provider) (f : Err) → p ≡ some q → q key target ≡ err f → Unusable p key target
    not_found : (q : Provider) → p ≡ some q → q key target ≡ ok none → Unusable p key target
    mistyped :
        (q : Provider) (raw : Raw) (t : Text)
        → p ≡ some q
        → q key target ≡ ok (some raw)
        → cast_raw raw ≡ mismatch t
        → Unusable p key target

  -- The flag is not registered or has no usable value, and the value is the default.
  pub record FromDefault (d : Option (Definition A)) (p : Option Provider) (key : Text)
      (target : TargetContext) (default_value : A) (e : Evaluation A) : Type ℓ where
    pub reason : (d ≡ none) ⊎ Unusable p key target
    pub value : e.value ≡ default_value
    pub source : e.source ≢ Source.provider

  abbrev pub default_of : A → Option (Definition A) → A
  default_of zero_value none = zero_value
  default_of zero_value (some d) = d.default_value

  abbrev pub Explained :
      A → Option (Definition A) → Option Provider → Text → TargetContext → Evaluation A → Type ℓ
  Explained zero_value d p key target e =
      FromProvider d p key target e ⊎ FromDefault d p key target (default_of zero_value d) e

  -- The event tells of the evaluation of the flag.
  abbrev pub Tells : Text → Evaluation A → Event → Type 0
  Tells key e event = (event.type ≡ evaluated) × (event.key ≡ key) × (event.error ≡ e.error)

-- One event, which tells of the evaluation, went to each observer, in the order of registration.
abbrev pub Told {ℓ} :
    {A : Type ℓ} → Kind → (Raw → Cast A) → Text → Evaluation A → Registry → Registry → Type 0
Told kind cast_raw key e r s =
    (event : Event) × Tells kind cast_raw key e event
    × (s.events ≡ reverse (map (λ o. (o, event)) r.observers) ++ r.events)
