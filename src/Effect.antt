-- ===== src/Effect.antt =====
-- Code that calls its environment (stores, brokers, handlers, the clock). Such a call is a value
-- of a type `C`; the state of a run is the list of the calls made so far, the last one first,
-- and each answer may depend on all of it. A theorem about the calls of a run therefore holds
-- for every environment, whatever it answers and keeps.
use nimburion.Base.{List, ◌∷◌}
use nimburion.Errors.{Err}

abbrev pub Run {ℓ κ} : Type ℓ → Type κ → Type (ℓ ⊔ κ)
Run C A = List C → A × List C

-- (value, error) results: `err` stands for a non-nil error.
pub data Result {ℓ} (A : Type ℓ) : Type ℓ where
  ok : A → Result A
  err : Err → Result A

module _ {ℓ κ} {C : Type ℓ} {A : Type κ} where
  abbrev pub pure : A → Run C A
  pure a calls = (a, calls)

  -- Makes one call, and returns the environment's answer, which sees that call and those before.
  abbrev pub perform : C → (List C → A) → Run C A
  perform c answer calls = let made = c ∷ calls in (answer made, made)

module _ {ℓ κ μ} {C : Type ℓ} {A : Type κ} {B : Type μ} where
  infixl 5 ◌>>=◌
  abbrev pub ◌>>=◌ : Run C A → (A → Run C B) → Run C B
  ◌>>=◌ m f calls = let (a, calls') = m calls in f a calls'
