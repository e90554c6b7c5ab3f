-- ===== src/Idempotency/Cleaning.antt =====
-- The periodic cleanup of the processed keys: how the cleaner's loop can end.
use nimburion.Base.{codes, ◌≡◌, refl, ap, ◌⊎◌, inl, inr, List, [], ◌∷◌, ◌++◌, some, arith, ℤ, ◌-ℤ◌}
use nimburion.Errors.{Err, wrapped}
use nimburion.Effect.{Result, ok, err}
use nimburion.Idempotency.{Cleanup, CleanerConfig, clean, run_cleaner}

-- What the cleaner asks for at a tick.
abbrev pub asks : CleanerConfig → ℤ → Cleanup
asks c now = record { before = now -ℤ c.retention; limit = c.batch_size }

-- The cleanups of some ticks, the last one first, on top of those made before.
abbrev pub asked : CleanerConfig → List ℤ → List Cleanup → List Cleanup
asked c [] calls = calls
asked c (now ∷ ticks) calls = asked c ticks (asks c now ∷ calls)

-- A cleanup failed at the tick `bad`; those before it were made, those behind it were not.
pub record Stopped (answer : List Cleanup → Result ℤ) (c : CleanerConfig) (ticks : List ℤ)
    (calls : List Cleanup) (r : Err × List Cleanup) : Type 0 where
  pub good : List ℤ
  pub bad : ℤ
  pub rest : List ℤ
  pub cause : Err
  pub split : ticks ≡ good ++ bad ∷ rest
  pub trace : r.1 ≡ asks c bad ∷ asked c good calls
  pub failure : answer r.1 ≡ err cause
  pub error : r.0 ≡ wrapped (codes "cleanup processed keys failed: ") cause

Result-cases : (r : Result ℤ) → ((n : ℤ) × (r ≡ ok n)) ⊎ ((e : Err) × (r ≡ err e))
Result-cases (ok n) = inl (n, refl)
Result-cases (err e) = inr (e, refl)

module _ (answer : List Cleanup → Result ℤ) (c : CleanerConfig) (cause : Err) where
  clean-ends :
      (ticks : List ℤ) (calls : List Cleanup)
      → let r = clean answer c cause ticks calls in
        ((r.0 ≡ cause) × (r.1 ≡ asked c ticks calls)) ⊎ Stopped answer c ticks calls r
  unfolding clean
  clean-ends [] calls = inl (refl, refl)
  clean-ends (now ∷ ticks) calls =
      let made = asks c now ∷ calls in
      elim (Result-cases (answer made)) [
        | inr (e, bad) ↦ inr (record {
          good = [];
          bad = now;
          rest = ticks;
          cause = e;
          split = refl;
          trace = ground arith;
          failure = ground arith;
          error = ground arith;
        })
        | inl (n, fine) ↦ elim (clean-ends ticks made) [
          | inl (e, t) ↦ inl (ground arith, ground arith)
          | inr s ↦ inr (record {
            good = now ∷ s.good;
            bad = s.bad;
            rest = s.rest;
            cause = s.cause;
            split = ap (◌∷◌ now) s.split;
            trace = ground (arith, s.trace);
            failure = ground (arith, s.failure);
            error = ground (arith, s.error);
          })
        ]
      ]

  -- The cleaner either makes one cleanup at every tick, up to the retention before it, and
  -- returns the context's error, or it stops at the first cleanup that fails, with its error.
  pub run_cleaner-ends :
      (ticks : List ℤ)
      → let r = run_cleaner answer c (some (ticks, cause)) [] in
        ((r.0 ≡ cause) × (r.1 ≡ asked c ticks [])) ⊎ Stopped answer c ticks [] r
  unfolding run_cleaner
  run_cleaner-ends ticks = clean-ends ticks []
