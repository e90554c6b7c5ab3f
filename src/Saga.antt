-- ===== src/Saga.antt =====
-- pkg/reliability/saga/saga.go: the definition of a saga, and the runner that executes its steps
-- and compensates those that completed when one fails. The steps' functions, the observer and
-- the clock are the environment.
pub mod Definitions
pub mod Compensation
pub mod Runs
mod Examples
use nimburion.Base.{
  ℕ, zero, suc, ◌+◌, Text, codes, List, [], ◌∷◌, ◌++◌, Bool, true, false, not, Option, none, some,
  ℤ, any, eq_text, is_empty, if◌then◌else◌, show_ℕ,
}
use nimburion.Errors.{Err, message, wrapped, joined, error_text}
use nimburion.Effect.{Run, Result, ok, err, pure, perform, ◌>>=◌}

-- `unset` is the empty string of a zero `Result`.
pub data Status : Type 0 where
  unset : Status
  pending running completed compensating compensated failed : Status

-- Whether a function is nil; what it does is the environment's.
pub record Step : Type 0 where
  pub name : Text
  pub has_execute : Bool
  pub has_compensate : Bool

unfoldable pub validate_step : Step → Option Err
validate_step s =
    if is_empty s.name
    then some (message (codes "saga step name is required"))
    else if not s.has_execute
    then some (message (codes "saga step execute is required"))
    else none

pub record Definition : Type 0 where
  pub name : Text
  pub steps : List Step

-- The error of one round. The quotes stand for %q, which also escapes what the name holds of
-- quotes and control characters.
step_error : ℕ → Text → List Text → Option Err → Option Err
step_error idx name seen (some e) =
    some (wrapped (codes "saga step " ++ (show_ℕ idx ++ codes ": ")) e)
step_error idx name seen none =
    if any (eq_text name) seen
    then some (message (codes "duplicate saga step \"" ++ (name ++ codes "\"")))
    else none

-- The loop of `Definition.Validate`, with the names seen so far.
unfoldable pub validate_steps : ℕ → List Text → List Step → Option Err
unfolding step_error validate_step
validate_steps idx seen [] = none
validate_steps idx seen (s ∷ steps) = elim (step_error idx s.name seen (validate_step s)) [
  | some e ↦ some e
  | none ↦ validate_steps (idx + 1) (s.name ∷ seen) steps
]

-- A nil definition is `none`.
unfoldable pub validate : Option Definition → Option Err
validate none = some (message (codes "saga definition is nil"))
validate (some d) =
    if is_empty d.name
    then some (message (codes "saga name is required"))
    else if is_empty d.steps
    then some (message (codes "saga must have at least one step"))
    else validate_steps 0 [] d.steps

pub record Event : Type 0 where
  pub saga_name : Text
  pub step_name : Text
  pub status : Status
  pub occurred_at : ℤ
  pub error : Text

-- What a run leaves: the `Result` of the source.
pub record Progress : Type 0 where
  pub status : Status
  pub completed_steps : List Text
  pub compensated_steps : List Text

pub data Call : Type 0 where
  executes compensates : Step → Call
  observes : Event → Call

pub record Environment : Type 0 where
  pub answers : List Call → Option Err
  pub clock : List Call → ℤ

pub record Runner : Type 0 where
  pub definition : Definition
  pub has_observer : Bool

unfoldable pub new_runner : Definition → Bool → Result Runner
unfolding validate
new_runner d has_observer = elim (validate (some d)) [
  | some e ↦ err e
  | none ↦ ok (record { definition = d; has_observer = has_observer })
]

abbrev event_error : Option Err → Text
event_error none = []
event_error (some e) = error_text e

abbrev pub started : Progress
started = record { status = running; completed_steps = []; compensated_steps = [] }

module _ (env : Environment) (r : Runner) where
  -- The observer's error is ignored.
  unfoldable pub emit : Text → Status → Option Err → Run Call (Unit {0})
  emit step_name status e calls =
      let event : Event = record {
        saga_name = r.definition.name;
        step_name = step_name;
        status = status;
        occurred_at = env.clock calls;
        error = event_error e;
      } in
      if r.has_observer then (tt, observes event ∷ calls) else (tt, calls)

  -- The compensation loop over the completed steps, the last one first, and the error that ends it.
  unfoldable pub compensate_all : List Step → Progress → Run Call (Option Err × Progress)
  compensate_all [] p calls = ((none, p), calls)
  compensate_all (done ∷ rest) p calls =
      let made = compensates done ∷ calls in
      let undone = record p { compensated_steps = p.compensated_steps ++ done.name ∷ [] } in
      elim done.has_compensate [
        | false ↦ compensate_all rest p calls
        | true ↦ elim (env.answers made) [
          | none ↦ compensate_all rest undone made
          | some f ↦ ((some f, p), (emit done.name failed (some f) made).1)
        ]
      ]

  after_compensation : Text → Err → Option Err × Progress → Run Call (Option Err × Progress)
  after_compensation step_name e (some f, p) = pure (some (joined e f), p)
  after_compensation step_name e (none, p) = do
    _ ← emit step_name compensated (some e)
    pure (some e, record p { status = compensated })

  -- What follows the failure of a step.
  unfoldable pub recover : Step → Err → List Step → Progress → Run Call (Option Err × Progress)
  unfolding after_compensation
  recover s e completed_first_last p = do
    _ ← emit s.name failed (some e)
    _ ← emit s.name compensating (some e)
    c ← compensate_all completed_first_last (record p { status = compensating })
    after_compensation s.name e c

  -- The loop over the steps that are left; the completed ones stand the last one first.
  unfoldable pub run_steps : List Step → List Step → Progress → Run Call (Option Err × Progress)
  run_steps [] done p calls =
      ((none, record p { status = completed }), (emit [] completed none calls).1)
  run_steps (s ∷ steps) done p calls =
      let made = executes s ∷ calls in
      let p' = record p { completed_steps = p.completed_steps ++ s.name ∷ [] } in
      elim (env.answers made) [
        | some e ↦ recover s e done p made
        | none ↦ run_steps steps (s ∷ done) p' (emit s.name running none made).1
      ]

  -- `Run`; the flag says whether the context is not nil.
  unfoldable pub run : Bool → Run Call (Option Err × Progress)
  run false = pure (
    some (message (codes "context is required")),
    record { status = unset; completed_steps = []; compensated_steps = [] },
  )
  run true = do _ ← emit [] running none; run_steps r.definition.steps [] started
