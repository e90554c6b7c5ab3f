-- ===== src/Saga/Examples.antt =====
-- A saga of three steps whose last step fails.
use nimburion.Base.{codes, ◌≡◌, refl, ◌⊎◌, List, [], ◌∷◌, true, false, Option, none, some, pos}
use nimburion.Errors.{Err, message}
use nimburion.Saga.{
  Step, Definition, Call, executes, compensates, observes, Environment, Runner, compensated,
  started, emit, compensate_all, recover, run_steps, run,
}
use nimburion.Saga.Runs.{Finished, Failed, run-ends}

abbrev reserve : Step
reserve = record { name = codes "reserve"; has_execute = true; has_compensate = true }

abbrev notify : Step
notify = record { name = codes "notify"; has_execute = true; has_compensate = false }

abbrev charge : Step
charge = record { name = codes "charge"; has_execute = true; has_compensate = true }

abbrev order : Definition
order = record { name = codes "order"; steps = reserve ∷ notify ∷ charge ∷ [] }

abbrev runner : Runner
runner = record { definition = order; has_observer = true }

abbrev steps_of : List Call → List Call
steps_of [] = []
steps_of (observes e ∷ calls) = steps_of calls
steps_of (c ∷ calls) = c ∷ steps_of calls

-- The third step to execute fails.
abbrev answer : List Call → Option Err
answer (executes s ∷ calls) = elim (steps_of calls) [
  | (_ ∷ _ ∷ []) ↦ some (message (codes "declined"))
  | _ ↦ none
]
answer calls = none

abbrev environment : Environment
environment = record { answers = answer; clock = λ calls. pos 0 }

declined_run :
    let r = run environment runner true [] in
    (r.0.1.status ≡ compensated)
    × (r.0.1.compensated_steps ≡ codes "reserve" ∷ [])
    × (steps_of r.1
        ≡ compensates reserve ∷ executes charge ∷ executes notify ∷ executes reserve ∷ [])
unfolding run run_steps recover compensate_all emit
declined_run = (refl, refl, refl)

run-ends_example :
    Finished environment order.steps started [] (run environment runner true [])
    ⊎ Failed environment order.steps [] started [] (run environment runner true [])
run-ends_example = run-ends environment runner
