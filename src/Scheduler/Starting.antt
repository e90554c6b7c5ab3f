-- ===== src/Scheduler/Starting.antt =====
-- What a Start that fails leaves behind in runtime.go.
use nimburion.Base.{
  none, some, ℕ, Text, List, [], ◌∷◌, ◌≡◌, refl, true, false, Option, is_empty, if◌then◌else◌,
  arith,
}
use nimburion.Errors.{Err}
use nimburion.Scheduler.{Runtime, already_running, no_tasks, register, start, stop}

-- A call of another goroutine.
pub data Operation : Type 0 where
  registers : Text → ℕ → Operation
  starts : Operation

abbrev pub perform : Operation → Runtime → Option Err × Runtime
perform (registers name task) r = register name task r
perform starts r = start r

abbrev pub after_all : List Operation → Runtime → Runtime
after_all [] r = r
after_all (o ∷ os) r = after_all os (perform o r).1

-- What the calls of Start among them return.
abbrev pub answers : List Operation → Runtime → List (Option Err)
answers [] r = []
answers (starts ∷ os) r = (start r).0 ∷ answers os (start r).1
answers (registers name task ∷ os) r = answers os (register name task r).1

-- One error for each call of Start.
abbrev pub refusals : List Operation → List (Option Err)
refusals [] = []
refusals (starts ∷ os) = some already_running ∷ refusals os
refusals (registers name task ∷ os) = refusals os

register-running :
    (name : Text) (task : ℕ) (r : Runtime) → (register name task r).1.running ≡ r.running
unfolding register
register-running name task r = ground arith

start-running : (r : Runtime) → r.running ≡ true → start r ≡ (some already_running, r)
unfolding start
start-running r h = ground arith

after_all-running :
    (os : List Operation) (r : Runtime) → r.running ≡ true → (after_all os r).running ≡ true
after_all-running [] r h = h
after_all-running (registers name task ∷ os) r h =
    after_all-running os _ (cc (register-running name task r, h))
after_all-running (starts ∷ os) r h = after_all-running os _ (cc (start-running r h, h))

answers-refusals :
    (os : List Operation) (r : Runtime) → r.running ≡ true → answers os r ≡ refusals os
answers-refusals [] r h = refl
answers-refusals (registers name task ∷ os) r h =
    answers-refusals os _ (cc (register-running name task r, h))
answers-refusals (starts ∷ os) r h = rw (start-running r h) (rw (answers-refusals os r h) refl)

stopped-start :
    (r : Runtime) → (start (stop r)).0 ≡ (if is_empty r.tasks then some no_tasks else none)
unfolding start stop
stopped-start r = ground arith

-- A Start without tasks fails, and yet the scheduler counts as running: whatever calls of Register
-- and Start follow, each of those Starts fails as already running. Once Stop is called, the next
-- Start succeeds exactly if a task was registered.
pub start_after_empty :
    (r : Runtime) (os : List Operation)
    → r.running ≡ false
    → r.tasks ≡ []
    → let failed = start r in
      let left = after_all os failed.1 in
      (failed.0 ≡ some no_tasks)
      × (answers os failed.1 ≡ refusals os)
      × (start left ≡ (some already_running, left))
      × ((start (stop left)).0 ≡ (if is_empty left.tasks then some no_tasks else none))
start_after_empty r os h k =
    let marked : (start r).1.running ≡ true = unfold start in ground (arith, h, k) in
    (
      unfold start in ground (arith, h, k),
      answers-refusals os (start r).1 marked,
      start-running (after_all os (start r).1) (after_all-running os (start r).1 marked),
      stopped-start (after_all os (start r).1),
    )
