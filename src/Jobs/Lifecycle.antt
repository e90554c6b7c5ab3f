-- ===== src/Jobs/Lifecycle.antt =====
-- Start and Stop of the worker in worker.go, as far as they share state: what each does under the
-- lifecycle lock is one step, and Start calls Stop when its context is done. A run is named by a
-- number; its context is done when it is cancelled or its parent is.
use nimburion.Base.{
  ℕ, List, [], ◌∷◌, ◌≡◌, Bool, true, false, Option, none, some, codes, any, ◌==◌, if◌then◌else◌,
}
use nimburion.Errors.{Err, jobs_conflict}
use nimburion.Jobs.{jobs_error}

-- `cancel` names the run that w.cancel ends; `started` are all runs so far.
pub record Lifecycle : Type 0 where
  pub running : Bool
  pub cancel : Option ℕ
  pub done : List ℕ
  pub started : List ℕ

abbrev pub stopped_worker : Lifecycle
stopped_worker = record { running = false; cancel = none; done = []; started = [] }

-- Start up to the point where its loops run, for the run `id`.
unfoldable pub start : ℕ → Lifecycle → Option Err × Lifecycle
unfolding jobs_error
start id l =
    if l.running
    then (some (jobs_error jobs_conflict (codes "worker already running")), l)
    else (none, record l { running = true; cancel = some id; started = id ∷ l.started })

abbrev cancelled : Option ℕ → List ℕ → List ℕ
cancelled none done = done
cancelled (some id) done = id ∷ done

-- Stop up to the point where it waits, and whether it waits.
unfoldable pub stop : Lifecycle → Bool × Lifecycle
stop l =
    if l.running
    then (true, record l { running = false; cancel = none; done = cancelled l.cancel l.done })
    else (false, l)

-- How the wait for the loops ends: by the context of Stop, or by Close of the backend.
pub data Waited : Type 0 where
  gave_up : Err → Waited
  closed : Option Err → Waited

-- What Stop returns.
unfoldable pub stop_result : Bool → Waited → Option Err
stop_result false w = none
stop_result true (gave_up e) = some e
stop_result true (closed e) = e

abbrev pub contains : ℕ → List ℕ → Bool
contains id ids = any (λ i. i == id) ids

-- What the Start of the run `id` does once its loops run: when the context of the run is done, it
-- calls Stop, whichever run the worker is in by then.
unfoldable pub wind_down : ℕ → Lifecycle → Bool × Lifecycle
unfolding stop
wind_down id l = if contains id l.done then stop l else (false, l)

-- Any interleaving of callers. `expires` is the end of a parent context, `winds_down` the call of
-- Stop that the Start of a run makes when the context of that run is done.
pub data Move : Lifecycle → Lifecycle → Type 0 where
  starts : (id : ℕ) (l : Lifecycle) → contains id l.started ≡ false → Move l (start id l).1
  stops : (l : Lifecycle) → Move l (stop l).1
  expires : (id : ℕ) (l : Lifecycle) → Move l (record l { done = id ∷ l.done })
  winds_down : (id : ℕ) (l : Lifecycle) → contains id l.done ≡ true → Move l (wind_down id l).1

pub data Reaches : Lifecycle → Lifecycle → Type 0 where
  here : (l : Lifecycle) → Reaches l l
  further : {k l m : Lifecycle} → Reaches k l → Move l m → Reaches k m
