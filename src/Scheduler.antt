-- ===== src/Scheduler.antt =====
-- pkg/scheduler/task.go and runtime.go: matching of cron expressions, the search for the next run,
-- what Start and Stop of the runtime keep, and (in Dispatch) the dispatch of a run. A time is a
-- number of nanoseconds, and the calendar of a time zone is a parameter, which reads a number of
-- minutes.
pub mod Cron
pub mod Dispatch
pub mod NextRun
pub mod Starting
mod Examples
use nimburion.Base.{
  ℕ, zero, suc, ◌+◌, ◌*◌, ◌/◌, Text, codes, List, [], ◌∷◌, ◌++◌, Bool, true, false, ◌&&◌, ◌||◌,
  Option, none, some, any, ◌==◌, is_empty, if◌then◌else◌, lookup, insert,
}
use nimburion.Errors.{Err, Sentinel, wrapped, sentinel, scheduler_validation, scheduler_conflict}
use nimburion.Effect.{Result, ok, err}

-- `schedulerError` on these kinds, with a message that is not empty; quotes stand for %q.
unfoldable pub scheduler_error : Sentinel → Text → Err
scheduler_error kind text = wrapped (text ++ codes ": ") (sentinel kind)

-- The values of a field, or all of them.
pub record CronFieldMatcher : Type 0 where
  pub any_value : Bool
  pub values : List ℕ

abbrev pub contains : CronFieldMatcher → ℕ → Bool
contains m value = if m.any_value then true else any (λ v. v == value) m.values

pub record CronExpression : Type 0 where
  pub minute : CronFieldMatcher
  pub hour : CronFieldMatcher
  pub day_of_month : CronFieldMatcher
  pub month : CronFieldMatcher
  pub day_of_week : CronFieldMatcher

-- What a calendar says of a minute; Sunday is 0.
pub record LocalTime : Type 0 where
  pub minute : ℕ
  pub hour : ℕ
  pub day : ℕ
  pub month : ℕ
  pub weekday : ℕ

-- Where both day fields are restricted, one of them is enough.
unfoldable pub day_matches : CronExpression → LocalTime → Bool
day_matches e t =
    let by_month = contains e.day_of_month t.day in
    let by_week = contains e.day_of_week t.weekday in
    if e.day_of_month.any_value && e.day_of_week.any_value
    then true
    else if e.day_of_month.any_value
    then by_week
    else if e.day_of_week.any_value
    then by_month
    else by_month || by_week

unfoldable pub matches : CronExpression → LocalTime → Bool
matches e t =
    if contains e.minute t.minute && (contains e.hour t.hour && contains e.month t.month)
    then day_matches e t
    else false

abbrev pub minute_length : ℕ
minute_length = 60_000_000_000

unfoldable pub max_cron_search_iterations : ℕ
max_cron_search_iterations = 5 * 366 * 24 * 60

-- now.Truncate(time.Minute).Add(time.Minute), in minutes.
abbrev pub first_candidate : ℕ → ℕ
first_candidate now = now / minute_length + 1

abbrev pub none_found : Text → Err
none_found schedule =
    scheduler_error scheduler_validation
      (codes "unable to find next run for schedule \"" ++ (schedule ++ codes "\""))

module _ (calendar : ℕ → LocalTime) (e : CronExpression) where
  -- The search loop with the rounds left.
  unfoldable pub search : ℕ → ℕ → Option ℕ
  search zero candidate = none
  search (suc rounds) candidate = elim (matches e (calendar candidate)) [
    | true ↦ some candidate
    | false ↦ search rounds (candidate + 1)
  ]

  -- nextRunForSchedule on a cron expression that was parsed.
  unfoldable pub next_cron_run : Text → ℕ → Result ℕ
  next_cron_run schedule now = elim (search max_cron_search_iterations (first_candidate now)) [
    | some candidate ↦ ok (candidate * minute_length)
    | none ↦ err (none_found schedule)
  ]

-- The runtime's tasks by name; a task is a number that names it. `running` as in the source.
pub record Runtime : Type 0 where
  pub tasks : List (Text × ℕ)
  pub running : Bool

-- Register, with a task that was checked.
unfoldable pub register : Text → ℕ → Runtime → Option Err × Runtime
unfolding scheduler_error
register name task r = elim (lookup name r.tasks) [
  | some _ ↦ (
    some (
        scheduler_error scheduler_conflict
          (codes "task \"" ++ (name ++ codes "\" is already registered"))),
    r,
  )
  | none ↦ (none, record r { tasks = insert name task r.tasks })
]

abbrev pub already_running : Err
already_running = scheduler_error scheduler_conflict (codes "scheduler already running")

abbrev pub no_tasks : Err
no_tasks = scheduler_error scheduler_validation (codes "no scheduler tasks registered")

-- Start up to the point where its loops run.
unfoldable pub start : Runtime → Option Err × Runtime
start r =
    let marked = record r { running = true } in
    if r.running
    then (some already_running, r)
    else if is_empty r.tasks
    then (some no_tasks, marked)
    else (none, marked)

-- Stop up to the point where it waits.
unfoldable pub stop : Runtime → Runtime
stop r = record r { running = false }
