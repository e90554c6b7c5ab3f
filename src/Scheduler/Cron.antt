-- ===== src/Scheduler/Cron.antt =====
-- pkg/scheduler/task.go: the parser of cron expressions, and nextRunForSchedule as a whole. The
-- values of a field are a set, here the list of what was put into it. The loop over the values of
-- a segment adds a step of 64 bits and takes fuel; `none` is a run that is out of fuel.
mod Examples
pub mod Ending
pub mod Fields
pub mod Values
pub mod Wrapping
use nimburion.Base.{
  cut, split_on, fields_of, ℕ, zero, suc, ◌+◌, Text, codes, List, [], ◌∷◌, ◌++◌, Bool, true, false,
  ◌&&◌, ◌||◌, Option, none, some, ℤ, pos, pos_part, ◌+ℤ◌, leb_ℤ, ltb_ℤ, eq_ℤ, wrap_64, any, ◌==◌,
  eq_text, is_empty, if◌then◌else◌, trim_space, is_space, show_ℤ, show_ℕ, parse_int, reverse,
}
use nimburion.Errors.{Err, joined, scheduler_validation}
use nimburion.Effect.{Result, ok, err}
use nimburion.Scheduler.{
  scheduler_error, CronFieldMatcher, CronExpression, LocalTime, next_cron_run,
}

abbrev pub invalid {ℓ} : {A : Type ℓ} → Text → Result A
invalid text = err (scheduler_error scheduler_validation text)

abbrev quoted : Text → Text
quoted s = codes "\"" ++ (s ++ codes "\"")

unfoldable pub normalize_cron_value : Bool → ℤ → ℤ
normalize_cron_value sunday value = if sunday && eq_ℤ value (pos 7) then pos 0 else value

-- The limits of a field, and whether its 7 stands for Sunday.
pub record Limits : Type 0 where
  pub min : ℕ
  pub max : ℕ
  pub sunday : Bool

abbrev pub outside : Limits → ℤ → Bool
outside l value = ltb_ℤ value (pos l.min) || ltb_ℤ (pos l.max) value

unfoldable pub add_value : Limits → ℤ → List ℕ → List ℕ
unfolding normalize_cron_value
add_value l value values =
    let normalized = normalize_cron_value l.sunday value in
    if outside l normalized then values else pos_part normalized ∷ values

-- for value := start; value <= end; value += step
unfoldable pub fill : ℕ → Limits → ℤ → ℤ → ℤ → List ℕ → Option (List ℕ)
unfolding add_value wrap_64 ◌+ℤ◌
fill zero l end step value values = none
fill (suc fuel) l end step value values =
    let rest = fill fuel l end step (wrap_64 (value +ℤ step)) (add_value l value values) in
    if leb_ℤ value end then rest else some values

abbrev pub cron_rounds : ℕ
cron_rounds = 200

abbrev step_parsed : Text → Text → Option ℤ → Result (Text × ℤ)
step_parsed base raw none = invalid (codes "invalid step value " ++ quoted raw)
step_parsed base raw (some step) =
    if leb_ℤ step (pos 0)
    then invalid (codes "invalid step value " ++ quoted raw)
    else ok (base, step)

abbrev step_cut : Text → Option (Text × Text) → Result (Text × ℤ)
step_cut segment none = ok (segment, pos 1)
step_cut segment (some (base, raw)) =
    step_parsed (trim_space base) (trim_space raw) (parse_int (trim_space raw))

-- The base and the step of a segment.
unfoldable pub step_of : Text → Result (Text × ℤ)
unfolding cut parse_int
step_of segment = step_cut segment (cut b'/' segment)

abbrev range_end : Limits → Text → ℤ → Option ℤ → Result (ℤ × ℤ)
range_end l text start none = invalid (codes "invalid range end " ++ quoted text)
range_end l text start (some end) =
    ok (normalize_cron_value l.sunday start, normalize_cron_value l.sunday end)

abbrev range_of : Limits → Text × Text → Option ℤ → Result (ℤ × ℤ)
range_of l parts none = invalid (codes "invalid range start " ++ quoted parts.0)
range_of l parts (some start) = range_end l parts.1 start (parse_int (trim_space parts.1))

abbrev single_of : Limits → Text → ℤ → Option ℤ → Result (ℤ × ℤ)
single_of l base step none = invalid (codes "invalid value " ++ quoted base)
single_of l base step (some value) =
    let start = normalize_cron_value l.sunday value in
    ok (start, if ltb_ℤ (pos 1) step then pos l.max else start)

-- The first and the last value of a segment with this base and step.
unfoldable pub bounds_of : Limits → Text → ℤ → Result (ℤ × ℤ)
unfolding cut parse_int normalize_cron_value
bounds_of l raw step =
    let trimmed = trim_space raw in
    let base = if is_empty trimmed then codes "*" else trimmed in
    if eq_text base (codes "*") then ok (pos l.min, pos l.max) else elim (cut b'-' base) [
      | some parts ↦ range_of l parts (parse_int (trim_space parts.0))
      | none ↦ single_of l base step (parse_int base)
    ]

abbrev out_of_range : Limits → ℤ → Text
out_of_range l value =
    codes "value "
    ++ (show_ℤ value
        ++ (codes " out of range ["
            ++ (show_ℕ l.min ++ (codes "," ++ (show_ℕ l.max ++ codes "]")))))

-- The bounds, if they are a range within the limits.
unfoldable pub check_bounds : Limits → ℤ × ℤ → Result (ℤ × ℤ)
check_bounds l (start, end) =
    if outside l start
    then invalid (out_of_range l start)
    else if outside l end
    then invalid (out_of_range l end)
    else if ltb_ℤ end start
    then invalid (codes "invalid range " ++ (show_ℤ start ++ (codes "-" ++ show_ℤ end)))
    else ok (start, end)

-- The start, the end and the step of a segment.
pub record Stride : Type 0 where
  pub start : ℤ
  pub end : ℤ
  pub step : ℤ

abbrev stride_checked : ℤ → Result (ℤ × ℤ) → Result Stride
stride_checked step (err e) = err e
stride_checked step (ok (start, end)) = ok (record { start = start; end = end; step = step })

abbrev stride_bounded : Limits → ℤ → Result (ℤ × ℤ) → Result Stride
stride_bounded l step (err e) = err e
stride_bounded l step (ok bounds) = stride_checked step (check_bounds l bounds)

abbrev stride_stepped : Limits → Result (Text × ℤ) → Result Stride
stride_stepped l (err e) = err e
stride_stepped l (ok (base, step)) = stride_bounded l step (bounds_of l base step)

-- appendCronSegmentValues up to its loop.
unfoldable pub stride_of : Limits → Text → Result Stride
unfolding step_of bounds_of check_bounds
stride_of l segment = stride_stepped l (step_of segment)

abbrev filled : Option (List ℕ) → Option (Result (List ℕ))
filled none = none
filled (some values) = some (ok values)

abbrev appended : Limits → List ℕ → Result Stride → Option (Result (List ℕ))
appended l values (err e) = some (err e)
appended l values (ok s) = filled (fill cron_rounds l s.end s.step s.start values)

unfoldable pub append_cron_segment_values : Limits → Text → List ℕ → Option (Result (List ℕ))
unfolding stride_of fill
append_cron_segment_values l segment values = appended l values (stride_of l segment)

abbrev and_append :
    Option (Result (List ℕ)) → (List ℕ → Option (Result (List ℕ))) → Option (Result (List ℕ))
and_append none next = none
and_append (some (err e)) next = some (err e)
and_append (some (ok values)) next = next values

-- The loop over the segments of a field.
unfoldable pub append_segments : Limits → List Text → List ℕ → Option (Result (List ℕ))
unfolding append_cron_segment_values
append_segments l [] values = some (ok values)
append_segments l (raw ∷ segments) values =
    let segment = trim_space raw in
    let rest = λ (vs : List ℕ). append_segments l segments vs in
    if is_empty segment
    then some (invalid (codes "empty segment"))
    else and_append (append_cron_segment_values l segment values) rest

abbrev matcher_of : Option (Result (List ℕ)) → Option (Result CronFieldMatcher)
matcher_of none = none
matcher_of (some (err e)) = some (err e)
matcher_of (some (ok values)) =
    if is_empty values
    then some (invalid (codes "no values parsed"))
    else some (ok (record { any_value = false; values = values }))

unfoldable pub parse_cron_field : Limits → Text → Option (Result CronFieldMatcher)
unfolding append_segments split_on
parse_cron_field l raw =
    let field = trim_space raw in
    if is_empty field
    then some (invalid (codes "empty field"))
    else if eq_text field (codes "*")
    then some (ok (record { any_value = true; values = [] }))
    else matcher_of (append_segments l (split_on b',' field) [])

abbrev pub minute_limits : Limits
minute_limits = record { min = 0; max = 59; sunday = false }

abbrev pub hour_limits : Limits
hour_limits = record { min = 0; max = 23; sunday = false }

abbrev pub day_of_month_limits : Limits
day_of_month_limits = record { min = 1; max = 31; sunday = false }

abbrev pub month_limits : Limits
month_limits = record { min = 1; max = 12; sunday = false }

abbrev pub day_of_week_limits : Limits
day_of_week_limits = record { min = 0; max = 7; sunday = true }

-- A field of the expression, its error with its name, and what is made of it.
abbrev and_field {ℓ} :
    {A : Type ℓ}
    → Text
    → Text
    → Option (Result CronFieldMatcher)
    → (CronFieldMatcher → Option (Result A))
    → Option (Result A)
and_field name raw none next = none
and_field name raw (some (err e)) next = some (
    err (
      joined
        (scheduler_error scheduler_validation
          (codes "invalid " ++ (name ++ (codes " field " ++ quoted raw))))
        e))
and_field name raw (some (ok m)) next = next m

pub record CronFields : Type 0 where
  pub minute : Text
  pub hour : Text
  pub day_of_month : Text
  pub month : Text
  pub day_of_week : Text

unfoldable pub parse_cron_expression : CronFields → Option (Result CronExpression)
unfolding parse_cron_field
parse_cron_expression f =
    and_field (codes "minute") f.minute (parse_cron_field minute_limits f.minute) λ minute.
      and_field (codes "hour") f.hour (parse_cron_field hour_limits f.hour) λ hour.
        and_field (codes "day-of-month") f.day_of_month
          (parse_cron_field day_of_month_limits f.day_of_month)
          λ day_of_month.
            and_field (codes "month") f.month (parse_cron_field month_limits f.month) λ month.
              and_field (codes "day-of-week") f.day_of_week
                (parse_cron_field day_of_week_limits f.day_of_week)
                λ day_of_week. some (
                  ok (record {
                    minute = minute;
                    hour = hour;
                    day_of_month = day_of_month;
                    month = month;
                    day_of_week = day_of_week;
                  }))

abbrev cron_fields : List Text → Option CronFields
cron_fields (a ∷ b ∷ c ∷ d ∷ e ∷ []) =
    some (record { minute = a; hour = b; day_of_month = c; month = d; day_of_week = e })
cron_fields _ = none

-- strings.HasPrefix and strings.TrimPrefix
unfoldable pub after_prefix : Text → Text → Option Text
after_prefix [] s = some s
after_prefix (c ∷ p) [] = none
after_prefix (c ∷ p) (d ∷ s) = let rest = after_prefix p s in if c == d then rest else none

-- time.ParseDuration is a parameter, and so is the calendar.
module _ (parse_duration : Text → Result ℤ) (calendar : ℕ → LocalTime) where
  abbrev every : ℕ → Result ℤ → Result ℕ
  every now (err e) =
      err (joined (scheduler_error scheduler_validation (codes "invalid @every duration")) e)
  every now (ok interval) =
      if leb_ℤ interval (pos 0)
      then invalid (codes "@every duration must be > 0")
      else ok (now + pos_part interval)

  abbrev run_of : Text → ℕ → Option (Result CronExpression) → Option (Result ℕ)
  run_of schedule now none = none
  run_of schedule now (some (err e)) = some (err e)
  run_of schedule now (some (ok e)) = some (next_cron_run calendar e schedule now)

  abbrev cron_run : Text → ℕ → Option CronFields → Option (Result ℕ)
  cron_run schedule now none =
      some (invalid (codes "unsupported schedule format " ++ quoted schedule))
  cron_run schedule now (some f) = run_of schedule now (parse_cron_expression f)

  unfoldable pub next_run_for_schedule : Text → ℕ → Option (Result ℕ)
  unfolding after_prefix parse_cron_expression fields_of next_cron_run
  next_run_for_schedule schedule now = elim (after_prefix (codes "@every ") schedule) [
    | some duration ↦ some (every now (parse_duration (trim_space duration)))
    | none ↦ cron_run schedule now (cron_fields (fields_of schedule))
  ]
