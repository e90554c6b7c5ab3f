-- ===== src/Scheduler/Cron/Examples.antt =====
-- Segments of a cron expression: a range with a step, and a step that leaves the 64 bits.
use nimburion.Base.{
  ℕ, ◌%◌, ◌/◌, ◌≡◌, refl, Text, codes, List, [], ◌∷◌, true, some, ℤ, pos, trim_space, trim_left,
  read_digits, arith,
}
use nimburion.Errors.{message}
use nimburion.Effect.{Result, ok, err}
use nimburion.Scheduler.{LocalTime}
use nimburion.Scheduler.Cron.{
  minute_limits, Stride, stride_of, fill, append_cron_segment_values, next_run_for_schedule,
}
use nimburion.Scheduler.Cron.Values.{has}
use nimburion.Scheduler.Cron.Fields.{IsStride, next_run_for_schedule-ends}
use nimburion.Scheduler.Cron.Wrapping.{append-wraps}

abbrev quarters : Stride
quarters = record { start = pos 10; end = pos 40; step = pos 15 }

quarters_accepted : stride_of minute_limits (codes "10-40/15") ≡ ok quarters
unfolding stride_of trim_space trim_left read_digits
quarters_accepted = refl

quarters_values :
    append_cron_segment_values minute_limits (codes "10-40/15") [] ≡ some (ok (40 ∷ 25 ∷ 10 ∷ []))
unfolding append_cron_segment_values fill trim_space trim_left read_digits
quarters_values = refl

abbrev huge : Stride
huge = record { start = pos 5; end = pos 59; step = pos 9223372036854775807 }

huge_accepted : stride_of minute_limits (codes "5/9223372036854775807") ≡ ok huge
unfolding stride_of trim_space trim_left read_digits
huge_accepted = refl

abbrev huge_IsStride : IsStride minute_limits huge
huge_IsStride = record {
  first = 5;
  last = 59;
  gap = 9223372036854775807;
  starts = refl;
  ends = refl;
  steps = refl;
  from = omega arith;
  ordered = omega arith;
  to = omega arith;
  positive = omega arith;
  fits = omega arith;
}

append-wraps_example :
    (vs : List ℕ) × (append_cron_segment_values minute_limits (codes "5/9223372036854775807") []
      ≡ some (ok vs))
    × (has 3 vs ≡ true)
append-wraps_example =
    append-wraps minute_limits (codes "5/9223372036854775807") huge [] (omega arith) refl
      huge_accepted huge_IsStride (omega arith) (omega arith)

abbrev no_duration : Text → Result ℤ
no_duration s = err (message (codes "time: invalid duration"))

abbrev calendar : ℕ → LocalTime
calendar m = record { minute = m % 60; hour = m / 60 % 24; day = 1; month = 1; weekday = 0 }

next_run_for_schedule-ends_example :
    (r : Result ℕ) × (next_run_for_schedule no_duration calendar (codes "*/15 2-4 * * 1,7") 100
      ≡ some r)
next_run_for_schedule-ends_example =
    next_run_for_schedule-ends no_duration calendar (codes "*/15 2-4 * * 1,7") 100
