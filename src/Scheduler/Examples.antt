-- ===== src/Scheduler/Examples.antt =====
-- A task for half past each hour, a run whose lease is lost, and a scheduler that is started
-- without tasks.
use nimburion.Base.{
  arith, is_empty, if◌then◌else◌, ℕ, ◌+◌, ◌*◌, ◌/◌, ◌%◌, ◌<◌, ◌≤◌, ◌≡◌, refl, ◌⊎◌, ◌↔◌, codes, [],
  ◌∷◌, true, false, none, some, Text, Option, ℤ, pos, ◌-ℤ◌, show_ℤ, show_ℕ,
}
use nimburion.Errors.{Err, message}
use nimburion.Effect.{ok, err}
use nimburion.Scheduler.{
  CronFieldMatcher, CronExpression, LocalTime, day_matches, matches, minute_length, search,
  next_cron_run, Runtime, already_running, no_tasks, start, stop,
}
use nimburion.Scheduler.Dispatch.{
  Task, LockLease, acquire, Environment, lock_key, unix, lock_ttl_of, due, misfire_fire_once,
  job_of, join, retry_error, renew_loop, renewals, renew_on, release_lease, run_locked,
  after_acquire, dispatch,
}
use nimburion.Scheduler.Dispatch.Keys.{due-lock_key_iff}
use nimburion.Scheduler.Dispatch.Locked.{Locked, dispatch-Locked}
use nimburion.Scheduler.NextRun.{FoundFirst, next_cron_run-first}
use nimburion.Scheduler.Starting.{
  registers, starts, after_all, answers, refusals, start_after_empty,
}

abbrev every : CronFieldMatcher
every = record { any_value = true; values = [] }

abbrev half_past : CronExpression
half_past = record {
  minute = record { any_value = false; values = 30 ∷ [] };
  hour = every;
  day_of_month = every;
  month = every;
  day_of_week = every;
}

-- Enough of a calendar for this expression.
abbrev calendar : ℕ → LocalTime
calendar m = record { minute = m % 60; hour = m / 60 % 24; day = 1; month = 1; weekday = 0 }

found_in_two : search calendar half_past 5 28 ≡ some 30
unfolding search matches day_matches
found_in_two = refl

next_cron_run-first_example :
    (first : ℕ) × (100 < first * minute_length)
    × (first * minute_length ≤ 100 + minute_length)
    × FoundFirst calendar half_past
        (codes "30 * * * *")
        first
        (next_cron_run calendar half_past (codes "30 * * * *") 100)
next_cron_run-first_example = next_cron_run-first calendar half_past (codes "30 * * * *") 100

abbrev fresh : Runtime
fresh = record { tasks = []; running = false }

start_after_empty_example :
    let done = registers (codes "backup") 7 ∷ starts ∷ registers (codes "report") 8 ∷ [] in
    let failed = start fresh in
    let left = after_all done failed.1 in
    (failed.0 ≡ some no_tasks)
    × (answers done failed.1 ≡ refusals done)
    × (start left ≡ (some already_running, left))
    × ((start (stop left)).0 ≡ (if is_empty left.tasks then some no_tasks else none))
start_after_empty_example =
    start_after_empty fresh
      (registers (codes "backup") 7 ∷ starts ∷ registers (codes "report") 8 ∷ []) refl refl

abbrev nightly : Task
nightly = record {
  name = codes "report";
  schedule = codes "@daily";
  queue = codes " mail ";
  job_name = codes "send";
  payload = [];
  headers = [];
  tenant_id = [];
  idempotency_key = [];
  timezone = [];
  lock_ttl = pos 0;
  misfire_policy = codes "skip";
}

abbrev lease : LockLease
lease = record { key = codes "scheduler:report:0"; token = codes "t"; expire_at = pos 0 }

-- A lock that is free and cannot be renewed, and a queue that accepts every job.
abbrev renewals_fail : Environment
renewals_fail = record {
  acquired = λ calls. ok (some lease, true);
  renewed = λ calls. some (message (codes "lost"));
  enqueued = λ calls. none;
  released = λ calls. none;
}

-- 2 January 1970.
abbrev second_day : ℤ
second_day = pos 62_135_683_200_000_000_000

abbrev format : ℤ → Text
format t = codes "1970-01-02T00:00:00Z"

lock_key_of_second_day : lock_key nightly second_day ≡ codes "scheduler:report:86400"
unfolding lock_key unix show_ℤ show_ℕ ◌-ℤ◌
lock_key_of_second_day = refl

dispatch_renewal_lost :
    (dispatch renewals_fail (pos 9) 1 1 format (codes "i") (pos 1) nightly second_day []).0
    ≡ some (retry_error (codes "renew lock failed") (message (codes "lost")))
unfolding dispatch after_acquire run_locked renewals renew_on renew_loop release_lease join
    lock_ttl_of
dispatch_renewal_lost = refl

dispatch-Locked_example :
    let asked = acquire (lock_key nightly second_day) (lock_ttl_of (pos 9) nightly) ∷ [] in
    let r = dispatch renewals_fail (pos 9) 1 1 format (codes "i") (pos 1) nightly second_day [] in
    ((e : Err) × (renewals_fail.acquired asked ≡ err e)
      × (r ≡ (some (retry_error (codes "acquire lock failed") e), asked)))
    ⊎ ((l : Option LockLease) × (renewals_fail.acquired asked ≡ ok (l, false))
        × (r ≡ (none, asked)))
    ⊎ ((l : Option LockLease) × (renewals_fail.acquired asked ≡ ok (l, true))
        × Locked renewals_fail l (job_of format (codes "i") (pos 1) nightly second_day) asked r)
dispatch-Locked_example =
    dispatch-Locked renewals_fail (pos 9) 1 1 format (codes "i") (pos 1) nightly second_day []

abbrev makes_up : Task
makes_up = record nightly { misfire_policy = misfire_fire_once }

-- 1.5 s and 2.5 s after midnight.
due-lock_key_iff_example :
    let early = pos 62_135_683_201_500_000_000 in
    let late = pos 62_135_683_202_500_000_000 in
    let m : ℕ = 86401 in
    let n : ℕ = 86402 in
    (due makes_up second_day early ≡ some early)
    × (due makes_up second_day late ≡ some late)
    × ((lock_key makes_up early ≡ lock_key makes_up late) ↔ (m ≡ n))
unfolding unix ◌-ℤ◌
due-lock_key_iff_example =
    due-lock_key_iff makes_up second_day (pos 62_135_683_201_500_000_000)
      (pos 62_135_683_202_500_000_000) 86401 86402 refl (omega arith) (omega arith) refl refl
