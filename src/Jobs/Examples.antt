-- ===== src/Jobs/Examples.antt =====
-- A worker with one handler, a job that fails, and a worker that is started and stopped.
use nimburion.Base.{
  Text, ℤ, show_ℤ, show_ℕ, parse_int, read_digits, ◌*◌, ◌≡◌, refl, codes, [], ◌∷◌, true, false,
  none, some, arith, pos, trim_space,
}
use nimburion.Errors.{Err, message}
use nimburion.Effect.{Result, ok, err}
use nimburion.Retry
use nimburion.Retry.{classify, Budget}
use nimburion.Breaker.{finished, deadline}
use nimburion.Jobs.{
  Job, validate, Lease, WorkerConfig, Worker, trimmed, normalize, normalize_retry, normalize_dlq,
  new_worker, second,
}
use nimburion.Jobs.Processing.{Environment, reserved, process}
use nimburion.Jobs.Messages.{message_of, to_message, from_message}
use nimburion.Jobs.Exchange.{ReadsBack, Same, from_message-to_message}
use nimburion.Jobs.Lifecycle.{
  Lifecycle, stopped_worker, start, stop, contains, wind_down, starts, stops, Reaches, here,
  further,
}
use nimburion.Jobs.Shutdown.{IsOrderly, Reaches-IsOrderly, stop-stale}
use nimburion.Jobs.Settlement.{Settled, process-Settled}

abbrev unset : Budget
unset = record {
  max_attempts = pos 0;
  initial_backoff = pos 0;
  max_backoff = pos 0;
  attempt_timeout = pos 0;
}

-- Only a queue is given, with space around its name, and a blank one.
abbrev config : WorkerConfig
config = record {
  queues = codes " mail " ∷ codes "  " ∷ [];
  concurrency = pos 0;
  lease_ttl = pos 0;
  reserve_timeout = pos 0;
  stop_timeout = pos 0;
  retry = unset;
  dlq = record { enabled = true; queue_suffix = []; has_quarantine = false };
}

abbrev ready : WorkerConfig
ready = record {
  queues = codes "mail" ∷ [];
  concurrency = pos 1;
  lease_ttl = pos (30 * second);
  reserve_timeout = pos second;
  stop_timeout = pos (10 * second);
  retry = record {
    max_attempts = pos 5;
    initial_backoff = pos second;
    max_backoff = pos (60 * second);
    attempt_timeout = pos (30 * second);
  };
  dlq = record { enabled = true; queue_suffix = codes ".dlq"; has_quarantine = false };
}

abbrev idle : Worker
idle = record { config = ready; handlers = [] }

abbrev worker : Worker
worker = record { config = ready; handlers = (codes "send", 7) ∷ [] }

started : new_worker true true config ≡ ok idle
unfolding new_worker trimmed normalize normalize_retry normalize_dlq Retry.normalize trim_space
started = refl

abbrev job : Job
job = record {
  id = codes "j1";
  name = codes "send";
  queue = codes "mail";
  payload = 1 ∷ [];
  headers = [];
  content_type = [];
  tenant_id = [];
  correlation_id = [];
  idempotency_key = [];
  partition_key = [];
  run_at = pos 0;
  attempt = pos 1;
  max_attempts = pos 3;
  created_at = pos 0;
}

abbrev lease : Lease
lease = record {
  job_id = codes "j1";
  token = codes "t";
  queue = codes "mail";
  expire_at = pos (30 * second);
  attempt = pos 1;
}

-- The first run of a handler fails, a later one succeeds.
abbrev environment : Environment
environment = record {
  reservations = λ calls. reserved (some job) (some lease);
  runs = λ calls. elim calls [ (_ ∷ _ ∷ []) ↦ deadline | _ ↦ finished none ];
  renewals = λ calls. none;
  acks = λ calls. none;
  nacks = λ calls. none;
  moves = λ calls. some (message (codes "down"));
  stores = λ calls. none;
  clock = λ calls. pos 1000;
  stopped = λ calls. false;
}

abbrev down : Err
down = message (codes "down")

process-Settled_example : Settled environment [] (process environment worker job lease [])
process-Settled_example = process-Settled environment worker job lease []

-- Times are written as numbers of nanoseconds.
abbrev read_time : Text → Result ℤ
read_time t = elim (parse_int t) [ none ↦ err (message (codes "no time")) | some x ↦ ok x ]

job_sent : to_message show_ℤ (pos 7) job ≡ ok (message_of show_ℤ (pos 7) job)
unfolding to_message validate trim_space
job_sent = refl

seven-ReadsBack : ReadsBack show_ℤ read_time (pos 7)
unfolding show_ℤ show_ℕ parse_int read_digits
seven-ReadsBack = record { dense = (refl, tt); written = refl; again = refl }

from_message-to_message_example :
    (j' : Job) × (from_message read_time
        (pos 9)
        (codes "other")
        (some (message_of show_ℤ (pos 7) job))
      ≡ ok j')
    × Same (pos 7) job j'
from_message-to_message_example =
    from_message-to_message show_ℤ read_time (pos 7) (pos 9) (codes "other") job
      (message_of show_ℤ (pos 7) job) job_sent refl (omega arith) (omega arith) seven-ReadsBack

-- Run 1 is started and stopped, run 2 started.
abbrev first_stopped : Lifecycle
first_stopped = record { running = false; cancel = none; done = 1 ∷ []; started = 1 ∷ [] }

abbrev second_running : Lifecycle
second_running = record { running = true; cancel = some 2; done = 1 ∷ []; started = 2 ∷ 1 ∷ [] }

two_runs : Reaches stopped_worker second_running
unfolding start stop
two_runs =
    further
      (further (further (here stopped_worker) (starts 1 stopped_worker refl))
        (stops (start 1 stopped_worker).1))
      (starts 2 first_stopped refl)

Reaches-IsOrderly_example : IsOrderly second_running
Reaches-IsOrderly_example = Reaches-IsOrderly second_running two_runs

stop-stale_example :
    let restarted = (start 3 (stop second_running).1).1 in
    (restarted.running ≡ true)
    × (restarted.cancel ≡ some 3)
    × (contains 2 restarted.done ≡ true)
    × ((wind_down 2 restarted).1.running ≡ false)
    × (contains 3 (wind_down 2 restarted).1.done ≡ true)
stop-stale_example = stop-stale second_running 2 3 refl refl
