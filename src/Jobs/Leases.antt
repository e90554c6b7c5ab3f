-- ===== src/Jobs/Leases.antt =====
-- pkg/jobs/runtime_backend.go: the leases of the in-process backend. What happens under the mutex
-- is one step; a delivery is a number that names it, and its `once` and channel are the list of
-- results. Timers are numbers too: a running timer can be stopped, and one that has fired has its
-- callback waiting for the mutex. The backend and its runtime are not nil.
mod Examples
pub mod Linear
pub mod Owners
pub mod Races
use nimburion.Base.{
  ℕ, ◌+◌, ◌*◌, Text, codes, List, [], ◌∷◌, ◌++◌, map, Bool, true, false, Option, none, some, ℤ, pos,
  ◌+ℤ◌, leb_ℤ, eq_ℤ, inc_64, any, ◌==◌, eq_text, is_empty, if◌then◌else◌, trim_space, insert,
  lookup, remove,
}
use nimburion.Errors.{
  Err, joined, jobs_conflict, jobs_not_found, jobs_retryable, jobs_invalid_argument, jobs_closed,
  error_text,
}
use nimburion.Effect.{Result, ok, err}
use nimburion.Retry.{positive_or}
use nimburion.Jobs.{Job, Lease, second, jobs_error}

-- The lease, the delivery behind it with its job, and the timer of its expiry.
pub record LeaseState : Type 0 where
  pub lease : Lease
  pub delivery : ℕ
  pub job : Job
  pub timer : ℕ

pub record RuntimeBackend : Type 0 where
  pub subscriptions : List Text
  pub leases : List (Text × LeaseState)
  pub closed : Bool
  -- the running timers with the tokens they are for, and the tokens of those that fired
  pub timers : List (ℕ × Text)
  pub fired : List Text
  pub next_timer : ℕ
  -- what the deliveries were completed with
  pub results : List (ℕ × Option Err)
  -- the jobs that the runtime was asked to enqueue, the last one first
  pub enqueued : List Job

unfoldable pub empty_backend : RuntimeBackend
empty_backend = record {
  subscriptions = [];
  leases = [];
  closed = false;
  timers = [];
  fired = [];
  next_timer = 0;
  results = [];
  enqueued = [];
}

abbrev pub is_completed : ℕ → List (ℕ × Option Err) → Bool
is_completed d results = any (λ r. r.0 == d) results

-- Only the first completion of a delivery counts.
unfoldable pub complete : ℕ → Option Err → RuntimeBackend → RuntimeBackend
complete d result b =
    if is_completed d b.results then b else record b { results = (d, result) ∷ b.results }

unfoldable pub after_func : Text → RuntimeBackend → ℕ × RuntimeBackend
after_func token b = (
  b.next_timer,
  record b { timers = (b.next_timer, token) ∷ b.timers; next_timer = b.next_timer + 1 },
)

unfoldable pub without_timer : ℕ → List (ℕ × Text) → List (ℕ × Text)
without_timer id [] = []
without_timer id ((i, token) ∷ timers) =
    let rest = without_timer id timers in if i == id then rest else (i, token) ∷ rest

-- A timer that has fired cannot be stopped any more.
unfoldable pub stop_timer : ℕ → RuntimeBackend → RuntimeBackend
stop_timer id b = record b { timers = without_timer id b.timers }

unfoldable pub timer_token : ℕ → List (ℕ × Text) → Option Text
timer_token id [] = none
timer_token id ((i, token) ∷ timers) =
    let rest = timer_token id timers in if i == id then some token else rest

-- The time of a running timer is up, and its callback starts.
unfoldable pub fire : ℕ → RuntimeBackend → RuntimeBackend
unfolding without_timer
fire id b = elim (timer_token id b.timers) [
  | none ↦ b
  | some token ↦ record b { timers = without_timer id b.timers; fired = token ∷ b.fired }
]

-- What ensureSubscription finds: an existing subscription, or one to make.
pub data Subscribing : Type 0 where
  existing made : Subscribing

abbrev pub backend_closed : Err
backend_closed = jobs_error jobs_closed (codes "runtime backend is closed")

unfoldable pub ensure_subscription : Text → RuntimeBackend → Result Subscribing × RuntimeBackend
unfolding jobs_error
ensure_subscription queue b =
    if b.closed
    then (err backend_closed, b)
    else if any (eq_text queue) b.subscriptions
    then (ok existing, b)
    else (ok made, record b { subscriptions = queue ∷ b.subscriptions })

unfoldable pub without_queue : Text → List Text → List Text
without_queue queue [] = []
without_queue queue (q ∷ qs) =
    let rest = without_queue queue qs in if eq_text q queue then rest else q ∷ rest

-- What ensureSubscription does where the runtime refuses the subscription that it made.
unfoldable pub forget_subscription : Text → Err → RuntimeBackend → Err × RuntimeBackend
unfolding without_queue jobs_error
forget_subscription queue e b = (
  joined (jobs_error jobs_retryable (codes "subscribe queue \"" ++ (queue ++ codes "\" failed"))) e,
  record b { subscriptions = without_queue queue b.subscriptions },
)

abbrev pub lease_time : ℤ → ℤ
lease_time lease_for = positive_or lease_for (pos (30 * second))

unfoldable pub lease_of : Text → ℤ → ℤ → Text → Job → Lease
unfolding ◌+ℤ◌
lease_of queue lease_for now token job = record {
  job_id = trim_space job.id;
  token = token;
  queue = queue;
  expire_at = now +ℤ lease_time lease_for;
  attempt = job.attempt;
}

-- Reserve with a delivery and its job in hand, up to the mutex: the timer is started first.
unfoldable pub begin_lease :
    Text → ℤ → ℤ → Text → ℕ → Job → RuntimeBackend → LeaseState × RuntimeBackend
unfolding lease_of after_func
begin_lease queue lease_for now token delivery job b =
    let (timer, b') = after_func token b in
    (
      record {
        lease = lease_of queue lease_for now token job;
        delivery = delivery;
        job = job;
        timer = timer;
      },
      b',
    )

-- What Reserve does with what it received; none stands for a delivery that is nil or has no job.
unfoldable pub take_delivery :
    Text → ℤ → ℤ → Text → ℕ → Option Job → RuntimeBackend → Result LeaseState × RuntimeBackend
unfolding begin_lease jobs_error
take_delivery queue lease_for now token delivery none b =
    (err (jobs_error jobs_retryable (codes "received empty delivery")), b)
take_delivery queue lease_for now token delivery (some job) b =
    let (s, b') = begin_lease queue lease_for now token delivery job b in (ok s, b')

-- Reserve under the mutex.
unfoldable pub finish_lease : LeaseState → RuntimeBackend → Result (Job × Lease) × RuntimeBackend
unfolding stop_timer complete jobs_error
finish_lease s b =
    if b.closed
    then (err backend_closed, complete s.delivery (some backend_closed) (stop_timer s.timer b))
    else (ok (s.job, s.lease), record b { leases = insert s.lease.token s b.leases })

pub not_found : Err
not_found = jobs_error jobs_not_found (codes "lease not found")

-- popLease on a token that was trimmed: the lease is no longer held, and its timer stopped.
unfoldable pub pop_token : Text → RuntimeBackend → Result LeaseState × RuntimeBackend
unfolding not_found
pop_token token b = elim (lookup token b.leases) [
  | none ↦ (err not_found, b)
  | some s ↦ (ok s, stop_timer s.timer (record b { leases = remove token b.leases }))
]

unfoldable pub pop_lease : Option Lease → RuntimeBackend → Result LeaseState × RuntimeBackend
unfolding pop_token jobs_error
pop_lease none b = (err (jobs_error jobs_invalid_argument (codes "lease is required")), b)
pop_lease (some l) b =
    let token = trim_space l.token in
    if is_empty token
    then (err (jobs_error jobs_invalid_argument (codes "lease token is required")), b)
    else pop_token token b

abbrev acked : Result LeaseState × RuntimeBackend → Option Err × RuntimeBackend
acked (err e, b) = (some e, b)
acked (ok s, b) = (none, complete s.delivery none b)

unfoldable pub ack : Option Lease → RuntimeBackend → Option Err × RuntimeBackend
unfolding pop_lease complete
ack lease b = acked (pop_lease lease b)

abbrev with_reason : Option Err → List (Text × Text) → List (Text × Text)
with_reason none headers = headers
with_reason (some e) headers = insert (codes "job_failure_reason") (error_text e) headers

-- The job that Nack enqueues; `stamp` is the time as it is written into a header.
unfoldable pub retry_job : Text → ℤ → Option Err → Job → Job
unfolding inc_64
retry_job stamp run_at reason job = record job {
  attempt = inc_64 job.attempt;
  headers = insert (codes "job_failed_at") stamp (with_reason reason job.headers);
  run_at = run_at;
}

-- The zero time asks for a retry at once.
abbrev retry_time : ℤ → ℤ → ℤ
retry_time next_run_at now = if eq_ℤ next_run_at (pos 0) then now else next_run_at

-- The queue that a job came from.
unfoldable pub source_queue : Lease → Job → Text
source_queue l job =
    let queue = trim_space job.queue in if is_empty queue then trim_space l.queue else queue

-- The job that MoveToDLQ enqueues.
unfoldable pub dlq_job : Text → Text → Option Err → Lease → Job → Job
unfolding source_queue
dlq_job suffix stamp reason l job = record job {
  queue = trim_space (source_queue l job) ++ suffix;
  headers = with_reason reason (
      insert (codes "job_failed_at") stamp
        (insert (codes "job_original_queue") (source_queue l job) job.headers));
}

-- The runtime's answer may depend on all jobs that it was given.
module _ (answer : List Job → Option Err) where
  -- Enqueues a copy of a job and completes its delivery with the outcome.
  unfoldable pub forward : Text → Job → LeaseState → RuntimeBackend → Option Err × RuntimeBackend
  unfolding complete jobs_error
  forward failure job s b =
      let sent = job ∷ b.enqueued in
      let b' = record b { enqueued = sent } in
      elim (answer sent) [
        | none ↦ (none, complete s.delivery none b')
        | some e ↦
            (some (joined (jobs_error jobs_retryable failure) e), complete s.delivery (some e) b')
      ]

  -- Nack behind its popLease. `waited` is the error of the context, if that ended the wait.
  unfoldable pub requeue :
      Text
      → ℤ
      → ℤ
      → Option Err
      → Option Err
      → LeaseState
      → RuntimeBackend
      → Option Err × RuntimeBackend
  unfolding forward retry_job
  requeue stamp next_run_at now reason none s b =
      forward (codes "enqueue retry job failed")
        (retry_job stamp (retry_time next_run_at now) reason s.job) s b
  requeue stamp next_run_at now reason (some e) s b = (some e, complete s.delivery (some e) b)

  abbrev requeued :
      Text
      → ℤ
      → ℤ
      → Option Err
      → Option Err
      → Result LeaseState × RuntimeBackend
      → Option Err × RuntimeBackend
  requeued stamp next_run_at now reason waited (err e, b) = (some e, b)
  requeued stamp next_run_at now reason waited (ok s, b) =
      requeue stamp next_run_at now reason waited s b

  unfoldable pub nack :
      Text
      → ℤ
      → ℤ
      → Option Err
      → Option Err
      → Option Lease
      → RuntimeBackend
      → Option Err × RuntimeBackend
  unfolding pop_lease requeue
  nack stamp next_run_at now reason waited lease b =
      requeued stamp next_run_at now reason waited (pop_lease lease b)

  abbrev moved :
      Text
      → Text
      → Option Err
      → Option Lease
      → Result LeaseState × RuntimeBackend
      → Option Err × RuntimeBackend
  moved suffix stamp reason lease (err e, b) = (some e, b)
  moved suffix stamp reason none (ok s, b) =
      forward (codes "enqueue dlq job failed") (dlq_job suffix stamp reason s.lease s.job) s b
  moved suffix stamp reason (some l) (ok s, b) =
      forward (codes "enqueue dlq job failed") (dlq_job suffix stamp reason l s.job) s b

  unfoldable pub move_to_dlq :
      Text → Text → Option Err → Option Lease → RuntimeBackend → Option Err × RuntimeBackend
  unfolding pop_lease forward dlq_job
  move_to_dlq suffix stamp reason lease b = moved suffix stamp reason lease (pop_lease lease b)

-- The state of a lease that has a new timer.
abbrev extended : ℤ → ℤ → ℕ → LeaseState → LeaseState
extended lease_for now timer s = record s {
  lease = record s.lease { expire_at = now +ℤ lease_time lease_for };
  timer = timer;
}

abbrev renewed : Text → ℤ → ℤ → Option LeaseState → RuntimeBackend → Option Err × RuntimeBackend
renewed token lease_for now none b = (some not_found, b)
renewed token lease_for now (some s) b =
    let (timer, b') = after_func token (stop_timer s.timer b) in
    (none, record b' { leases = insert token (extended lease_for now timer s) b'.leases })

-- A lease that is not nil; its state keeps a timer of its own from Reserve on.
unfoldable pub renew : Option Lease → ℤ → ℤ → RuntimeBackend → Option Err × RuntimeBackend
unfolding not_found jobs_error stop_timer after_func ◌+ℤ◌
renew none lease_for now b =
    (some (jobs_error jobs_invalid_argument (codes "lease token is required")), b)
renew (some l) lease_for now b =
    let token = trim_space l.token in
    if is_empty token
    then (some (jobs_error jobs_invalid_argument (codes "lease token is required")), b)
    else renewed token lease_for now (lookup token b.leases) b

-- expireLease under the mutex: the state whose delivery is then completed.
unfoldable pub expire : Text → RuntimeBackend → Option LeaseState × RuntimeBackend
expire token b =
    let found = lookup token b.leases in
    elim found [ none ↦ (none, b) | some s ↦ (some s, record b { leases = remove token b.leases }) ]

pub lease_expired : Err
lease_expired = jobs_error jobs_conflict (codes "lease expired")

unfoldable pub expire_lease : Text → RuntimeBackend → RuntimeBackend
unfolding expire complete lease_expired jobs_error
expire_lease token b =
    let (found, b') = expire token b in
    elim found [ none ↦ b' | some s ↦ complete s.delivery (some lease_expired) b' ]

abbrev pub states : List (Text × LeaseState) → List LeaseState
states leases = map (λ r. r.1) leases

unfoldable pub stop_timers : List LeaseState → RuntimeBackend → RuntimeBackend
unfolding stop_timer
stop_timers [] b = b
stop_timers (s ∷ ss) b = stop_timers ss (stop_timer s.timer b)

unfoldable pub complete_all : List LeaseState → RuntimeBackend → RuntimeBackend
unfolding complete jobs_error
complete_all [] b = b
complete_all (s ∷ ss) b =
    complete_all ss
      (complete s.delivery (some (jobs_error jobs_closed (codes "runtime backend closed"))) b)

-- Close under the mutex: the subscriptions and the leases that it then ends, unless it is closed.
unfoldable pub close : RuntimeBackend → Option (List Text × List LeaseState) × RuntimeBackend
close b =
    let shut = record b { closed = true; subscriptions = []; leases = [] } in
    if b.closed then (none, b) else (some (b.subscriptions, states b.leases), shut)
