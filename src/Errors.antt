-- ===== src/Errors.antt =====
-- Go error values as the program builds them: errors.New, the sentinels, fmt.Errorf with one or
-- two %w, core/errors.AppError (whose text is its label before its cause), errors.Join, and the
-- tag of pkg/reliability/retry. errors.As walks the tree in preorder.
use nimburion.Base.{Text, codes, Option, none, some, ◌++◌}

-- reliability/retry.Classification. `other` is any string that is none of the three.
pub data Classification : Type 0 where
  retryable poison terminal : Classification
  other : Text → Classification

-- The error variables that the modelled packages return.
pub data Sentinel : Type 0 where
  canceled deadline_exceeded : Sentinel
  circuit_open timed_out : Sentinel
  jobs_validation jobs_conflict jobs_not_found jobs_retryable : Sentinel
  jobs_invalid_argument jobs_not_initialized jobs_closed : Sentinel
  scheduler_validation scheduler_conflict scheduler_retryable : Sentinel
  atomic_execution_required session_not_found : Sentinel

pub data Err : Type 0 where
  -- errors.New(text), or any error of foreign code
  message : Text → Err
  sentinel : Sentinel → Err
  -- fmt.Errorf(prefix + "%w", e), and AppError with its label
  wrapped : Text → Err → Err
  -- fmt.Errorf(a + "%w" + b + "%w", e, f)
  wrapped_two : Text → Err → Text → Err → Err
  joined : Err → Err → Err
  tagged : Classification → Err → Err

abbrev pub or_else {ℓ} : {A : Type ℓ} → Option A → Option A → Option A
or_else none o = o
or_else (some a) o = some a

abbrev sentinel_text : Sentinel → Text
sentinel_text canceled = codes "context canceled"
sentinel_text deadline_exceeded = codes "context deadline exceeded"
sentinel_text circuit_open = codes "circuit breaker is open"
sentinel_text timed_out = codes "operation timed out"
sentinel_text jobs_validation = codes "jobs validation error"
sentinel_text jobs_conflict = codes "jobs conflict"
sentinel_text jobs_not_found = codes "jobs not found"
sentinel_text jobs_retryable = codes "jobs retryable error"
sentinel_text jobs_invalid_argument = codes "jobs invalid argument"
sentinel_text jobs_not_initialized = codes "jobs not initialized"
sentinel_text jobs_closed = codes "jobs closed"
sentinel_text scheduler_validation = codes "scheduler validation error"
sentinel_text scheduler_conflict = codes "scheduler conflict"
sentinel_text scheduler_retryable = codes "scheduler retryable error"
sentinel_text atomic_execution_required =
    codes
      "non-transactional idempotency requires a store with atomic execution support; use ExecuteOnceTransactional or provide an AtomicStore"
sentinel_text session_not_found = codes "session not found"

-- err.Error()
unfoldable pub error_text : Err → Text
error_text (message t) = t
error_text (sentinel s) = sentinel_text s
error_text (wrapped t e) = t ++ error_text e
error_text (wrapped_two t e u f) = t ++ (error_text e ++ (u ++ error_text f))
error_text (joined e f) = error_text e ++ (codes "\n" ++ error_text f)
error_text (tagged c e) = error_text e

-- errors.As(err, &tagged): the first tag in preorder.
unfoldable pub find_tag : Err → Option Classification
find_tag (message t) = none
find_tag (sentinel s) = none
find_tag (wrapped t e) = find_tag e
find_tag (wrapped_two t e u f) = or_else (find_tag e) (find_tag f)
find_tag (joined e f) = or_else (find_tag e) (find_tag f)
find_tag (tagged c e) = some c
