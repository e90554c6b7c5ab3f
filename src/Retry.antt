-- ===== src/Retry.antt =====
-- pkg/reliability/retry/retry.go: the tags of errors, the retry budget, the exponential backoff
-- and the decision what becomes of a failure. Durations and counters are Go's 64-bit integers.
pub mod Backoff
pub mod Decisions
mod Examples
use nimburion.Base.{
  codes, List, ℕ, zero, suc, ◌-◌, Text, Bool, true, false, Option, none, some, ℤ, pos, pos_part,
  leb_ℤ, ltb_ℤ, double_64, half_64, if◌then◌else◌, is_empty, eq_ℤ,
}
use nimburion.Errors.{
  Classification, retryable, poison, terminal, other, Err, message, tagged, find_tag,
}

-- A nil error stays nil.
unfoldable pub tag_retryable : Option Err → Option Err
tag_retryable none = none
tag_retryable (some e) = some (tagged retryable e)

unfoldable pub tag_poison : Option Err → Option Err
tag_poison none = none
tag_poison (some e) = some (tagged poison e)

unfoldable pub tag_terminal : Option Err → Option Err
tag_terminal none = none
tag_terminal (some e) = some (tagged terminal e)

abbrev class_or_default : Option Classification → Classification
class_or_default none = retryable
class_or_default (some c) = c

unfoldable pub classify : Option Err → Classification
classify none = retryable
classify (some e) = class_or_default (find_tag e)

pub record Budget : Type 0 where
  pub max_attempts : ℤ
  pub initial_backoff : ℤ
  pub max_backoff : ℤ
  pub attempt_timeout : ℤ

-- The default where the value is not positive.
abbrev pub positive_or : ℤ → ℤ → ℤ
positive_or x d = if leb_ℤ x (pos 0) then d else x

unfoldable pub normalize : Budget → Budget → Budget
normalize b defaults = record {
  max_attempts = positive_or b.max_attempts defaults.max_attempts;
  initial_backoff = positive_or b.initial_backoff defaults.initial_backoff;
  max_backoff = positive_or b.max_backoff defaults.max_backoff;
  attempt_timeout = positive_or b.attempt_timeout defaults.attempt_timeout;
}

pub record Policy : Type 0 where
  pub dead_letter_enabled : Bool
  pub quarantine_enabled : Bool

pub data Disposition : Type 0 where
  immediate_retry delayed_retry dead_letter quarantine drop : Disposition

pub record Decision : Type 0 where
  pub classification : Classification
  pub disposition : Disposition
  pub attempt : ℤ
  pub max_attempts : ℤ
  pub delay : ℤ

-- The metadata map is an association list; a record is built by the worker and the consumer.
pub record QuarantineRecord : Type 0 where
  pub scope : Text
  pub key : Text
  pub classification : Classification
  pub reason : Text
  pub attempt : ℤ
  pub max_attempts : ℤ
  pub occurred_at : ℤ
  pub metadata : List (Text × Text)

-- The text of the error, or `none`; a nil record is `none`.
unfoldable pub validate_record : Option QuarantineRecord → Option Err
validate_record none = some (message (codes "quarantine record is nil"))
validate_record (some r) =
    if is_empty r.scope
    then some (message (codes "quarantine scope is required"))
    else if is_empty r.key
    then some (message (codes "quarantine key is required"))
    else if is_empty r.reason
    then some (message (codes "quarantine reason is required"))
    else if eq_ℤ r.occurred_at (pos 0)
    then some (message (codes "quarantine occurred_at is required"))
    else none

-- The rounds `i < attempt` left, and the cap behind the loop.
backoff_loop : ℕ → ℤ → ℤ → ℤ
backoff_loop zero backoff max_backoff = if ltb_ℤ max_backoff backoff then max_backoff else backoff
backoff_loop (suc rounds) backoff max_backoff = elim (leb_ℤ (half_64 max_backoff) backoff) [
  | true ↦ max_backoff
  | false ↦ backoff_loop rounds (double_64 backoff) max_backoff
]

unfoldable pub exponential_backoff : ℤ → ℤ → ℤ → ℤ
unfolding backoff_loop
exponential_backoff attempt initial max_backoff =
    if leb_ℤ attempt (pos 0)
    then initial
    else backoff_loop (pos_part attempt - 1) initial max_backoff

-- Where a failure goes that is not retried.
abbrev discard : Policy → Disposition
discard p = if p.dead_letter_enabled then dead_letter else drop

abbrev exhausted : Policy → Disposition
exhausted p = if p.quarantine_enabled then quarantine else discard p

-- The `switch` of `Decide`, with `maxAttempts` already raised to 1.
choose : Classification → ℤ → ℤ → Budget → Policy → Disposition × ℤ
choose poison attempt max_attempts b p = (exhausted p, pos 0)
choose terminal attempt max_attempts b p = (discard p, pos 0)
choose _ attempt max_attempts b p =
    if ltb_ℤ attempt max_attempts
    then (delayed_retry, exponential_backoff attempt b.initial_backoff b.max_backoff)
    else (exhausted p, pos 0)

unfoldable pub decide : Classification → ℤ → ℤ → Budget → Policy → Decision
unfolding choose
decide class attempt max_attempts b p =
    let limit = positive_or max_attempts (pos 1) in
    let (disposition, delay) = choose class attempt limit b p in
    record {
      classification = class;
      disposition = disposition;
      attempt = attempt;
      max_attempts = limit;
      delay = delay;
    }
