-- ===== src/Outbox.antt =====
-- pkg/reliability/outbox/outbox.go: entries, the transactional write, and the relay that polls
-- the store and publishes. The store, the publisher and the gauges are the environment; log
-- lines are left out. A float64 that is only passed on is its bit pattern.
pub mod Backoff
pub mod Relay
pub mod Settling
pub mod Relaying
pub mod Writing
mod Examples
use nimburion.Base.{
  ℕ, zero, suc, ◌-◌, ◌*◌, Text, codes, List, [], ◌∷◌, ◌++◌, Bool, true, false, Option, none, some,
  ℤ, pos, pos_part, leb_ℤ, ltb_ℤ, inc_64, double_64, ◌+ℤ◌, ◌-ℤ◌, is_empty, if◌then◌else◌,
}
use nimburion.Errors.{Err, message, wrapped, wrapped_two, error_text, sentinel, canceled}
use nimburion.Effect.{Run, Result, ok, err, pure, perform, ◌>>=◌}
use nimburion.Retry.{positive_or}
use nimburion.Transaction.{Body, TxExecutor}

pub record Record : Type 0 where
  pub id : Text
  pub key : Text
  pub payload : List ℕ
  pub headers : List (Text × Text)
  pub content_type : Text

pub record Entry : Type 0 where
  pub id : Text
  pub topic : Text
  pub payload_record : Option Record
  pub created_at : ℤ
  pub available_at : ℤ
  pub published : Bool
  pub published_at : Option ℤ
  pub retry_count : ℤ
  pub last_error : Text

abbrev no_payload : Option Record → Option Err
no_payload none = some (message (codes "outbox entry record is required"))
no_payload (some r) =
    if is_empty r.payload
    then some (message (codes "outbox entry record payload is required"))
    else none

-- A nil entry is `none`.
unfoldable pub validate : Option Entry → Option Err
validate none = some (message (codes "outbox entry is nil"))
validate (some e) =
    if is_empty e.id
    then some (message (codes "outbox entry id is required"))
    else if is_empty e.topic
    then some (message (codes "outbox entry topic is required"))
    else no_payload e.payload_record

pub record PublisherConfig : Type 0 where
  pub poll_interval : ℤ
  pub batch_size : ℤ
  pub cleanup_every : ℤ
  pub cleanup_retention : ℤ
  pub initial_backoff : ℤ
  pub max_backoff : ℤ

abbrev pub second : ℕ
second = 1_000_000_000

unfoldable pub normalize : PublisherConfig → PublisherConfig
normalize c = record {
  poll_interval = positive_or c.poll_interval (pos second);
  batch_size = positive_or c.batch_size (pos 100);
  cleanup_every = positive_or c.cleanup_every (pos (60 * second));
  cleanup_retention = positive_or c.cleanup_retention (pos (7 * 24 * 3600 * second));
  initial_backoff = positive_or c.initial_backoff (pos second);
  max_backoff = positive_or c.max_backoff (pos (60 * second));
}

pub backoff_loop : ℕ → ℤ → ℤ → ℤ
backoff_loop zero backoff max_backoff = if ltb_ℤ max_backoff backoff then max_backoff else backoff
backoff_loop (suc rounds) backoff max_backoff = elim (leb_ℤ max_backoff (double_64 backoff)) [
  | true ↦ max_backoff
  | false ↦ backoff_loop rounds (double_64 backoff) max_backoff
]

unfoldable pub exponential_backoff : ℤ → ℤ → ℤ → ℤ
unfolding backoff_loop
exponential_backoff attempt initial max_backoff =
    if leb_ℤ attempt (pos 0)
    then initial
    else backoff_loop (pos_part attempt - 1) initial max_backoff

-- ExecuteTransactional: the entry is checked before the transaction begins. `none` stands for
-- a nil argument.
module _ {D : Type 0} (insert : Entry → D → Option Err × D) where
  -- The function that is run in the transaction.
  write_body : (D → Option Err × D) → Entry → Body D (Unit {0})
  write_body business entry d v =
      let (e, d') = business d in
      elim e [ some e ↦ (some e, d', v) | none ↦ let (f, d'') = insert entry d' in (f, d'', v) ]

  abbrev write_checked :
      TxExecutor D → (D → Option Err × D) → Entry → Option Err → D → Option Err × D
  write_checked x business entry (some e) d = (some e, d)
  write_checked x business entry none d =
      let (e, d', _) = x.with_transaction (Unit {0}) (write_body business entry) d tt in (e, d')

  unfoldable pub execute_transactional :
      Option (TxExecutor D) → Option Entry → Option (D → Option Err × D) → D → Option Err × D
  unfolding write_body
  execute_transactional none entry business d =
      (some (message (codes "transaction executor is required")), d)
  execute_transactional (some x) entry none d =
      (some (message (codes "business function is required")), d)
  execute_transactional (some x) none (some business) d =
      (some (message (codes "outbox entry is required")), d)
  execute_transactional (some x) (some entry) (some business) d =
      write_checked x business entry (validate (some entry)) d
