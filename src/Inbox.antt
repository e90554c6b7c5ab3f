-- ===== src/Inbox.antt =====
-- pkg/reliability/inbox/inbox.go: entries, and the transaction that records a message, runs the
-- handler and marks the message as handled. The two readings of the clock are arguments.
pub mod Delivery
mod Examples
use nimburion.Base.{
  Text, codes, List, ◌++◌, Bool, true, false, ◌||◌, Option, none, some, ℤ, pos, eq_ℤ, eq_text,
  is_empty, if◌then◌else◌,
}
use nimburion.Errors.{Err, message, wrapped}
use nimburion.Effect.{Result, ok, err}
use nimburion.Transaction.{Body, TxExecutor}

pub record Entry : Type 0 where
  pub consumer_name : Text
  pub message_id : Text
  pub received_at : ℤ
  pub handled_at : Option ℤ
  pub status : Text

abbrev pub status_received : Text
status_received = codes "received"

abbrev pub status_handled : Text
status_handled = codes "handled"

abbrev known_status : Text → Bool
known_status s = is_empty s || (eq_text s status_received || eq_text s status_handled)

-- A nil entry is `none`.
unfoldable pub validate : Option Entry → Option Err
validate none = some (message (codes "inbox entry is nil"))
validate (some e) =
    if is_empty e.consumer_name
    then some (message (codes "inbox consumer name is required"))
    else if is_empty e.message_id
    then some (message (codes "inbox message id is required"))
    else if known_status e.status
    then none
    else some (message (codes "unsupported inbox status " ++ e.status))

-- The inbox operations inside a transaction on the database `D`, which the application provides.
pub record Writer (D : Type 0) : Type 0 where
  pub is_handled : Text → Text → D → Result Bool
  pub insert_received : Entry → D → Option Err × D
  pub mark_handled : Text → Text → ℤ → D → Option Err × D

-- The copy that is stored: its status and its time are filled in.
unfoldable pub completed : Entry → ℤ → Entry
completed e now = record e {
  status = if is_empty e.status then status_received else e.status;
  received_at = if eq_ℤ e.received_at (pos 0) then now else e.received_at;
}

outcome : {D : Type 0} → Option Err × D × Bool → Result Bool × D
outcome (some e, d, handled) = (err e, d)
outcome (none, d, handled) = (ok handled, d)

module _ {D : Type 0} (w : Writer D) where
  marked : Option Err × D → Bool → Option Err × D × Bool
  marked (some e, d) handled = (some (wrapped (codes "mark inbox handled failed: ") e), d, handled)
  marked (none, d) handled = (none, d, true)

  ran : Entry → ℤ → Option Err × D → Bool → Option Err × D × Bool
  unfolding marked
  ran entry handled_at (some e, d) handled = (some e, d, handled)
  ran entry handled_at (none, d) handled =
      marked (w.mark_handled entry.consumer_name entry.message_id handled_at d) handled

  recorded : Entry → ℤ → (D → Option Err × D) → Option Err × D → Bool → Option Err × D × Bool
  unfolding ran
  recorded entry handled_at handler (some e, d) handled =
      (some (wrapped (codes "record inbox receipt failed: ") e), d, handled)
  recorded entry handled_at handler (none, d) handled = ran entry handled_at (handler d) handled

  checked : Entry → ℤ → ℤ → (D → Option Err × D) → Result Bool → Body D Bool
  unfolding recorded completed
  checked entry received_at handled_at handler (err e) d handled =
      (some (wrapped (codes "check inbox state failed: ") e), d, handled)
  checked entry received_at handled_at handler (ok true) d handled = (none, d, false)
  checked entry received_at handled_at handler (ok false) d handled =
      recorded entry handled_at handler (w.insert_received (completed entry received_at) d) handled

  -- The function that is run in the transaction; it captures `handled`.
  unfoldable pub deliver : Entry → ℤ → ℤ → (D → Option Err × D) → Body D Bool
  unfolding checked
  deliver entry received_at handled_at handler d handled =
      checked entry received_at handled_at handler
        (w.is_handled entry.consumer_name entry.message_id d) d handled

  -- ExecuteTransactional, from the check of the entry on; `none` is a nil handler.
  begin :
      TxExecutor D → Entry → ℤ → ℤ → Option (D → Option Err × D) → Option Err → D → Result Bool × D
  unfolding deliver outcome
  begin x entry received_at handled_at handler (some e) d = (err e, d)
  begin x entry received_at handled_at none none d =
      (err (message (codes "handler is required")), d)
  begin x entry received_at handled_at (some handler) none d =
      outcome (x.with_transaction Bool (deliver entry received_at handled_at handler) d false)

  unfoldable pub execute_transactional :
      Option (TxExecutor D)
      → Option Entry
      → ℤ
      → ℤ
      → Option (D → Option Err × D)
      → D
      → Result Bool × D
  unfolding begin
  execute_transactional none entry received_at handled_at handler d =
      (err (message (codes "transaction executor is required")), d)
  execute_transactional (some x) none received_at handled_at handler d =
      (err (message (codes "inbox entry is required")), d)
  execute_transactional (some x) (some entry) received_at handled_at handler d =
      begin x entry received_at handled_at handler (validate (some entry)) d
