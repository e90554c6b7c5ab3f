-- ===== src/Inbox/Delivery.antt =====
-- Exactly-once handling: what a delivery leaves in the database, and what a second one does.
use nimburion.Base.{
  Text, ◌≡◌, ◌≢◌, refl, ◌⊎◌, inl, inr, Bool, true, false, Option, none, some, arith, ℤ,
  Option-cases,
}
use nimburion.Errors.{Err}
use nimburion.Effect.{Result, ok, err}
use nimburion.Transaction.{TxExecutor, IsTransactional, Committed, RolledBack}
use nimburion.Inbox.{Entry, Writer, validate, completed, deliver, outcome, execute_transactional}

-- The message was new, and its receipt, the handler and the mark went well, in this order.
pub record Handled {D : Type 0} (w : Writer D) (e : Entry) (t u : ℤ) (h : D → Option Err × D)
    (d d' : D) : Type 0 where
  pub fresh : w.is_handled e.consumer_name e.message_id d ≡ ok false
  pub receipt : (w.insert_received (completed e t) d).0 ≡ none
  pub business : (h (w.insert_received (completed e t) d).1).0 ≡ none
  pub mark :
      w.mark_handled e.consumer_name e.message_id u (h (w.insert_received (completed e t) d).1).1
      ≡ (none, d')

abbrev Delivered :
    {D : Type 0}
    → Writer D
    → Entry
    → ℤ
    → ℤ
    → (D → Option Err × D)
    → D
    → Option Err × D × Bool
    → Type 0
Delivered w e t u h d r =
    (Handled w e t u h d r.1 × (r.2 ≡ true))
    ⊎ ((w.is_handled e.consumer_name e.message_id d ≡ ok true) × (r.1 ≡ d) × (r.2 ≡ false))

module _ {D : Type 0} (w : Writer D) (e : Entry) (t u : ℤ) (h : D → Option Err × D) (d : D) where
  deliver-Delivered :
      (v : Bool) → (deliver w e t u h d v).0 ≡ none → Delivered w e t u h d (deliver w e t u h d v)
  unfolding deliver
  deliver-Delivered v done = ground arith

-- What a call may leave behind: handled now, handled before, or an error and no change.
abbrev pub Outcome :
    {D : Type 0} → Writer D → Entry → ℤ → ℤ → (D → Option Err × D) → D → Result Bool × D → Type 0
Outcome w e t u h d r =
    ((r.0 ≡ ok true) × Handled w e t u h d r.1)
    ⊎ ((r.0 ≡ ok false) × (w.is_handled e.consumer_name e.message_id d ≡ ok true) × (r.1 ≡ d))
    ⊎ ((f : Err) × (r.0 ≡ err f) × (r.1 ≡ d))

settle :
    {D : Type 0} (w : Writer D) (e : Entry) (t u : ℤ) (h : D → Option Err × D) (d : D)
    (r : Option Err × D × Bool)
    → Committed (deliver w e t u h) r d false ⊎ RolledBack r d
    → Outcome w e t u h d (outcome r)
unfolding outcome
settle w e t u h d r (inr (f, p, q)) = ground arith
settle w e t u h d r (inl (p, q)) = ground (arith, deliver-Delivered w e t u h d false p)

-- A call reports `true` exactly when the message was new and its receipt, the handler and the
-- mark are committed, `false` when the message had been handled before, and an error else; in
-- the last two cases the database is as it was.
pub execute_transactional-Outcome :
    {D : Type 0} (w : Writer D) (x : TxExecutor D) (e : Entry) (t u : ℤ) (h : D → Option Err × D)
    (d : D)
    → IsTransactional x
    → Outcome w e t u h d (execute_transactional w (some x) (some e) t u (some h) d)
unfolding execute_transactional
execute_transactional-Outcome w x e t u h d tx = elim (Option-cases (validate (some e))) [
  | inr (f, invalid) ↦ rw invalid (inr (inr (f, refl, refl)))
  | inl fine ↦ rw fine (settle w e t u h d _ (tx.atomic Bool (deliver w e t u h) d false))
]

-- A mark that was written is seen by the next query for its message.
pub record Remembers {D : Type 0} (w : Writer D) : Type 0 where
  pub recall :
      (consumer id : Text) (at : ℤ) (d d' : D)
      → w.mark_handled consumer id at d ≡ (none, d')
      → w.is_handled consumer id d' ≡ ok true

-- After a delivery that reported `true`, a redelivery of the message never handles it again,
-- whatever its handler: it reports `false` or an error, and changes nothing.
pub execute_transactional-redelivery :
    {D : Type 0} (w : Writer D) (x : TxExecutor D) (e e' : Entry) (t u t' u' : ℤ)
    (h h' : D → Option Err × D) (d d' : D)
    → IsTransactional x
    → Remembers w
    → execute_transactional w (some x) (some e) t u (some h) d ≡ (ok true, d')
    → e'.consumer_name ≡ e.consumer_name
    → e'.message_id ≡ e.message_id
    → let r = execute_transactional w (some x) (some e') t' u' (some h') d' in
      (r.1 ≡ d') × (r.0 ≢ ok true)
execute_transactional-redelivery w x e e' t u t' u' h h' d d' tx m first c i = ground (
  arith,
  execute_transactional-Outcome w x e t u h d tx,
  execute_transactional-Outcome w x e' t' u' h' d' tx,
  m.recall e.consumer_name e.message_id u (h (w.insert_received (completed e t) d).1).1 d',
)
