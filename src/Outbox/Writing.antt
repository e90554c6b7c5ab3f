-- ===== src/Outbox/Writing.antt =====
-- The transactional write: the business change and the entry, or neither.
use nimburion.Base.{◌≡◌, ◌⊎◌, inl, inr, Option, none, some, arith, Option-cases}
use nimburion.Errors.{Err}
use nimburion.Transaction.{TxExecutor, IsTransactional}
use nimburion.Outbox.{Entry, validate, write_body, execute_transactional}

-- All three went well, in this order, on the same database.
abbrev pub Written :
    {D : Type 0} → (Entry → D → Option Err × D) → (D → Option Err × D) → Entry → D → D → Type 0
Written insert business entry d d' =
    (validate (some entry) ≡ none)
    × ((business d).0 ≡ none)
    × (insert entry (business d).1 ≡ (none, d'))

module _ {D : Type 0} (insert : Entry → D → Option Err × D) where
  body-Written :
      (f : D → Option Err × D) (e : Entry) (d : D)
      → (write_body insert f e d tt).0 ≡ none
      → ((f d).0 ≡ none) × (insert e (f d).1 ≡ (none, (write_body insert f e d tt).1))
  unfolding write_body
  body-Written f e d h = ground arith

-- The call either succeeds, the business function and the insert having both run without an
-- error on a valid entry, or returns an error and leaves the database as it was.
pub execute_transactional-atomic :
    {D : Type 0} (insert : Entry → D → Option Err × D) (x : TxExecutor D) (e : Entry)
    (f : D → Option Err × D) (d : D)
    → IsTransactional x
    → let r = execute_transactional insert (some x) (some e) (some f) d in
      ((r.0 ≡ none) × Written insert f e d r.1) ⊎ ((g : Err) × (r.0 ≡ some g) × (r.1 ≡ d))
unfolding execute_transactional
execute_transactional-atomic insert x e f d tx = elim (Option-cases (validate (some e))) [
  | inr (g, invalid) ↦ inr (g, ground (arith, invalid), ground (arith, invalid))
  | inl fine ↦ elim (tx.atomic (Unit {0}) (write_body insert f e) d tt) [
    | inl (h, k) ↦ inl (ground arith, ground (arith, body-Written insert f e d h))
    | inr (g, h, k) ↦ inr (g, ground arith, ground arith)
  ]
]
