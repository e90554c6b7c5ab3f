-- ===== src/Transaction/Direct.antt =====
-- A transaction executor that runs the function at once, and forgets its writes after an error.
use nimburion.Base.{◌≡◌, refl, ◌⊎◌, inl, inr, Option, none, some}
use nimburion.Errors.{Err}
use nimburion.Transaction.{TxExecutor, RolledBack, IsTransactional}

module _ {D : Type 0} where
  abbrev keep : {V : Type 0} → D → Option Err × D × V → Option Err × D × V
  keep d (none, d', v) = (none, d', v)
  keep d (some e, d', v) = (some e, d, v)

  abbrev pub direct : TxExecutor D
  direct = record { with_transaction = λ V body d v. keep d (body d v) }

  keep-atomic :
      {V : Type 0} (d : D) (r : Option Err × D × V)
      → ((r.0 ≡ none) × (keep d r ≡ r)) ⊎ RolledBack (keep d r) d
  keep-atomic d (none, d', v) = inl (refl, refl)
  keep-atomic d (some e, d', v) = inr (e, refl, refl)

  pub direct-IsTransactional : IsTransactional direct
  direct-IsTransactional = record { atomic = λ V body d v. keep-atomic d (body d v) }
