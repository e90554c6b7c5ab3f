-- ===== src/Transaction.antt =====
-- The transaction executors of pkg/reliability/{outbox,inbox,idempotency}, an interface that the
-- application implements. `D` is the database, `V` the variables that the function captures.
pub mod Direct
use nimburion.Base.{◌≡◌, ◌⊎◌, Option, none, some}
use nimburion.Errors.{Err}

-- What is run in a transaction: the error, the database and the captured variables behind it.
abbrev pub Body : Type 0 → Type 0 → Type 0
Body D V = D → V → Option Err × D × V

pub record TxExecutor (D : Type 0) : Type 1 where
  pub with_transaction : (V : Type 0) → Body D V → Body D V

-- The documented contract: the function's error ends in a rollback and an error; without one
-- its writes are committed and its variables kept, or begin or commit fails and none is.
abbrev pub Committed : {D V : Type 0} → Body D V → Option Err × D × V → D → V → Type 0
Committed body r d v = ((body d v).0 ≡ none) × (r ≡ body d v)

abbrev pub RolledBack : {D V : Type 0} → Option Err × D × V → D → Type 0
RolledBack r d = (e : Err) × (r.0 ≡ some e) × (r.1 ≡ d)

pub record IsTransactional {D : Type 0} (x : TxExecutor D) : Type 1 where
  pub atomic :
      (V : Type 0) (body : Body D V) (d : D) (v : V)
      → Committed body (x.with_transaction V body d v) d v
        ⊎ RolledBack (x.with_transaction V body d v) d
