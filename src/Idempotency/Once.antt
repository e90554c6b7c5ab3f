-- ===== src/Idempotency/Once.antt =====
-- Under one scope and key the handler's effect is committed at most once.
use nimburion.Base.{
  ℕ, suc, ◌≤◌, Text, ◌≡◌, refl, ◌⊎◌, inl, inr, List, [], ◌∷◌, Bool, true, false, Option, none, some,
  arith, ℤ, Option-cases,
}
use nimburion.Errors.{Err}
use nimburion.Effect.{Result, ok, err}
use nimburion.Transaction.{TxExecutor, IsTransactional, Committed, RolledBack}
use nimburion.Idempotency.{TxStore, named, process, outcome, execute_once_transactional}

module _ {D : Type 0} (s : TxStore D) (scope key : Text) where
  -- The key was new, and the handler and the mark went well.
  pub record Processed (now : ℤ) (h : D → Option Err × D) (d d' : D) : Type 0 where
    pub fresh : s.is_processed scope key d ≡ ok false
    pub business : (h d).0 ≡ none
    pub mark : s.mark_processed scope key now (h d).1 ≡ (none, d')

  process-Processed :
      (now : ℤ) (h : D → Option Err × D) (d : D) (v : Bool)
      → let r = process s scope key now h d v in
        r.0 ≡ none
        → (Processed now h d r.1 × (r.2 ≡ true))
          ⊎ ((s.is_processed scope key d ≡ ok true) × (r.1 ≡ d) × (r.2 ≡ false))
  unfolding process
  process-Processed now h d v done = ground arith

  abbrev pub Outcome : ℤ → (D → Option Err × D) → D → Result Bool × D → Type 0
  Outcome now h d r =
      ((r.0 ≡ ok true) × Processed now h d r.1)
      ⊎ ((r.0 ≡ ok false) × (s.is_processed scope key d ≡ ok true) × (r.1 ≡ d))
      ⊎ ((f : Err) × (r.0 ≡ err f) × (r.1 ≡ d))

  settle :
      (now : ℤ) (h : D → Option Err × D) (d : D) (r : Option Err × D × Bool)
      → Committed (process s scope key now h) r d false ⊎ RolledBack r d
      → Outcome now h d (outcome r)
  unfolding outcome
  settle now h d r (inr (f, p, q)) = ground arith
  settle now h d r (inl (p, q)) = ground (arith, process-Processed now h d false p)

-- A call reports `true` exactly when the key was new and the handler's effect and the mark are
-- committed together, `false` when the key had been processed, and an error else; in the last
-- two cases the database is as it was.
pub execute_once_transactional-Outcome :
    {D : Type 0} (s : TxStore D) (x : TxExecutor D) (scope key : Text) (now : ℤ)
    (h : D → Option Err × D) (d : D)
    → IsTransactional x
    → Outcome s scope key now h d (execute_once_transactional s (some x) scope key now (some h) d)
unfolding execute_once_transactional
execute_once_transactional-Outcome s x scope key now h d tx =
    elim (Option-cases (named scope key (some h))) [
      | inr (f, invalid) ↦ rw invalid (inr (inr (f, refl, refl)))
      | inl fine ↦
          rw fine
            (settle s scope key now h d _ (tx.atomic Bool (process s scope key now h) d false))
    ]

pub record Remembers {D : Type 0} (s : TxStore D) : Type 0 where
  pub recall :
      (scope key : Text) (at : ℤ) (d d' : D)
      → s.mark_processed scope key at d ≡ (none, d')
      → s.is_processed scope key d' ≡ ok true

-- Calls with one scope and key, each with its time and its handler, and how many report `true`.
abbrev pub reported : {D : Type 0} → Result Bool × D → ℕ → ℕ
reported (ok true, d) n = suc n
reported (_, d) n = n

unfoldable pub executions :
    {D : Type 0} (s : TxStore D) (x : TxExecutor D) (scope key : Text)
    → List (ℤ × (D → Option Err × D))
    → D
    → ℕ
executions s x scope key [] d = 0
executions s x scope key ((now, h) ∷ calls) d =
    let r = execute_once_transactional s (some x) scope key now (some h) d in
    reported r (executions s x scope key calls r.1)

module _ {D : Type 0} (s : TxStore D) (x : TxExecutor D) (scope key : Text)
    (tx : IsTransactional x) where
  executions_processed :
      (calls : List (ℤ × (D → Option Err × D))) (d : D)
      → s.is_processed scope key d ≡ ok true
      → executions s x scope key calls d ≡ 0
  unfolding executions
  executions_processed [] d p = refl
  executions_processed ((now, h) ∷ calls) d p =
      let r = execute_once_transactional s (some x) scope key now (some h) d in
      elim (execute_once_transactional-Outcome s x scope key now h d tx) [
        | inl (e, done) ↦ absurd (cc (done.fresh))
        | inr (inl (e, q, same)) ↦ ground (arith, executions_processed calls r.1 (ground arith))
        | inr (inr (f, e, same)) ↦ ground (arith, executions_processed calls r.1 (ground arith))
      ]

  -- However often a key is executed, with whatever handlers, at most one call reports that it
  -- ran, as long as the store remembers its marks.
  pub executions-le-one :
      (calls : List (ℤ × (D → Option Err × D))) (d : D)
      → Remembers s
      → executions s x scope key calls d ≤ 1
  unfolding executions
  executions-le-one [] d m = omega arith
  executions-le-one ((now, h) ∷ calls) d m =
      let r = execute_once_transactional s (some x) scope key now (some h) d in
      elim (execute_once_transactional-Outcome s x scope key now h d tx) [
        | inl (e, done) ↦
            let kept = m.recall scope key now (h d).1 r.1 done.mark in
            ground (arith, executions_processed calls r.1 kept)
        | inr (inl (e, q, same)) ↦ ground (arith, executions-le-one calls r.1 m)
        | inr (inr (f, e, same)) ↦ ground (arith, executions-le-one calls r.1 m)
      ]
