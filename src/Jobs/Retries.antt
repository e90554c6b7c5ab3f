-- ===== src/Jobs/Retries.antt =====
-- When a failed job is given back for another attempt, and when it is due.
use nimburion.Base.{
  ℕ, suc, ◌+◌, ◌<◌, List, [], ◌∷◌, Option, none, some, ℤ, pos, ◌≡◌, ◌≢◌, refl, ap, ◌∙◌, ◌⊎◌, inl,
  inr, arith, All, inc_64, inc_64-pos, two_63, +ℤ_mono_right, ◌+ℤ◌, ◌<ℤ◌, ◌≤ℤ◌,
}
use nimburion.Errors.{Err, poison, terminal, find_tag}
use nimburion.Retry.{
  Disposition, delayed_retry, immediate_retry, dead_letter, quarantine, drop, Decision, classify,
  positive_or,
}
use nimburion.Retry.Decisions.{decide-retries_iff, decide-delay}
use nimburion.Jobs.{Job, Lease, Worker}
use nimburion.Jobs.Processing.{
  Call, nack, Environment, dispose, handle_failure, failure_decision, process, missing_handler,
  lookup_handler, max_attempts_of,
}

-- How often a job was given back.
abbrev pub nacks : List Call → ℕ
nacks [] = 0
nacks (nack l at e ∷ calls) = suc (nacks calls)
nacks (_ ∷ calls) = nacks calls

limit_positive :
    (w : Worker) (j : Job)
    → positive_or (max_attempts_of w.config j) (pos 1) ≡ max_attempts_of w.config j
unfolding max_attempts_of
limit_positive w j = ground arith

module _ (env : Environment) (w : Worker) where
  nacks-dispose :
      (x : Disposition) (j : Job) (l : Lease) (f : Err) (d : Decision) (calls : List Call)
      → ((x ≡ delayed_retry) × (nacks (dispose env w x j l f d calls).1 ≡ suc (nacks calls)))
        ⊎ ((x ≢ delayed_retry) × (nacks (dispose env w x j l f d calls).1 ≡ nacks calls))
  unfolding dispose
  nacks-dispose delayed_retry j l f d calls = inl (refl, ground arith)
  nacks-dispose dead_letter j l f d calls = inr (λ e. cc, ground arith)
  nacks-dispose quarantine j l f d calls = inr (λ e. cc, ground arith)
  nacks-dispose immediate_retry j l f d calls = inr (λ e. cc, ground arith)
  nacks-dispose drop j l f d calls = inr (λ e. cc, ground arith)

  -- A failed job is given back at most once for its failure, and only where the error is neither
  -- poison nor terminal and the attempt that has just ended is not the last one allowed, by the
  -- job's limit or else by the worker's.
  pub handle_failure-nacks :
      (j : Job) (l : Lease) (f : Err) (calls : List Call)
      → (nacks (handle_failure env w j l f calls).1 ≡ nacks calls)
        ⊎ ((nacks (handle_failure env w j l f calls).1 ≡ suc (nacks calls))
            × (classify (some f) ≢ poison)
            × (classify (some f) ≢ terminal)
            × (inc_64 j.attempt <ℤ max_attempts_of w.config j))
  unfolding handle_failure failure_decision
  handle_failure-nacks j l f calls =
      let d = failure_decision env w j f in
      elim (nacks-dispose d.disposition j l f d calls) [
        | inr (other, same) ↦ inl same
        | inl (again, more) ↦
            let (p, t, a) = (decide-retries_iff _ _ _ _ _).0 again in
            inr (more, p, t, rw limit_positive at a)
      ]

  poisoned : (j : Job) → classify (some (missing_handler env w j)) ≡ poison
  unfolding missing_handler classify find_tag
  poisoned j = refl

  -- A job without a handler is never given back.
  pub missing_handler-nacks :
      (j : Job) (l : Lease) (calls : List Call)
      → lookup_handler w j.name ≡ none
      → nacks (process env w j l calls).1 ≡ nacks calls
  unfolding process
  missing_handler-nacks j l calls h =
      let lost = missing_handler env w j in
      let e : process env w j l calls ≡ handle_failure env w j l lost calls = ground arith in
      elim (handle_failure-nacks j l lost calls) [
        | inl same ↦ ap (λ (t : Option Err × List Call). nacks t.1) e ∙ same
        | inr (more, p, t, a) ↦ absurd (p (poisoned j))
      ]

-- No job is given back for a time later than `limit`.
abbrev pub IsDue : ℤ → Call → Type 0
IsDue limit (nack l at e) = at ≤ℤ limit
IsDue limit _ = Unit {0}

module _ (env : Environment) (w : Worker) where
  dispose-IsDue :
      (x : Disposition) (j : Job) (l : Lease) (f : Err) (d : Decision) (limit : ℤ)
      (calls : List Call)
      → env.clock calls +ℤ d.delay ≤ℤ limit
      → All (IsDue limit) calls
      → All (IsDue limit) (dispose env w x j l f d calls).1
  unfolding dispose
  dispose-IsDue delayed_retry j l f d limit calls h v = ground arith
  dispose-IsDue dead_letter j l f d limit calls h v = ground arith
  dispose-IsDue quarantine j l f d limit calls h v = ground arith
  dispose-IsDue immediate_retry j l f d limit calls h v = ground arith
  dispose-IsDue drop j l f d limit calls h v = ground arith

  -- A job that is given back after a failure is due within the worker's longest backoff, if that
  -- is not negative and the job's attempt is a number that can still be raised.
  pub handle_failure-IsDue :
      (j : Job) (l : Lease) (f : Err) (calls : List Call) (n : ℕ)
      → j.attempt ≡ pos n
      → n + 1 < two_63
      → pos 0 ≤ℤ w.config.retry.max_backoff
      → let limit = env.clock calls +ℤ w.config.retry.max_backoff in
        All (IsDue limit) calls → All (IsDue limit) (handle_failure env w j l f calls).1
  unfolding handle_failure failure_decision
  handle_failure-IsDue j l f calls n e b m v =
      let d = failure_decision env w j f in
      let limit = env.clock calls +ℤ w.config.retry.max_backoff in
      let next : inc_64 j.attempt ≡ pos (n + 1) = rw e (inc_64-pos n b) in
      let short : d.delay ≤ℤ w.config.retry.max_backoff =
        decide-delay _ _ _ _ _ (rw next (omega arith)) m in
      dispose-IsDue d.disposition j l f d limit calls (+ℤ_mono_right _ _ _ short) v
