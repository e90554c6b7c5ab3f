-- ===== src/Scheduler/Dispatch/Locked.antt =====
-- Dispatching a run of a task: its job is enqueued under the lock, once, and the lease given back.
use nimburion.Base.{
  ℕ, zero, suc, ◌+◌, ◌≡◌, refl, sym, ap, subst, ◌⊎◌, inl, inr, Text, codes, List, [], ◌∷◌, Bool,
  true, false, Bool-cases, Option-cases, Option, none, some, ℤ, pos, leb_ℤ, arith,
}
use nimburion.Errors.{Err}
use nimburion.Effect.{Result, ok, err}
use nimburion.Jobs.{Job}
use nimburion.Scheduler.Dispatch.{
  Task, LockLease, Call, acquire, renew, enqueue, release, Environment, lock_key, lock_ttl_of,
  job_of, join, retry_error, renew_loop, renewals, renew_on, release_lease, run_locked,
  after_acquire, dispatch,
}

-- How many calls put a job into a queue, and how many give a lease back.
abbrev pub enqueues : List Call → ℕ
enqueues [] = 0
enqueues (enqueue job ∷ calls) = enqueues calls + 1
enqueues (_ ∷ calls) = enqueues calls

abbrev pub releases : List Call → ℕ
releases [] = 0
releases (release l ∷ calls) = releases calls + 1
releases (_ ∷ calls) = releases calls

-- Renewals put no job into a queue and give no lease back.
record SameCounts (cs ds : List Call) : Type 0 where
  same_enqueues : enqueues ds ≡ enqueues cs
  same_releases : releases ds ≡ releases cs

module _ (env : Environment) where
  renew_loop-SameCounts :
      (l : LockLease) (ttl : ℤ) (ticks : ℕ) (calls : List Call)
      → SameCounts calls (renew_loop env l ttl ticks calls).1
  unfolding renew_loop
  renew_loop-SameCounts l ttl zero calls = record { same_enqueues = refl; same_releases = refl }
  renew_loop-SameCounts l ttl (suc ticks) calls =
      let made = renew l ttl ∷ calls in
      let rest = renew_loop-SameCounts l ttl ticks made in
      elim (Option-cases (env.renewed made)) [
        | inl e ↦ record {
          same_enqueues = ground (arith, e, rest.same_enqueues);
          same_releases = ground (arith, e, rest.same_releases);
        }
        | inr (f, e) ↦ record {
          same_enqueues = ground (arith, e);
          same_releases = ground (arith, e);
        }
      ]

  renewals-SameCounts :
      (l : Option LockLease) (ttl : ℤ) (ticks : ℕ) (calls : List Call)
      → SameCounts calls (renewals env l ttl ticks calls).1
  unfolding renewals
  renewals-SameCounts none ttl ticks calls = record { same_enqueues = refl; same_releases = refl }
  renewals-SameCounts (some l) ttl ticks calls =
      let rest = renew_loop-SameCounts l ttl ticks calls in
      elim (Bool-cases (leb_ℤ ttl (pos 0))) [
        | inl e ↦ record { same_enqueues = ground (arith, e); same_releases = ground (arith, e) }
        | inr e ↦ record {
          same_enqueues = ground (arith, e, rest.same_enqueues);
          same_releases = ground (arith, e, rest.same_releases);
        }
      ]

  renew_on-SameCounts :
      (l : Option LockLease) (ttl : ℤ) (ticks : ℕ) (early : Option Err) (calls : List Call)
      → SameCounts calls (renew_on env l ttl ticks early calls).1
  unfolding renew_on
  renew_on-SameCounts l ttl ticks none calls = renewals-SameCounts l ttl ticks calls
  renew_on-SameCounts l ttl ticks (some e) calls = record {
    same_enqueues = refl;
    same_releases = refl;
  }

  -- The job went in once, and what was answered is part of the result.
  pub record Locked (l : Option LockLease) (job : Job) (calls : List Call)
      (r : Option Err × List Call) : Type 0 where
    pub before : List Call
    pub waited : enqueues before ≡ enqueues calls
    pub once : enqueues r.1 ≡ enqueues calls + 1
    pub given_back : releases r.1 ≡ releases calls + elim l [ none ↦ 0 | some _ ↦ 1 ]
    pub reported : r.0 ≡ none → env.enqueued (enqueue job ∷ before) ≡ none

  join-none : (e f g : Option Err) → join (join e f) g ≡ none → e ≡ none
  unfolding join
  join-none none f g h = refl
  join-none (some e) none none h = h
  join-none (some e) none (some g) h = ground arith
  join-none (some e) (some f) none h = ground arith
  join-none (some e) (some f) (some g) h = ground arith

  release_lease-counts :
      (l : Option LockLease) (calls : List Call)
      → let r = release_lease env l calls in
        (enqueues r.1 ≡ enqueues calls)
        × (releases r.1 ≡ releases calls + elim l [ none ↦ 0 | some _ ↦ 1 ])
  unfolding release_lease
  release_lease-counts none calls = (refl, ground arith)
  release_lease-counts (some l) calls = (refl, refl)

  run_locked-Locked :
      (l : Option LockLease) (ttl : ℤ) (before during : ℕ) (job : Job) (calls : List Call)
      → Locked l job calls (run_locked env l ttl before during job calls)
  unfolding run_locked
  run_locked-Locked l ttl before during job calls =
      let early = renewals env l ttl before calls in
      let put = enqueue job ∷ early.1 in
      let late = renew_on env l ttl during early.0 put in
      let back = release_lease env l late.1 in
      let first = renewals-SameCounts l ttl before calls in
      let second = renew_on-SameCounts l ttl during early.0 put in
      let third = release_lease-counts l late.1 in
      record {
        before = early.1;
        waited = first.same_enqueues;
        once = omega (arith, first.same_enqueues, second.same_enqueues, third.0);
        given_back = omega (arith, first.same_releases, second.same_releases, third.1);
        reported = join-none (env.enqueued put) late.0 back.0;
      }

  Result-cases :
      (r : Result (Option LockLease × Bool))
      → ((e : Err) × (r ≡ err e))
        ⊎ ((l : Option LockLease) × (r ≡ ok (l, false)))
        ⊎ ((l : Option LockLease) × (r ≡ ok (l, true)))
  Result-cases (err e) = inl (e, refl)
  Result-cases (ok (l, false)) = inr (inl (l, refl))
  Result-cases (ok (l, true)) = inr (inr (l, refl))

  -- Whatever the lock and the queue answer: where the lock cannot be asked for, or another holds it,
  -- nothing is done, with an error or without; where it is acquired, the job is enqueued once, the
  -- lease given back once, and no error is returned only if the job was accepted.
  pub dispatch-Locked :
      (default_lock_ttl : ℤ) (before during : ℕ) (format : ℤ → Text) (id : Text) (now : ℤ)
      (t : Task) (run_at : ℤ) (calls : List Call)
      → let asked = acquire (lock_key t run_at) (lock_ttl_of default_lock_ttl t) ∷ calls in
        let r = dispatch env default_lock_ttl before during format id now t run_at calls in
        ((e : Err) × (env.acquired asked ≡ err e)
          × (r ≡ (some (retry_error (codes "acquire lock failed") e), asked)))
        ⊎ ((l : Option LockLease) × (env.acquired asked ≡ ok (l, false)) × (r ≡ (none, asked)))
        ⊎ ((l : Option LockLease) × (env.acquired asked ≡ ok (l, true))
            × Locked l (job_of format id now t run_at) asked r)
  unfolding dispatch after_acquire
  dispatch-Locked default_lock_ttl before during format id now t run_at calls =
      let ttl = lock_ttl_of default_lock_ttl t in
      let asked = acquire (lock_key t run_at) ttl ∷ calls in
      let job = job_of format id now t run_at in
      elim (Result-cases (env.acquired asked)) [
        | inl (e, a) ↦ inl (e, a, ap (λ x. after_acquire env ttl before during job x asked) a)
        | inr (inl (l, a)) ↦
            inr (inl (l, a, ap (λ x. after_acquire env ttl before during job x asked) a))
        | inr (inr (l, a)) ↦ inr (
            inr (
              l,
              a,
              subst (λ x. Locked l job asked (after_acquire env ttl before during job x asked))
                  (sym a) (run_locked-Locked l ttl before during job asked),
            ))
      ]
