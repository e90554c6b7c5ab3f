-- ===== src/Jobs/Settlement.antt =====
-- Every job that was taken is settled once: acknowledged, given back, or moved away.
use nimburion.Base.{
  ℕ, zero, suc, ◌≤◌, ◌<◌, Text, List, [], ◌∷◌, false, Option, none, some, ◌≡◌, ◌⊎◌, inl, inr, arith,
  Option-cases, sym, subst, is_none,
}
use nimburion.Errors.{Err}
use nimburion.Retry.{
  Disposition, delayed_retry, immediate_retry, dead_letter, quarantine, drop, Decision,
}
use nimburion.Breaker.{with_timeout}
use nimburion.Jobs.{Job, Lease, Worker}
use nimburion.Jobs.Processing.{
  Call, reserve, handle, ack, nack, move_to_dlq, quarantines, Reservation, reserved, refused,
  Environment, dispose, handle_failure, failure_decision, process, both_errors, after_handler,
  missing_handler, serve, queue_loop, lookup_handler,
}

-- How often a lease was settled: acknowledged, given back, or moved to the dead letters.
abbrev pub settlements : List Call → ℕ
settlements [] = 0
settlements (ack l ∷ calls) = suc (settlements calls)
settlements (nack l at e ∷ calls) = suc (settlements calls)
settlements (move_to_dlq l e ∷ calls) = suc (settlements calls)
settlements (_ ∷ calls) = settlements calls

abbrev pub handled : List Call → ℕ
handled [] = 0
handled (handle h j l ∷ calls) = suc (handled calls)
handled (_ ∷ calls) = handled calls

-- The last call is to a quarantine sink that refused the record.
abbrev pub SinkFailed : Environment → List Call → Type 0
SinkFailed env (quarantines r ∷ calls) = is_none (env.stores (quarantines r ∷ calls)) ≡ false
SinkFailed env _ = ⊥

abbrev pub Settled : Environment → List Call → Option Err × List Call → Type 0
Settled env calls r =
    (settlements r.1 ≡ suc (settlements calls))
    ⊎ ((settlements r.1 ≡ settlements calls) × (is_none r.0 ≡ false) × SinkFailed env r.1)

module _ (env : Environment) (w : Worker) where
  dispose-Settled :
      (x : Disposition) (j : Job) (l : Lease) (f : Err) (d : Decision) (calls : List Call)
      → Settled env calls (dispose env w x j l f d calls)
  unfolding dispose
  dispose-Settled delayed_retry j l f d calls = inl (ground arith)
  dispose-Settled dead_letter j l f d calls = inl (ground arith)
  dispose-Settled quarantine j l f d calls = ground arith
  dispose-Settled immediate_retry j l f d calls = inl (ground arith)
  dispose-Settled drop j l f d calls = inl (ground arith)

  pub handle_failure-Settled :
      (j : Job) (l : Lease) (f : Err) (calls : List Call)
      → Settled env calls (handle_failure env w j l f calls)
  unfolding handle_failure
  handle_failure-Settled j l f calls =
      let d = failure_decision env w j f in dispose-Settled d.disposition j l f d calls

  after_handler-Settled :
      (j : Job) (l : Lease) (o : Option Err) (calls : List Call)
      → Settled env calls (after_handler env w j l o calls)
  unfolding after_handler
  after_handler-Settled j l none calls = inl (ground arith)
  after_handler-Settled j l (some e) calls = handle_failure-Settled j l e calls

  -- Processing a job settles its lease with exactly one call to the backend, whether or not
  -- there is a handler and whatever that and the backend answer. The only exception is a
  -- quarantine sink that refuses the job: then an error is returned and the lease runs out.
  pub process-Settled :
      (j : Job) (l : Lease) (calls : List Call) → Settled env calls (process env w j l calls)
  unfolding process
  process-Settled j l calls = elim (Option-cases (lookup_handler w j.name)) [
    | inl missing ↦
        let e : process env w j l calls ≡ handle_failure env w j l (missing_handler env w j) calls =
          ground arith in
        subst (Settled env calls) (sym e)
          (handle_failure-Settled j l (missing_handler env w j) calls)
    | inr (h, found) ↦
        let made = handle h j l ∷ calls in
        let o = both_errors env w (with_timeout (env.runs made)) (env.renewals made) in
        let e : process env w j l calls ≡ after_handler env w j l o made = ground arith in
        subst (Settled env calls) (sym e) (after_handler-Settled j l o made)
  ]

-- How often a job was asked for.
abbrev pub reserves : List Call → ℕ
reserves [] = 0
reserves (reserve q ttl ∷ calls) = suc (reserves calls)
reserves (_ ∷ calls) = reserves calls

module _ (env : Environment) (w : Worker) where
  reserves-dispose :
      (x : Disposition) (j : Job) (l : Lease) (f : Err) (d : Decision) (calls : List Call)
      → reserves (dispose env w x j l f d calls).1 ≡ reserves calls
  unfolding dispose
  reserves-dispose delayed_retry j l f d calls = ground arith
  reserves-dispose dead_letter j l f d calls = ground arith
  reserves-dispose quarantine j l f d calls = ground arith
  reserves-dispose immediate_retry j l f d calls = ground arith
  reserves-dispose drop j l f d calls = ground arith

  reserves-handle_failure :
      (j : Job) (l : Lease) (f : Err) (calls : List Call)
      → reserves (handle_failure env w j l f calls).1 ≡ reserves calls
  unfolding handle_failure
  reserves-handle_failure j l f calls =
      let d = failure_decision env w j f in reserves-dispose d.disposition j l f d calls

  reserves-after_handler :
      (j : Job) (l : Lease) (o : Option Err) (calls : List Call)
      → reserves (after_handler env w j l o calls).1 ≡ reserves calls
  unfolding after_handler
  reserves-after_handler j l none calls = ground arith
  reserves-after_handler j l (some e) calls = reserves-handle_failure j l e calls

  reserves-process :
      (j : Job) (l : Lease) (calls : List Call)
      → reserves (process env w j l calls).1 ≡ reserves calls
  unfolding process
  reserves-process j l calls =
      let failed = reserves-handle_failure j l (missing_handler env w j) calls in
      elim (Option-cases (lookup_handler w j.name)) [
        | inl missing ↦ ground (arith, failed)
        | inr (h, found) ↦
            let made = handle h j l ∷ calls in
            let o = both_errors env w (with_timeout (env.runs made)) (env.renewals made) in
            ground (arith, reserves-after_handler j l o made)
      ]

  -- One reservation and what is done with it.
  serve_within :
      (queue : Text) (r : Reservation) (calls : List Call)
      → settlements calls < reserves calls
      → settlements (serve env w queue r calls).1 ≤ reserves (serve env w queue r calls).1
  unfolding serve
  serve_within queue (refused e) calls h = omega arith
  serve_within queue (reserved none l) calls h = omega arith
  serve_within queue (reserved (some j) none) calls h = omega arith
  serve_within queue (reserved (some j) (some l)) calls h =
      ground (arith, process-Settled env w j l calls, reserves-process j l calls)

  -- However long the loop of a queue runs, it has settled at most as many leases as it has asked
  -- for, if it started so.
  pub queue_loop-settlements :
      (rounds : ℕ) (queue : Text) (calls : List Call)
      → settlements calls ≤ reserves calls
      → settlements (queue_loop env w rounds queue calls).1
        ≤ reserves (queue_loop env w rounds queue calls).1
  unfolding queue_loop
  queue_loop-settlements zero queue calls h = h
  queue_loop-settlements (suc rounds) queue calls h =
      let asked = reserve queue w.config.lease_ttl ∷ calls in
      let r = env.reservations asked in
      let served = serve_within queue r asked (omega arith) in
      ground (arith, queue_loop-settlements rounds queue (serve env w queue r asked).1 served)
