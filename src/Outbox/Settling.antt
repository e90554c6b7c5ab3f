-- ===== src/Outbox/Settling.antt =====
-- Every publish is settled: marked as published after a success, as failed after an error.
use nimburion.Base.{
  ℕ, suc, List, [], ◌∷◌, Bool, true, false, Option, none, some, ℤ, ◌≡◌, arith, if◌then◌else◌,
}
use nimburion.Errors.{Err, error_text}
use nimburion.Effect.{Result, ok, err, Run, pure}
use nimburion.Outbox.{Entry}
use nimburion.Outbox.Relay.{
  Call, fetch_pending, publish, mark_published, mark_failed, Environment, Relay, Signal, poll,
  clean, publish_entry, publish_all, snapshot, tick, tick_fetched, cleanup, serve, run,
}

abbrev pub IsPublish : List Call → Type 0
IsPublish (publish topic rec ∷ calls) = Unit {0}
IsPublish _ = ⊥

-- What must stand right before a call.
abbrev pub Backed : Environment → Call → List Call → Type 0
Backed env (mark_published id at) calls = IsPublish calls × (env.publishes calls ≡ none)
Backed env (mark_failed id n next reason) calls =
    (e : Err) × IsPublish calls × (env.publishes calls ≡ some e) × (reason ≡ error_text e)
Backed env _ calls = Unit {0}

abbrev pub AllBacked : Environment → List Call → Type 0
AllBacked env [] = Unit {0}
AllBacked env (c ∷ calls) = Backed env c calls × AllBacked env calls

abbrev pub publishes : List Call → ℕ
publishes [] = 0
publishes (publish topic rec ∷ calls) = suc (publishes calls)
publishes (_ ∷ calls) = publishes calls

abbrev pub marks : List Call → ℕ
marks [] = 0
marks (mark_published id at ∷ calls) = suc (marks calls)
marks (mark_failed id n next reason ∷ calls) = suc (marks calls)
marks (_ ∷ calls) = marks calls

-- Each mark stands right behind a publish with its outcome, and there are as many of both.
pub record IsSettled (env : Environment) (calls : List Call) : Type 0 where
  pub backed : AllBacked env calls
  pub even : publishes calls ≡ marks calls

either-IsSettled :
    (env : Environment) (b : Bool) (m n : Run Call (Unit {0})) (calls : List Call)
    → IsSettled env (m calls).1
    → IsSettled env (n calls).1
    → IsSettled env ((if b then m else n) calls).1
either-IsSettled env true m n calls h k = h
either-IsSettled env false m n calls h k = k

module _ (env : Environment) (r : Relay) where
  publish_entry-IsSettled :
      (entry : Entry) (now : ℤ) (calls : List Call)
      → IsSettled env calls
      → IsSettled env (publish_entry env r entry now calls).1
  unfolding publish_entry
  publish_entry-IsSettled entry now calls v = ground arith

  publish_all-IsSettled :
      (entries : List Entry) (now : ℤ) (calls : List Call)
      → IsSettled env calls
      → IsSettled env (publish_all env r entries now calls).1
  unfolding publish_all
  publish_all-IsSettled [] now calls v = v
  publish_all-IsSettled (entry ∷ entries) now calls v =
      publish_all-IsSettled entries now (publish_entry env r entry now calls).1
        (publish_entry-IsSettled entry now calls v)

  snapshot-IsSettled :
      (now : ℤ) (calls : List Call)
      → IsSettled env calls
      → IsSettled env (snapshot env r now calls).1
  unfolding snapshot
  snapshot-IsSettled now calls v = ground arith

  tick_fetched-IsSettled :
      (now : ℤ) (f : Result (List Entry)) (calls : List Call)
      → IsSettled env calls
      → IsSettled env (tick_fetched env r now f calls).1
  unfolding tick_fetched
  tick_fetched-IsSettled now (err e) calls v = v
  tick_fetched-IsSettled now (ok entries) calls v =
      let sent = publish_all-IsSettled entries now calls v in
      either-IsSettled env r.metrics (snapshot env r now) (pure tt) _
        (snapshot-IsSettled now (publish_all env r entries now calls).1 sent) sent

  tick-IsSettled :
      (now : ℤ) (calls : List Call) → IsSettled env calls → IsSettled env (tick env r now calls).1
  unfolding tick
  tick-IsSettled now calls v =
      let asked = fetch_pending r.config.batch_size now ∷ calls in
      tick_fetched-IsSettled now (env.fetch asked) asked (ground arith)

  cleanup-IsSettled :
      (now : ℤ) (calls : List Call)
      → IsSettled env calls
      → IsSettled env (cleanup env r now calls).1
  unfolding cleanup
  cleanup-IsSettled now calls v = ground arith

  serve-IsSettled :
      (cause : Err) (signals : List Signal) (calls : List Call)
      → IsSettled env calls
      → IsSettled env (serve env r cause signals calls).1
  unfolding serve
  serve-IsSettled cause [] calls v = v
  serve-IsSettled cause (poll now ∷ signals) calls v =
      serve-IsSettled cause signals (tick env r now calls).1 (tick-IsSettled now calls v)
  serve-IsSettled cause (clean now ∷ signals) calls v =
      serve-IsSettled cause signals (cleanup env r now calls).1 (cleanup-IsSettled now calls v)

  -- Whatever the store and the broker answer and whichever signals come, the calls of a run
  -- mark an entry as published only right behind a publish that succeeded, and as failed only
  -- right behind one that failed, with the text of its error; and there are as many marks as
  -- publishes.
  pub run-IsSettled :
      (running : Bool) (start : ℤ) (ctx : Option (List Signal × Err))
      → IsSettled env (run env r running start ctx []).1
  unfolding run
  run-IsSettled running start none = ground arith
  run-IsSettled true start (some (signals, cause)) = ground arith
  run-IsSettled false start (some (signals, cause)) =
      serve-IsSettled cause signals (tick env r start []).1 (tick-IsSettled start [] (ground arith))
