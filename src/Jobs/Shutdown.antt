-- ===== src/Jobs/Shutdown.antt =====
-- No run of the worker is left behind by Stop, and one may be stopped by the end of another.
use nimburion.Base.{
  ℕ, List, [], ◌∷◌, ◌≡◌, refl, ◌⊎◌, inl, inr, Bool, Bool-cases, true, false, Option, none, some,
  arith, All, is_none, not,
}
use nimburion.Jobs.Lifecycle.{
  Lifecycle, stopped_worker, start, stop, contains, wind_down, Move, starts, stops, expires,
  winds_down, Reaches, here, further,
}

-- The context of a run is done, or it is the one that the next Stop cancels.
abbrev pub IsCovered : Option ℕ → List ℕ → ℕ → Type 0
IsCovered cancel done id = (contains id done ≡ true) ⊎ (cancel ≡ some id)

-- The worker can cancel a run exactly while it is running, and every run that was ever started
-- is covered.
pub record IsOrderly (l : Lifecycle) : Type 0 where
  pub held : is_none l.cancel ≡ not l.running
  pub covered : All (IsCovered l.cancel l.done) l.started

IsCovered-done :
    (cancel : Option ℕ) (done ids : List ℕ) (i : ℕ)
    → All (IsCovered cancel done) ids
    → All (IsCovered cancel (i ∷ done)) ids
IsCovered-done cancel done [] i h = tt
IsCovered-done cancel done (id ∷ ids) i h =
    (ground (arith, h.0), IsCovered-done cancel done ids i h.1)

IsCovered-cancel :
    (i : ℕ) (done ids : List ℕ)
    → All (IsCovered (some i) done) ids
    → All (IsCovered none (i ∷ done)) ids
IsCovered-cancel i done [] h = tt
IsCovered-cancel i done (id ∷ ids) h = (ground (arith, h.0), IsCovered-cancel i done ids h.1)

IsCovered-start :
    (i : ℕ) (done ids : List ℕ) → All (IsCovered none done) ids → All (IsCovered (some i) done) ids
IsCovered-start i done [] h = tt
IsCovered-start i done (id ∷ ids) h = (ground (arith, h.0), IsCovered-start i done ids h.1)

stop-IsOrderly : (l : Lifecycle) → IsOrderly l → IsOrderly (stop l).1
unfolding stop
stop-IsOrderly l v = go l.running l.cancel l.done l.started v.held v.covered
  where
    go :
        (running : Bool) (cancel : Option ℕ) (done started : List ℕ)
        → is_none cancel ≡ not running
        → All (IsCovered cancel done) started
        → IsOrderly
            (stop (record { running = running; cancel = cancel; done = done; started = started })).1
    go true (some i) done started h c = record {
      held = refl;
      covered = IsCovered-cancel i done started c;
    }
    go true none done started h c = ground arith
    go false cancel done started h c = record { held = h; covered = c }

start-IsOrderly : (id : ℕ) (l : Lifecycle) → IsOrderly l → IsOrderly (start id l).1
unfolding start
start-IsOrderly id l v = go l.running l.cancel l.done l.started v.held v.covered
  where
    go :
        (running : Bool) (cancel : Option ℕ) (done started : List ℕ)
        → is_none cancel ≡ not running
        → All (IsCovered cancel done) started
        → IsOrderly
            (start id
              (record { running = running; cancel = cancel; done = done; started = started })).1
    go true cancel done started h c = record { held = h; covered = c }
    go false none done started h c = record {
      held = refl;
      covered = (inr refl, IsCovered-start id done started c);
    }
    go false (some i) done started h c = ground arith

wind_down-IsOrderly : (id : ℕ) (l : Lifecycle) → IsOrderly l → IsOrderly (wind_down id l).1
unfolding wind_down
wind_down-IsOrderly id l v = elim (Bool-cases (contains id l.done)) [
  | inl over ↦ rw over (stop-IsOrderly l v)
  | inr lasts ↦ rw lasts v
]

Move-IsOrderly : {l m : Lifecycle} → Move l m → IsOrderly l → IsOrderly m
Move-IsOrderly (starts id l f) v = start-IsOrderly id l v
Move-IsOrderly (stops l) v = stop-IsOrderly l v
Move-IsOrderly (expires id l) v = record {
  held = v.held;
  covered = IsCovered-done l.cancel l.done l.started id v.covered;
}
Move-IsOrderly (winds_down id l d) v = wind_down-IsOrderly id l v

reached-IsOrderly : {k l : Lifecycle} → Reaches k l → IsOrderly k → IsOrderly l
reached-IsOrderly (here l) v = v
reached-IsOrderly (further r m) v = Move-IsOrderly m (reached-IsOrderly r v)

-- However calls of Start and Stop interleave, the worker can cancel a run exactly while it is
-- running, and the context of every run that was ever started is done or is the one that the
-- next Stop cancels: none is left behind.
pub Reaches-IsOrderly : (l : Lifecycle) → Reaches stopped_worker l → IsOrderly l
Reaches-IsOrderly l r = reached-IsOrderly r (record { held = refl; covered = tt })

-- Where a worker is stopped and started again before the first run has wound down, the first run
-- then winds down by a call of Stop that stops the second: the worker no longer runs, and the
-- context of the second run is done.
pub stop-stale :
    (l : Lifecycle) (a b : ℕ)
    → l.running ≡ true
    → l.cancel ≡ some a
    → let restarted = (start b (stop l).1).1 in
      (restarted.running ≡ true)
      × (restarted.cancel ≡ some b)
      × (contains a restarted.done ≡ true)
      × ((wind_down a restarted).1.running ≡ false)
      × (contains b (wind_down a restarted).1.done ≡ true)
unfolding start stop wind_down
stop-stale l a b h c = (ground arith, ground arith, ground arith, ground arith, ground arith)
