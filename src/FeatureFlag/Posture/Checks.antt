-- ===== src/FeatureFlag/Posture/Checks.antt =====
-- What the health registry says of a runtime whose only checks are those of its posture.
use nimburion.Base.{◌≡◌, ◌↔◌, ◌⊎◌, ◌≢◌, List, [], Bool, not, true, false, ℤ, Text, arith, insert}
use mathlib.Core.List.{Permᴰ}
use nimburion.Health.{
  CheckResult, answers, check, is_healthy, is_unhealthy, is_overall_healthy, is_ready,
}
use nimburion.Health.Aggregation.{check-worst, worst, has_unhealthy, has_degraded}
use nimburion.FeatureFlag.Posture.{
  StartupState, ReadinessState, LivenessState, Mode, Snapshot, register_health_checks,
}

-- The states in which traffic has to be held back.
abbrev pub IsDown : StartupState → ReadinessState → LivenessState → Type 0
IsDown s r l =
    (s ≡ StartupState.failed)
    ⊎ ((r ≢ ReadinessState.ready) × (r ≢ ReadinessState.degraded))
    ⊎ ((l ≢ LivenessState.alive) × (l ≢ LivenessState.stopping))

-- The states in which nothing is amiss.
abbrev pub IsFine : StartupState → ReadinessState → LivenessState → Mode → Type 0
IsFine s r l m =
    (s ≡ StartupState.ready)
    × (r ≡ ReadinessState.ready)
    × (l ≡ LivenessState.alive)
    × (m ≢ Mode.degraded)

abbrev bad : Snapshot → ℤ → ℤ → Bool
bad p at took = has_unhealthy (answers (register_health_checks p at took []))

abbrev slow : Snapshot → ℤ → ℤ → Bool
slow p at took = has_degraded (answers (register_health_checks p at took []))

abbrev snapshot : StartupState → ReadinessState → LivenessState → Mode → Text → ℤ → Snapshot
snapshot s r l m text t = record {
  startup = s;
  readiness = r;
  liveness = l;
  mode = m;
  message = text;
  updated_at = t;
}

IsDown-iff :
    (s : StartupState) (r : ReadinessState) (l : LivenessState) (m : Mode) (text : Text)
    (t at took : ℤ)
    → (bad (snapshot s r l m text t) at took ≡ true) ↔ IsDown s r l
unfolding register_health_checks insert
IsDown-iff StartupState.failed ReadinessState.ready LivenessState.alive m text t at took =
    ground arith
IsDown-iff _ _ _ m text t at took = ground arith

IsFine-iff :
    (s : StartupState) (r : ReadinessState) (l : LivenessState) (m : Mode) (text : Text)
    (t at took : ℤ)
    → let p = snapshot s r l m text t in
      (is_healthy (worst (bad p at took) (slow p at took)) ≡ true) ↔ IsFine s r l m
unfolding register_health_checks insert
IsFine-iff StartupState.failed ReadinessState.ready LivenessState.alive Mode.normal text t at took =
    ground arith
IsFine-iff _ _ _ _ text t at took = ground arith

unready_iff : (bad slow : Bool) → (not (is_unhealthy (worst bad slow)) ≡ false) ↔ (bad ≡ true)
unready_iff true slow = ground arith
unready_iff false true = ground arith
unready_iff false false = ground arith

-- In whatever order the four checks answer, the registry is healthy exactly if the runtime has
-- started, is ready, alive and not in degraded mode, and it is not ready exactly if the start
-- failed, the readiness is neither ready nor degraded, or it is neither alive nor stopping.
pub posture-check :
    (p : Snapshot) (at took now duration : ℤ) (arrived : List CheckResult)
    → Permᴰ (answers (register_health_checks p at took [])) arrived
    → let r = check arrived now duration in
      ((is_overall_healthy r ≡ true) ↔ IsFine p.startup p.readiness p.liveness p.mode)
      × ((is_ready r ≡ false) ↔ IsDown p.startup p.readiness p.liveness)
unfolding is_overall_healthy is_ready
posture-check p at took now duration arrived q =
    let e = check-worst (answers (register_health_checks p at took [])) arrived now duration q in
    let fine = IsFine-iff p.startup p.readiness p.liveness p.mode p.message p.updated_at at took in
    let down = IsDown-iff p.startup p.readiness p.liveness p.mode p.message p.updated_at at took in
    let unready = unready_iff (bad p at took) (slow p at took) in
    rw e (fine, (λ h. down.0 (unready.0 h), λ h. unready.1 (down.1 h)))
