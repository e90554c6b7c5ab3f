-- ===== src/FeatureFlag/Posture.antt =====
-- pkg/featureflag/posture.go: the posture of a runtime, and its checks in the health registry. Each
-- state is a string; `other` is any that is none of the constants. The clock is an argument.
pub mod Checks
use nimburion.Base.{
  Text, codes, List, [], ◌∷◌, Bool, true, false, ◌||◌, not, Option, none, ℤ, is_empty,
  if◌then◌else◌, insert,
}
use nimburion.Health.{Status, CheckResult, Checker, Registry, register, custom_check}

pub data StartupState : Type 0 where
  pending starting ready failed : StartupState
  other : Text → StartupState

pub data ReadinessState : Type 0 where
  blocked ready degraded : ReadinessState
  other : Text → ReadinessState

pub data LivenessState : Type 0 where
  alive stopping stopped : LivenessState
  other : Text → LivenessState

pub data Mode : Type 0 where
  normal degraded : Mode
  other : Text → Mode

pub record Snapshot : Type 0 where
  pub startup : StartupState
  pub readiness : ReadinessState
  pub liveness : LivenessState
  pub mode : Mode
  pub message : Text
  pub updated_at : ℤ

unfoldable pub new_posture : ℤ → Snapshot
new_posture now = record {
  startup = StartupState.pending;
  readiness = ReadinessState.blocked;
  liveness = LivenessState.alive;
  mode = Mode.normal;
  message = [];
  updated_at = now;
}

unfoldable pub set_startup : StartupState → Text → ℤ → Snapshot → Snapshot
set_startup state text now p = record p { startup = state; message = text; updated_at = now }

unfoldable pub set_readiness : ReadinessState → Text → ℤ → Snapshot → Snapshot
set_readiness state text now p = record p { readiness = state; message = text; updated_at = now }

unfoldable pub set_liveness : LivenessState → Text → ℤ → Snapshot → Snapshot
set_liveness state text now p = record p { liveness = state; message = text; updated_at = now }

-- The readiness that goes with a mode.
abbrev aligned : Mode → ReadinessState → ReadinessState
aligned Mode.degraded ReadinessState.ready = ReadinessState.degraded
aligned Mode.degraded r = r
aligned Mode.normal ReadinessState.degraded = ReadinessState.ready
aligned Mode.normal r = r
aligned (Mode.other m) ReadinessState.degraded = ReadinessState.ready
aligned (Mode.other m) r = r

unfoldable pub set_mode : Mode → Text → ℤ → Snapshot → Snapshot
set_mode mode text now p = record p {
  mode = mode;
  message = text;
  readiness = aligned mode p.readiness;
  updated_at = now;
}

abbrev snapshot_message : Snapshot → Text → Text
snapshot_message p fallback = if is_empty p.message then fallback else p.message

abbrev startup_answer : StartupState → Snapshot → Status × Text
startup_answer StartupState.ready p = (Status.healthy, codes "startup completed")
startup_answer StartupState.failed p =
    (Status.unhealthy, snapshot_message p (codes "startup failed"))
startup_answer _ p = (Status.degraded, snapshot_message p (codes "startup in progress"))

abbrev readiness_answer : ReadinessState → Snapshot → Status × Text
readiness_answer ReadinessState.ready p = (Status.healthy, codes "runtime is ready")
readiness_answer ReadinessState.degraded p =
    (Status.degraded, snapshot_message p (codes "runtime is ready in degraded mode"))
readiness_answer _ p = (Status.unhealthy, snapshot_message p (codes "runtime is not ready"))

abbrev liveness_answer : LivenessState → Snapshot → Status × Text
liveness_answer LivenessState.alive p = (Status.healthy, codes "runtime is alive")
liveness_answer LivenessState.stopping p =
    (Status.degraded, snapshot_message p (codes "runtime is stopping"))
liveness_answer _ p = (Status.unhealthy, snapshot_message p (codes "runtime is stopped"))

abbrev is_failed : StartupState → Bool
is_failed StartupState.failed = true
is_failed _ = false

abbrev is_started : StartupState → Bool
is_started StartupState.ready = true
is_started _ = false

abbrev is_blocked : ReadinessState → Bool
is_blocked ReadinessState.blocked = true
is_blocked _ = false

abbrev is_slow : ReadinessState → Bool
is_slow ReadinessState.degraded = true
is_slow _ = false

abbrev is_stopped : LivenessState → Bool
is_stopped LivenessState.stopped = true
is_stopped _ = false

abbrev is_stopping : LivenessState → Bool
is_stopping LivenessState.stopping = true
is_stopping _ = false

abbrev is_reduced : Mode → Bool
is_reduced Mode.degraded = true
is_reduced _ = false

abbrev posture_answer : Snapshot → Status × Text
posture_answer p =
    if is_stopped p.liveness || (is_failed p.startup || is_blocked p.readiness)
    then (Status.unhealthy, snapshot_message p (codes "runtime posture is blocking"))
    else if is_reduced p.mode
        || (is_slow p.readiness || (is_stopping p.liveness || not (is_started p.startup)))
    then (Status.degraded, snapshot_message p (codes "runtime posture is degraded"))
    else (Status.healthy, codes "runtime posture is healthy")

-- A custom checker with what its function returns for this posture.
abbrev checker : Text → Status × Text → ℤ → ℤ → Checker
checker name answer now duration = record {
  name = name;
  answer = custom_check name answer.0 answer.1 none now duration;
}

unfoldable pub startup_checker : Snapshot → ℤ → ℤ → Checker
unfolding custom_check
startup_checker p = checker (codes "runtime-startup") (startup_answer p.startup p)

unfoldable pub readiness_checker : Snapshot → ℤ → ℤ → Checker
unfolding custom_check
readiness_checker p = checker (codes "runtime-readiness") (readiness_answer p.readiness p)

unfoldable pub liveness_checker : Snapshot → ℤ → ℤ → Checker
unfolding custom_check
liveness_checker p = checker (codes "runtime-liveness") (liveness_answer p.liveness p)

unfoldable pub posture_checker : Snapshot → ℤ → ℤ → Checker
unfolding custom_check
posture_checker p = checker (codes "runtime-posture") (posture_answer p)

-- The registry with the four checks of the posture; neither is nil.
unfoldable pub register_health_checks : Snapshot → ℤ → ℤ → Registry → Registry
unfolding register startup_checker readiness_checker liveness_checker posture_checker
register_health_checks p now duration r = register (posture_checker p now duration) (
    register (liveness_checker p now duration)
      (register (readiness_checker p now duration) (register (startup_checker p now duration) r)))
