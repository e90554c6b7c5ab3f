-- ===== src/FeatureFlag/Examples.antt =====
-- A flag with a provider that knows it, and a runtime that has started.
use nimburion.Base.{◌≡◌, refl, ◌↔◌, codes, [], ◌∷◌, true, false, some, ℤ, pos, lookup}
use mathlib.Core.List.Permᴰ
use nimburion.Effect.{ok}
use nimburion.Health.{answers, check, is_overall_healthy, is_ready}
use nimburion.FeatureFlag.{TargetContext, Raw, Provider, Definition, Registry, eval_int}
use nimburion.FeatureFlag.Posture.{
  StartupState, ReadinessState, Snapshot, new_posture, set_startup, set_readiness,
  register_health_checks,
}
use nimburion.FeatureFlag.Posture.Checks.{IsFine, IsDown, posture-check}

abbrev limit : Definition ℤ
limit = record { key = codes "limit"; default_value = pos 3; description = [] }

abbrev target : TargetContext
target = record { app_name = []; environment = []; user_id = []; tenant_id = []; attributes = [] }

abbrev seven : Provider
seven key t = ok (some (Raw.int64 (pos 7)))

abbrev flags : Registry
flags = record {
  provider = some seven;
  bools = [];
  strings = [];
  ints = (codes "limit", limit) ∷ [];
  observers = 1 ∷ 2 ∷ [];
  events = [];
}

eval_limit : (eval_int (pos 0) (codes "limit") target flags).0.value ≡ pos 7
unfolding eval_int lookup
eval_limit = refl

abbrev started : Snapshot
started =
    set_readiness ReadinessState.ready [] (pos 3)
      (set_startup StartupState.ready [] (pos 2) (new_posture (pos 1)))

posture-check_example :
    let arrived = answers (register_health_checks started (pos 4) (pos 0) []) in
    let r = check arrived (pos 5) (pos 1) in
    ((is_overall_healthy r ≡ true)
      ↔ IsFine started.startup started.readiness started.liveness started.mode)
    × ((is_ready r ≡ false) ↔ IsDown started.startup started.readiness started.liveness)
posture-check_example =
    posture-check started (pos 4) (pos 0) (pos 5) (pos 1)
      (answers (register_health_checks started (pos 4) (pos 0) [])) (Permᴰ.refl _)
