-- ===== src/Health.antt =====
-- pkg/health: checkers (checkers.go) and the registry that runs them (registry.go). A checker is
-- its name and what it answers when it is asked; the readings of the clock are arguments. The
-- registry asks its checkers at once, so their results come in any order.
pub mod Aggregation
mod Examples
use nimburion.Base.{
  Text, codes, List, [], ◌∷◌, ◌++◌, map, Bool, true, false, not, Option, none, some, ℤ, pos, eq_ℤ,
  is_empty, if◌then◌else◌, insert, lookup, remove,
}
use nimburion.Errors.{Err, message, error_text}
use nimburion.Effect.{Result, ok, err}

-- A status is a string; `other` is any that is none of the three.
pub data Status : Type 0 where
  healthy unhealthy degraded : Status
  other : Text → Status

pub record CheckResult : Type 0 where
  pub name : Text
  pub status : Status
  pub message : Text
  pub error : Text
  pub timestamp : ℤ
  pub duration : ℤ

pub record Checker : Type 0 where
  pub name : Text
  pub answer : CheckResult

abbrev pub is_unhealthy : Status → Bool
is_unhealthy unhealthy = true
is_unhealthy _ = false

abbrev pub is_degraded : Status → Bool
is_degraded degraded = true
is_degraded _ = false

abbrev pub is_healthy : Status → Bool
is_healthy healthy = true
is_healthy _ = false

-- The loops of Registry.Check and CompositeChecker.Check, for one result.
unfoldable pub worse : Status → Status → Status
worse overall unhealthy = unhealthy
worse overall degraded = if is_healthy overall then degraded else overall
worse overall healthy = overall
worse overall (other s) = overall

unfoldable pub collect : Status → List CheckResult → Status
unfolding worse
collect overall [] = overall
collect overall (r ∷ rs) = collect (worse overall r.status) rs

pub record AggregatedResult : Type 0 where
  pub status : Status
  pub checks : List CheckResult
  pub timestamp : ℤ
  pub duration : ℤ

unfoldable pub is_overall_healthy : AggregatedResult → Bool
is_overall_healthy r = is_healthy r.status

-- AggregatedResult.IsReady
unfoldable pub is_ready : AggregatedResult → Bool
is_ready r = not (is_unhealthy r.status)

-- The registry's checkers by name.
abbrev pub Registry : Type 0
Registry = List (Text × Checker)

unfoldable pub register : Checker → Registry → Registry
register c r = insert c.name c r

-- RegisterFunc, with what the function answers.
unfoldable pub register_func : Text → CheckResult → Registry → Registry
register_func name answer r = insert name (record { name = name; answer = answer }) r

unfoldable pub unregister : Text → Registry → Registry
unregister name r = remove name r

abbrev pub answers : Registry → List CheckResult
answers r = map (λ entry. entry.1.answer) r

-- Registry.Check, with the results in the order in which they came.
unfoldable pub check : List CheckResult → ℤ → ℤ → AggregatedResult
unfolding collect
check arrived now duration = record {
  status = collect healthy arrived;
  checks = arrived;
  timestamp = now;
  duration = duration;
}

unfoldable pub check_one : Text → Registry → Result CheckResult
check_one name r = elim (lookup name r) [
  | none ↦ err (message (codes "health check not found: " ++ name))
  | some c ↦ ok c.answer
]

-- A timeout of zero is five seconds.
unfoldable pub adapter_timeout : ℤ → ℤ
adapter_timeout timeout = if eq_ℤ timeout (pos 0) then pos 5_000_000_000 else timeout

-- AdapterChecker.Check, with what the adapter answers within the timeout.
unfoldable pub adapter_check : Text → Option Err → ℤ → ℤ → CheckResult
adapter_check name (some e) now duration = record {
  name = name;
  status = unhealthy;
  message = [];
  error = error_text e;
  timestamp = now;
  duration = duration;
}
adapter_check name none now duration = record {
  name = name;
  status = healthy;
  message = codes "OK";
  error = [];
  timestamp = now;
  duration = duration;
}

unfoldable pub ping_check : Text → ℤ → CheckResult
ping_check name now = record {
  name = name;
  status = healthy;
  message = codes "Service is alive";
  error = [];
  timestamp = now;
  duration = pos 0;
}

-- CustomChecker.Check, with what its function returns.
unfoldable pub custom_check : Text → Status → Text → Option Err → ℤ → ℤ → CheckResult
custom_check name status text failure now duration = record {
  name = name;
  status = status;
  message = text;
  error = elim failure [ none ↦ [] | some e ↦ error_text e ];
  timestamp = now;
  duration = duration;
}

-- The errors that CompositeChecker.Check gathers.
unfoldable pub sub_errors : List CheckResult → List Text
sub_errors [] = []
sub_errors (r ∷ rs) =
    let rest = sub_errors rs in
    if is_unhealthy r.status
    then if is_empty r.error then rest else (r.name ++ (codes ": " ++ r.error)) ∷ rest
    else rest

-- What %v prints of a list of strings.
unfoldable pub spaced : List Text → Text
spaced [] = []
spaced (s ∷ []) = s
spaced (s ∷ t ∷ ss) = s ++ (codes " " ++ spaced (t ∷ ss))

unfoldable pub composite_check : Text → List Checker → ℤ → ℤ → CheckResult
unfolding collect sub_errors spaced
composite_check name checkers now duration =
    let results = map (λ (c : Checker). c.answer) checkers in
    let status = collect healthy results in
    let errors = sub_errors results in
    record {
      name = name;
      status = status;
      message =
          if is_empty errors
          then if is_healthy status then codes "All sub-checks passed" else []
          else [];
      error =
          if is_empty errors
          then []
          else codes "sub-checks failed: [" ++ (spaced errors ++ codes "]");
      timestamp = now;
      duration = duration;
    }
