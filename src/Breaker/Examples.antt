-- ===== src/Breaker/Examples.antt =====
-- A breaker that opens, and one that probes.
use nimburion.Base.{
  ℕ, ◌+◌, ◌≡◌, refl, List, [], ◌∷◌, Option, some, arith, ℤ, pos, ltb, if◌then◌else◌, codes,
}
use nimburion.Errors.{Err, message}
use nimburion.Effect.{Run}
use nimburion.Breaker.{
  closed, open_circuit, CircuitBreaker, new, record_success, get_state, execute,
}
use nimburion.Breaker.Tripping.{fail_all, fail_all-opens}
use nimburion.Breaker.Probing.{Executed, execute-Executed}
use nimburion.Breaker.Interleavings.{asks, fails, succeeds, resets, run, Inv, run-new-Inv}

-- Opened by its third failure at time 100, with a timeout of 50.
abbrev tripped : CircuitBreaker
tripped = record {
  max_failures = pos 3;
  timeout = pos 50;
  state = open_circuit;
  failures = pos 3;
  successes = pos 0;
  last_fail_time = pos 100;
}

-- The calls are bare; time passes by 10 with each.
abbrev at : ℕ → List (Unit {0}) → ℤ
at start [] = pos start
at start (_ ∷ calls) = pos (start + 10)

abbrev breaks : Run (Unit {0}) (Option Err)
breaks calls = (some (message (codes "down")), tt ∷ calls)

fail_all-opens_example :
    get_state (fail_all (pos 7 ∷ pos 8 ∷ pos 9 ∷ []) (record_success (new (pos 3) (pos 50))))
    ≡ (if ltb 3 3 then closed else open_circuit)
unfolding new
fail_all-opens_example =
    fail_all-opens 3 (pos 7 ∷ pos 8 ∷ pos 9 ∷ []) (new (pos 3) (pos 50)) (omega arith) limit start
      (omega arith)
  where
    limit : (new (pos 3) (pos 50)).max_failures ≡ pos 3
    limit = refl

    start : (new (pos 3) (pos 50)).state ≡ closed
    start = refl

execute-Executed_example : Executed (at 160) breaks tripped [] (execute (at 160) breaks tripped [])
execute-Executed_example = execute-Executed (at 160) breaks tripped []

run-new-Inv_example : Inv (pos 2) (pos 50) (
    run
      (new (pos 2) (pos 50))
      (fails (pos 1) ∷ asks (pos 2) ∷ fails (pos 3) ∷ asks (pos 60) ∷ succeeds ∷ resets ∷ []))
run-new-Inv_example =
    run-new-Inv (pos 2) (pos 50)
      (fails (pos 1) ∷ asks (pos 2) ∷ fails (pos 3) ∷ asks (pos 60) ∷ succeeds ∷ resets ∷ [])
