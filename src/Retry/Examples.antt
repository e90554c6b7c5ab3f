-- ===== src/Retry/Examples.antt =====
-- Runs of the budget, the backoff and the decision at concrete inputs.
use Prim.Native.Nat.{min}
use nimburion.Base.{
  half_64, double_64, ◌*◌, ◌^◌, ◌≡◌, ◌≢◌, ◌↔◌, refl, true, false, arith, pos, negsuc, ◌≤ℤ◌, ◌<ℤ◌,
}
use nimburion.Errors.{retryable, poison, terminal}
use nimburion.Retry.{Budget, Policy, delayed_retry, positive_or, exponential_backoff, decide}
use nimburion.Retry.Backoff.{exponential_backoff-le-max, exponential_backoff-min}
use nimburion.Retry.Decisions.{decide-retries_iff}

abbrev budget : Budget
budget = record {
  max_attempts = pos 5;
  initial_backoff = pos 100;
  max_backoff = pos 1000;
  attempt_timeout = pos 30;
}

abbrev unset : Budget
unset = record {
  max_attempts = pos 0;
  initial_backoff = negsuc 3;
  max_backoff = pos 0;
  attempt_timeout = pos 7;
}

abbrev policy : Policy
policy = record { dead_letter_enabled = true; quarantine_enabled = false }

backoff_grows : exponential_backoff (pos 3) (pos 100) (pos 1000) ≡ pos 400
unfolding exponential_backoff half_64 double_64
backoff_grows = refl

backoff_is_capped : exponential_backoff (pos 5) (pos 100) (pos 1000) ≡ pos 1000
unfolding exponential_backoff half_64 double_64
backoff_is_capped = refl

-- Before the first attempt the cap is not applied.
backoff_of_none : exponential_backoff (pos 0) (pos 5000) (pos 1000) ≡ pos 5000
unfolding exponential_backoff
backoff_of_none = refl

exponential_backoff-le-max_example : exponential_backoff (pos 4) (pos 5000) (pos 1000) ≤ℤ pos 1000
exponential_backoff-le-max_example =
    exponential_backoff-le-max (pos 4) (pos 5000) (pos 1000) (omega arith)

exponential_backoff-min_example :
    exponential_backoff (pos 4) (pos 100) (pos 1000) ≡ pos (min (100 * 2 ^ 3) 1000)
exponential_backoff-min_example = exponential_backoff-min 3 100 500 (omega arith)

decide-retries_iff_example :
    ((decide retryable (pos 2) (pos 3) budget policy).disposition ≡ delayed_retry)
    ↔ ((retryable ≢ poison) × (retryable ≢ terminal) × (pos 2 <ℤ positive_or (pos 3) (pos 1)))
decide-retries_iff_example = decide-retries_iff retryable (pos 2) (pos 3) budget policy
