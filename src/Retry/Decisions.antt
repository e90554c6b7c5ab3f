-- ===== src/Retry/Decisions.antt =====
-- What `Decide` promises: when it retries, and with which delay.
use nimburion.Base.{◌≡◌, ◌≢◌, refl, ◌↔◌, arith, ℤ, pos, ◌≤ℤ◌, ◌<ℤ◌}
use nimburion.Errors.{Classification, retryable, poison, terminal, other}
use nimburion.Retry.{Budget, Policy, delayed_retry, positive_or, decide}
use nimburion.Retry.Backoff.{exponential_backoff-le-max}

-- `Decide` asks for a retry exactly when the failure is neither poison nor terminal and the
-- attempt is below the limit, which is at least 1.
pub decide-retries_iff :
    (c : Classification) (attempt max : ℤ) (b : Budget) (p : Policy)
    → ((decide c attempt max b p).disposition ≡ delayed_retry)
      ↔ ((c ≢ poison) × (c ≢ terminal) × (attempt <ℤ positive_or max (pos 1)))
unfolding decide
decide-retries_iff retryable attempt max b p =
    (λ h. (λ e. cc, λ e. cc, ground arith), λ h. ground arith)
decide-retries_iff poison attempt max b p = (λ h. ground arith, λ h. absurd (h.0 refl))
decide-retries_iff terminal attempt max b p = (λ h. ground arith, λ h. absurd (h.1 refl))
decide-retries_iff (other t) attempt max b p =
    (λ h. (λ e. cc, λ e. cc, ground arith), λ h. ground arith)

-- The delay of a decision is at most the budget's limit for every attempt from 1 on and every
-- limit that is not negative.
pub decide-delay :
    (c : Classification) (attempt max : ℤ) (b : Budget) (p : Policy)
    → pos 1 ≤ℤ attempt
    → pos 0 ≤ℤ b.max_backoff
    → (decide c attempt max b p).delay ≤ℤ b.max_backoff
unfolding decide
decide-delay retryable attempt max b p h k =
    ground (arith, exponential_backoff-le-max attempt b.initial_backoff b.max_backoff h)
decide-delay _ attempt max b p h k =
    ground (arith, exponential_backoff-le-max attempt b.initial_backoff b.max_backoff h)
