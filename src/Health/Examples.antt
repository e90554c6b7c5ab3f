-- ===== src/Health/Examples.antt =====
-- Tests of the health registry: a check that fails beside one that answers.
use nimburion.Base.{◌≡◌, refl, codes, [], ◌∷◌, some, pos, true}
use nimburion.Errors.{message}
use nimburion.Health.{Status, adapter_check, ping_check, check, is_overall_healthy}

failing_test :
    (check
      (adapter_check (codes "cache") (some (message (codes "refused"))) (pos 4) (pos 1)
        ∷ ping_check (codes "ping") (pos 4)
        ∷ [])
      (pos 5)
      (pos 2)).status
    ≡ Status.unhealthy
unfolding check adapter_check ping_check
failing_test = refl

answering_test :
    is_overall_healthy (check (ping_check (codes "ping") (pos 4) ∷ []) (pos 5) (pos 2)) ≡ true
unfolding check ping_check is_overall_healthy
answering_test = refl
