-- ===== src/Health/Aggregation.antt =====
-- The overall status of some checks does not depend on the order in which they answer.
use nimburion.Base.{
  ◌≡◌, refl, sym, ap, ◌∙◌, List, [], ◌∷◌, Bool, false, ◌||◌, any, arith, ap₂, ℤ, if◌then◌else◌,
}
use mathlib.Core.List.{Permᴰ}
use nimburion.Health.{
  Status, healthy, unhealthy, degraded, other, CheckResult, is_unhealthy, is_degraded, worse,
  collect, check,
}

abbrev pub has_unhealthy : List CheckResult → Bool
has_unhealthy = any (λ r. is_unhealthy r.status)

abbrev pub has_degraded : List CheckResult → Bool
has_degraded = any (λ r. is_degraded r.status)

-- The worst status of all, where an unknown status counts as healthy.
abbrev pub worst : Bool → Bool → Status
worst bad slow = if bad then unhealthy else if slow then degraded else healthy

worse-worst :
    (bad slow : Bool) (s : Status)
    → worse (worst bad slow) s ≡ worst (bad || is_unhealthy s) (slow || is_degraded s)
unfolding worse
worse-worst bad slow healthy = ground arith
worse-worst bad slow unhealthy = ground arith
worse-worst bad slow degraded = ground arith
worse-worst bad slow (other s) = ground arith

collect-worst :
    (bad slow : Bool) (rs : List CheckResult)
    → collect (worst bad slow) rs ≡ worst (bad || has_unhealthy rs) (slow || has_degraded rs)
unfolding collect
collect-worst bad slow [] = ground arith
collect-worst bad slow (r ∷ rs) =
    ap (λ s. collect s rs) (worse-worst bad slow r.status)
    ∙ collect-worst (bad || is_unhealthy r.status) (slow || is_degraded r.status) rs
    ∙ ground arith

any-perm {ℓ} : {A : Type ℓ} (p : A → Bool) {xs ys : List A} → Permᴰ xs ys → any p xs ≡ any p ys
any-perm p Permᴰ.nil = refl
any-perm p (Permᴰ.cons e q) = ground (arith, ap p e, any-perm p q)
any-perm p (Permᴰ.swap {l} e f) = ground (arith, ap p e, ap p f)
any-perm p (Permᴰ.trans q r) = any-perm p q ∙ any-perm p r

-- In whatever order the results arrive, the overall status is unhealthy exactly if one of them is,
-- else degraded exactly if one of them is, and else healthy.
pub check-worst :
    (results arrived : List CheckResult) (now duration : ℤ)
    → Permᴰ results arrived
    → (check arrived now duration).status ≡ worst (has_unhealthy results) (has_degraded results)
unfolding check
check-worst results arrived now duration p =
    collect-worst false false arrived
    ∙ ap₂ worst (sym (any-perm (λ r. is_unhealthy r.status) p))
        (sym (any-perm (λ r. is_degraded r.status) p))
