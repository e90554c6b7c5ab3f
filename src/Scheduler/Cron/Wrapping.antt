-- ===== src/Scheduler/Cron/Wrapping.antt =====
-- What the loop over a cron segment does where its step leaves the 64 bits.
use nimburion.Base.{
  ℕ, zero, suc, ◌+◌, ◌-◌, ◌≤◌, ◌<◌, ◌≡◌, refl, sym, ap, ◌∙◌, Text, List, true, false, Bool-cases,
  some, ℤ, pos, negsuc, ◌+ℤ◌, leb_ℤ, wrap_64, two_63, two_64, inl, inr, arith,
}
use nimburion.Effect.{ok}
use nimburion.Scheduler.Cron.{
  Limits, add_value, fill, Stride, stride_of, appended, filled, append_cron_segment_values,
}
use nimburion.Scheduler.Cron.Ending.{wrap_over, wrap_up, fill-next, below, negative, fill-ends}
use nimburion.Scheduler.Cron.Values.{has, has-add_value}
use nimburion.Scheduler.Cron.Fields.{IsStride}

has-add_value_of_has :
    (l : Limits) (value : ℤ) (values : List ℕ) (n : ℕ)
    → has n values ≡ true
    → has n (add_value l value values) ≡ true
unfolding add_value
has-add_value_of_has l value values n h = ground (arith, h)

module _ (l : Limits) (end step : ℤ) (n : ℕ) where
  -- The loop takes no value out.
  fill-keeps :
      (fuel : ℕ) (value : ℤ) (values vs : List ℕ)
      → fill fuel l end step value values ≡ some vs
      → has n values ≡ true
      → has n vs ≡ true
  unfolding fill
  fill-keeps zero value values vs h k = cc
  fill-keeps (suc fuel) value values vs h k = elim (Bool-cases (leb_ℤ value end)) [
    | inl more ↦
        fill-keeps fuel (wrap_64 (value +ℤ step)) (add_value l value values) vs
          (sym (fill-next l end step fuel value _ values more refl) ∙ h)
          (has-add_value_of_has l value values n k)
    | inr done ↦ ground (arith, done, h, k)
  ]

fill-wraps :
    (l : Limits) (e s first fuel : ℕ) (values vs : List ℕ)
    → e ≤ l.max
    → e < 64
    → l.sunday ≡ false
    → first ≤ e
    → s < two_63
    → two_63 ≤ first + s
    → two_64 + l.min ≤ first + s + s
    → fill (suc (suc (suc fuel))) l (pos e) (pos s) (pos first) values ≡ some vs
    → has (first + s + s - two_64) vs ≡ true
fill-wraps l e s first fuel values vs top low week start bound over twice q =
    let n : ℕ = two_64 - 1 - (first + s) in
    let back : ℕ = s - n - 1 in
    let once =
      fill-next l (pos e) (pos s) (suc (suc fuel)) (pos first) (negsuc n) values
        (below l e s low (omega arith) first start) (wrap_over first s over (omega arith)) in
    let values' = add_value l (pos first) values in
    let again =
      fill-next l (pos e) (pos s) (suc fuel) (negsuc n) (pos back) values'
        (negative l e s low (omega arith) n) (wrap_up n s (omega arith) bound) in
    let values'' = add_value l (negsuc n) values' in
    let third =
      fill-next l (pos e) (pos s) fuel (pos back) (wrap_64 (pos back +ℤ pos s)) values''
        (below l e s low (omega arith) back (omega arith)) refl in
    let there : has back (add_value l (pos back) values'') ≡ true =
      has-add_value l e s top week back back values'' (omega arith) (omega arith) ∙ ground arith in
    let kept =
      fill-keeps l (pos e) (pos s) back fuel _ (add_value l (pos back) values'') vs
        (sym third ∙ (sym again ∙ (sym once ∙ q))) there in
    let same : back ≡ first + s + s - two_64 = omega arith in ap (λ k. has k vs) (sym same) ∙ kept

-- Where the start and the step reach 2^63, the loop goes on behind the end of its range: a segment
-- without Sunday also stands for the value that two steps lead to, modulo 2^64, if that is within
-- the limits of the field.
pub append-wraps :
    (l : Limits) (segment : Text) (x : Stride) (values : List ℕ)
    → l.max < 64
    → l.sunday ≡ false
    → stride_of l segment ≡ ok x
    → (v : IsStride l x) → two_63 ≤ v.first + v.gap
    → two_64 + l.min ≤ v.first + v.gap + v.gap
    → (vs : List ℕ) × (append_cron_segment_values l segment values ≡ some (ok vs))
      × (has (v.first + v.gap + v.gap - two_64) vs ≡ true)
unfolding append_cron_segment_values
append-wraps l segment x values m week accepted v over twice =
    let s = v.gap in
    let e = pos v.last in
    let (vs, q) =
      fill-ends l v.last s v.first values (omega arith) (omega arith) v.positive v.fits in
    let same : fill 200 l x.end x.step x.start values ≡ fill 200 l e (pos s) (pos v.first) values =
      λ i. fill 200 l (v.ends i) (v.steps i) (v.starts i) values in
    (
      vs,
      ap (appended l values) accepted ∙ ap filled (same ∙ q),
      fill-wraps l v.last s v.first 197 values vs v.to (omega arith) week v.ordered v.fits over
          (omega arith) q,
    )
