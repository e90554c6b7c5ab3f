-- ===== src/Scheduler/Cron/Ending.antt =====
-- The loop over the values of a cron segment ends for every step of 64 bits.
use nimburion.Base.{
  ℕ, zero, suc, ◌+◌, ◌-◌, ◌≤◌, ◌<◌, ◌≡◌, refl, ◌∙◌, inl, inr, List, true, false, Bool-cases, some,
  ℤ, pos, negsuc, ◌+ℤ◌, leb_ℤ, wrap_64, two_63, two_64, arith, dec_lt,
}
use nimburion.Scheduler.Cron.{Limits, add_value, fill}

pub wrap_small : (v s : ℕ) → v + s < two_63 → wrap_64 (pos v +ℤ pos s) ≡ pos (v + s)
unfolding wrap_64 ◌+ℤ◌
wrap_small v s h = ground arith

pub wrap_over :
    (v s : ℕ)
    → two_63 ≤ v + s
    → v + s < two_64
    → wrap_64 (pos v +ℤ pos s) ≡ negsuc (two_64 - 1 - (v + s))
unfolding wrap_64 ◌+ℤ◌
wrap_over v s h k = ground arith

pub wrap_up : (n s : ℕ) → n < s → s < two_63 → wrap_64 (negsuc n +ℤ pos s) ≡ pos (s - n - 1)
unfolding wrap_64 ◌+ℤ◌
wrap_up n s h k = ground arith

wrap_down : (n s : ℕ) → s ≤ n → n < two_63 → wrap_64 (negsuc n +ℤ pos s) ≡ negsuc (n - s)
unfolding wrap_64 ◌+ℤ◌
wrap_down n s h k = ground arith

module _ (l : Limits) (end step : ℤ) where
  pub fill-next :
      (fuel : ℕ) (value next : ℤ) (values : List ℕ)
      → leb_ℤ value end ≡ true
      → wrap_64 (value +ℤ step) ≡ next
      → fill (suc fuel) l end step value values
        ≡ fill fuel l end step next (add_value l value values)
  unfolding fill
  fill-next fuel value next values h e = rw h (rw e refl)

  pub fill-stops :
      (fuel : ℕ) (value : ℤ) (values : List ℕ)
      → leb_ℤ value end ≡ false
      → fill (suc fuel) l end step value values ≡ some values
  unfolding fill
  fill-stops fuel value values h = rw h

module _ (l : Limits) (e s : ℕ) (low : e < 64) (positive : 0 < s) where
  abbrev Ends : ℕ → ℤ → List ℕ → Type 0
  Ends fuel value values = (vs : List ℕ) × (fill fuel l (pos e) (pos s) value values ≡ some vs)

  -- A step that cannot leave the 64 bits.
  fill-Ends_small :
      s + 64 ≤ two_63
      → (fuel v : ℕ) (values : List ℕ) → v < two_63
      → 0 < fuel
      → e + 2 ≤ v + fuel
      → Ends fuel (pos v) values
  fill-Ends_small small zero v values b p h = absurd (omega arith)
  fill-Ends_small small (suc fuel) v values b p h = elim (Bool-cases (leb_ℤ (pos v) (pos e))) [
    | inl more ↦
        let le : v ≤ e = ground (arith, more) in
        let next =
          fill-next l (pos e) (pos s) fuel (pos v) (pos (v + s)) values more
            (wrap_small v s (omega arith)) in
        let (vs, q) =
          fill-Ends_small small fuel (v + s) (add_value l (pos v) values) (omega arith)
            (omega arith) (omega arith) in
        (vs, next ∙ q)
    | inr done ↦ (values, fill-stops l (pos e) (pos s) fuel (pos v) values done)
  ]

  pub above : (v : ℕ) → e < v → leb_ℤ (pos v) (pos e) ≡ false
  above v h = ground arith

  pub below : (v : ℕ) → v ≤ e → leb_ℤ (pos v) (pos e) ≡ true
  below v h = ground arith

  pub negative : (n : ℕ) → leb_ℤ (negsuc n) (pos e) ≡ true
  negative n = ground arith

  -- A step that leaves the 64 bits from some value: two rounds then make the value smaller, until
  -- it is below the step again.
  fill-Ends_big :
      two_63 < s + 64
      → s < two_63
      → (fuel v : ℕ) (values : List ℕ) → v < 64
      → v + 6 ≤ fuel
      → Ends fuel (pos v) values
  fill-Ends_big big bound zero v values b h = absurd (omega arith)
  fill-Ends_big big bound (suc zero) v values b h = absurd (omega arith)
  fill-Ends_big big bound (suc (suc zero)) v values b h = absurd (omega arith)
  fill-Ends_big big bound (suc (suc (suc zero))) v values b h = absurd (omega arith)
  fill-Ends_big big bound (suc (suc (suc (suc fuel)))) v values b h = elim (dec_lt e v) [
    | yes over ↦
        (values, fill-stops l (pos e) (pos s) (suc (suc (suc fuel))) (pos v) values (above v over))
    | no within ↦ elim (dec_lt (v + s) two_63) [
      | yes fits ↦ one_more (omega arith) fits
      | no wraps ↦ elim (dec_lt (two_64 - 1 - (v + s)) s) [
        | yes up ↦ two_more (omega arith) (omega arith) up (
            fill-Ends_big big bound (suc (suc fuel)) (s - n - 1) values'' (omega arith)
              (omega arith))
        | no down ↦ three_more (omega arith) (omega arith) (omega arith)
      ]
    ]
  ]
    where
      values' : List ℕ
      values' = add_value l (pos v) values

      n : ℕ
      n = two_64 - 1 - (v + s)

      values'' : List ℕ
      values'' = add_value l (negsuc n) values'

      one_more : v ≤ e → v + s < two_63 → Ends (suc (suc (suc (suc fuel)))) (pos v) values
      one_more le fits = (
        values',
        fill-next l (pos e) (pos s) _ (pos v) (pos (v + s)) values (below v le)
              (wrap_small v s fits)
            ∙ fill-stops l (pos e) (pos s) (suc (suc fuel)) (pos (v + s)) values'
                (above (v + s) (omega arith)),
      )

      two_more :
          v ≤ e
          → two_63 ≤ v + s
          → n < s
          → Ends (suc (suc fuel)) (pos (s - n - 1)) values''
          → Ends (suc (suc (suc (suc fuel)))) (pos v) values
      two_more le wraps up (vs, q) = (
        vs,
        fill-next l (pos e) (pos s) _ (pos v) (negsuc n) values (below v le)
              (wrap_over v s wraps (omega arith))
            ∙ fill-next l (pos e) (pos s) _ (negsuc n) (pos (s - n - 1)) values' (negative n)
                (wrap_up n s up bound)
            ∙ q,
      )

      three_more : v ≤ e → two_63 ≤ v + s → s ≤ n → Ends (suc (suc (suc (suc fuel)))) (pos v) values
      three_more le wraps down = (
        add_value l (negsuc (n - s)) values'',
        fill-next l (pos e) (pos s) _ (pos v) (negsuc n) values (below v le)
              (wrap_over v s wraps (omega arith))
            ∙ fill-next l (pos e) (pos s) _ (negsuc n) (negsuc (n - s)) values' (negative n)
                (wrap_down n s down (omega arith))
            ∙ fill-next l (pos e) (pos s) _ (negsuc (n - s)) (pos (s - (n - s) - 1)) values''
                (negative (n - s)) (wrap_up (n - s) s (omega arith) bound)
            ∙ fill-stops l (pos e) (pos s) fuel (pos (s - (n - s) - 1)) _ (above _ (omega arith)),
      )

-- Enough rounds for every segment: its values are below 64, its step fits into 64 bits.
pub fill-ends :
    (l : Limits) (e s v : ℕ) (values : List ℕ)
    → e < 64
    → v < 64
    → 0 < s
    → s < two_63
    → (vs : List ℕ) × (fill 200 l (pos e) (pos s) (pos v) values ≡ some vs)
fill-ends l e s v values low start positive bound = elim (dec_lt two_63 (s + 64)) [
  | yes big ↦ fill-Ends_big l e s low positive big bound 200 v values start (omega arith)
  | no small ↦
      fill-Ends_small l e s low positive (omega arith) 200 v values (omega arith) (omega arith)
        (omega arith)
]
