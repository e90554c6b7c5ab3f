-- ===== src/Scheduler/Cron/Values.antt =====
-- The values that the loop over a cron segment puts into its field.
use nimburion.Base.{
  ℕ, zero, suc, ◌+◌, ◌*◌, ◌≤◌, ◌<◌, ◌≡◌, sym, ◌∙◌, ◌↔◌, ◌⊎◌, inl, inr, List, Bool, true, false,
  Bool-cases, some, pos, leb_ℤ, two_63, any, ◌==◌, ◌||◌, arith,
}
use nimburion.Scheduler.Cron.{Limits, add_value, fill, normalize_cron_value}
use nimburion.Scheduler.Cron.Ending.{wrap_small, fill-next, fill-stops}

-- One of the values start, start + step, … up to the end.
abbrev pub Reached : ℕ → ℕ → ℕ → ℕ → Type 0
Reached v s e n = (i : ℕ) × (n ≡ v + i * s) × (n ≤ e)

abbrev pub has : ℕ → List ℕ → Bool
has n values = any (λ v. v == n) values

Reached-cases : (v s e n : ℕ) → Reached v s e n → (n ≡ v) ⊎ Reached (v + s) s e n
Reached-cases v s e n (zero, p, q) = inl (omega arith)
Reached-cases v s e n (suc i, p, q) = inr (i, grind arith, q)

Reached-later : (v s e n : ℕ) → Reached (v + s) s e n → Reached v s e n
Reached-later v s e n (i, p, q) = (suc i, grind arith, q)

module _ (l : Limits) (e s : ℕ) (below_max : e ≤ l.max) (no_sunday : l.sunday ≡ false) where
  pub has-add_value :
      (v n : ℕ) (values : List ℕ)
      → l.min ≤ v
      → v ≤ l.max
      → has n (add_value l (pos v) values) ≡ (v == n) || has n values
  unfolding add_value normalize_cron_value
  has-add_value v n values p q = ground (arith, no_sunday)

  Reached-start : (v n : ℕ) → v ≤ e → (v == n) ≡ true → Reached v s e n
  Reached-start v n p h = (0, ground (arith, h), ground (arith, h))

  not-Reached : (v n : ℕ) → e < v → ¬ Reached v s e n
  not-Reached v n h (i, p, q) = absurd (omega arith)

  -- One round: the value itself, or what comes behind it.
  has-round :
      (v n : ℕ) (values : List ℕ)
      → l.min ≤ v
      → v ≤ e
      → ((has n (add_value l (pos v) values) ≡ true) ⊎ Reached (v + s) s e n)
        ↔ ((has n values ≡ true) ⊎ Reached v s e n)
  has-round v n values p le = (forwards, backwards)
    where
      now : has n (add_value l (pos v) values) ≡ (v == n) || has n values
      now = has-add_value v n values p (omega arith)

      forwards :
          (has n (add_value l (pos v) values) ≡ true) ⊎ Reached (v + s) s e n
          → (has n values ≡ true) ⊎ Reached v s e n
      forwards (inl h) = elim (Bool-cases (v == n)) [
        | inl same ↦ inr (Reached-start v n le same)
        | inr other ↦ inl (ground (arith, now, h, other))
      ]
      forwards (inr r) = inr (Reached-later v s e n r)

      backwards :
          (has n values ≡ true) ⊎ Reached v s e n
          → (has n (add_value l (pos v) values) ≡ true) ⊎ Reached (v + s) s e n
      backwards (inl h) = inl (ground (arith, now, h))
      backwards (inr r) = elim (Reached-cases v s e n r) [
        | inl same ↦ inl (ground (arith, now, same))
        | inr later ↦ inr later
      ]

  -- Both directions, as the loop goes.
  pub fill-has :
      s + 64 ≤ two_63
      → e < 64
      → (fuel v : ℕ) (values vs : List ℕ) → v < two_63
      → l.min ≤ v
      → fill fuel l (pos e) (pos s) (pos v) values ≡ some vs
      → (n : ℕ) → (has n vs ≡ true) ↔ ((has n values ≡ true) ⊎ Reached v s e n)
  unfolding fill
  fill-has small low zero v values vs b p h n = cc
  fill-has small low (suc fuel) v values vs b p h n = elim (Bool-cases (leb_ℤ (pos v) (pos e))) [
    | inl more ↦
        let le : v ≤ e = ground (arith, more) in
        let next =
          fill-next l (pos e) (pos s) fuel (pos v) (pos (v + s)) values more
            (wrap_small v s (omega arith)) in
        let later =
          fill-has small low fuel (v + s) (add_value l (pos v) values) vs (omega arith)
            (omega arith) (sym next ∙ h) n in
        let now = has-round v n values p le in (λ q. now.0 (later.0 q), λ q. later.1 (now.1 q))
    | inr done ↦
        let same : some values ≡ some vs =
          sym (fill-stops l (pos e) (pos s) fuel (pos v) values done) ∙ h in
        let equal : values ≡ vs = cc in
        let over : e < v = ground (arith, done) in
        rw (← equal)
          (λ q. inl q, λ q. elim q [ inl a ↦ a | inr r ↦ absurd (not-Reached v n over r) ])
  ]
