-- ===== src/Scheduler/NextRun.antt =====
-- The search of task.go finds the first minute that matches.
use nimburion.Base.{
  Text, ℕ, zero, suc, ◌+◌, ◌*◌, ◌<◌, ◌≤◌, ◌≡◌, refl, sym, subst, ◌⊎◌, inl, inr, true, false, Option,
  none, some, arith, Bool-cases,
}
use nimburion.Effect.{Result, ok, err}
use nimburion.Scheduler.{
  CronExpression, LocalTime, matches, minute_length, max_cron_search_iterations, first_candidate,
  search, none_found, next_cron_run,
}

abbrev pub five_years : ℕ
five_years = 5 * 366 * 24 * 60

abbrev candidate_at : Text → Option ℕ → Result ℕ
candidate_at schedule none = err (none_found schedule)
candidate_at schedule (some k) = ok (k * minute_length)

module _ (calendar : ℕ → LocalTime) (e : CronExpression) where
  -- None of the next `n` minutes matches.
  abbrev pub Misses : ℕ → ℕ → Type 0
  Misses first zero = Unit {0}
  Misses first (suc n) = (matches e (calendar first) ≡ false) × Misses (first + 1) n

  -- The search stopped at the first minute that matches, or went through all its rounds.
  abbrev pub Found : ℕ → ℕ → Option ℕ → Type 0
  Found rounds first r =
      ((n : ℕ) × (n < rounds)
        × (r ≡ some (first + n))
        × (matches e (calendar (first + n)) ≡ true)
        × Misses first n)
      ⊎ ((r ≡ none) × Misses first rounds)

  later-Found :
      (rounds first : ℕ) (r : Option ℕ)
      → matches e (calendar first) ≡ false
      → Found rounds (first + 1) r
      → Found (suc rounds) first r
  later-Found rounds first r miss (inr (p, q)) = inr (p, (miss, q))
  later-Found rounds first r miss (inl (n, l, p, m, q)) =
      let same : first + 1 + n ≡ first + suc n = omega arith in
      inl (
        suc n,
        omega arith,
        subst (λ x. r ≡ some x) same p,
        subst (λ x. matches e (calendar x) ≡ true) same m,
        (miss, q),
      )

  search-Found : (rounds first : ℕ) → Found rounds first (search calendar e rounds first)
  unfolding search
  search-Found zero first = inr (refl, tt)
  search-Found (suc rounds) first = elim (Bool-cases (matches e (calendar first))) [
    | inl hit ↦
        let same : first + 0 ≡ first = omega arith in
        inl (
          0,
          omega arith,
          ground arith,
          subst (λ x. matches e (calendar x) ≡ true) (sym same) hit,
          tt,
        )
    | inr miss ↦
        let r = search calendar e rounds (first + 1) in
        let step : search calendar e (suc rounds) first ≡ r = ground arith in
        subst (Found (suc rounds) first) (sym step)
          (later-Found rounds first r miss (search-Found rounds (first + 1)))
  ]

  next_cron_run-search :
      (schedule : Text) (now : ℕ) (r : Option ℕ)
      → search calendar e max_cron_search_iterations (first_candidate now) ≡ r
      → next_cron_run calendar e schedule now ≡ candidate_at schedule r
  unfolding next_cron_run
  next_cron_run-search schedule now r h = rw (← h) refl

  -- What a search from `first` on ends with, over five years of 366 days.
  abbrev pub FoundFirst : Text → ℕ → Result ℕ → Type 0
  FoundFirst schedule first r =
      ((n : ℕ) × (n < five_years)
        × (r ≡ ok ((first + n) * minute_length))
        × (matches e (calendar (first + n)) ≡ true)
        × Misses first n)
      ⊎ ((r ≡ err (none_found schedule)) × Misses first five_years)

  -- The next run is the first full minute after now that matches, if one of the minutes of the
  -- next five years of 366 days does; otherwise the error says that there is none. The first full
  -- minute after now is the one that begins after now and at most a minute later.
  pub next_cron_run-first :
      (schedule : Text) (now : ℕ)
      → (first : ℕ) × (now < first * minute_length)
        × (first * minute_length ≤ now + minute_length)
        × FoundFirst schedule first (next_cron_run calendar e schedule now)
  unfolding max_cron_search_iterations
  next_cron_run-first schedule now =
      let first = first_candidate now in
      (
        first,
        omega arith,
        omega arith,
        elim (search-Found max_cron_search_iterations first) [
          | inl (n, l, p, m, q) ↦ inl (n, l, next_cron_run-search schedule now _ p, m, q)
          | inr (p, q) ↦ inr (next_cron_run-search schedule now _ p, q)
        ],
      )
