-- ===== src/Scheduler/Cron/Fields.antt =====
-- The parser of cron expressions as a whole: it ends on every text, and what a segment stands for.
use nimburion.Base.{
  cut, split_on, fields_of, ℕ, ◌+◌, ◌≤◌, ◌<◌, ◌≡◌, refl, sym, ap, ◌∙◌, ◌↔◌, ◌⊎◌, inl, inr, Text,
  List, [], ◌∷◌, true, false, Bool-cases, Option, none, some, Option-cases, ℤ, pos, negsuc, two_63,
  arith, is_empty, eq_text, codes, trim_space, parse_int, parse_int-lt,
}
use nimburion.Errors.{Err}
use nimburion.Effect.{Result, ok, err}
use nimburion.Scheduler.{CronExpression, CronFieldMatcher, LocalTime}
use nimburion.Scheduler.Cron.{
  Limits, Stride, step_parsed, step_cut, step_of, stride_checked, stride_bounded, stride_stepped,
  appended, filled, and_append, matcher_of, and_field, run_of, cron_run, bounds_of, check_bounds,
  stride_of, fill, append_cron_segment_values, append_segments, parse_cron_field, minute_limits,
  hour_limits, day_of_month_limits, month_limits, day_of_week_limits, CronFields,
  parse_cron_expression, next_run_for_schedule, cron_fields, after_prefix,
}
use nimburion.Scheduler.Cron.Ending.{fill-ends}
use nimburion.Scheduler.Cron.Values.{Reached, has, fill-has}

-- The stride of a segment that was accepted.
pub record IsStride (l : Limits) (x : Stride) : Type 0 where
  pub first : ℕ
  pub last : ℕ
  pub gap : ℕ
  pub starts : x.start ≡ pos first
  pub ends : x.end ≡ pos last
  pub steps : x.step ≡ pos gap
  pub from : l.min ≤ first
  pub ordered : first ≤ last
  pub to : last ≤ l.max
  pub positive : 0 < gap
  pub fits : gap < two_63

Result-cases {ℓ} : {A : Type ℓ} (r : Result A) → ((e : Err) × (r ≡ err e)) ⊎ ((a : A) × (r ≡ ok a))
Result-cases (err e) = inl (e, refl)
Result-cases (ok a) = inr (a, refl)

step_parsed-positive :
    (base raw b : Text) (o : Option ℤ) (step : ℤ)
    → ((n : ℕ) → o ≡ some (pos n) → n < two_63)
    → step_parsed base raw o ≡ ok (b, step)
    → (s : ℕ) × (step ≡ pos s) × (0 < s) × (s < two_63)
step_parsed-positive base raw b none step f h = cc
step_parsed-positive base raw b (some (pos n)) step f h =
    let bound = f n refl in (n, ground arith, ground arith, bound)
step_parsed-positive base raw b (some (negsuc n)) step f h = ground arith

step_of-positive :
    (segment base : Text) (step : ℤ)
    → step_of segment ≡ ok (base, step)
    → (s : ℕ) × (step ≡ pos s) × (0 < s) × (s < two_63)
unfolding step_of
step_of-positive segment base step h = elim (Option-cases (cut b'/' segment)) [
  | inl whole ↦ (1, ground (arith, whole), omega arith, omega arith)
  | inr (parts, e) ↦
      step_parsed-positive (trim_space parts.0) (trim_space parts.1) base
        (parse_int (trim_space parts.1)) step (parse_int-lt (trim_space parts.1))
        (ap (step_cut segment) (sym e) ∙ h)
]

-- Bounds that pass the check are numbers in order within the limits.
abbrev Bounded : Limits → ℤ × ℤ → Type 0
Bounded l x =
    (a : ℕ) × (b : ℕ) × (x.0 ≡ pos a) × (x.1 ≡ pos b) × (l.min ≤ a) × (a ≤ b) × (b ≤ l.max)

check_bounds-Bounded :
    (l : Limits) (a b : ℤ) (y : ℤ × ℤ) → check_bounds l (a, b) ≡ ok y → Bounded l y
unfolding check_bounds
check_bounds-Bounded l (pos a) (pos b) y h =
    (a, b, ground arith, ground arith, ground arith, ground arith, ground arith)
check_bounds-Bounded l (pos a) (negsuc b) y h = ground arith
check_bounds-Bounded l (negsuc a) b y h = ground arith

pub stride_of-IsStride :
    (l : Limits) (segment : Text) (x : Stride) → stride_of l segment ≡ ok x → IsStride l x
unfolding stride_of
stride_of-IsStride l segment x h = elim (Result-cases (step_of segment)) [
  | inl (e, p) ↦ cc
  | inr ((base, step), p) ↦
      let bounded = ap (stride_stepped l) (sym p) ∙ h in
      elim (Result-cases (bounds_of l base step)) [
        | inl (e, q) ↦ cc
        | inr (bounds, q) ↦
            let checked = ap (stride_bounded l step) (sym q) ∙ bounded in
            elim (Result-cases (check_bounds l bounds)) [
              | inl (e, r) ↦ cc
              | inr (y, r) ↦
                  let final = ap (stride_checked step) (sym r) ∙ checked in
                  let (s, es, ps, bs) = step_of-positive segment base step p in
                  let (a, b, ea, eb, f, o, t) = check_bounds-Bounded l bounds.0 bounds.1 y r in
                  record {
                    first = a;
                    last = b;
                    gap = s;
                    starts = ground (arith, final, ea);
                    ends = ground (arith, final, eb);
                    steps = ground (arith, final, es);
                    from = f;
                    ordered = o;
                    to = t;
                    positive = ps;
                    fits = bs;
                  }
            ]
      ]
]

-- A segment ends.
append-ends :
    (l : Limits) (segment : Text) (values : List ℕ)
    → l.max < 64
    → (r : Result (List ℕ)) × (append_cron_segment_values l segment values ≡ some r)
unfolding append_cron_segment_values
append-ends l segment values m = elim (Result-cases (stride_of l segment)) [
  | inl (e, p) ↦ (err e, ap (appended l values) p)
  | inr (x, p) ↦
      let v = stride_of-IsStride l segment x p in
      let (vs, q) =
        fill-ends l v.last v.gap v.first values (omega arith) (omega arith) v.positive v.fits in
      let same : fill 200 l x.end x.step x.start values
          ≡ fill 200 l (pos v.last) (pos v.gap) (pos v.first) values =
        λ i. fill 200 l (v.ends i) (v.steps i) (v.starts i) values in
      (ok vs, ap (appended l values) p ∙ ap filled (same ∙ q))
]

and_append-ends :
    (o : Option (Result (List ℕ))) (next : List ℕ → Option (Result (List ℕ))) (r : Result (List ℕ))
    → o ≡ some r
    → ((values : List ℕ) → (t : Result (List ℕ)) × (next values ≡ some t))
    → (t : Result (List ℕ)) × (and_append o next ≡ some t)
and_append-ends o next (err e) h all = (err e, ap (λ x. and_append x next) h)
and_append-ends o next (ok vs) h all = let (t, q) = all vs in (t, ap (λ x. and_append x next) h ∙ q)

append_segments-ends :
    (l : Limits) (segments : List Text) (values : List ℕ)
    → l.max < 64
    → (r : Result (List ℕ)) × (append_segments l segments values ≡ some r)
unfolding append_segments
append_segments-ends l [] values m = (ok values, refl)
append_segments-ends l (raw ∷ segments) values m = elim (Bool-cases (is_empty (trim_space raw))) [
  | inl e ↦ rw e (_, refl)
  | inr e ↦
      let (r, p) = append-ends l (trim_space raw) values m in
      rw e (
        and_append-ends (append_cron_segment_values l (trim_space raw) values)
          (λ vs. append_segments l segments vs) r p (λ vs. append_segments-ends l segments vs m))
]

matcher_of-ends :
    (o : Option (Result (List ℕ))) (r : Result (List ℕ))
    → o ≡ some r
    → (t : Result CronFieldMatcher) × (matcher_of o ≡ some t)
matcher_of-ends o (err e) h = (err e, ap matcher_of h)
matcher_of-ends o (ok []) h = (_, ap matcher_of h)
matcher_of-ends o (ok (v ∷ vs)) h = (_, ap matcher_of h)

-- Reading a field of a cron expression always ends.
pub parse_cron_field-ends :
    (l : Limits) (raw : Text)
    → l.max < 64
    → (r : Result CronFieldMatcher) × (parse_cron_field l raw ≡ some r)
unfolding parse_cron_field
parse_cron_field-ends l raw m =
    let field = trim_space raw in
    elim (Bool-cases (is_empty field)) [
      | inl e ↦ rw e (_, refl)
      | inr e ↦ elim (Bool-cases (eq_text field (codes "*"))) [
        | inl star ↦ rw (e, star) (_, refl)
        | inr other ↦
            let (r, p) = append_segments-ends l (split_on b',' field) [] m in
            rw (e, other) (matcher_of-ends (append_segments l (split_on b',' field) []) r p)
      ]
    ]

and_field-ends {ℓ} :
    {A : Type ℓ} (name raw : Text) (o : Option (Result CronFieldMatcher))
    (next : CronFieldMatcher → Option (Result A))
    → (r : Result CronFieldMatcher) × (o ≡ some r)
    → ((m : CronFieldMatcher) → (t : Result A) × (next m ≡ some t))
    → (t : Result A) × (and_field name raw o next ≡ some t)
and_field-ends name raw o next (err e, h) all = (_, ap (λ x. and_field name raw x next) h)
and_field-ends name raw o next (ok m, h) all =
    let (t, q) = all m in (t, ap (λ x. and_field name raw x next) h ∙ q)

parse_cron_expression-ends :
    (f : CronFields) → (r : Result CronExpression) × (parse_cron_expression f ≡ some r)
unfolding parse_cron_expression
parse_cron_expression-ends f =
    and_field-ends (codes "minute") f.minute _ _
      (parse_cron_field-ends minute_limits f.minute (omega arith))
      λ a.
        and_field-ends (codes "hour") f.hour _ _
          (parse_cron_field-ends hour_limits f.hour (omega arith))
          λ b.
            and_field-ends (codes "day-of-month") f.day_of_month _ _
              (parse_cron_field-ends day_of_month_limits f.day_of_month (omega arith))
              λ c.
                and_field-ends (codes "month") f.month _ _
                  (parse_cron_field-ends month_limits f.month (omega arith))
                  λ d.
                    and_field-ends (codes "day-of-week") f.day_of_week _ _
                      (parse_cron_field-ends day_of_week_limits f.day_of_week (omega arith))
                      λ e. (
                        ok (record {
                          minute = a;
                          hour = b;
                          day_of_month = c;
                          month = d;
                          day_of_week = e;
                        }),
                        refl,
                      )

-- The next run of a schedule, whatever its text, the answers of ParseDuration and the calendar: the
-- parser and the search end, with a time or an error.
pub next_run_for_schedule-ends :
    (parse_duration : Text → Result ℤ) (calendar : ℕ → LocalTime) (schedule : Text) (now : ℕ)
    → (r : Result ℕ) × (next_run_for_schedule parse_duration calendar schedule now ≡ some r)
unfolding next_run_for_schedule
next_run_for_schedule-ends parse_duration calendar schedule now =
    elim (Option-cases (after_prefix (codes "@every ") schedule)) [
      | inr (d, e) ↦ rw e (_, refl)
      | inl e ↦ rw e (by_fields (cron_fields (fields_of schedule)))
    ]
  where
    by_result :
        (o : Option (Result CronExpression)) (r : Result CronExpression)
        → o ≡ some r
        → (t : Result ℕ) × (run_of parse_duration calendar schedule now o ≡ some t)
    by_result o (err e) h = (_, ap (run_of parse_duration calendar schedule now) h)
    by_result o (ok m) h = (_, ap (run_of parse_duration calendar schedule now) h)

    by_fields :
        (o : Option CronFields)
        → (t : Result ℕ) × (cron_run parse_duration calendar schedule now o ≡ some t)
    by_fields none = (_, refl)
    by_fields (some f) =
        let (r, h) = parse_cron_expression-ends f in by_result (parse_cron_expression f) r h

-- What a segment without Sunday puts into its field, for a step below 2^63 - 63: the values from its
-- start in steps up to its end, and those that are there.
append-has :
    (l : Limits) (segment : Text) (x : Stride) (values : List ℕ)
    → l.max < 64
    → l.sunday ≡ false
    → stride_of l segment ≡ ok x
    → (v : IsStride l x) → v.gap + 64 ≤ two_63
    → (vs : List ℕ) × (append_cron_segment_values l segment values ≡ some (ok vs))
      × ((n : ℕ) → (has n vs ≡ true) ↔ ((has n values ≡ true) ⊎ Reached v.first v.gap v.last n))
unfolding append_cron_segment_values
append-has l segment x values m week accepted v small =
    let (vs, q) =
      fill-ends l v.last v.gap v.first values (omega arith) (omega arith) v.positive v.fits in
    let same : fill 200 l x.end x.step x.start values
        ≡ fill 200 l (pos v.last) (pos v.gap) (pos v.first) values =
      λ i. fill 200 l (v.ends i) (v.steps i) (v.starts i) values in
    (
      vs,
      ap (appended l values) accepted ∙ ap filled (same ∙ q),
      fill-has l v.last v.gap v.to week small (omega arith) 200 v.first values vs (omega arith)
          v.from q,
    )
