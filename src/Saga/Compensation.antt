-- ===== src/Saga/Compensation.antt =====
-- Which steps run and which are compensated, in which order, on every way a run can end.
use nimburion.Base.{
  Text, List, [], ◌∷◌, ◌++◌, map, true, false, Option, none, some, ◌≡◌, refl, ◌⊎◌, inl, inr, arith,
  Bool-cases, Option-cases, sym, subst, ap, ◌∙◌, if◌then◌else◌,
}
use mathlib.Core.List.{append_assoc, append-nil}
use nimburion.Errors.{Err}
use nimburion.Saga.{
  Status, failed, Step, Progress, Call, executes, compensates, observes, Environment, Runner, emit,
  compensate_all,
}

-- A call of a step's function, with what it answered.
abbrev pub Answered : Type 0
Answered = Call × Option Err

-- The calls of steps, with their answers and without the observer's.
abbrev pub effects : Environment → List Call → List Answered
effects env [] = []
effects env (executes s ∷ calls) =
    (executes s, env.answers (executes s ∷ calls)) ∷ effects env calls
effects env (compensates s ∷ calls) =
    (compensates s, env.answers (compensates s ∷ calls)) ∷ effects env calls
effects env (observes e ∷ calls) = effects env calls

-- A step that was executed, or compensated, without an error.
abbrev pub executed : Step → Answered
executed s = (executes s, none)

abbrev pub undid : Step → Answered
undid s = (compensates s, none)

-- `c x` for each `x` in turn, on top of the calls made before.
abbrev pub push {ℓ κ} : {A : Type ℓ} {B : Type κ} → (A → B) → List A → List B → List B
push c [] calls = calls
push c (x ∷ xs) calls = push c xs (c x ∷ calls)

abbrev pub names : List Step → List Text
names = map (λ s. s.name)

-- The steps that have a compensation.
abbrev pub compensable : List Step → List Step
compensable [] = []
compensable (s ∷ steps) = if s.has_compensate then s ∷ compensable steps else compensable steps

module _ (env : Environment) (r : Runner) where
  pub effects-emit :
      (t : Text) (st : Status) (e : Option Err) (calls : List Call)
      → effects env (emit env r t st e calls).1 ≡ effects env calls
  unfolding emit
  effects-emit t st e calls = ground arith

  -- The compensations of `done`, the first of the list first: all of them, or up to one that
  -- failed, which is not counted.
  pub record Undone (done : List Step) (p p' : Progress) (calls calls' : List Call) : Type 0 where
    pub trace : effects env calls' ≡ push undid (compensable done) (effects env calls)
    pub names_of : p'.compensated_steps ≡ p.compensated_steps ++ names (compensable done)
    pub kept : p'.completed_steps ≡ p.completed_steps
    pub status : p'.status ≡ p.status

  pub record Stuck (done : List Step) (f : Err) (p p' : Progress) (calls calls' : List Call)
      : Type 0 where
    pub before : List Step
    pub culprit : Step
    pub after : List Step
    pub split : compensable done ≡ before ++ culprit ∷ after
    pub trace :
        effects env calls' ≡ (compensates culprit, some f) ∷ push undid before (effects env calls)
    pub names_of : p'.compensated_steps ≡ p.compensated_steps ++ names before
    pub kept : p'.completed_steps ≡ p.completed_steps
    pub status : p'.status ≡ p.status

  abbrev pub Compensated :
      List Step → Progress → List Call → (Option Err × Progress) × List Call → Type 0
  Compensated done p calls t =
      ((t.0.0 ≡ none) × Undone done p t.0.1 calls t.1)
      ⊎ ((f : Err) × (t.0.0 ≡ some f) × Stuck done f p t.0.1 calls t.1)

  skip-Compensated :
      (s : Step) (rest : List Step) (p : Progress) (calls : List Call)
      (t : (Option Err × Progress) × List Call)
      → s.has_compensate ≡ false
      → Compensated rest p calls t
      → Compensated (s ∷ rest) p calls t
  skip-Compensated s rest p calls t h (inl (e, u)) = inl (e, ground arith)
  skip-Compensated s rest p calls t h (inr (f, e, u)) = inr (
    f,
    e,
    record {
      before = u.before;
      culprit = u.culprit;
      after = u.after;
      split = ground arith;
      trace = u.trace;
      names_of = u.names_of;
      kept = u.kept;
      status = u.status;
    },
  )

  abbrev undone : Step → Progress → Progress
  undone s p = record p { compensated_steps = p.compensated_steps ++ s.name ∷ [] }

  next-Compensated :
      (s : Step) (rest : List Step) (p : Progress) (calls : List Call)
      (t : (Option Err × Progress) × List Call)
      → s.has_compensate ≡ true
      → env.answers (compensates s ∷ calls) ≡ none
      → Compensated rest (undone s p) (compensates s ∷ calls) t
      → Compensated (s ∷ rest) p calls t
  next-Compensated s rest p calls t h fine (inl (e, u)) = inl (
    e,
    record {
      trace = ground arith;
      names_of =
          ground (arith, append_assoc p.compensated_steps (s.name ∷ []) (names (compensable rest)));
      kept = u.kept;
      status = u.status;
    },
  )
  next-Compensated s rest p calls t h fine (inr (f, e, u)) = inr (
    f,
    e,
    record {
      before = s ∷ u.before;
      culprit = u.culprit;
      after = u.after;
      split = ground arith;
      trace = ground (arith, u.trace, fine);
      names_of = ground (arith, append_assoc p.compensated_steps (s.name ∷ []) (names u.before));
      kept = u.kept;
      status = u.status;
    },
  )

  stop-Compensated :
      (s : Step) (rest : List Step) (p : Progress) (calls : List Call) (f : Err)
      → s.has_compensate ≡ true
      → env.answers (compensates s ∷ calls) ≡ some f
      → Compensated
          (s ∷ rest)
          p
          calls
          ((some f, p), (emit env r s.name failed (some f) (compensates s ∷ calls)).1)
  stop-Compensated s rest p calls f h bad = inr (
    f,
    refl,
    record {
      before = [];
      culprit = s;
      after = compensable rest;
      split = ground arith;
      trace =
          effects-emit s.name failed (some f) (compensates s ∷ calls)
          ∙ ap (λ (a : Option Err). (compensates s, a) ∷ effects env calls) bad;
      names_of = sym (append-nil p.compensated_steps);
      kept = refl;
      status = refl;
    },
  )

  pub compensate_all-Compensated :
      (done : List Step) (p : Progress) (calls : List Call)
      → Compensated done p calls (compensate_all env r done p calls)
  unfolding compensate_all
  compensate_all-Compensated [] p calls = inl (
    refl,
    record {
      trace = refl;
      names_of = sym (append-nil p.compensated_steps);
      kept = refl;
      status = refl;
    },
  )
  compensate_all-Compensated (s ∷ rest) p calls =
      let skip = compensate_all-Compensated rest p calls in
      let next = compensate_all-Compensated rest (undone s p) (compensates s ∷ calls) in
      elim (Bool-cases s.has_compensate) [
        | inl on ↦ elim (Option-cases (env.answers (compensates s ∷ calls))) [
          | inl fine ↦
              let e : compensate_all env r (s ∷ rest) p calls
                  ≡ compensate_all env r rest (undone s p) (compensates s ∷ calls) =
                ground arith in
              subst (Compensated (s ∷ rest) p calls) (sym e)
                (next-Compensated s rest p calls _ on fine next)
          | inr (f, bad) ↦
              let e : compensate_all env r (s ∷ rest) p calls
                  ≡ ((some f, p), (emit env r s.name failed (some f) (compensates s ∷ calls)).1) =
                ground arith in
              subst (Compensated (s ∷ rest) p calls) (sym e)
                (stop-Compensated s rest p calls f on bad)
        ]
        | inr off ↦
            let e : compensate_all env r (s ∷ rest) p calls ≡ compensate_all env r rest p calls =
              ground arith in
            subst (Compensated (s ∷ rest) p calls) (sym e)
              (skip-Compensated s rest p calls _ off skip)
      ]
