-- ===== src/Saga/Runs.antt =====
-- The three ways a run can end, with the steps that ran and were compensated.
use nimburion.Base.{
  List, [], ◌∷◌, ◌++◌, true, Option, none, some, ◌≡◌, refl, ◌⊎◌, inl, inr, arith, Option-cases, sym,
  subst, ap, ◌∙◌,
}
use mathlib.Core.List.{append_assoc, append-nil}
use nimburion.Errors.{Err, joined}
use nimburion.Saga.{
  running, completed, compensating, compensated, failed, Step, Progress, Call, executes,
  compensates, Environment, Runner, emit, compensate_all, recover, run_steps, run, started,
}
use nimburion.Saga.Compensation.{
  Answered, effects, executed, undid, push, names, compensable, effects-emit,
  compensate_all-Compensated,
}

abbrev pub stack : List Step → List Step → List Step
stack = push (λ s. s)

abbrev pub End : Type 0
End = (Option Err × Progress) × List Call

-- Every step ran without an error, in order, and none was compensated.
pub record Finished (env : Environment) (steps : List Step) (p : Progress) (base : List Answered)
    (t : End) : Type 0 where
  pub no_error : t.0.0 ≡ none
  pub status : t.0.1.status ≡ completed
  pub completed_names : t.0.1.completed_steps ≡ p.completed_steps ++ names steps
  pub compensated_names : t.0.1.compensated_steps ≡ p.compensated_steps
  pub trace : effects env t.1 ≡ push executed steps base

-- A step failed behind those that completed; `done` are all completed steps, the last one first.
-- Every one that has a compensation was compensated without an error, in that order.
pub record RolledBack (env : Environment) (done : List Step) (e : Err) (p : Progress)
    (base : List Answered) (t : End) : Type 0 where
  pub error : t.0.0 ≡ some e
  pub status : t.0.1.status ≡ compensated
  pub completed_names : t.0.1.completed_steps ≡ p.completed_steps
  pub compensated_names : t.0.1.compensated_steps ≡ p.compensated_steps ++ names (compensable done)
  pub trace : effects env t.1 ≡ push undid (compensable done) base

-- A compensation failed: those before it were made without an error, those behind it were not.
pub record Broken (env : Environment) (done : List Step) (e : Err) (p : Progress)
    (base : List Answered) (t : End) : Type 0 where
  pub cause : Err
  pub before : List Step
  pub culprit : Step
  pub after : List Step
  pub split : compensable done ≡ before ++ culprit ∷ after
  pub error : t.0.0 ≡ some (joined e cause)
  pub status : t.0.1.status ≡ compensating
  pub completed_names : t.0.1.completed_steps ≡ p.completed_steps
  pub compensated_names : t.0.1.compensated_steps ≡ p.compensated_steps ++ names before
  pub trace : effects env t.1 ≡ (compensates culprit, some cause) ∷ push undid before base

module _ (env : Environment) (r : Runner) where
  recovered :
      (s : Step) (e : Err) (done : List Step) (p : Progress) (calls : List Call)
      → RolledBack env done e p (effects env calls) (recover env r s e done p calls)
        ⊎ Broken env done e p (effects env calls) (recover env r s e done p calls)
  unfolding recover
  recovered s e done p calls =
      let told = (emit env r s.name failed (some e) calls).1 in
      let asked = (emit env r s.name compensating (some e) told).1 in
      let p' : Progress = record p { status = compensating } in
      let t = compensate_all env r done p' asked in
      let first = effects-emit env r s.name failed (some e) calls in
      let second = effects-emit env r s.name compensating (some e) told in
      elim (compensate_all-Compensated env r done p' asked) [
        | inl (ok, u) ↦
            let third = effects-emit env r s.name compensated (some e) t.1 in
            inl (record {
              error = ground arith;
              status = ground arith;
              completed_names = ground (arith, u.kept);
              compensated_names = ground (arith, u.names_of);
              trace = ground (arith, u.trace, first, second, third);
            })
        | inr (f, bad, u) ↦ inr (record {
          cause = f;
          before = u.before;
          culprit = u.culprit;
          after = u.after;
          split = u.split;
          error = ground arith;
          status = ground (arith, u.status);
          completed_names = ground (arith, u.kept);
          compensated_names = ground (arith, u.names_of);
          trace = ground (arith, u.trace, first, second);
        })
      ]

-- How a run over `steps` ends, where `done` completed before, the last one first.
pub record Failed (env : Environment) (steps done : List Step) (p : Progress) (base : List Answered)
    (t : End) : Type 0 where
  pub good : List Step
  pub bad : Step
  pub rest : List Step
  pub error : Err
  pub split : steps ≡ good ++ bad ∷ rest
  pub undo :
      let p' = record p { completed_steps = p.completed_steps ++ names good } in
      let made = (executes bad, some error) ∷ push executed good base in
      RolledBack env (stack good done) error p' made t
      ⊎ Broken env (stack good done) error p' made t

module _ (env : Environment) (r : Runner) where
  abbrev Ends : List Step → List Step → Progress → List Answered → End → Type 0
  Ends steps done p base t = Finished env steps p base t ⊎ Failed env steps done p base t

  abbrev completed_one : Step → Progress → Progress
  completed_one s p = record p { completed_steps = p.completed_steps ++ s.name ∷ [] }

  next-Ends :
      (s : Step) (steps done : List Step) (p : Progress) (base : List Answered) (t : End)
      → Ends steps (s ∷ done) (completed_one s p) (executed s ∷ base) t
      → Ends (s ∷ steps) done p base t
  next-Ends s steps done p base t (inl u) = inl (record {
    no_error = u.no_error;
    status = u.status;
    completed_names =
        u.completed_names ∙ append_assoc p.completed_steps (s.name ∷ []) (names steps);
    compensated_names = u.compensated_names;
    trace = u.trace;
  })
  next-Ends s steps done p base t (inr u) =
      let e : (p.completed_steps ++ s.name ∷ []) ++ names u.good
          ≡ p.completed_steps ++ names (s ∷ u.good) =
        append_assoc p.completed_steps (s.name ∷ []) (names u.good) in
      inr (record {
        good = s ∷ u.good;
        bad = u.bad;
        rest = u.rest;
        error = u.error;
        split = ap (◌∷◌ s) u.split;
        undo = rw e at u.undo;
      })

  stop-Ends :
      (s : Step) (steps done : List Step) (e : Err) (p : Progress) (calls : List Call)
      → env.answers (executes s ∷ calls) ≡ some e
      → Ends (s ∷ steps) done p (effects env calls) (recover env r s e done p (executes s ∷ calls))
  stop-Ends s steps done e p calls bad = inr (record {
    good = [];
    bad = s;
    rest = steps;
    error = e;
    split = refl;
    undo =
        rw (append-nil p.completed_steps)
          (rw bad at (recovered env r s e done p (executes s ∷ calls)));
  })

  run_steps-Ends :
      (steps done : List Step) (p : Progress) (calls : List Call)
      → Ends steps done p (effects env calls) (run_steps env r steps done p calls)
  unfolding run_steps
  run_steps-Ends [] done p calls = inl (record {
    no_error = refl;
    status = refl;
    completed_names = sym (append-nil p.completed_steps);
    compensated_names = refl;
    trace = effects-emit env r [] completed none calls;
  })
  run_steps-Ends (s ∷ steps) done p calls =
      let made = executes s ∷ calls in
      let told = (emit env r s.name running none made).1 in
      let next = run_steps-Ends steps (s ∷ done) (completed_one s p) told in
      elim (Option-cases (env.answers made)) [
        | inl fine ↦
            let same : effects env told ≡ executed s ∷ effects env calls =
              effects-emit env r s.name running none made
              ∙ ap (λ (a : Option Err). (executes s, a) ∷ effects env calls) fine in
            let e : run_steps env r (s ∷ steps) done p calls
                ≡ run_steps env r steps (s ∷ done) (completed_one s p) told =
              ground arith in
            subst (Ends (s ∷ steps) done p (effects env calls)) (sym e)
              (next-Ends s steps done p (effects env calls) _ (rw same at next))
        | inr (f, bad) ↦
            let e : run_steps env r (s ∷ steps) done p calls ≡ recover env r s f done p made =
              ground arith in
            subst (Ends (s ∷ steps) done p (effects env calls)) (sym e)
              (stop-Ends s steps done f p calls bad)
      ]

  -- However the steps, the observer and the clock behave, a run ends in one of three ways.
  -- Either every step ran, in order, and none answered with an error. Or the steps before one
  -- succeeded and that one answered with an error: no later step runs, and the steps before it
  -- that have a compensation are compensated in reverse order, all of them without an error, with
  -- the status `compensated` and the step's error, or up to the first whose compensation answers
  -- with an error, with the status `compensating` and both errors joined. The result lists what
  -- completed and what was compensated.
  pub run-ends :
      Finished env r.definition.steps started [] (run env r true [])
      ⊎ Failed env r.definition.steps [] started [] (run env r true [])
  unfolding run
  run-ends =
      rw (effects-emit env r [] running none []) at
        (run_steps-Ends r.definition.steps [] started (emit env r [] running none []).1)
