-- ===== src/HttpCache/Group.antt =====
-- pkg/http/cache/cache.go, requestGroup: one request computes the entry of a key, and those that
-- come meanwhile wait for it. A call of Do is its locked sections, in the order of the goroutines; `A`
-- is what the function returns.
pub mod Flights
use mathlib.Core.List.{append_assoc}
use nimburion.Base.{
  ℕ, ◌+◌, ◌<◌, ◌≤◌, ◌≡◌, refl, sym, ap, ◌∙◌, subst, Text, List, [], ◌∷◌, ◌++◌, Bool, true, false,
  Bool-cases, Option, none, some, ◌==◌, eq_text, eq_text_iff, is_none, if◌then◌else◌, not, lookup,
  insert, remove, lookup-insert, lookup-remove, arith,
}

-- A call is a pointer; its outcome is there once its leader has called wg.Done.
pub record RequestGroup {ℓ} (A : Type ℓ) : Type ℓ where
  pub m : List (Text × ℕ)
  pub outcome : ℕ → Option A
  pub next : ℕ

pub data Turn : Type 0 where
  waits leads : ℕ → Turn

module _ {ℓ} {A : Type ℓ} where
  abbrev pub new_request_group : RequestGroup A
  new_request_group = record { m = []; outcome = λ _. none; next = 0 }

  unfoldable pub in_flight : Text → RequestGroup A → Bool
  unfolding lookup
  in_flight key g = not (is_none (lookup key g.m))

  -- The first locked section of Do.
  unfoldable pub enter : Text → RequestGroup A → Turn × RequestGroup A
  unfolding lookup insert
  enter key g = elim (lookup key g.m) [
    | some call ↦ (waits call, g)
    | none ↦ (leads g.next, record g { m = insert key g.next g.m; next = g.next + 1 })
  ]

  -- call.entry, call.err = fn() and wg.Done
  unfoldable pub settle : ℕ → A → RequestGroup A → RequestGroup A
  settle call a g = record g {
    outcome = λ i. let others = g.outcome i in if i == call then some a else others;
  }

  -- call.wg.Wait, none while it blocks
  unfoldable pub wait : ℕ → RequestGroup A → Option A
  wait call g = g.outcome call

  -- The second locked section of the leader.
  unfoldable pub leave : Text → RequestGroup A → RequestGroup A
  unfolding remove
  leave key g = record g { m = remove key g.m }
