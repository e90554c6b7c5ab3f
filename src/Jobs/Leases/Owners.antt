-- ===== src/Jobs/Leases/Owners.antt =====
-- Who holds a delivery of the in-process backend: a Reserve on its way, a lease, a call that took
-- the lease away, or nobody any more, since it was completed.
use nimburion.Base.{
  ℕ, ◌+◌, ◌≤◌, ◌≡◌, refl, Text, List, [], ◌∷◌, ◌++◌, false, Option, none, some, ℤ, arith, ◌==◌,
  if◌then◌else◌, lookup, HasUniqueKeys, total,
}
use nimburion.Errors.{Err}
use nimburion.Jobs.{Job, Lease}
use nimburion.Jobs.Leases.{
  LeaseState, RuntimeBackend, empty_backend, is_completed, complete, fire, ensure_subscription,
  forget_subscription, begin_lease, finish_lease, pop_token, renew, expire, states, close,
}

-- The backend with the states that goroutines hold between its locked sections: those of Reserve
-- before its mutex, and those whose lease was taken away and whose delivery is still open.
pub record System : Type 0 where
  pub backend : RuntimeBackend
  pub begun : List LeaseState
  pub popped : List LeaseState
  -- the deliveries that Reserve ever received
  pub received : List ℕ

abbrev pub new_system : System
new_system = record { backend = empty_backend; begun = []; popped = []; received = [] }

abbrev pub is_of : ℕ → LeaseState → ℕ
is_of d s = if s.delivery == d then 1 else 0

abbrev pub held : ℕ → List LeaseState → ℕ
held d [] = 0
held d (s ∷ ss) = is_of d s + held d ss

abbrev pub counted : ℕ → List ℕ → ℕ
counted d [] = 0
counted d (e ∷ ds) = (if e == d then 1 else 0) + counted d ds

abbrev pub completions : ℕ → List (ℕ × Option Err) → ℕ
completions d [] = 0
completions d (r ∷ rs) = (if r.0 == d then 1 else 0) + completions d rs

-- One state of a list, with the others.
pub data Picks : LeaseState → List LeaseState → List LeaseState → Type 0 where
  head : (s : LeaseState) (ss : List LeaseState) → Picks s (s ∷ ss) ss
  tail :
      {s : LeaseState} {ss rest : List LeaseState} (t : LeaseState)
      → Picks s ss rest
      → Picks s (t ∷ ss) (t ∷ rest)

-- What the goroutines of the program may do next. Reserve receives a delivery that nobody has
-- received and that has a job, as each one does that a runtime of the repository hands over, and a
-- token is new when its lease is recorded.
pub data Move : System → System → Type 0 where
  subscribes :
      (x : System) (queue : Text)
      → Move x (record x { backend = (ensure_subscription queue x.backend).1 })
  forgets :
      (x : System) (queue : Text) (e : Err)
      → Move x (record x { backend = (forget_subscription queue e x.backend).1 })
  begins :
      (x : System) (queue : Text) (lease_for now : ℤ) (token : Text) (d : ℕ) (job : Job)
      → counted d x.received ≡ 0
      → Move x (record x {
        backend = (begin_lease queue lease_for now token d job x.backend).1;
        begun = (begin_lease queue lease_for now token d job x.backend).0 ∷ x.begun;
        received = d ∷ x.received;
      })
  finishes :
      (x : System) (s : LeaseState) (rest : List LeaseState)
      → Picks s x.begun rest
      → lookup s.lease.token x.backend.leases ≡ none
      → Move x (record x { backend = (finish_lease s x.backend).1; begun = rest })
  pops :
      (x : System) (token : Text) (s : LeaseState)
      → lookup token x.backend.leases ≡ some s
      → Move x (record x { backend = (pop_token token x.backend).1; popped = s ∷ x.popped })
  renews :
      (x : System) (lease : Option Lease) (lease_for now : ℤ)
      → Move x (record x { backend = (renew lease lease_for now x.backend).1 })
  fires : (x : System) (id : ℕ) → Move x (record x { backend = fire id x.backend })
  expires :
      (x : System) (token : Text) (s : LeaseState)
      → lookup token x.backend.leases ≡ some s
      → Move x (record x { backend = (expire token x.backend).1; popped = s ∷ x.popped })
  completes :
      (x : System) (s : LeaseState) (rest : List LeaseState) (result : Option Err)
      → Picks s x.popped rest
      → Move x (record x { backend = complete s.delivery result x.backend; popped = rest })
  closes :
      (x : System)
      → x.backend.closed ≡ false
      → Move x
          (record x { backend = (close x.backend).1; popped = states x.backend.leases ++ x.popped })

pub data Reaches : System → System → Type 0 where
  here : (x : System) → Reaches x x
  further : {x y z : System} → Reaches x y → Move y z → Reaches x z

-- Every delivery that was received is in one place, once.
pub record IsLinear (x : System) : Type 0 where
  pub unique : HasUniqueKeys x.backend.leases
  pub once : (d : ℕ) → counted d x.received ≤ 1
  pub placed :
      (d : ℕ)
      → held d x.begun
          + total (is_of d) x.backend.leases
          + held d x.popped
          + completions d x.backend.results
        ≡ counted d x.received

pub Picks-held :
    (d : ℕ) {s : LeaseState} {ss rest : List LeaseState}
    → Picks s ss rest
    → held d ss ≡ is_of d s + held d rest
Picks-held d (head s ss) = refl
Picks-held d (tail {s} t p) = omega (arith, Picks-held d p)

-- A delivery that is still held is completed with this result.
pub completions-complete :
    (d e : ℕ) (result : Option Err) (b : RuntimeBackend)
    → completions e b.results ≡ 0
    → completions d (complete e result b).results
      ≡ (if e == d then 1 else 0) + completions d b.results
unfolding complete
completions-complete d e result b h = ground (arith, open_results e b.results h)
  where
    open_results :
        (e : ℕ) (rs : List (ℕ × Option Err)) → completions e rs ≡ 0 → is_completed e rs ≡ false
    open_results e [] h = refl
    open_results e (r ∷ rs) h = ground (arith, open_results e rs)

pub complete-leases :
    (d : ℕ) (result : Option Err) (b : RuntimeBackend) → (complete d result b).leases ≡ b.leases
unfolding complete
complete-leases d result b = ground arith
