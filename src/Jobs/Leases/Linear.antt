-- ===== src/Jobs/Leases/Linear.antt =====
-- However calls of the in-process backend interleave, no delivery is lost or settled twice.
use nimburion.Base.{
  ℕ, ◌+◌, ◌<◌, sym, ◌≡◌, refl, ap, subst, ◌∙◌, Text, List, [], ◌∷◌, ◌++◌, true, false, Bool-cases,
  Option, none, some, Option-cases, ℤ, arith, inl, inr, trim_space, is_empty, lookup, insert,
  remove, HasUniqueKeys, insert-HasUniqueKeys, remove-HasUniqueKeys, total, total-insert,
  total-replace, total-remove,
}
use nimburion.Errors.{Err}
use nimburion.Jobs.{Lease}
use nimburion.Jobs.Leases.{
  LeaseState, RuntimeBackend, empty_backend, complete, stop_timer, fire, after_func, backend_closed,
  ensure_subscription, forget_subscription, begin_lease, finish_lease, pop_token, renew, expire,
  states, close,
}
use nimburion.Jobs.Leases.Owners.{
  System, new_system, is_of, held, completions, Picks, Move, subscribes, forgets, begins, finishes,
  pops, renews, fires, expires, completes, closes, Reaches, here, further, IsLinear, Picks-held,
  completions-complete, complete-leases,
}

held-append : (d : ℕ) (xs ys : List LeaseState) → held d (xs ++ ys) ≡ held d xs + held d ys
held-append d [] ys = omega arith
held-append d (x ∷ xs) ys = omega (arith, held-append d xs ys)

held-states : (d : ℕ) (m : List (Text × LeaseState)) → held d (states m) ≡ total (is_of d) m
held-states d [] = refl
held-states d ((k, s) ∷ m) = omega (arith, held-states d m)

-- Steps that touch neither the leases nor the results.
record KeepsOwners (b c : RuntimeBackend) : Type 0 where
  same_leases : c.leases ≡ b.leases
  same_results : c.results ≡ b.results

KeepsOwners-IsLinear :
    (x : System) (c : RuntimeBackend)
    → KeepsOwners x.backend c
    → IsLinear x
    → IsLinear (record x { backend = c })
KeepsOwners-IsLinear x c k v = record {
  unique = subst HasUniqueKeys (cc (k.same_leases)) v.unique;
  once = v.once;
  placed = λ d.
      ground
        (arith, v.placed d, ap (total (is_of d)) k.same_leases, ap (completions d) k.same_results);
}

ensure_subscription-KeepsOwners :
    (queue : Text) (b : RuntimeBackend) → KeepsOwners b (ensure_subscription queue b).1
unfolding ensure_subscription
ensure_subscription-KeepsOwners queue b = ground arith

forget_subscription-KeepsOwners :
    (queue : Text) (e : Err) (b : RuntimeBackend) → KeepsOwners b (forget_subscription queue e b).1
unfolding forget_subscription
forget_subscription-KeepsOwners queue e b = record { same_leases = refl; same_results = refl }

fire-KeepsOwners : (id : ℕ) (b : RuntimeBackend) → KeepsOwners b (fire id b)
unfolding fire
fire-KeepsOwners id b = ground arith

-- What is held is not completed.
held-completions :
    (x : System) (s : LeaseState)
    → IsLinear x
    → 0 < held s.delivery x.begun + held s.delivery x.popped
    → completions s.delivery x.backend.results ≡ 0
held-completions x s v h = omega (arith, v.once s.delivery, v.placed s.delivery)

-- A state that is held is let go, and its delivery completed.
complete-IsLinear :
    (x : System) (s : LeaseState) (result : Option Err) (c : RuntimeBackend)
    (begun popped : List LeaseState)
    → KeepsOwners x.backend c
    → ((d : ℕ) → held d x.begun + held d x.popped ≡ is_of d s + held d begun + held d popped)
    → IsLinear x
    → IsLinear (record x { backend = complete s.delivery result c; begun = begun; popped = popped })
complete-IsLinear x s result c begun popped k less v = record {
  unique = subst HasUniqueKeys (cc (complete-leases s.delivery result c, k.same_leases)) v.unique;
  once = v.once;
  placed = λ d.
      let l = complete-leases s.delivery result c ∙ k.same_leases in
      let open_delivery : completions s.delivery c.results ≡ 0 = ground (
        arith,
        k.same_results,
        held-completions x s v (omega (arith, less s.delivery, of_itself)),
      ) in
      omega (
        arith,
        less d,
        v.placed d,
        ap (total (is_of d)) l,
        ap (completions d) k.same_results,
        completions-complete d s.delivery result c open_delivery,
      );
}
  where
    of_itself : is_of s.delivery s ≡ 1
    of_itself = ground arith

stop_timer-KeepsOwners : (id : ℕ) (b : RuntimeBackend) → KeepsOwners b (stop_timer id b)
unfolding stop_timer
stop_timer-KeepsOwners id b = record { same_leases = refl; same_results = refl }

finish_lease-closed :
    (s : LeaseState) (b : RuntimeBackend)
    → b.closed ≡ true
    → (finish_lease s b).1 ≡ complete s.delivery (some backend_closed) (stop_timer s.timer b)
unfolding finish_lease
finish_lease-closed s b h = ground arith

finish_lease-opened :
    (s : LeaseState) (b : RuntimeBackend)
    → b.closed ≡ false
    → (finish_lease s b).1 ≡ record b { leases = insert s.lease.token s b.leases }
unfolding finish_lease
finish_lease-opened s b h = ground arith

finish_lease-IsLinear :
    (x : System) (s : LeaseState) (rest : List LeaseState)
    → Picks s x.begun rest
    → lookup s.lease.token x.backend.leases ≡ none
    → IsLinear x
    → IsLinear (record x { backend = (finish_lease s x.backend).1; begun = rest })
finish_lease-IsLinear x s rest p fresh v = elim (Bool-cases x.backend.closed) [
  | inl shut ↦
      subst (λ c. IsLinear (record x { backend = c; begun = rest }))
        (sym (finish_lease-closed s x.backend shut))
        (complete-IsLinear x s (some backend_closed) (stop_timer s.timer x.backend) rest x.popped
          (stop_timer-KeepsOwners s.timer x.backend) (λ d. omega (arith, Picks-held d p)) v)
  | inr opened ↦
      subst (λ c. IsLinear (record x { backend = c; begun = rest }))
        (sym (finish_lease-opened s x.backend opened))
        (record {
          unique = insert-HasUniqueKeys s.lease.token s x.backend.leases v.unique;
          once = v.once;
          placed = λ d. omega (
            arith,
            v.placed d,
            Picks-held d p,
            total-insert (is_of d) s.lease.token s x.backend.leases fresh,
          );
        })
]

pop-IsLinear :
    (x : System) (token : Text) (s : LeaseState) (c : RuntimeBackend)
    → lookup token x.backend.leases ≡ some s
    → c.leases ≡ remove token x.backend.leases
    → c.results ≡ x.backend.results
    → IsLinear x
    → IsLinear (record x { backend = c; popped = s ∷ x.popped })
pop-IsLinear x token s c found l r v = record {
  unique = rw l (remove-HasUniqueKeys token x.backend.leases v.unique);
  once = v.once;
  placed = λ d. omega (
    arith,
    v.placed d,
    ap (total (is_of d)) l,
    ap (completions d) r,
    total-remove (is_of d) token s x.backend.leases v.unique found,
  );
}

renewed-IsLinear :
    (x : System) (token : Text) (s s' : LeaseState) (c : RuntimeBackend)
    → lookup token x.backend.leases ≡ some s
    → s'.delivery ≡ s.delivery
    → c.leases ≡ insert token s' x.backend.leases
    → c.results ≡ x.backend.results
    → IsLinear x
    → IsLinear (record x { backend = c })
renewed-IsLinear x token s s' c found e l r v = record {
  unique = rw l (insert-HasUniqueKeys token s' x.backend.leases v.unique);
  once = v.once;
  placed = λ d. omega (
    arith,
    v.placed d,
    ap (total (is_of d)) l,
    ap (completions d) r,
    total-replace (is_of d) token s' s x.backend.leases found (rw e refl),
  );
}

renew-IsLinear :
    (x : System) (lease : Option Lease) (lease_for now : ℤ)
    → IsLinear x
    → IsLinear (record x { backend = (renew lease lease_for now x.backend).1 })
unfolding renew
renew-IsLinear x none lease_for now v = v
renew-IsLinear x (some l) lease_for now v = elim (Bool-cases (is_empty (trim_space l.token))) [
  | inl e ↦ rw e v
  | inr e ↦ rw e (elim (Option-cases (lookup (trim_space l.token) x.backend.leases)) [
    | inl missing ↦ rw missing v
    | inr (s, found) ↦
        rw found (renewed-IsLinear x (trim_space l.token) s _ _ found refl refl refl v)
  ])
]

Move-IsLinear : {x y : System} → Move x y → IsLinear x → IsLinear y
unfolding pop_token stop_timer expire begin_lease after_func close
Move-IsLinear (subscribes x queue) v =
    KeepsOwners-IsLinear x _ (ensure_subscription-KeepsOwners queue x.backend) v
Move-IsLinear (forgets x queue e) v =
    KeepsOwners-IsLinear x _ (forget_subscription-KeepsOwners queue e x.backend) v
Move-IsLinear (fires x id) v = KeepsOwners-IsLinear x _ (fire-KeepsOwners id x.backend) v
Move-IsLinear (begins x queue lease_for now token d job new) v = record {
  unique = v.unique;
  once = λ e. ground (arith, v.once e);
  placed = λ e. omega (arith, v.placed e);
}
Move-IsLinear (finishes x s rest p fresh) v = finish_lease-IsLinear x s rest p fresh v
Move-IsLinear (pops x token s found) v =
    pop-IsLinear x token s _ found (ground (arith, found)) (ground (arith, found)) v
Move-IsLinear (expires x token s found) v =
    pop-IsLinear x token s _ found (ground (arith, found)) (ground (arith, found)) v
Move-IsLinear (renews x lease lease_for now) v = renew-IsLinear x lease lease_for now v
Move-IsLinear (completes x s rest result p) v =
    complete-IsLinear x s result x.backend x.begun rest
      (record { same_leases = refl; same_results = refl }) (λ d. omega (arith, Picks-held d p)) v
Move-IsLinear (closes x opened) v = rw opened (record {
  unique = tt;
  once = v.once;
  placed = λ d. omega (
    arith,
    v.placed d,
    held-append d (states x.backend.leases) x.popped,
    held-states d x.backend.leases,
  );
})

reached-IsLinear : {x y : System} → Reaches x y → IsLinear x → IsLinear y
reached-IsLinear (here x) v = v
reached-IsLinear (further r m) v = Move-IsLinear m (reached-IsLinear r v)

new_system-IsLinear : IsLinear new_system
unfolding empty_backend
new_system-IsLinear = record { unique = tt; once = λ d. omega arith; placed = λ d. omega arith }

-- However the calls of the in-process backend, its timers and its runtime interleave, every delivery
-- that a Reserve received is in exactly one place: with that Reserve, in the one lease that stands
-- for it, with the call or timer that took the lease away, or completed, once.
pub Reaches-IsLinear : {x : System} → Reaches new_system x → IsLinear x
Reaches-IsLinear r = reached-IsLinear r new_system-IsLinear
