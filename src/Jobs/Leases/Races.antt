-- ===== src/Jobs/Leases/Races.antt =====
-- What a timer that has fired does to a lease that is renewed before its callback runs.
use nimburion.Base.{
  ℕ, ◌≡◌, refl, ap, ◌∙◌, Text, ◌∷◌, false, none, some, ℤ, arith, is_empty, trim_space, lookup,
  lookup-insert, lookup-remove, eq_text_refl,
}
use nimburion.Jobs.{Lease}
use nimburion.Jobs.Leases.{
  LeaseState, RuntimeBackend, is_completed, timer_token, fire, stop_timer, after_func, renew,
  renewed, extended, lease_expired, expire_lease, not_found, ack,
}

-- The lease of a token is live, and its delivery is `d`.
record Holds (token : Text) (d : ℕ) (b : RuntimeBackend) : Type 0 where
  state : LeaseState
  found : lookup token b.leases ≡ some state
  same : state.delivery ≡ d

fire-leases : (id : ℕ) (b : RuntimeBackend) → (fire id b).leases ≡ b.leases
unfolding fire
fire-leases id b = ground arith

fire-results : (id : ℕ) (b : RuntimeBackend) → (fire id b).results ≡ b.results
unfolding fire
fire-results id b = ground arith

renewed-Holds :
    (token : Text) (s : LeaseState) (lease_for now : ℤ) (b : RuntimeBackend)
    → Holds token s.delivery (renewed token lease_for now (some s) b).1
unfolding stop_timer after_func
renewed-Holds token s lease_for now b = record {
  state = extended lease_for now b.next_timer s;
  found =
      lookup-insert token token (extended lease_for now b.next_timer s) b.leases
      ∙ ground (arith, eq_text_refl token);
  same = refl;
}

expire_lease-ends :
    (token : Text) (d : ℕ) (b : RuntimeBackend)
    → Holds token d b
    → is_completed d b.results ≡ false
    → ((expire_lease token b).results ≡ (d, some lease_expired) ∷ b.results)
      × (lookup token (expire_lease token b).leases ≡ none)
unfolding expire_lease
expire_lease-ends token d b h o =
    ground (arith, h.found, h.same, o, lookup-remove token token b.leases, eq_text_refl token)

renewed-results :
    (token : Text) (s : LeaseState) (lease_for now : ℤ) (b : RuntimeBackend)
    → ((renewed token lease_for now (some s) b).0 ≡ none)
      × ((renewed token lease_for now (some s) b).1.results ≡ b.results)
unfolding stop_timer after_func
renewed-results token s lease_for now b = (refl, refl)

renew-renewed :
    (l : Lease) (s : LeaseState) (lease_for now : ℤ) (b : RuntimeBackend)
    → is_empty (trim_space l.token) ≡ false
    → lookup (trim_space l.token) b.leases ≡ some s
    → renew (some l) lease_for now b ≡ renewed (trim_space l.token) lease_for now (some s) b
unfolding renew
renew-renewed l s lease_for now b dense found =
    rw dense (ap (λ o. renewed (trim_space l.token) lease_for now o b) found)

fire-fired :
    (id : ℕ) (token : Text) (b : RuntimeBackend)
    → timer_token id b.timers ≡ some token
    → (fire id b).fired ≡ token ∷ b.fired
unfolding fire
fire-fired id token b h = ground (arith, h)

ack-missing :
    (l : Lease) (b : RuntimeBackend)
    → is_empty (trim_space l.token) ≡ false
    → lookup (trim_space l.token) b.leases ≡ none
    → ack (some l) b ≡ (some not_found, b)
unfolding ack
ack-missing l b dense missing = ground (arith, dense, missing)

-- Where the timer of a lease has fired and a renewal is the first to take the mutex, the renewal
-- succeeds, but the callback of the old timer still ends the lease: an open delivery is completed
-- as expired, and the holder that renewed it can no longer acknowledge the job.
pub renew_then_expire :
    (b : RuntimeBackend) (l : Lease) (s : LeaseState) (lease_for now : ℤ)
    → is_empty (trim_space l.token) ≡ false
    → lookup (trim_space l.token) b.leases ≡ some s
    → timer_token s.timer b.timers ≡ some (trim_space l.token)
    → is_completed s.delivery b.results ≡ false
    → let r = renew (some l) lease_for now (fire s.timer b) in
      let e = expire_lease (trim_space l.token) r.1 in
      ((fire s.timer b).fired ≡ trim_space l.token ∷ b.fired)
      × (r.0 ≡ none)
      × (e.results ≡ (s.delivery, some lease_expired) ∷ b.results)
      × (ack (some l) e ≡ (some not_found, e))
renew_then_expire b l s lease_for now dense found timer open_delivery =
    let token = trim_space l.token in
    let f = fire s.timer b in
    let r = renewed token lease_for now (some s) f in
    let same =
      renew-renewed l s lease_for now f dense (ap (lookup token) (fire-leases s.timer b) ∙ found) in
    let kept = renewed-results token s lease_for now f in
    let results = kept.1 ∙ fire-results s.timer b in
    let ended =
      expire_lease-ends token s.delivery r.1 (renewed-Holds token s lease_for now f)
        (ap (is_completed s.delivery) results ∙ open_delivery) in
    rw same (
      fire-fired s.timer token b timer,
      kept.0,
      ended.0 ∙ ap (◌∷◌ (s.delivery, some lease_expired)) results,
      ack-missing l (expire_lease token r.1) dense ended.1,
    )
