-- ===== src/Jobs/Leases/Examples.antt =====
-- A lease of the in-process backend that is taken and acknowledged, and one that is renewed late.
use nimburion.Base.{
  ◌≡◌, refl, codes, [], ◌∷◌, false, none, some, pos, ◌+ℤ◌, trim_space, trim_left, lookup, insert,
}
use nimburion.Jobs.{Job, Lease}
use nimburion.Jobs.Leases.{
  LeaseState, RuntimeBackend, empty_backend, begin_lease, lease_of, after_func, finish_lease,
  pop_token, complete, fire, renew, expire_lease, ack, lease_expired, not_found, timer_token,
}
use nimburion.Jobs.Leases.Owners.{
  System, new_system, Reaches, here, further, begins, finishes, pops, completes, head, IsLinear,
}
use nimburion.Jobs.Leases.Linear.{Reaches-IsLinear}
use nimburion.Jobs.Leases.Races.{renew_then_expire}

abbrev job : Job
job = record {
  id = codes "j";
  name = codes "send";
  queue = codes "mail";
  payload = 1 ∷ [];
  headers = [];
  content_type = [];
  tenant_id = [];
  correlation_id = [];
  idempotency_key = [];
  partition_key = [];
  run_at = pos 0;
  attempt = pos 0;
  max_attempts = pos 3;
  created_at = pos 0;
}

abbrev lease : Lease
lease = record {
  job_id = codes "j";
  token = codes "t";
  queue = codes "mail";
  expire_at = pos 12;
  attempt = pos 0;
}

abbrev state : LeaseState
state = record { lease = lease; delivery = 7; job = job; timer = 0 }

abbrev begun : System
begun = record new_system {
  backend = (begin_lease (codes "mail") (pos 5) (pos 7) (codes "t") 7 job empty_backend).1;
  begun = (begin_lease (codes "mail") (pos 5) (pos 7) (codes "t") 7 job empty_backend).0 ∷ [];
  received = 7 ∷ [];
}

abbrev leased : System
leased = record begun { backend = (finish_lease state begun.backend).1; begun = [] }

abbrev popped : System
popped = record leased { backend = (pop_token (codes "t") leased.backend).1; popped = state ∷ [] }

abbrev acknowledged : System
acknowledged = record popped { backend = complete 7 none popped.backend; popped = [] }

acknowledged_reached : Reaches new_system acknowledged
unfolding begin_lease lease_of after_func finish_lease empty_backend insert lookup trim_space
    trim_left ◌+ℤ◌
acknowledged_reached =
    further
      (further
        (further
          (further (here new_system)
            (begins new_system (codes "mail") (pos 5) (pos 7) (codes "t") 7 job refl))
          (finishes begun state [] (head state []) refl))
        (pops leased (codes "t") state refl))
      (completes popped state [] none (head state []))

Reaches-IsLinear_example : IsLinear acknowledged
Reaches-IsLinear_example = Reaches-IsLinear acknowledged_reached

abbrev live : RuntimeBackend
live = record {
  subscriptions = codes "mail" ∷ [];
  leases = (codes "t", state) ∷ [];
  closed = false;
  timers = (0, codes "t") ∷ [];
  fired = [];
  next_timer = 1;
  results = [];
  enqueued = [];
}

renew_then_expire_example :
    let r = renew (some lease) (pos 9) (pos 11) (fire 0 live) in
    let e = expire_lease (codes "t") r.1 in
    ((fire 0 live).fired ≡ codes "t" ∷ [])
    × (r.0 ≡ none)
    × (e.results ≡ (7, some lease_expired) ∷ [])
    × (ack (some lease) e ≡ (some not_found, e))
unfolding trim_space trim_left lookup timer_token
renew_then_expire_example = renew_then_expire live lease state (pos 9) (pos 11) refl refl refl refl
