-- ===== src/HttpCache/Group/Flights.antt =====
-- One computation of a key at a time, however the requests interleave.
use nimburion.Base.{
  ℕ, ◌+◌, ◌<◌, ◌≤◌, ◌≡◌, refl, ap, Text, List, [], ◌∷◌, ◌++◌, Option, none, some, Option-cases, inl,
  inr, eq_text, eq_text_iff, eq_text_refl, if◌then◌else◌, lookup, insert, remove, lookup-insert,
  lookup-remove, arith,
}
use nimburion.HttpCache.Group.{RequestGroup, waits, leads, new_request_group, enter, settle, leave}

abbrev pub count : Text → List (Text × ℕ) → ℕ
count key [] = 0
count key ((k, call) ∷ ts) = (if eq_text k key then 1 else 0) + count key ts

count-append :
    (key : Text) (xs ys : List (Text × ℕ)) → count key (xs ++ ys) ≡ count key xs + count key ys
count-append key [] ys = omega arith
count-append key ((k, call) ∷ xs) ys = omega (arith, count-append key xs ys)

abbrev pub flag : Option ℕ → ℕ
flag none = 0
flag (some _) = 1

moved :
    (k key : Text) (call : ℕ) (xs before after : List (Text × ℕ))
    → xs ≡ before ++ ((key, call) ∷ after)
    → count k xs ≡ count k (before ++ after) + (if eq_text key k then 1 else 0)
moved k key call xs before after e = omega (
  arith,
  ap (count k) e,
  count-append k before ((key, call) ∷ after),
  count-append k before after,
)

inserted :
    (k key : Text) (call : ℕ) (m : List (Text × ℕ))
    → lookup key m ≡ none
    → flag (lookup k (insert key call m)) ≡ flag (lookup k m) + (if eq_text key k then 1 else 0)
inserted k key call m h = ground (arith, lookup-insert key k call m, eq_text_iff key k, h)

-- What leaves was there.
removed :
    (k key : Text) (m : List (Text × ℕ))
    → flag (lookup key m) ≡ 1
    → flag (lookup k (remove key m)) + (if eq_text key k then 1 else 0) ≡ flag (lookup k m)
removed k key m h = ground (arith, lookup-remove key k m, eq_text_iff key k, h)

of_itself : (key : Text) → ◌≡◌ {A = ℕ} (if eq_text key key then 1 else 0) 1
of_itself key = ground (arith, eq_text_refl key)

flag-le-one : (o : Option ℕ) → flag o ≤ 1
flag-le-one none = omega arith
flag-le-one (some _) = omega arith

flag-some : (o : Option ℕ) → 0 < flag o → (call : ℕ) × (o ≡ some call)
flag-some none h = absurd (omega arith)
flag-some (some call) h = (call, refl)

-- The group with the leaders: those that run the handler, those that have its outcome and have
-- not left yet, and those whose handler panicked.
pub record System {ℓ} (A : Type ℓ) : Type ℓ where
  pub group : RequestGroup A
  pub running : List (Text × ℕ)
  pub settled : List (Text × ℕ)
  pub panicked : List (Text × ℕ)

module _ {ℓ} {A : Type ℓ} where
  abbrev pub new_system : System A
  new_system = record { group = new_request_group; running = []; settled = []; panicked = [] }

  -- A request that waits changes nothing.
  pub data Move : System A → System A → Type ℓ where
    enters :
        (x : System A) (key : Text) (call : ℕ)
        → (enter key x.group).0 ≡ leads call
        → Move x (record x { group = (enter key x.group).1; running = (key, call) ∷ x.running })
    settles :
        (x : System A) (key : Text) (call : ℕ) (a : A) (before after : List (Text × ℕ))
        → x.running ≡ before ++ ((key, call) ∷ after)
        → Move x (record x {
          group = settle call a x.group;
          running = before ++ after;
          settled = (key, call) ∷ x.settled;
        })
    leaves :
        (x : System A) (key : Text) (call : ℕ) (before after : List (Text × ℕ))
        → x.settled ≡ before ++ ((key, call) ∷ after)
        → Move x (record x { group = leave key x.group; settled = before ++ after })
    panics :
        (x : System A) (key : Text) (call : ℕ) (before after : List (Text × ℕ))
        → x.running ≡ before ++ ((key, call) ∷ after)
        → Move x (record x { running = before ++ after; panicked = (key, call) ∷ x.panicked })

  pub data Reaches (x : System A) : System A → Type ℓ where
    here : Reaches x x
    further : {y z : System A} → Reaches x y → Move y z → Reaches x z

  -- A key is in flight exactly while it has a leader, and it has one at most.
  abbrev pub leaders : Text → System A → ℕ
  leaders key x = count key x.running + count key x.settled + count key x.panicked

  pub record IsSingle (x : System A) : Type ℓ where
    pub led : (key : Text) → leaders key x ≡ flag (lookup key x.group.m)

  enter-leads :
      (key : Text) (call : ℕ) (g : RequestGroup A)
      → (enter key g).0 ≡ leads call
      → (lookup key g.m ≡ none) × ((enter key g).1.m ≡ insert key g.next g.m)
  unfolding enter
  enter-leads key call g h = elim (Option-cases (lookup key g.m)) [
    | inl new ↦ (new, rw (new, enter) refl)
    | inr (other, old) ↦ absurd (ground (arith, h, old))
  ]

  led-key :
      (x : System A) (key : Text) (call : ℕ) (before after : List (Text × ℕ))
      → x.settled ≡ before ++ ((key, call) ∷ after)
      → IsSingle x
      → flag (lookup key x.group.m) ≡ 1
  led-key x key call before after e v = omega (
    arith,
    v.led key,
    flag-le-one (lookup key x.group.m),
    moved key key call x.settled before after e,
    of_itself key,
  )

  Move-IsSingle : {x y : System A} → Move x y → IsSingle x → IsSingle y
  Move-IsSingle (enters x key call h) v =
      let (new, e) = enter-leads key call x.group h in
      record {
        led = λ k. omega (
          arith,
          v.led k,
          inserted k key x.group.next x.group.m new,
          ap (λ (m : List (Text × ℕ)). flag (lookup k m)) e,
        );
      }
  Move-IsSingle (settles x key call a before after h) v = record {
    led = λ k. unfold settle in omega (arith, v.led k, moved k key call x.running before after h);
  }
  Move-IsSingle (leaves x key call before after h) v = record {
    led = λ k.
        unfold leave in
        omega (
          arith,
          v.led k,
          moved k key call x.settled before after h,
          removed k key x.group.m (led-key x key call before after h v),
        );
  }
  Move-IsSingle (panics x key call before after h) v = record {
    led = λ k. omega (arith, v.led k, moved k key call x.running before after h);
  }

  reached-IsSingle : {x y : System A} → Reaches x y → IsSingle x → IsSingle y
  reached-IsSingle here v = v
  reached-IsSingle (further r m) v = Move-IsSingle m (reached-IsSingle r v)

  -- However requests interleave, a key is in flight exactly while it has a leader, and never has
  -- two: one that runs the handler, has its outcome and has not left, or panicked.
  pub Reaches-IsSingle : {x : System A} → Reaches new_system x → IsSingle x
  Reaches-IsSingle r = reached-IsSingle r (record { led = λ k. unfold lookup in refl })

  enter-waits :
      (key : Text) (call : ℕ) (g : RequestGroup A)
      → lookup key g.m ≡ some call
      → (enter key g).0 ≡ waits call
  unfolding enter
  enter-waits key call g h = rw (h, enter) refl

  panicked-count :
      {x y : System A} (key : Text)
      → Reaches x y
      → 0 < count key x.panicked
      → 0 < count key y.panicked
  panicked-count key here h = h
  panicked-count key (further r (enters x k call e)) h = panicked-count key r h
  panicked-count key (further r (settles x k call a before after e)) h = panicked-count key r h
  panicked-count key (further r (leaves x k call before after e)) h = panicked-count key r h
  panicked-count key (further r (panics x k call before after e)) h =
      let n = panicked-count key r h in omega (arith, n)

  -- A handler that panics leaves its key in flight for good: from then on no request runs the
  -- handler for the key, and each one that comes waits for a call that has no leader.
  pub panicked-waits :
      {x y : System A} (key : Text)
      → Reaches new_system x
      → 0 < count key x.panicked
      → Reaches x y
      → (call : ℕ) × ((enter key y.group).0 ≡ waits call)
        × (count key y.running + count key y.settled ≡ 0)
  panicked-waits {y = y} key r h s =
      let stuck = panicked-count key s h in
      let v = reached-IsSingle s (Reaches-IsSingle r) in
      let led = v.led key in
      let bound = flag-le-one (lookup key y.group.m) in
      let (call, e) = flag-some (lookup key y.group.m) (omega (arith, led, stuck)) in
      (call, enter-waits key call y.group e, omega (arith, led, stuck, bound))
