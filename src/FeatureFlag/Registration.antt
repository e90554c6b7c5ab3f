-- ===== src/FeatureFlag/Registration.antt =====
-- Whatever is registered, no key is a flag of two kinds.
use nimburion.Base.{
  ℕ, ◌+◌, ◌≤◌, ◌≡◌, refl, ap, ◌∙◌, Text, List, [], ◌∷◌, Bool, false, Bool-cases, Option, none, some,
  Option-cases, ℤ, is_empty, inl, inr, arith, if◌then◌else◌, eq_text, eq_text_iff, eq_text→eq,
  insert, lookup, lookup-insert,
}
use nimburion.FeatureFlag.{
  Kind, Provider, Definition, Registry, new_registry, emit, add_observer, set_provider, registered,
  added, validate_registration, register_bool, register_string, register_int,
}

-- A call that changes the registry.
pub data Change : Type 0 where
  bool_flag : Definition Bool → Change
  string_flag : Definition Text → Change
  int_flag : Definition ℤ → Change
  observer : Option ℕ → Change
  provider : Option Provider → Change

abbrev pub change : Change → Registry → Registry
change (bool_flag d) r = (register_bool d r).1
change (string_flag d) r = (register_string d r).1
change (int_flag d) r = (register_int d r).1
change (observer o) r = add_observer o r
change (provider p) r = set_provider p r

unfoldable pub changes : List Change → Registry → Registry
changes [] r = r
changes (c ∷ cs) r = changes cs (change c r)

abbrev pub known {ℓ} : {A : Type ℓ} → Option A → ℕ
known none = 0
known (some _) = 1

-- In how many kinds a key is a flag.
abbrev pub kinds : Text → Registry → ℕ
kinds key r = known (lookup key r.bools) + known (lookup key r.strings) + known (lookup key r.ints)

pub record IsTyped (r : Registry) : Type 0 where
  pub single : (key : Text) → kinds key r ≤ 1
  pub named : kinds [] r ≡ 0

-- The check lets a key pass that is no flag of another kind, and that is not empty.
abbrev others : Kind → Text → Registry → ℕ
others Kind.bool key r = known (lookup key r.strings) + known (lookup key r.ints)
others Kind.string key r = known (lookup key r.bools) + known (lookup key r.ints)
others Kind.int key r = known (lookup key r.bools) + known (lookup key r.strings)

validate_registration-others :
    (key : Text) (kind : Kind) (r : Registry)
    → validate_registration key kind r ≡ none
    → (is_empty key ≡ false) × (others kind key r ≡ 0)
unfolding validate_registration
validate_registration-others key Kind.bool r h = ground arith
validate_registration-others key Kind.string r h = ground arith
validate_registration-others key Kind.int r h = ground arith

known-insert {ℓ} :
    {A : Type ℓ} (key k : Text) (a : A) (m : List (Text × A))
    → known (lookup k (insert key a m)) ≡ (if eq_text key k then 1 else known (lookup k m))
known-insert key k a m = elim (Bool-cases (eq_text key k)) [
  | inl same ↦ ground (arith, lookup-insert key k a m, same)
  | inr other ↦ ground (arith, lookup-insert key k a m, other)
]

-- A registry in which one map has one key more, and that was no flag of another kind.
record Extended (key : Text) (r s : Registry) : Type 0 where
  nonempty : is_empty key ≡ false
  fresh : kinds key s ≡ 1
  same : (k : Text) → eq_text key k ≡ false → kinds k s ≡ kinds k r

Extended-IsTyped : (key : Text) (r s : Registry) → Extended key r s → IsTyped r → IsTyped s
Extended-IsTyped key r s x v = record {
  single = λ k. elim (Bool-cases (eq_text key k)) [
    | inl equal ↦ omega (arith, ap (λ j. kinds j s) (eq_text→eq key k equal), x.fresh)
    | inr other ↦ omega (arith, x.same k other, v.single k)
  ];
  named = x.same [] (not_empty key x.nonempty) ∙ v.named;
}
  where
    not_empty : (key : Text) → is_empty key ≡ false → eq_text key [] ≡ false
    not_empty [] h = cc
    not_empty (c ∷ key) h = refl

-- What the three registrations share.
registered-IsTyped :
    (key : Text) (kind : Kind) (r s : Registry)
    → (others kind key r ≡ 0 → kinds key s ≡ 1)
    → ((k : Text) → eq_text key k ≡ false → kinds k s ≡ kinds k r)
    → IsTyped r
    → IsTyped (registered key kind (validate_registration key kind r) s r).1
unfolding emit
registered-IsTyped key kind r s fresh same v =
    elim (Option-cases (validate_registration key kind r)) [
      | inr (e, bad) ↦ rw bad v
      | inl good ↦
          let free = validate_registration-others key kind r good in
          rw good (
            Extended-IsTyped key r (emit (added key kind) s)
              (record { nonempty = free.0; fresh = fresh free.1; same = same }) v)
    ]

register_bool-IsTyped :
    (d : Definition Bool) (r : Registry) → IsTyped r → IsTyped (register_bool d r).1
unfolding register_bool
register_bool-IsTyped d r =
    registered-IsTyped d.key Kind.bool r _
      (λ free. ground (arith, known-insert d.key d.key d r.bools, eq_text_iff d.key d.key))
      (λ k other. ground (arith, other, known-insert d.key k d r.bools))

register_string-IsTyped :
    (d : Definition Text) (r : Registry) → IsTyped r → IsTyped (register_string d r).1
unfolding register_string
register_string-IsTyped d r =
    registered-IsTyped d.key Kind.string r _
      (λ free. ground (arith, known-insert d.key d.key d r.strings, eq_text_iff d.key d.key))
      (λ k other. ground (arith, other, known-insert d.key k d r.strings))

register_int-IsTyped : (d : Definition ℤ) (r : Registry) → IsTyped r → IsTyped (register_int d r).1
unfolding register_int
register_int-IsTyped d r =
    registered-IsTyped d.key Kind.int r _
      (λ free. ground (arith, known-insert d.key d.key d r.ints, eq_text_iff d.key d.key))
      (λ k other. ground (arith, other, known-insert d.key k d r.ints))

change-IsTyped : (c : Change) (r : Registry) → IsTyped r → IsTyped (change c r)
unfolding add_observer set_provider
change-IsTyped (bool_flag d) r v = register_bool-IsTyped d r v
change-IsTyped (string_flag d) r v = register_string-IsTyped d r v
change-IsTyped (int_flag d) r v = register_int-IsTyped d r v
change-IsTyped (observer none) r v = v
change-IsTyped (observer (some o)) r v = record { single = v.single; named = v.named }
change-IsTyped (provider p) r v = record { single = v.single; named = v.named }

changes_from-IsTyped : (cs : List Change) (r : Registry) → IsTyped r → IsTyped (changes cs r)
unfolding changes
changes_from-IsTyped [] r v = v
changes_from-IsTyped (c ∷ cs) r v = changes_from-IsTyped cs (change c r) (change-IsTyped c r v)

new_registry-IsTyped : IsTyped new_registry
unfolding new_registry lookup
new_registry-IsTyped = record { single = λ key. omega arith; named = refl }

-- After any registrations, accepted or not, each key is a flag of one kind at most, and the empty
-- key is none.
changes-IsTyped : (cs : List Change) → IsTyped (changes cs new_registry)
changes-IsTyped cs = changes_from-IsTyped cs new_registry new_registry-IsTyped
