-- ===== src/HttpCache/Checked.antt =====
-- Which configurations of the HTTP cache are accepted.
use nimburion.Base.{
  ℕ, ◌+◌, ◌≡◌, refl, ◌↔◌, ◌⊎◌, inl, inr, List, [], ◌∷◌, Bool, true, false, ◌||◌, none, Option-cases,
  pos, ◌≤ℤ◌, ◌<ℤ◌, All, any, not, ◌&&◌, leb_ℤ, ltb_ℤ, sym, ap, ◌∙◌, is_empty, trim_space, arith,
}
use nimburion.Errors.{Err}
use nimburion.HttpCache.{
  KeyRule, Config, is_valid_source, is_static, needs_key, is_tenant, is_auth, check_rule,
  check_rules, dimensions, validate_config,
}

-- A rule of a known source, with the value or the key that it needs.
pub record IsRule (r : KeyRule) : Type 0 where
  pub known : is_valid_source r.source ≡ true
  pub valued : is_static r.source ≡ true → is_empty (trim_space r.value) ≡ false
  pub keyed : needs_key r.source ≡ true → is_empty (trim_space r.key) ≡ false

abbrev pub has_tenant_rule : List KeyRule → Bool
has_tenant_rule = any (λ r. is_tenant r.source)

abbrev pub has_auth_rule : List KeyRule → Bool
has_auth_rule = any (λ r. is_auth r.source)

pub record IsUsable (c : Config) : Type 0 where
  pub store : c.has_store ≡ true
  pub lasts : pos 0 <ℤ c.ttl
  pub stale : pos 0 ≤ℤ c.stale_while_revalidate
  pub rules : All IsRule c.key_rules
  pub tenant : c.sensitive || c.require_tenant ≡ true → has_tenant_rule c.key_rules ≡ true
  pub auth : c.sensitive || c.require_auth_fingerprint ≡ true → has_auth_rule c.key_rules ≡ true

check_rule-IsRule_iff : (idx : ℕ) (r : KeyRule) → (check_rule idx r ≡ none) ↔ IsRule r
unfolding check_rule
check_rule-IsRule_iff idx r = (
  λ h. record { known = ground arith; valued = λ s. ground arith; keyed = λ s. ground arith },
  λ v. ground (arith, v.known, v.valued, v.keyed),
)

check_rules-accepts :
    (idx : ℕ) (t a : Bool) (rs : List KeyRule)
    → All IsRule rs
    → check_rules idx t a rs ≡ inr (t || has_tenant_rule rs, a || has_auth_rule rs)
unfolding check_rules
check_rules-accepts idx t a [] v = ground arith
check_rules-accepts idx t a (r ∷ rs) v =
    rw ((check_rule-IsRule_iff idx r).1 v.0, check_rules)
      (check_rules-accepts (idx + 1) (t || is_tenant r.source) (a || is_auth r.source) rs v.1
        ∙ ground arith)

check_rules-IsRule :
    (idx : ℕ) (t a : Bool) (rs : List KeyRule) (u : Bool × Bool)
    → check_rules idx t a rs ≡ inr u
    → All IsRule rs
unfolding check_rules
check_rules-IsRule idx t a [] u h = tt
check_rules-IsRule idx t a (r ∷ rs) u h = elim (Option-cases (check_rule idx r)) [
  | inl fine ↦ (
    (check_rule-IsRule_iff idx r).0 fine,
    check_rules-IsRule (idx + 1) (t || is_tenant r.source) (a || is_auth r.source) rs u
        (ground (arith, h, fine)),
  )
  | inr (e, bad) ↦ absurd (ground (arith, h, bad))
]

-- The checks before those of the rules.
abbrev is_set_up : Config → Bool
is_set_up c =
    c.has_store && not (leb_ℤ c.ttl (pos 0)) && not (ltb_ℤ c.stale_while_revalidate (pos 0))

validate-unfolded :
    (c : Config)
    → c.enabled ≡ true
    → validate_config c ≡ none
    → (is_set_up c ≡ true) × (dimensions c (check_rules 0 false false c.key_rules) ≡ none)
unfolding validate_config
validate-unfolded c e h = ground arith

rules-IsRule :
    (c : Config)
    → dimensions c (check_rules 0 false false c.key_rules) ≡ none
    → All IsRule c.key_rules
rules-IsRule c h = read (check_rules 0 false false c.key_rules) refl
  where
    read :
        (r : Err ⊎ (Bool × Bool))
        → check_rules 0 false false c.key_rules ≡ r
        → All IsRule c.key_rules
    read (inl failure) e = absurd (ground (arith, h, e))
    read (inr u) e = check_rules-IsRule 0 false false c.key_rules u e

dimensions_iff :
    (c : Config) (t a : Bool)
    → (dimensions c (inr (t, a)) ≡ none) ↔ (
        (c.sensitive || c.require_tenant ≡ true → t ≡ true)
        × (c.sensitive || c.require_auth_fingerprint ≡ true → a ≡ true))
dimensions_iff c t a =
    ((λ h. (λ s. ground arith, λ s. ground arith)), λ h. ground (arith, h.0, h.1))

usable : (c : Config) → c.enabled ≡ true → validate_config c ≡ none → IsUsable c
usable c e h =
    let (setup, d) = validate-unfolded c e h in
    let rules = rules-IsRule c d in
    let dims =
      (dimensions_iff c (has_tenant_rule c.key_rules) (has_auth_rule c.key_rules)).0
        (ap (dimensions c) (sym (check_rules-accepts 0 false false c.key_rules rules)) ∙ d) in
    record {
      store = ground arith;
      lasts = ground arith;
      stale = ground arith;
      rules = rules;
      tenant = dims.0;
      auth = dims.1;
    }

accepted : (c : Config) → IsUsable c → validate_config c ≡ none
unfolding validate_config
accepted c v =
    let d : dimensions c (check_rules 0 false false c.key_rules) ≡ none =
      ap (dimensions c) (check_rules-accepts 0 false false c.key_rules v.rules)
      ∙ (dimensions_iff c (has_tenant_rule c.key_rules) (has_auth_rule c.key_rules)).1
          (v.tenant, v.auth) in
    ground (arith, d, v.store, v.lasts, v.stale)

-- The check accepts an enabled cache exactly when it has a store, lives for a positive time, is
-- stale for no negative time, has rules of known sources with the value or key that they need,
-- and, where it is sensitive or requires them, a rule for the tenant and one for the caller.
pub validate_config-IsUsable_iff :
    (c : Config) → c.enabled ≡ true → (validate_config c ≡ none) ↔ IsUsable c
validate_config-IsUsable_iff c e = (usable c e, accepted c)
