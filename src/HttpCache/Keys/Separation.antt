-- ===== src/HttpCache/Keys/Separation.antt =====
-- Which requests share a key.
use mathlib.Core.List.{append_cancel_left, append_cancel_right, append_assoc}
use nimburion.Base.{
  ◌≡◌, refl, sym, ap, ◌∙◌, Text, codes, List, [], ◌∷◌, ◌++◌, true, false, ◌||◌, Option, none, some,
  Option-cases, Bool-cases, inl, inr, All, is_empty, trim_space, arith,
}
use nimburion.Effect.{Result, ok, err}
use nimburion.Policy.{join}
use nimburion.Http.{to_upper}
use nimburion.HttpCache.{KeyRule, Config, is_tenant, validate_config}
use nimburion.HttpCache.Checked.{has_tenant_rule, validate_config-IsUsable_iff}
use nimburion.HttpCache.Keys.{
  Request, query_escape, rule_name, part_of, from_claims, resolve_rule_value, append_parts,
  joined_parts, build_cache_key,
}
use nimburion.HttpCache.Keys.Appending.{
  Alike, append-missing, append-present, append-skipped, append-join,
}
use nimburion.HttpCache.Keys.Pieces.{
  Lacks, query_escape-injective, query_escape-Lacks, first_mark, last_mark, join-append,
}

abbrev pub AllRequired : List KeyRule → Type 0
AllRequired = All (λ r. r.optional ≡ false)

-- The trimmed tenant of the request's claims; none without claims or where it is empty.
abbrev pub tenant_of : Request → Option Text
tenant_of req = from_claims req.claims (λ c. trim_space c.tenant_id)

-- The same rule, after two texts: the texts and the values are the same if the results are.
part-injective :
    (r : KeyRule) (a b v w : Text)
    → a ++ (codes ":" ++ part_of r v) ≡ b ++ (codes ":" ++ part_of r w)
    → (a ≡ b) × (v ≡ w)
part-injective r a b v w e =
    let name = codes ":" ++ rule_name r in
    let (p, q) =
      last_mark b'=' (a ++ name) (b ++ name) (query_escape v) (query_escape w)
        (append_assoc a name _ ∙ e ∙ sym (append_assoc b name _)) (query_escape-Lacks v)
        (query_escape-Lacks w) in
    (append_cancel_right a b name p, query_escape-injective v w q)

some_rule-of_tenant : (rs : List KeyRule) → has_tenant_rule rs ≡ true → is_empty rs ≡ false
some_rule-of_tenant [] h = cc
some_rule-of_tenant (r ∷ rs) h = refl

module _ (digest : Text → Text) where
  append-Alike :
      (x y : Request) (rs : List KeyRule) (p q : Text) (ps qs ks ls : List Text)
      → AllRequired rs
      → append_parts digest x rs (p ∷ ps) ≡ ok ks
      → append_parts digest y rs (q ∷ qs) ≡ ok ls
      → join (codes ":") ks ≡ join (codes ":") ls
      → (join (codes ":") (p ∷ ps) ≡ join (codes ":") (q ∷ qs)) × Alike digest x y rs
  append-Alike x y [] p q ps qs ks ls o hx hy e = unfold append_parts in (cc, tt)
  append-Alike x y (r ∷ rs) p q ps qs ks ls o hx hy e =
      elim (Option-cases (resolve_rule_value digest x r)) [
        | inl mx ↦ absurd (append-missing digest x r rs (p ∷ ps) ks mx o.0 hx)
        | inr (v, fx) ↦ elim (Option-cases (resolve_rule_value digest y r)) [
          | inl my ↦ absurd (append-missing digest y r rs (q ∷ qs) ls my o.0 hy)
          | inr (w, fy) ↦
              let (h, alike) =
                append-Alike x y rs p q (ps ++ (part_of r v ∷ [])) (qs ++ (part_of r w ∷ [])) ks ls
                  o.1 (sym (append-present digest x r rs (p ∷ ps) v fx) ∙ hx)
                  (sym (append-present digest y r rs (q ∷ qs) w fy) ∙ hy) e in
              let (same, values) =
                part-injective r (join (codes ":") (p ∷ ps)) (join (codes ":") (q ∷ qs)) v w (
                  sym (join-append (codes ":") p (part_of r v) ps)
                  ∙ h
                  ∙ join-append (codes ":") q (part_of r w) qs) in
              (same, (fx ∙ ap some values ∙ sym fy, alike))
        ]
      ]

  tenant-resolved :
      (x : Request) (r : KeyRule)
      → is_tenant r.source ≡ true
      → tenant_of x ≡ resolve_rule_value digest x r
  unfolding resolve_rule_value
  tenant-resolved x r h = ground arith

  tenants-Alike :
      (x y : Request) (rs : List KeyRule)
      → has_tenant_rule rs ≡ true
      → Alike digest x y rs
      → tenant_of x ≡ tenant_of y
  tenants-Alike x y [] h alike = cc
  tenants-Alike x y (r ∷ rs) h alike = elim (Bool-cases (is_tenant r.source)) [
    | inl here ↦ tenant-resolved x r here ∙ alike.0 ∙ sym (tenant-resolved y r here)
    | inr there ↦ tenants-Alike x y rs (ground (arith, there, h)) alike.1
  ]

  build-parts :
      (c : Config) (x : Request) (key : Text)
      → is_empty c.key_rules ≡ false
      → build_cache_key digest c x ≡ ok key
      → (parts : List Text) × (append_parts digest x c.key_rules
            (c.key_prefix ∷ (codes "method=" ++ to_upper x.method) ∷ (codes "path=" ++ x.path) ∷ [])
          ≡ ok parts)
        × (join (codes ":") parts ≡ key)
  unfolding build_cache_key
  build-parts c x key e h =
      read
        (append_parts digest x c.key_rules
          (c.key_prefix ∷ (codes "method=" ++ to_upper x.method) ∷ (codes "path=" ++ x.path) ∷ []))
        refl
    where
      read :
          (r : Result (List Text))
          → append_parts digest x c.key_rules (
              c.key_prefix
              ∷ (codes "method=" ++ to_upper x.method)
              ∷ (codes "path=" ++ x.path)
              ∷ [])
            ≡ r
          → (parts : List Text) × (append_parts digest x c.key_rules (
                c.key_prefix
                ∷ (codes "method=" ++ to_upper x.method)
                ∷ (codes "path=" ++ x.path)
                ∷ [])
              ≡ ok parts)
            × (join (codes ":") parts ≡ key)
      read (ok parts) f = (parts, f, ground (arith, h, e, f))
      read (err failure) f = absurd (ground (arith, h, e, f))

  same_request :
      (prefix m n p q : Text)
      → join (codes ":") (prefix ∷ (codes "method=" ++ m) ∷ (codes "path=" ++ p) ∷ [])
        ≡ join (codes ":") (prefix ∷ (codes "method=" ++ n) ∷ (codes "path=" ++ q) ∷ [])
      → Lacks b':' m
      → Lacks b':' n
      → (m ≡ n) × (p ≡ q)
  unfolding join
  same_request prefix m n p q e lm ln =
      let rest = append_cancel_left prefix _ _ e in
      let (l, r) =
        first_mark b':' m n (codes "path=" ++ p) (codes "path=" ++ q)
          (append_cancel_left (codes ":method=") _ _ rest) lm ln in
      (l, append_cancel_left (codes "path=") p q r)

  -- Where every rule is required, two requests whose methods hold no `:` share a key only if they
  -- have the same method and path and agree on the value of every rule.
  pub build_cache_key-Alike :
      (c : Config) (x y : Request) (key : Text)
      → is_empty c.key_rules ≡ false
      → AllRequired c.key_rules
      → Lacks b':' (to_upper x.method)
      → Lacks b':' (to_upper y.method)
      → build_cache_key digest c x ≡ ok key
      → build_cache_key digest c y ≡ ok key
      → (to_upper x.method ≡ to_upper y.method) × (x.path ≡ y.path) × Alike digest x y c.key_rules
  build_cache_key-Alike c x y key some_rule required mx my hx hy =
      let (px, ax, ex) = build-parts c x key some_rule hx in
      let (py, ay, ey) = build-parts c y key some_rule hy in
      let (base, alike) = append-Alike x y c.key_rules _ _ _ _ px py required ax ay (ex ∙ sym ey) in
      let (methods, paths) = same_request c.key_prefix _ _ x.path y.path base mx my in
      (methods, paths, alike)

  -- A sensitive cache that the check accepts, and whose rules are all required, keeps the tenants
  -- apart: two requests that share a key are of the same tenant.
  pub tenants_apart :
      (c : Config) (x y : Request) (key : Text)
      → c.enabled ≡ true
      → c.sensitive || c.require_tenant ≡ true
      → validate_config c ≡ none
      → AllRequired c.key_rules
      → build_cache_key digest c x ≡ ok key
      → build_cache_key digest c y ≡ ok key
      → tenant_of x ≡ tenant_of y
  tenants_apart c x y key enabled sensitive valid required hx hy =
      let v = (validate_config-IsUsable_iff c enabled).0 valid in
      let has = v.tenant sensitive in
      let some_rule = some_rule-of_tenant c.key_rules has in
      let (px, ax, ex) = build-parts c x key some_rule hx in
      let (py, ay, ey) = build-parts c y key some_rule hy in
      let (base, alike) = append-Alike x y c.key_rules _ _ _ _ px py required ax ay (ex ∙ sym ey) in
      tenants-Alike x y c.key_rules has alike

  first_rule :
      (c : Config) (r : KeyRule) (rest : List KeyRule) (x : Request)
      → c.key_rules ≡ r ∷ rest
      → build_cache_key digest c x
        ≡ joined_parts digest (
            append_parts digest x (r ∷ rest) (
              c.key_prefix
              ∷ (codes "method=" ++ to_upper x.method)
              ∷ (codes "path=" ++ x.path)
              ∷ []))
  unfolding build_cache_key
  first_rule c r rest x h = ground (arith, h)

  joined_base :
      (prefix m path part : Text)
      → join (codes ":") (prefix ∷ m ∷ (codes "path=" ++ (path ++ (codes ":" ++ part))) ∷ [])
        ≡ join (codes ":") (prefix ∷ m ∷ (codes "path=" ++ path) ∷ part ∷ [])
  unfolding join
  joined_base prefix m path part = simp append_assoc

  -- An optional rule that stands first can be forged: the path is not escaped, so a request without
  -- the rule's value, whose path ends in what the rule would have added, has the key of the request
  -- with the value, if they have the same method and agree on the value of every other rule.
  pub forged_path :
      (c : Config) (r : KeyRule) (rest : List KeyRule) (x y : Request) (value : Text)
      → c.key_rules ≡ r ∷ rest
      → r.optional ≡ true
      → resolve_rule_value digest x r ≡ some value
      → resolve_rule_value digest y r ≡ none
      → Alike digest y x rest
      → y.method ≡ x.method
      → y.path ≡ x.path ++ (codes ":" ++ part_of r value)
      → build_cache_key digest c y ≡ build_cache_key digest c x
  unfolding append_parts resolve_rule_value
  forged_path c r rest x y value rules o hx hy alike m p =
      let method = codes "method=" ++ to_upper x.method in
      first_rule c r rest y rules
      ∙ ap (joined_parts digest) (append-skipped digest y r rest _ hy o)
      ∙ rw (m, p)
          (append-join digest y x rest c.key_prefix c.key_prefix _ _ alike
            (joined_base c.key_prefix method x.path (part_of r value)))
      ∙ sym (ap (joined_parts digest) (append-present digest x r rest _ value hx))
      ∙ sym (first_rule c r rest x rules)
