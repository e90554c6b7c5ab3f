-- ===== src/HttpCache/Keys/Appending.antt =====
-- What the loop over the rules of buildCacheKey adds to the parts of a key.
use nimburion.Base.{
  ◌≡◌, ◌≢◌, refl, sym, ap, ◌∙◌, Text, codes, List, [], ◌∷◌, ◌++◌, true, false, none, some,
  Option-cases, Bool-cases, inl, inr, All, arith,
}
use nimburion.Effect.{ok, err}
use nimburion.Policy.{join}
use nimburion.HttpCache.{KeyRule}
use nimburion.HttpCache.Keys.{
  Request, missing_rule, part_of, resolve_rule_value, append_parts, joined_parts,
}
use nimburion.HttpCache.Keys.Pieces.{join-append}

module _ (digest : Text → Text) where
  abbrev pub Alike : Request → Request → List KeyRule → Type 0
  Alike x y = All (λ r. resolve_rule_value digest x r ≡ resolve_rule_value digest y r)

  pub append-missing :
      (x : Request) (r : KeyRule) (rs : List KeyRule) (ps qs : List Text)
      → resolve_rule_value digest x r ≡ none
      → r.optional ≡ false
      → append_parts digest x (r ∷ rs) ps ≢ ok qs
  unfolding append_parts
  append-missing x r rs ps qs h o = ground (arith, h, o)

  pub append-present :
      (x : Request) (r : KeyRule) (rs : List KeyRule) (ps : List Text) (v : Text)
      → resolve_rule_value digest x r ≡ some v
      → append_parts digest x (r ∷ rs) ps ≡ append_parts digest x rs (ps ++ (part_of r v ∷ []))
  unfolding append_parts
  append-present x r rs ps v h = rw (h, append_parts) refl

  pub append-skipped :
      (x : Request) (r : KeyRule) (rs : List KeyRule) (ps : List Text)
      → resolve_rule_value digest x r ≡ none
      → r.optional ≡ true
      → append_parts digest x (r ∷ rs) ps ≡ append_parts digest x rs ps
  unfolding append_parts
  append-skipped x r rs ps h o = rw (h, append_parts) (rw o refl)

  append-refused :
      (x : Request) (r : KeyRule) (rs : List KeyRule) (ps : List Text)
      → resolve_rule_value digest x r ≡ none
      → r.optional ≡ false
      → append_parts digest x (r ∷ rs) ps ≡ err (missing_rule r)
  unfolding append_parts
  append-refused x r rs ps h o = rw (h, append_parts) (rw o refl)

  -- What rules add on which two requests agree is the same, also where it is an error.
  pub append-join :
      (x y : Request) (rs : List KeyRule) (p q : Text) (ps qs : List Text)
      → Alike x y rs
      → join (codes ":") (p ∷ ps) ≡ join (codes ":") (q ∷ qs)
      → joined_parts digest (append_parts digest x rs (p ∷ ps))
        ≡ joined_parts digest (append_parts digest y rs (q ∷ qs))
  append-join x y [] p q ps qs alike e = unfold append_parts in ap ok e
  append-join x y (r ∷ rs) p q ps qs alike e = elim (Option-cases (resolve_rule_value digest x r)) [
    | inl nx ↦
        let ny = sym alike.0 ∙ nx in
        elim (Bool-cases r.optional) [
          | inl o ↦
              ap (joined_parts digest) (append-skipped x r rs (p ∷ ps) nx o)
              ∙ append-join x y rs p q ps qs alike.1 e
              ∙ sym (ap (joined_parts digest) (append-skipped y r rs (q ∷ qs) ny o))
          | inr o ↦
              ap (joined_parts digest)
                (append-refused x r rs (p ∷ ps) nx o ∙ sym (append-refused y r rs (q ∷ qs) ny o))
        ]
    | inr (v, sx) ↦
        let sy = sym alike.0 ∙ sx in
        ap (joined_parts digest) (append-present x r rs (p ∷ ps) v sx)
        ∙ append-join x y rs p q (ps ++ (part_of r v ∷ [])) (qs ++ (part_of r v ∷ [])) alike.1 (
            join-append (codes ":") p (part_of r v) ps
            ∙ ap (λ t. t ++ (codes ":" ++ part_of r v)) e
            ∙ sym (join-append (codes ":") q (part_of r v) qs))
        ∙ sym (ap (joined_parts digest) (append-present y r rs (q ∷ qs) v sy))
  ]
