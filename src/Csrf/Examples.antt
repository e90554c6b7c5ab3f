-- ===== src/Csrf/Examples.antt =====
-- The theorem on the CSRF middleware at a small request, and a test of its session.
use nimburion.Base.{
  ◌≡◌, ◌↔◌, ◌⊎◌, refl, codes, [], ◌∷◌, true, false, some, pos, is_empty, eq_text, if◌then◌else◌,
  lookup, trim_space,
}
use nimburion.Effect.{ok}
use nimburion.Csrf.{
  Config, Request, Session, default_config, normalize_config, is_exempt, sent_token, session_token,
  session_token_key, middleware, parse_same_site, none_mode,
}
use nimburion.Csrf.Tokens.{IsPassed, middleware-IsPassed_iff}

abbrev switched_on : Config
unfolding default_config
switched_on = record default_config { enabled = true }

abbrev order : Request
order = record {
  method = codes "POST";
  path = codes "/orders";
  header = λ key. if eq_text key (codes "X-CSRF-Token") then codes "t1" else [];
}

abbrev with_token : Session
with_token = (session_token_key, codes "t1") ∷ []

middleware-IsPassed_iff_example :
    let c = normalize_config switched_on in
    IsPassed (middleware switched_on order (some with_token) (ok (codes "t2")) (pos 43200) (pos 0))
    ↔ ((is_exempt c order ≡ true)
        ⊎ ((sent_token c order ≡ codes "t1") × (is_empty (sent_token c order) ≡ false)))
unfolding default_config lookup trim_space switched_on
middleware-IsPassed_iff_example =
    middleware-IsPassed_iff switched_on order with_token (codes "t1") (ok (codes "t2")) (pos 43200)
      (pos 0) refl refl

new_token_test :
    session_token [] (ok (codes "t2")) ≡ ok (codes "t2", (session_token_key, codes "t2") ∷ [])
unfolding session_token
new_token_test = refl

same_site_test : parse_same_site (codes " None") ≡ none_mode
unfolding parse_same_site
same_site_test = refl
