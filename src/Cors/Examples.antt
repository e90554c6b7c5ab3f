-- ===== src/Cors/Examples.antt =====
-- The theorems on the CORS middleware at small requests, and tests of its definitions.
use nimburion.Base.{
  ◌≡◌, refl, Text, codes, [], ◌∷◌, true, false, Option, some, eq_text, if◌then◌else◌,
}
use nimburion.Http.{get_header}
use nimburion.Cors.{
  Config, Request, default_config, normalize, middleware, is_schema_allowed, is_origin_allowed,
  wildcard_match, append_vary,
}
use nimburion.Cors.Origins.{
  origin_header, credentials_header, headers_of, is_granted, granted_origin, granted_credentials,
  middleware-grants, listed_star-grants,
}

abbrev over_https : Text → Option Text
over_https origin = some (codes "https")

abbrev one_origin : Config
unfolding default_config
one_origin = record default_config {
  enabled = true;
  allow_origins = some (codes "https://shop.example" ∷ []);
  allow_credentials = true;
}

abbrev from_shop : Request
from_shop = record {
  method = codes "GET";
  header = λ key. if eq_text key (codes "Origin") then codes "https://shop.example" else [];
}

middleware-grants_example :
    let n = normalize one_origin in
    let g = headers_of (middleware over_https one_origin from_shop []) in
    (get_header origin_header g ≡ (
      if is_granted over_https n (codes "https://shop.example")
      then granted_origin n (codes "https://shop.example")
      else []))
    × (get_header credentials_header g ≡ (
        if is_granted over_https n (codes "https://shop.example")
        then granted_credentials n
        else []))
unfolding get_header
middleware-grants_example = middleware-grants over_https one_origin from_shop [] refl refl

abbrev listed_star : Config
unfolding default_config
listed_star = record default_config {
  enabled = true;
  allow_origins = some (codes "*" ∷ []);
  allow_credentials = true;
}

listed_star-grants_example :
    let g = headers_of (middleware over_https listed_star from_shop []) in
    (get_header origin_header g ≡ codes "https://shop.example")
    × (get_header credentials_header g ≡ codes "true")
unfolding get_header default_config is_schema_allowed normalize listed_star
listed_star-grants_example =
    listed_star-grants over_https listed_star from_shop [] refl refl refl refl refl refl refl refl
      refl refl

refused_test :
    is_origin_allowed over_https (normalize one_origin) (codes "https://a.example") ≡ false
unfolding is_origin_allowed normalize default_config one_origin
refused_test = refl

wildcard_test : wildcard_match (codes "https://*.example") (codes "https://a.example") ≡ true
unfolding wildcard_match
wildcard_test = refl

append_vary_test :
    append_vary (codes "Origin") ((codes "Vary", codes "Accept" ∷ []) ∷ [])
    ≡ (codes "Vary", codes "Accept, Origin" ∷ []) ∷ []
unfolding append_vary
append_vary_test = refl
