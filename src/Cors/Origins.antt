-- ===== src/Cors/Origins.antt =====
-- What the CORS middleware grants to an origin.
use nimburion.Base.{
  ◌≡◌, refl, ap, ◌∙◌, Text, codes, [], ◌∷◌, ◌++◌, Bool, true, false, not, ◌&&◌, ◌||◌, Bool-cases,
  inl, inr, Option, none, some, eq_text, is_empty, trim_space, if◌then◌else◌, lookup-insert, arith,
}
use nimburion.Policy.{join}
use nimburion.Http.{Headers, get_header, set_header}
use nimburion.Cors.{
  Config, Request, Outcome, answered, passed, normalize, is_origin_allowed,
  is_allow_all_origins_list, set_origin_headers, append_vary, apply_vary, exposed, request_headers,
  aged, networked, preflighted, crossed, middleware, items_of, format_max_age, is_schema_allowed,
}

abbrev pub origin_header : Text
origin_header = codes "Access-Control-Allow-Origin"

abbrev pub credentials_header : Text
credentials_header = codes "Access-Control-Allow-Credentials"

abbrev pub headers_of : Outcome → Headers
headers_of (answered status h) = h
headers_of (passed h) = h

get-set_header :
    (k key value : Text) (h : Headers)
    → get_header k (set_header key value h) ≡ (if eq_text key k then value else get_header k h)
unfolding get_header set_header
get-set_header k key value h = ground (arith, lookup-insert key k (value ∷ []) h)

-- The header is none of those that say nothing of an origin.
record IsApart (k : Text) : Type 0 where
  vary : eq_text (codes "Vary") k ≡ false
  expose : eq_text (codes "Access-Control-Expose-Headers") k ≡ false
  methods : eq_text (codes "Access-Control-Allow-Methods") k ≡ false
  headers : eq_text (codes "Access-Control-Allow-Headers") k ≡ false
  age : eq_text (codes "Access-Control-Max-Age") k ≡ false
  network : eq_text (codes "Access-Control-Allow-Private-Network") k ≡ false

origin_header-IsApart : IsApart origin_header
origin_header-IsApart = record {
  vary = refl;
  expose = refl;
  methods = refl;
  headers = refl;
  age = refl;
  network = refl;
}

credentials_header-IsApart : IsApart credentials_header
credentials_header-IsApart = record {
  vary = refl;
  expose = refl;
  methods = refl;
  headers = refl;
  age = refl;
  network = refl;
}

module _ (k : Text) (v : IsApart k) where
  append_vary-keeps :
      (value : Text) (h : Headers) → get_header k (append_vary value h) ≡ get_header k h
  unfolding append_vary
  append_vary-keeps value h =
      let current = get_header (codes "Vary") h in
      ground (
        arith,
        get-set_header k (codes "Vary") value h,
        get-set_header k (codes "Vary") (current ++ (codes ", " ++ value)) h,
        v.vary,
      )

  apply_vary-keeps : (h : Headers) → get_header k (apply_vary h) ≡ get_header k h
  unfolding apply_vary
  apply_vary-keeps h =
      append_vary-keeps (codes "Access-Control-Request-Headers") _
      ∙ append_vary-keeps (codes "Access-Control-Request-Method") _
      ∙ append_vary-keeps (codes "Origin") h

  exposed-keeps : (c : Config) (h : Headers) → get_header k (exposed c h) ≡ get_header k h
  exposed-keeps c h = ground (
    arith,
    get-set_header k (codes "Access-Control-Expose-Headers")
        (join (codes ", ") (items_of c.expose_headers)) h,
    v.expose,
  )

  request_headers-keeps :
      (c : Config) (req : Request) (h : Headers)
      → get_header k (request_headers c req h) ≡ get_header k h
  request_headers-keeps c req h = ground (
    arith,
    get-set_header k (codes "Access-Control-Allow-Headers")
        (join (codes ", ") (items_of c.allow_headers)) h,
    get-set_header k (codes "Access-Control-Allow-Headers")
        (req.header (codes "Access-Control-Request-Headers")) h,
    v.headers,
  )

  aged-keeps : (c : Config) (h : Headers) → get_header k (aged c h) ≡ get_header k h
  aged-keeps c h =
      ground (
        arith,
        get-set_header k (codes "Access-Control-Max-Age") (format_max_age c.max_age) h,
        v.age,
      )

  networked-keeps :
      (c : Config) (req : Request) (h : Headers) → get_header k (networked c req h) ≡ get_header k h
  networked-keeps c req h = ground (
    arith,
    get-set_header k (codes "Access-Control-Allow-Private-Network") (codes "true") h,
    v.network,
  )

  preflighted-keeps :
      (c : Config) (req : Request) (h : Headers)
      → get_header k (preflighted c req h) ≡ get_header k h
  preflighted-keeps c req h =
      let methods = join (codes ", ") (items_of c.allow_methods) in
      networked-keeps c req _
      ∙ aged-keeps c _
      ∙ request_headers-keeps c req _
      ∙ get-set_header k (codes "Access-Control-Allow-Methods") methods h
      ∙ rw v.methods refl

-- What an origin that is allowed is told.
abbrev pub granted_origin : Config → Text → Text
granted_origin c origin =
    if not c.allow_credentials && (c.allow_all_origins || is_allow_all_origins_list c)
    then codes "*"
    else origin

abbrev pub granted_credentials : Config → Text
granted_credentials c = if c.allow_credentials then codes "true" else []

set_origin_headers-grants :
    (c : Config) (origin : Text) (h : Headers)
    → get_header credentials_header h ≡ []
    → (get_header origin_header (set_origin_headers c origin h) ≡ granted_origin c origin)
      × (get_header credentials_header (set_origin_headers c origin h) ≡ granted_credentials c)
unfolding set_origin_headers
set_origin_headers-grants c origin h e =
    let set = λ (value : Text). set_header origin_header value h in
    ground (
      arith,
      get-set_header origin_header origin_header origin h,
      get-set_header origin_header origin_header (codes "*") h,
      get-set_header credentials_header origin_header origin h,
      get-set_header credentials_header origin_header (codes "*") h,
      get-set_header origin_header credentials_header (codes "true") (set origin),
      get-set_header credentials_header credentials_header (codes "true") (set origin),
      e,
    )

module _ (scheme_of : Text → Option Text) where
  abbrev pub is_granted : Config → Text → Bool
  is_granted c origin = c.enabled && not (is_empty origin) && is_origin_allowed scheme_of c origin

  crossed-refused :
      (c : Config) (req : Request) (origin : Text) (h : Headers)
      → is_origin_allowed scheme_of c origin ≡ false
      → headers_of (crossed scheme_of c req origin h) ≡ h
  crossed-refused c req origin h e = ground (arith, e)

  crossed-keeps :
      (k : Text) (c : Config) (req : Request) (origin : Text) (h : Headers)
      → IsApart k
      → is_origin_allowed scheme_of c origin ≡ true
      → get_header k (headers_of (crossed scheme_of c req origin h))
        ≡ get_header k (set_origin_headers c origin (apply_vary h))
  crossed-keeps k c req origin h v e =
      let g = set_origin_headers c origin (apply_vary h) in
      ground (arith, e, preflighted-keeps k v c req (exposed c g), exposed-keeps k v c g)

  -- A response that granted nothing so far grants access exactly where the middleware is enabled
  -- and the request has an origin that is allowed: then it names the origin, or `*` where no
  -- credentials are allowed and all origins are; credentials are granted where the normalised
  -- configuration allows them.
  pub middleware-grants :
      (c : Config) (req : Request) (h : Headers)
      → get_header origin_header h ≡ []
      → get_header credentials_header h ≡ []
      → let n = normalize c in
        let origin = req.header (codes "Origin") in
        let g = headers_of (middleware scheme_of c req h) in
        (get_header origin_header g ≡ (if is_granted n origin then granted_origin n origin else []))
        × (get_header credentials_header g
            ≡ (if is_granted n origin then granted_credentials n else []))
  unfolding middleware
  middleware-grants c req h o e =
      let n = normalize c in
      let origin = req.header (codes "Origin") in
      let kept = apply_vary-keeps credentials_header credentials_header-IsApart h ∙ e in
      let (a, b) = set_origin_headers-grants n origin (apply_vary h) kept in
      elim (Bool-cases (is_origin_allowed scheme_of n origin)) [
        | inl allowed ↦
            let p = crossed-keeps origin_header n req origin h origin_header-IsApart allowed ∙ a in
            let q =
              crossed-keeps credentials_header n req origin h credentials_header-IsApart allowed
              ∙ b in
            ground (arith, allowed, p, q, o, e)
        | inr refused ↦
            let p = crossed-refused n req origin h refused in
            ground (
              arith,
              refused,
              ap (get_header origin_header) p,
              ap (get_header credentials_header) p,
              o,
              e,
            )
      ]

  normalized :
      (c : Config)
      → c.enabled ≡ true
      → c.allow_all_origins ≡ false
      → c.allow_credentials ≡ true
      → ((normalize c).enabled ≡ true) × ((normalize c).allow_credentials ≡ true)
  unfolding normalize
  normalized c enabled one credentials = (enabled, rw one credentials)

  star-allowed :
      (c : Config) (origin : Text)
      → c.allow_all_origins ≡ false
      → c.allow_origins ≡ some (codes "*" ∷ [])
      → c.allow_origin_func ≡ none
      → c.allow_origin_with_context_func ≡ none
      → is_schema_allowed scheme_of (normalize c) origin ≡ true
      → is_origin_allowed scheme_of (normalize c) origin ≡ true
  unfolding is_origin_allowed normalize trim_space
  star-allowed c origin one star f fc scheme = ground (arith, one, star, f, fc, scheme)

  -- The check that keeps credentials from all origins misses the list with `*` alone: with
  -- credentials allowed, every origin of an allowed scheme is named and granted credentials.
  pub listed_star-grants :
      (c : Config) (req : Request) (h : Headers)
      → get_header origin_header h ≡ []
      → get_header credentials_header h ≡ []
      → c.enabled ≡ true
      → c.allow_all_origins ≡ false
      → c.allow_origins ≡ some (codes "*" ∷ [])
      → c.allow_origin_func ≡ none
      → c.allow_origin_with_context_func ≡ none
      → c.allow_credentials ≡ true
      → is_empty (req.header (codes "Origin")) ≡ false
      → is_schema_allowed scheme_of (normalize c) (req.header (codes "Origin")) ≡ true
      → let g = headers_of (middleware scheme_of c req h) in
        (get_header origin_header g ≡ req.header (codes "Origin"))
        × (get_header credentials_header g ≡ codes "true")
  listed_star-grants c req h o e enabled one star f fc credentials origin scheme =
      let (p, q) = middleware-grants c req h o e in
      let allowed = star-allowed c (req.header (codes "Origin")) one star f fc scheme in
      let (on, cred) = normalized c enabled one credentials in
      (p ∙ ground (arith, allowed, origin, on, cred), q ∙ ground (arith, allowed, origin, on, cred))
