-- ===== src/Cors.antt =====
-- pkg/http/cors/cors.go: the middleware for requests across origins. The functions of the
-- configuration are those for the context of the request; the scheme of an origin is what url.Parse
-- finds, none where it fails. Texts are ASCII.
pub mod Origins
mod Wildcards
mod Examples
use nimburion.Base.{
  split_on, ℕ, ◌+◌, ◌/◌, Text, codes, List, [], ◌∷◌, ◌++◌, map, reverse, Bool, true, false, not,
  ◌&&◌, ◌||◌, Option, none, some, ℤ, pos, ltb_ℤ, eq_ℤ, pos_part, ◌==◌, eq_text, any, is_empty,
  if◌then◌else◌, trim_space, show_ℕ,
}
use nimburion.Effect.{Result}
use nimburion.Policy.{join}
use nimburion.Http.{Headers, get_header, set_header, starts_with, to_upper, to_lower, equal_fold}

-- A slice is none where it is nil.
pub record Config : Type 0 where
  pub enabled : Bool
  pub allow_all_origins : Bool
  pub allow_origins : Option (List Text)
  pub allow_origin_func : Option (Text → Bool)
  pub allow_origin_with_context_func : Option (Text → Bool)
  pub allow_methods : Option (List Text)
  pub allow_private_network : Bool
  pub allow_headers : Option (List Text)
  pub allow_credentials : Bool
  pub expose_headers : Option (List Text)
  pub max_age : ℤ
  pub allow_wildcard : Bool
  pub allow_browser_extensions : Bool
  pub custom_schemas : Option (List Text)
  pub allow_web_sockets : Bool
  pub allow_files : Bool
  pub options_response_status_code : ℕ

unfoldable pub default_config : Config
default_config = record {
  enabled = false;
  allow_all_origins = false;
  allow_origins = some [];
  allow_origin_func = none;
  allow_origin_with_context_func = none;
  allow_methods = some (
      codes "GET"
      ∷ codes "POST"
      ∷ codes "PUT"
      ∷ codes "PATCH"
      ∷ codes "DELETE"
      ∷ codes "HEAD"
      ∷ codes "OPTIONS"
      ∷ []);
  allow_private_network = false;
  allow_headers = some [];
  allow_credentials = false;
  expose_headers = some [];
  max_age = pos 43_200_000_000_000;
  allow_wildcard = false;
  allow_browser_extensions = false;
  custom_schemas = some [];
  allow_web_sockets = false;
  allow_files = false;
  options_response_status_code = 204;
}

abbrev pub items_of : Option (List Text) → List Text
items_of none = []
items_of (some items) = items

-- A slice or its default, each item changed.
abbrev pub tidied : (Text → Text) → Option (List Text) → Option (List Text) → Option (List Text)
tidied f none default_items = some (map f (items_of default_items))
tidied f (some items) default_items = some (map f items)

unfoldable pub normalize : Config → Config
unfolding default_config to_upper to_lower trim_space
normalize c = record c {
  allow_origins = tidied trim_space c.allow_origins default_config.allow_origins;
  allow_methods =
      tidied (λ s. to_upper (trim_space s)) c.allow_methods default_config.allow_methods;
  allow_headers = tidied trim_space c.allow_headers default_config.allow_headers;
  expose_headers = tidied trim_space c.expose_headers default_config.expose_headers;
  custom_schemas =
      tidied (λ s. to_lower (trim_space s)) c.custom_schemas default_config.custom_schemas;
  options_response_status_code =
      if c.options_response_status_code == 0
      then default_config.options_response_status_code
      else c.options_response_status_code;
  max_age = if eq_ℤ c.max_age (pos 0) then default_config.max_age else c.max_age;
  allow_credentials = if c.allow_all_origins then false else c.allow_credentials;
}

-- What the middleware reads of a request.
pub record Request : Type 0 where
  pub method : Text
  pub header : Text → Text

unfoldable pub is_preflight : Request → Bool
is_preflight req =
    eq_text req.method (codes "OPTIONS")
    && not (is_empty (req.header (codes "Access-Control-Request-Method")))

abbrev is_one_of : Text → List Text → Bool
is_one_of s words = any (λ w. eq_text w s) words

abbrev pub allows_scheme : Config → Text → Bool
allows_scheme c scheme =
    is_one_of scheme (codes "http" ∷ codes "https" ∷ [])
    || (c.allow_web_sockets && is_one_of scheme (codes "ws" ∷ codes "wss" ∷ []))
    || (c.allow_files && is_one_of scheme (codes "file" ∷ []))
    || (c.allow_browser_extensions
        && is_one_of scheme (
            codes "chrome-extension"
            ∷ codes "moz-extension"
            ∷ codes "safari-web-extension"
            ∷ codes "ms-browser-extension"
            ∷ []))
    || is_one_of scheme (items_of c.custom_schemas)

abbrev count_stars : Text → ℕ
count_stars [] = 0
count_stars (c ∷ s) = let rest = count_stars s in (if c == b'*' then 1 else 0) + rest

-- parts[0] and parts[1] of a Split at the stars.
abbrev two_parts : List Text → Text × Text
two_parts (prefix ∷ suffix ∷ _) = (prefix, suffix)
two_parts (prefix ∷ []) = (prefix, [])
two_parts [] = ([], [])

-- strings.HasSuffix
unfoldable pub ends_with : Text → Text → Bool
ends_with suffix s = starts_with (reverse suffix) (reverse s)

unfoldable pub wildcard_match : Text → Text → Bool
unfolding split_on ends_with
wildcard_match pattern value =
    let (prefix, suffix) = two_parts (split_on b'*' pattern) in
    if is_empty pattern || not (count_stars pattern == 1)
    then false
    else starts_with prefix value && ends_with suffix value

-- One round of the loop over the allowed origins.
abbrev pub allows : Config → Text → Text → Bool
allows c origin allowed =
    eq_text allowed (codes "*")
    || equal_fold allowed origin
    || (c.allow_wildcard && wildcard_match allowed origin)

unfoldable pub is_allow_all_origins_list : Config → Bool
unfolding trim_space
is_allow_all_origins_list c =
    any (λ allowed. eq_text (trim_space allowed) (codes "*")) (items_of c.allow_origins)

abbrev allow_origin : Text → Headers → Headers
allow_origin value h = set_header (codes "Access-Control-Allow-Origin") value h

unfoldable pub set_origin_headers : Config → Text → Headers → Headers
unfolding is_allow_all_origins_list set_header
set_origin_headers c origin h =
    if c.allow_credentials
    then set_header (codes "Access-Control-Allow-Credentials") (codes "true")
        (allow_origin origin h)
    else if c.allow_all_origins || is_allow_all_origins_list c
    then allow_origin (codes "*") h
    else allow_origin origin h

unfoldable pub append_vary : Text → Headers → Headers
unfolding get_header set_header split_on equal_fold trim_space
append_vary value h =
    let current = get_header (codes "Vary") h in
    if is_empty current
    then set_header (codes "Vary") value h
    else if any (λ part. equal_fold (trim_space part) value) (split_on b',' current)
    then h
    else set_header (codes "Vary") (current ++ (codes ", " ++ value)) h

unfoldable pub apply_vary : Headers → Headers
unfolding append_vary
apply_vary h =
    append_vary (codes "Access-Control-Request-Headers")
      (append_vary (codes "Access-Control-Request-Method") (append_vary (codes "Origin") h))

-- Only a positive duration comes here.
unfoldable pub format_max_age : ℤ → Text
unfolding show_ℕ
format_max_age d = if ltb_ℤ d (pos 0) then codes "0" else show_ℕ (pos_part d / 1_000_000_000)

-- The middleware has answered with a status, or the next handler runs with these headers.
pub data Outcome : Type 0 where
  answered : ℕ → Headers → Outcome
  passed : Headers → Outcome

abbrev exposed : Config → Headers → Headers
exposed c h =
    if is_empty (items_of c.expose_headers)
    then h
    else set_header (codes "Access-Control-Expose-Headers")
        (join (codes ", ") (items_of c.expose_headers)) h

abbrev request_headers : Config → Request → Headers → Headers
request_headers c req h =
    let requested = req.header (codes "Access-Control-Request-Headers") in
    let allow_headers =
      λ (value : Text). set_header (codes "Access-Control-Allow-Headers") value h in
    if not (is_empty (items_of c.allow_headers))
    then allow_headers (join (codes ", ") (items_of c.allow_headers))
    else if is_empty requested
    then h
    else allow_headers requested

abbrev aged : Config → Headers → Headers
aged c h =
    if ltb_ℤ (pos 0) c.max_age
    then set_header (codes "Access-Control-Max-Age") (format_max_age c.max_age) h
    else h

abbrev networked : Config → Request → Headers → Headers
networked c req h =
    if c.allow_private_network
      && equal_fold (req.header (codes "Access-Control-Request-Private-Network")) (codes "true")
    then set_header (codes "Access-Control-Allow-Private-Network") (codes "true") h
    else h

abbrev preflighted : Config → Request → Headers → Headers
preflighted c req h = networked c req (
    aged c (
      request_headers c req (
        set_header (codes "Access-Control-Allow-Methods")
          (join (codes ", ") (items_of c.allow_methods)) h)))

module _ (scheme_of : Text → Option Text) where
  abbrev scheme_allowed : Config → Option Text → Bool
  scheme_allowed c none = false
  scheme_allowed c (some parsed) =
      let scheme = to_lower (trim_space parsed) in not (is_empty scheme) && allows_scheme c scheme

  unfoldable pub is_schema_allowed : Config → Text → Bool
  unfolding to_lower trim_space
  is_schema_allowed c origin = scheme_allowed c (scheme_of origin)

  abbrev by_list : Config → Text → Bool
  by_list c origin = is_schema_allowed c origin && any (allows c origin) (items_of c.allow_origins)

  abbrev by_origin : Config → Text → Option (Text → Bool) → Bool
  by_origin c origin (some f) = f origin
  by_origin c origin none =
      if c.allow_all_origins then is_schema_allowed c origin else by_list c origin

  abbrev by_context : Config → Text → Option (Text → Bool) → Bool
  by_context c origin (some f) = f origin
  by_context c origin none = by_origin c origin c.allow_origin_func

  unfoldable pub is_origin_allowed : Config → Text → Bool
  unfolding is_schema_allowed equal_fold wildcard_match
  is_origin_allowed c origin = by_context c origin c.allow_origin_with_context_func

  abbrev without_context : Config → Text → Option (Text → Bool) → Option (Text → Bool) → Bool
  without_context c origin none f = is_origin_allowed c origin
  without_context c origin (some _) (some f) = f origin
  without_context c origin (some _) none = false

  unfoldable pub allows_origin : Config → Text → Bool
  unfolding normalize is_origin_allowed
  allows_origin c origin =
      let n = normalize c in
      without_context n origin n.allow_origin_with_context_func n.allow_origin_func

  abbrev pub crossed : Config → Request → Text → Headers → Outcome
  crossed c req origin h =
      let h' = exposed c (set_origin_headers c origin (apply_vary h)) in
      if not (is_origin_allowed c origin)
      then if is_preflight req then answered 403 h else passed h
      else if is_preflight req
      then answered c.options_response_status_code (preflighted c req h')
      else passed h'

  -- `c` is the configuration as it was given; `h` the headers of the response so far.
  unfoldable pub middleware : Config → Request → Headers → Outcome
  unfolding normalize is_origin_allowed is_preflight apply_vary set_origin_headers set_header join
      format_max_age equal_fold
  middleware c req h =
      let n = normalize c in
      let origin = req.header (codes "Origin") in
      if not n.enabled || is_empty origin then passed h else crossed n req origin h
