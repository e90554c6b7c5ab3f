-- ===== src/Csrf.antt =====
-- pkg/http/csrf/csrf.go: the middleware that compares the token of a request with that of its
-- session. The random token, the time and int(CookieTTL.Seconds()) are arguments. Texts are ASCII.
pub mod Tokens
mod Examples
use nimburion.Base.{
  Text, codes, List, [], ◌∷◌, Bool, true, false, not, ◌&&◌, ◌||◌, Option, none, some, ℤ, pos, ◌+ℤ◌,
  leb_ℤ, any, is_empty, eq_text, trim_space, if◌then◌else◌, lookup, insert,
}
use nimburion.Errors.{Err, message}
use nimburion.Effect.{Result, ok, err}
use nimburion.Http.{starts_with, to_upper, to_lower}

pub record Config : Type 0 where
  pub enabled : Bool
  pub header_name : Text
  pub cookie_name : Text
  pub cookie_path : Text
  pub cookie_domain : Text
  pub cookie_secure : Bool
  pub cookie_same_site : Text
  pub cookie_ttl : ℤ
  pub exempt_methods : List Text
  pub exempt_paths : List Text

unfoldable pub default_config : Config
default_config = record {
  enabled = false;
  header_name = codes "X-CSRF-Token";
  cookie_name = codes "XSRF-TOKEN";
  cookie_path = codes "/";
  cookie_domain = [];
  cookie_secure = true;
  cookie_same_site = codes "lax";
  cookie_ttl = pos 43_200_000_000_000;
  exempt_methods = codes "GET" ∷ codes "HEAD" ∷ codes "OPTIONS" ∷ codes "TRACE" ∷ [];
  exempt_paths = [];
}

abbrev text_or : Text → Text → Text
text_or s d = if is_empty (trim_space s) then d else s

unfoldable pub normalize_config : Config → Config
unfolding default_config trim_space
normalize_config c = record c {
  header_name = text_or c.header_name default_config.header_name;
  cookie_name = text_or c.cookie_name default_config.cookie_name;
  cookie_path = text_or c.cookie_path default_config.cookie_path;
  cookie_same_site = text_or c.cookie_same_site default_config.cookie_same_site;
  cookie_ttl = if leb_ℤ c.cookie_ttl (pos 0) then default_config.cookie_ttl else c.cookie_ttl;
  exempt_methods =
      if is_empty c.exempt_methods then default_config.exempt_methods else c.exempt_methods;
}

pub record Request : Type 0 where
  pub method : Text
  pub path : Text
  pub header : Text → Text

unfoldable pub is_exempt : Config → Request → Bool
unfolding to_upper trim_space
is_exempt c req =
    let method = to_upper (trim_space req.method) in
    any (λ exempt. eq_text (to_upper (trim_space exempt)) method) c.exempt_methods
    || any
        (λ exempt.
          let prefix = trim_space exempt in not (is_empty prefix) && starts_with prefix req.path)
        c.exempt_paths

pub data SameSite : Type 0 where
  lax_mode strict_mode none_mode : SameSite

unfoldable pub parse_same_site : Text → SameSite
unfolding to_lower trim_space
parse_same_site value =
    let word = to_lower (trim_space value) in
    if eq_text word (codes "strict")
    then strict_mode
    else if eq_text word (codes "none")
    then none_mode
    else lax_mode

pub record Cookie : Type 0 where
  pub name : Text
  pub value : Text
  pub path : Text
  pub domain : Text
  pub secure : Bool
  pub http_only : Bool
  pub same_site : SameSite
  pub max_age : ℤ
  pub expires : ℤ

unfoldable pub csrf_cookie : Config → Text → ℤ → ℤ → Cookie
unfolding parse_same_site ◌+ℤ◌
csrf_cookie c token seconds now = record {
  name = c.cookie_name;
  value = token;
  path = c.cookie_path;
  domain = c.cookie_domain;
  secure = c.cookie_secure;
  http_only = false;
  same_site = parse_same_site c.cookie_same_site;
  max_age = seconds;
  expires = now +ℤ c.cookie_ttl;
}

abbrev pub session_token_key : Text
session_token_key = codes "csrf_token"

abbrev pub Session : Type 0
Session = List (Text × Text)

-- The header of the configuration, or else X-XSRF-Token.
unfoldable pub sent_token : Config → Request → Text
unfolding trim_space
sent_token c req =
    let sent = trim_space (req.header c.header_name) in
    if is_empty sent then trim_space (req.header (codes "X-XSRF-Token")) else sent

abbrev renewed_token : Session → Result Text → Result (Text × Session)
renewed_token s (err e) = err e
renewed_token s (ok token) = ok (token, insert session_token_key token s)

abbrev token_found : Session → Result Text → Option Text → Result (Text × Session)
token_found s generated none = renewed_token s generated
token_found s generated (some token) =
    if is_empty (trim_space token) then renewed_token s generated else ok (token, s)

-- The token of the session, or a new one.
unfoldable pub session_token : Session → Result Text → Result (Text × Session)
unfolding lookup insert trim_space
session_token s generated = token_found s generated (lookup session_token_key s)

-- An error, an answer of status 403, or the next handler; with the session and the cookie sent.
pub data Outcome : Type 0 where
  failed : Err → Outcome
  untouched : Outcome
  forbidden passed : Session → Cookie → Outcome

abbrev guarded : Config → Request → ℤ → ℤ → Result (Text × Session) → Outcome
guarded c req seconds now (err e) = failed e
guarded c req seconds now (ok (token, s)) =
    let cookie = csrf_cookie c token seconds now in
    let sent = sent_token c req in
    if is_exempt c req
    then passed s cookie
    else if is_empty sent || not (eq_text sent token)
    then forbidden s cookie
    else passed s cookie

abbrev with_session : Config → Request → Option Session → Result Text → ℤ → ℤ → Outcome
with_session c req none generated seconds now =
    failed (message (codes "csrf middleware requires session middleware"))
with_session c req (some s) generated seconds now =
    guarded c req seconds now (session_token s generated)

unfoldable pub middleware : Config → Request → Option Session → Result Text → ℤ → ℤ → Outcome
unfolding normalize_config session_token csrf_cookie sent_token is_exempt
middleware given req session generated seconds now =
    let c = normalize_config given in
    if not c.enabled then untouched else with_session c req session generated seconds now
