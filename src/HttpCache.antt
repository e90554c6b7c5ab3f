-- ===== src/HttpCache.antt =====
-- pkg/http/cache/cache.go: the configuration of the HTTP cache and its check. A number is the
-- position of a rule in an error; a store is there or not.
pub mod Checked
pub mod Keys
pub mod Entries
pub mod Group
pub mod Headers
mod Examples
use nimburion.Base.{
  ℕ, ◌+◌, ◌*◌, Text, codes, List, [], ◌∷◌, ◌++◌, Bool, true, false, not, ◌&&◌, ◌||◌, Option, none,
  some, ℤ, pos, ◌⊎◌, inl, inr, leb_ℤ, ltb_ℤ, is_empty, if◌then◌else◌, trim_space, show_ℕ,
}
use nimburion.Errors.{Err, message}
use nimburion.Retry.{positive_or}

-- A source is a string; `other` is any that is none of the constants.
pub data KeySource : Type 0 where
  static route header query claim tenant subject scope_hash auth_fingerprint : KeySource
  other : Text → KeySource

abbrev pub source_text : KeySource → Text
source_text static = codes "static"
source_text route = codes "route"
source_text header = codes "header"
source_text query = codes "query"
source_text claim = codes "claim"
source_text tenant = codes "tenant"
source_text subject = codes "subject"
source_text scope_hash = codes "scope_hash"
source_text auth_fingerprint = codes "auth_fingerprint"
source_text (other s) = s

pub record KeyRule : Type 0 where
  pub source : KeySource
  pub key : Text
  pub value : Text
  pub name : Text
  pub optional : Bool

pub record Config : Type 0 where
  pub enabled : Bool
  pub has_store : Bool
  pub ttl : ℤ
  pub stale_while_revalidate : ℤ
  pub public : Bool
  pub vary_headers : List Text
  pub bypass_query_param : Text
  pub key_prefix : Text
  pub key_rules : List KeyRule
  pub sensitive : Bool
  pub require_tenant : Bool
  pub require_auth_fingerprint : Bool

unfoldable pub default_config : Config
default_config = record {
  enabled = false;
  has_store = false;
  ttl = pos 30_000_000_000;
  stale_while_revalidate = pos 0;
  public = true;
  vary_headers = [];
  bypass_query_param = codes "__cache_bypass";
  key_prefix = codes "http-cache";
  key_rules = [];
  sensitive = false;
  require_tenant = false;
  require_auth_fingerprint = false;
}

abbrev text_or : Text → Text → Text
text_or s d = if is_empty (trim_space s) then d else s

unfoldable pub normalize_config : Config → Config
unfolding default_config
normalize_config c = record c {
  ttl = positive_or c.ttl default_config.ttl;
  stale_while_revalidate =
      if ltb_ℤ c.stale_while_revalidate (pos 0)
      then default_config.stale_while_revalidate
      else c.stale_while_revalidate;
  key_prefix = text_or c.key_prefix default_config.key_prefix;
  bypass_query_param = text_or c.bypass_query_param default_config.bypass_query_param;
}

abbrev pub is_valid_source : KeySource → Bool
is_valid_source (other _) = false
is_valid_source _ = true

abbrev pub is_static : KeySource → Bool
is_static static = true
is_static _ = false

abbrev pub needs_key : KeySource → Bool
needs_key route = true
needs_key header = true
needs_key query = true
needs_key claim = true
needs_key _ = false

abbrev pub is_tenant : KeySource → Bool
is_tenant tenant = true
is_tenant _ = false

abbrev pub is_auth : KeySource → Bool
is_auth subject = true
is_auth scope_hash = true
is_auth auth_fingerprint = true
is_auth claim = true
is_auth _ = false

abbrev rule_text : ℕ → Text → Text
rule_text idx text = codes "cache key_rules[" ++ (show_ℕ idx ++ (codes "]." ++ text))

unfoldable pub check_rule : ℕ → KeyRule → Option Err
check_rule idx r =
    if not (is_valid_source r.source)
    then some (message (rule_text idx (codes "source is invalid: " ++ source_text r.source)))
    else if is_static r.source && is_empty (trim_space r.value)
    then some (message (rule_text idx (codes "value is required for source=static")))
    else if needs_key r.source && is_empty (trim_space r.key)
    then some
        (message (rule_text idx (codes "key is required for source=" ++ source_text r.source)))
    else none

-- The loop over the rules, with what it has seen; `hasTenant` and `hasAuthDim` at its end.
unfoldable pub check_rules : ℕ → Bool → Bool → List KeyRule → Err ⊎ (Bool × Bool)
unfolding check_rule
check_rules idx has_tenant has_auth [] = inr (has_tenant, has_auth)
check_rules idx has_tenant has_auth (r ∷ rs) =
    let rest =
      check_rules (idx + 1) (has_tenant || is_tenant r.source) (has_auth || is_auth r.source) rs in
    let failure = check_rule idx r in elim failure [ some e ↦ inl e | none ↦ rest ]

abbrev dimensions : Config → Err ⊎ (Bool × Bool) → Option Err
dimensions c (inl failure) = some failure
dimensions c (inr (has_tenant, has_auth)) =
    if (c.sensitive || c.require_tenant) && not has_tenant
    then some (message (codes "cache sensitive route requires tenant key rule"))
    else if (c.sensitive || c.require_auth_fingerprint) && not has_auth
    then some (message (codes "cache sensitive route requires auth fingerprint key rule"))
    else none

unfoldable pub validate_config : Config → Option Err
unfolding check_rules
validate_config c =
    if not c.enabled
    then none
    else if not c.has_store
    then some (message (codes "cache store is required when cache middleware is enabled"))
    else if leb_ℤ c.ttl (pos 0)
    then some (message (codes "cache ttl must be greater than zero"))
    else if ltb_ℤ c.stale_while_revalidate (pos 0)
    then some (message (codes "cache stale_while_revalidate cannot be negative"))
    else dimensions c (check_rules 0 false false c.key_rules)
