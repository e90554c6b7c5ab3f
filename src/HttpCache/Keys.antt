-- ===== src/HttpCache/Keys.antt =====
-- pkg/http/cache/cache.go: the key under which a response is cached, with url.QueryEscape. Texts are
-- valid UTF-8, and an escape is made of their bytes. The hexadecimal form of the first eight bytes
-- of a SHA-256 digest is a parameter.
mod Runes
mod Pieces
mod Appending
pub mod Separation
use nimburion.Base.{
  ℕ, ◌+◌, ◌-◌, ◌/◌, ◌%◌, Text, codes, List, [], ◌∷◌, ◌++◌, reverse, Bool, true, false, ◌&&◌, ◌||◌,
  Option, none, some, ltb, leb, ◌==◌, eq_text, any, is_empty, if◌then◌else◌, trim_space, lookup,
}
use nimburion.Errors.{Err, message}
use nimburion.Effect.{Result, ok, err}
use nimburion.Http.{to_upper}
use nimburion.Policy.{join, to_lower}
use nimburion.Version.{less_text}
use nimburion.HttpCache.{
  KeySource, static, route, header, query, claim, tenant, subject, scope_hash, auth_fingerprint,
  other, KeyRule, Config, source_text,
}

-- The claims that the key reads; a custom claim with what fmt prints for it.
pub record Claims : Type 0 where
  pub subject : Text
  pub tenant_id : Text
  pub issuer : Text
  pub scopes : List Text
  pub roles : List Text
  pub custom : List (Text × Text)

-- What the key reads of a request: c.Param, Header.Get, c.Query, and url.Values.Encode of its query.
pub record Request : Type 0 where
  pub method : Text
  pub path : Text
  pub encoded_query : Text
  pub param : Text → Text
  pub header : Text → Text
  pub query : Text → Text
  pub claims : Option Claims

abbrev pub is_unreserved : ℕ → Bool
is_unreserved c =
    (leb b'a' c && leb c b'z')
    || (leb b'A' c && leb c b'Z')
    || (leb b'0' c && leb c b'9')
    || (c == b'-')
    || (c == b'_')
    || (c == b'.')
    || (c == b'~')

abbrev pub upper_hex : ℕ → ℕ
upper_hex d = if ltb d 10 then 48 + d else 55 + d

-- The bytes of a character in UTF-8.
unfoldable pub encode_rune : ℕ → Text
encode_rune c =
    if ltb c 128
    then c ∷ []
    else if ltb c 2048
    then (192 + c / 64) ∷ (128 + c % 64) ∷ []
    else if ltb c 65536
    then (224 + c / 4096) ∷ (128 + c / 64 % 64) ∷ (128 + c % 64) ∷ []
    else (240 + c / 262144) ∷ (128 + c / 4096 % 64) ∷ (128 + c / 64 % 64) ∷ (128 + c % 64) ∷ []

unfoldable pub utf8 : Text → Text
unfolding encode_rune
utf8 [] = []
utf8 (c ∷ s) = encode_rune c ++ utf8 s

unfoldable pub escape_bytes : Text → Text
escape_bytes [] = []
escape_bytes (c ∷ s) =
    let rest = escape_bytes s in
    if is_unreserved c
    then c ∷ rest
    else if c == 32
    then b'+' ∷ rest
    else b'%' ∷ upper_hex (c / 16) ∷ upper_hex (c % 16) ∷ rest

-- url.QueryEscape
unfoldable pub query_escape : Text → Text
unfolding escape_bytes utf8
query_escape s = escape_bytes (utf8 s)

-- sort.Strings
unfoldable pub insert_sorted : Text → List Text → List Text
insert_sorted t [] = t ∷ []
insert_sorted t (s ∷ ss) =
    let rest = insert_sorted t ss in if less_text s t then s ∷ rest else t ∷ s ∷ ss

unfoldable pub sort_strings : List Text → List Text
unfolding insert_sorted
sort_strings [] = []
sort_strings (t ∷ ts) = insert_sorted t (sort_strings ts)

abbrev drop_bars : Text → Text
drop_bars [] = []
drop_bars (c ∷ s) = if c == b'|' then drop_bars s else c ∷ s

-- strings.Trim(raw, "|")
unfoldable pub trim_bars : Text → Text
trim_bars s = reverse (drop_bars (reverse (drop_bars s)))

abbrev or_empty : Option Text → Text
or_empty (some v) = v
or_empty none = []

unfoldable pub claim_value : Claims → Text → Text
unfolding lookup join to_lower
claim_value c key =
    let word = to_lower (trim_space key) in
    let is = λ (t : Text). eq_text word t in
    if is (codes "sub") || is (codes "subject")
    then c.subject
    else if is (codes "tenant") || is (codes "tenant_id") || is (codes "tenantid")
    then c.tenant_id
    else if is (codes "iss") || is (codes "issuer")
    then c.issuer
    else if is (codes "scope") || is (codes "scopes")
    then join (codes " ") c.scopes
    else if is (codes "roles") || is (codes "role")
    then join (codes ",") c.roles
    else or_empty (lookup key c.custom)

unfoldable pub default_rule_name : KeyRule → Text
unfolding to_lower
default_rule_name r = name r.source
  where
    name : KeySource → Text
    name route = codes "route." ++ r.key
    name header = codes "header." ++ to_lower r.key
    name query = codes "query." ++ r.key
    name claim = codes "claim." ++ r.key
    name s = source_text s

abbrev pub rule_name : KeyRule → Text
rule_name r = let named = trim_space r.name in if is_empty named then default_rule_name r else named

abbrev pub present : Text → Option Text
present v = if is_empty v then none else some v

abbrev pub from_claims : Option Claims → (Claims → Text) → Option Text
from_claims none f = none
from_claims (some c) f = present (f c)

abbrev pub part_of : KeyRule → Text → Text
part_of r value = rule_name r ++ (b'=' ∷ query_escape value)

abbrev pub missing_rule : KeyRule → Err
missing_rule r = message (
    codes "missing required cache key rule for source="
    ++ (source_text r.source ++ (codes " key=" ++ r.key)))

module _ (digest : Text → Text) where
  unfoldable pub scopes_digest : List Text → Text
  unfolding sort_strings join
  scopes_digest scopes =
      if is_empty scopes then [] else digest (join (codes ",") (sort_strings scopes))

  unfoldable pub fingerprint : Claims → Text
  unfolding scopes_digest trim_bars join
  fingerprint c =
      let raw = trim_bars (
        join (codes "|")
          (trim_space c.subject ∷ trim_space c.tenant_id ∷ scopes_digest c.scopes ∷ [])) in
      if is_empty raw then [] else digest raw

  -- The value of a source, with the rule's key and value.
  abbrev source_value : Request → KeySource → Text → Text → Option Text
  source_value req static key value = present (trim_space value)
  source_value req route key value = present (trim_space (req.param key))
  source_value req header key value = present (trim_space (req.header key))
  source_value req query key value = present (trim_space (req.query key))
  source_value req claim key value = from_claims req.claims (λ c. trim_space (claim_value c key))
  source_value req tenant key value = from_claims req.claims (λ c. trim_space c.tenant_id)
  source_value req subject key value = from_claims req.claims (λ c. trim_space c.subject)
  source_value req scope_hash key value = from_claims req.claims (λ c. scopes_digest c.scopes)
  source_value req auth_fingerprint key value = from_claims req.claims fingerprint
  source_value req (other _) key value = none

  unfoldable pub resolve_rule_value : Request → KeyRule → Option Text
  resolve_rule_value req r = source_value req r.source r.key r.value

  -- The loop over the rules, with the parts so far.
  unfoldable pub append_parts : Request → List KeyRule → List Text → Result (List Text)
  append_parts req [] parts = ok parts
  append_parts req (r ∷ rs) parts = elim (resolve_rule_value req r) [
    | some value ↦ append_parts req rs (parts ++ (part_of r value ∷ []))
    | none ↦
        let skipped = append_parts req rs parts in
        if r.optional then skipped else err (missing_rule r)
  ]

  abbrev joined_parts : Result (List Text) → Result Text
  joined_parts (ok parts) = ok (join (codes ":") parts)
  joined_parts (err e) = err e

  unfoldable pub build_cache_key : Config → Request → Result Text
  unfolding append_parts join
  build_cache_key c req =
      if is_empty c.key_rules
      then ok (join (codes ":") (c.key_prefix ∷ req.method ∷ req.path ∷ req.encoded_query ∷ []))
      else joined_parts (
          append_parts req c.key_rules (
            c.key_prefix
            ∷ (codes "method=" ++ to_upper req.method)
            ∷ (codes "path=" ++ req.path)
            ∷ []))
