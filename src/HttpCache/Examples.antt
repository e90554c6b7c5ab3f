-- ===== src/HttpCache/Examples.antt =====
-- The theorems on the HTTP cache at small requests, and tests of its definitions.
use nimburion.Base.{
  wrap_64, ◌≡◌, refl, ℕ, ◌+◌, Text, codes, [], ◌∷◌, true, false, Option, none, some, ℤ, pos,
  trim_space, arith,
}
use nimburion.Effect.{ok}
use nimburion.CacheStore
use nimburion.CacheStore.{new_in_memory_store}
use nimburion.Http.{to_upper}
use nimburion.HttpCache.{static, KeyRule, Config, default_config, tenant, subject}
use nimburion.HttpCache.Checked.{IsUsable, validate_config-IsUsable_iff}
use nimburion.HttpCache.Keys.{
  Claims, Request, default_rule_name, resolve_rule_value, build_cache_key, query_escape,
  escape_bytes, utf8, encode_rune,
}
use nimburion.HttpCache.Keys.Separation.{tenant_of, tenants_apart, forged_path}
use nimburion.HttpCache.Entries.{
  Response, CacheEntry, Times, leading, entry_of, handle, serve_cached, load,
}
use nimburion.HttpCache.Headers.{should_bypass}
use nimburion.HttpCache.Entries.Serving.{IsCached, handle-hits}
use nimburion.HttpCache.Group.{new_request_group, enter, waits}
use nimburion.HttpCache.Group.Flights.{
  System, new_system, enters, panics, Reaches, here, further, IsSingle, Reaches-IsSingle,
  panicked-waits, count,
}

abbrev same_text : Text → Text
same_text t = t

abbrev alice : Claims
alice = record {
  subject = codes "alice";
  tenant_id = codes "acme";
  issuer = [];
  scopes = [];
  roles = [];
  custom = [];
}

abbrev orders : Request
orders = record {
  method = codes "GET";
  path = codes "/orders";
  encoded_query = [];
  param = λ _. [];
  header = λ _. [];
  query = λ _. [];
  claims = some alice;
}

abbrev tenant_rule : KeyRule
tenant_rule = record { source = tenant; key = []; value = []; name = []; optional = false }

abbrev subject_rule : KeyRule
subject_rule = record { source = subject; key = []; value = []; name = []; optional = false }

abbrev guarded : Config
unfolding default_config
guarded = record default_config {
  enabled = true;
  has_store = true;
  sensitive = true;
  key_rules = tenant_rule ∷ subject_rule ∷ [];
}

guarded-IsUsable : IsUsable guarded
unfolding default_config
guarded-IsUsable = record {
  store = refl;
  lasts = omega arith;
  stale = omega arith;
  rules = (
    record { known = refl; valued = λ h. cc; keyed = λ h. cc },
    (record { known = refl; valued = λ h. cc; keyed = λ h. cc }, tt),
  );
  tenant = λ h. refl;
  auth = λ h. refl;
}

abbrev orders_key : Text
orders_key = codes "http-cache:method=GET:path=/orders:tenant=acme:subject=alice"

orders_keyed : build_cache_key same_text guarded orders ≡ ok orders_key
unfolding build_cache_key default_config resolve_rule_value trim_space to_upper default_rule_name
    query_escape escape_bytes utf8 encode_rune
orders_keyed = refl

tenants_apart_example : tenant_of orders ≡ tenant_of orders
unfolding default_config
tenants_apart_example =
    tenants_apart same_text guarded orders orders orders_key refl refl
      ((validate_config-IsUsable_iff guarded refl).1 guarded-IsUsable) (refl, (refl, tt))
      orders_keyed orders_keyed

abbrev loose_rule : KeyRule
loose_rule = record tenant_rule { optional = true }

abbrev version_rule : KeyRule
version_rule = record {
  source = static;
  key = [];
  value = codes "v1";
  name = codes "version";
  optional = false;
}

abbrev loose : Config
loose = record guarded { key_rules = loose_rule ∷ version_rule ∷ [] }

-- Without claims, at a path that spells the rule.
abbrev forged : Request
forged = record orders { claims = none; path = codes "/orders:tenant=acme" }

forged_path_example :
    build_cache_key same_text loose forged ≡ build_cache_key same_text loose orders
unfolding default_config resolve_rule_value query_escape escape_bytes utf8 encode_rune
    default_rule_name trim_space
forged_path_example =
    forged_path same_text loose loose_rule (version_rule ∷ []) orders forged (codes "acme") refl
      refl refl refl (refl, tt) refl refl

query_escape_test : query_escape (codes "a b:é") ≡ codes "a+b%3A%C3%A9"
unfolding query_escape escape_bytes utf8 encode_rune
query_escape_test = refl

-- Two requests for a key: the first leads and panics, the second waits.
abbrev key_a : Text
key_a = codes "a"

abbrev led : System ℕ
unfolding enter
led = record new_system { group = (enter key_a new_request_group).1; running = (key_a, 0) ∷ [] }

abbrev fallen : System ℕ
fallen = record led { running = []; panicked = (key_a, 0) ∷ [] }

Reaches-fallen : Reaches {A = ℕ} new_system fallen
unfolding enter
Reaches-fallen =
    further (further here (enters new_system key_a 0 refl)) (panics led key_a 0 [] [] refl)

Reaches-IsSingle_example : IsSingle fallen
Reaches-IsSingle_example = Reaches-IsSingle Reaches-fallen

panicked-waits_example :
    (call : ℕ) × ((enter key_a fallen.group).0 ≡ waits call)
    × (count key_a fallen.running + count key_a fallen.settled ≡ 0)
panicked-waits_example = panicked-waits key_a Reaches-fallen (omega arith) here

-- A handler whose answer is kept for the next request.
abbrev orders_response : Response
orders_response = record { status = 200; headers = []; body = codes "[]" }

abbrev one_encoded : CacheEntry → Option Text
one_encoded e = some (codes "entry")

abbrev no_seconds : ℤ → ℤ
no_seconds d = pos 30

abbrev at_zero : Times
at_zero = record { fresh_at = pos 0; stale_at = pos 0; set_at = pos 0 }

abbrev orders_entry : CacheEntry
unfolding entry_of default_config
orders_entry =
    entry_of same_text same_text no_seconds one_encoded (λ _. none) guarded orders_response at_zero

-- The only text that was ever encoded.
abbrev one_decoded : Text → Option CacheEntry
one_decoded raw = some orders_entry

orders-IsCached :
    IsCached same_text same_text no_seconds one_encoded one_decoded guarded orders orders_key
unfolding default_config trim_space to_upper should_bypass
orders-IsCached = record {
  enabled = refl;
  cacheable = refl;
  looked_up = refl;
  keyed = orders_keyed;
}

handle-hits_example :
    handle same_text same_text no_seconds one_encoded one_decoded guarded orders []
      (λ _. ok orders_response)
      false
      leading
      (pos 7)
      (pos 7)
      at_zero
      (handle same_text same_text no_seconds one_encoded one_decoded guarded orders []
        (λ _. ok orders_response)
        false
        leading
        (pos 0)
        (pos 0)
        at_zero
        new_in_memory_store).1
    ≡ (
      ok (
          serve_cached same_text same_text no_seconds one_encoded one_decoded guarded orders []
            (entry_of same_text same_text no_seconds one_encoded one_decoded guarded orders_response
              at_zero)
            (codes "HIT")),
      (handle same_text same_text no_seconds one_encoded one_decoded guarded orders []
          (λ _. ok orders_response)
          false
          leading
          (pos 0)
          (pos 0)
          at_zero
          new_in_memory_store).1,
    )
unfolding default_config entry_of load CacheStore.get wrap_64
handle-hits_example =
    handle-hits same_text same_text no_seconds one_encoded one_decoded guarded orders orders
      orders_key (codes "entry") [] [] (λ _. ok orders_response) (λ _. ok orders_response) false
      false leading (pos 0) (pos 0) (pos 7) (pos 7) at_zero at_zero new_in_memory_store
      new_in_memory_store orders_response orders-IsCached orders-IsCached refl refl refl refl refl
      (omega arith) (omega arith) (omega arith)
