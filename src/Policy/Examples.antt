-- ===== src/Policy/Examples.antt =====
-- A subject with two scopes, and rules on its claims.
use nimburion.Base.{Text, codes, [], ◌∷◌, ◌≡◌, refl, Bool, true, false, none, trim_space, lookup}
use nimburion.Effect.{Result, ok}
use nimburion.Policy.{
  Subject, ScopeRequirement, scope_logic_or, ClaimRule, to_lower, candidate_value, is_decisive,
  resolve_candidates, resolve_subject_value, operator_of, evaluate_operator, evaluate_scopes,
  evaluate_claim_rule,
}
use nimburion.Policy.Scopes.{granted, evaluate_scopes-granted}

abbrev subject : Subject
subject = record {
  id = codes "u1";
  tenant_id = codes "acme";
  scopes = codes "read" ∷ codes " write " ∷ [];
  roles = [];
  attrs = (codes "plan", codes "gold") ∷ [];
}

abbrev requirement : ScopeRequirement
requirement = record {
  scopes = codes "write " ∷ codes " " ∷ codes "admin" ∷ [];
  logic = scope_logic_or;
}

evaluate_scopes-granted_example :
    evaluate_scopes subject requirement ≡ granted scope_logic_or subject requirement.scopes
evaluate_scopes-granted_example = evaluate_scopes-granted subject requirement

abbrev rule : ClaimRule
rule = record {
  claim = codes "plan";
  aliases = codes "tier" ∷ [];
  source = [];
  key = [];
  operator = codes " One_Of ";
  values = codes "silver" ∷ codes " gold" ∷ [];
  optional = false;
}

abbrev no_engine : Text → Text → Result Bool
no_engine pattern_ value = ok false

rule_holds : evaluate_claim_rule no_engine subject none rule ≡ ok true
unfolding evaluate_claim_rule operator_of evaluate_operator resolve_subject_value resolve_candidates
    is_decisive candidate_value to_lower trim_space lookup
rule_holds = refl
