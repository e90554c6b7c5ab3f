-- ===== src/Policy/Claims.antt =====
-- Claim rules fail closed.
use nimburion.Base.{Text, ◌≡◌, Bool, true, false, Option, none, some, arith, is_empty}
use nimburion.Effect.{Result, ok}
use nimburion.Policy.{
  Subject, ClaimRule, ValueResolver, Operator, required, equals, one_of, regex, unsupported,
  operator_of, resolve_subject_value, evaluate_operator, evaluate_claim_rule,
}

evaluate_operator_present :
    (match_string : Text → Text → Result Bool) (o : Operator) (value : Text)
    (resolver : Option ValueResolver) (rule : ClaimRule)
    → evaluate_operator match_string o value resolver rule ≡ ok true
    → is_empty value ≡ false
unfolding evaluate_operator
evaluate_operator_present m required value resolver rule h = ground arith
evaluate_operator_present m equals value none rule h = ground arith
evaluate_operator_present m equals value (some r) rule h = ground arith
evaluate_operator_present m one_of value resolver rule h = ground arith
evaluate_operator_present m regex value resolver rule h = ground arith
evaluate_operator_present m unsupported value resolver rule h = ground arith

-- Whatever its operator, the resolver and the engine of regular expressions, a claim rule never
-- holds for a subject that has no value for its claim.
pub evaluate_claim_rule_present :
    (match_string : Text → Text → Result Bool) (s : Subject) (resolver : Option ValueResolver)
    (rule : ClaimRule)
    → evaluate_claim_rule match_string s resolver rule ≡ ok true
    → is_empty (resolve_subject_value s rule.claim rule.aliases) ≡ false
unfolding evaluate_claim_rule
evaluate_claim_rule_present m s resolver rule h =
    evaluate_operator_present m (operator_of rule.operator)
      (resolve_subject_value s rule.claim rule.aliases) resolver rule h
