-- ===== src/Policy.antt =====
-- pkg/policy/policy.go: required scopes and claim rules. The resolver of values and the engine of
-- regular expressions are parameters.
pub mod Scopes
pub mod Claims
mod Examples
use nimburion.Base.{
  ℕ, ◌+◌, Text, codes, List, [], ◌∷◌, ◌++◌, Bool, true, false, not, ◌&&◌, ◌||◌, Option, none, some,
  leb, ◌==◌, any, is_empty, eq_text, trim_space, lookup, if◌then◌else◌,
}
use nimburion.Errors.{Err, message}
use nimburion.Effect.{Result, ok, err}

pub record Subject : Type 0 where
  pub id : Text
  pub tenant_id : Text
  pub scopes : List Text
  pub roles : List Text
  pub attrs : List (Text × Text)

pub data ScopeLogic : Type 0 where
  scope_logic_and scope_logic_or : ScopeLogic

pub record ScopeRequirement : Type 0 where
  pub scopes : List Text
  pub logic : ScopeLogic

abbrev pub member : Text → List Text → Bool
member t seen = any (eq_text t) seen

-- The loop of normalizeStrings, with the set of the values kept so far.
unfoldable pub normalize_loop : List Text → List Text → List Text
normalize_loop seen [] = []
normalize_loop seen (value ∷ values) =
    let trimmed = trim_space value in
    let skipped = normalize_loop seen values in
    let kept = normalize_loop (trimmed ∷ seen) values in
    if is_empty trimmed then skipped else if member trimmed seen then skipped else trimmed ∷ kept

unfoldable pub normalize_strings : List Text → List Text
normalize_strings values = normalize_loop [] values

-- The loops over the required scopes, given the set of the subject's.
abbrev satisfies : ScopeLogic → List Text → List Text → Bool
satisfies scope_logic_or set required = any (λ r. member r set) required
satisfies scope_logic_and set required = not (any (λ r. not (member r set)) required)

unfoldable pub evaluate_scopes : Subject → ScopeRequirement → Bool
evaluate_scopes s r =
    let required = normalize_strings r.scopes in
    if is_empty required then true else satisfies r.logic (normalize_strings s.scopes) required

-- strings.ToLower, as far as the result is compared with words of ASCII letters: beside A to Z,
-- the only characters with an ASCII lower case are U+0130 and U+212A.
abbrev lower : ℕ → ℕ
lower c =
    if leb b'A' c && leb c b'Z'
    then c + 32
    else if c == 0x130
    then b'i'
    else if c == 0x212a
    then b'k'
    else c

unfoldable pub to_lower : Text → Text
to_lower [] = []
to_lower (c ∷ s) = lower c ∷ to_lower s

-- strings.Join
unfoldable pub join : Text → List Text → Text
join mark [] = []
join mark (s ∷ []) = s
join mark (s ∷ t ∷ ts) = s ++ (mark ++ join mark (t ∷ ts))

-- The value that one candidate names; empty where the switch goes on to the next candidate.
unfoldable pub candidate_value : Subject → Text → Text
candidate_value s candidate =
    let word = to_lower (trim_space candidate) in
    if eq_text word (codes "tenant_id")
    then s.tenant_id
    else if eq_text word (codes "subject")
    then s.id
    else if eq_text word (codes "roles")
    then join (codes ",") s.roles
    else if eq_text word (codes "scopes")
    then join (codes " ") s.scopes
    else trim_space (elim (lookup (trim_space candidate) s.attrs) [ none ↦ [] | some v ↦ v ])

-- Whether the loop returns at the candidate: a list that is not empty counts although its texts
-- may be.
unfoldable pub is_decisive : Subject → Text → Bool
unfolding candidate_value
is_decisive s candidate =
    let word = to_lower (trim_space candidate) in
    if eq_text word (codes "roles")
    then not (is_empty s.roles)
    else if eq_text word (codes "scopes")
    then not (is_empty s.scopes)
    else not (is_empty (candidate_value s candidate))

unfoldable pub resolve_candidates : Subject → List Text → Text
resolve_candidates s [] = []
resolve_candidates s (c ∷ cs) =
    let rest = resolve_candidates s cs in if is_decisive s c then candidate_value s c else rest

unfoldable pub resolve_subject_value : Subject → Text → List Text → Text
resolve_subject_value s name aliases = resolve_candidates s (name ∷ aliases)

pub record ClaimRule : Type 0 where
  pub claim : Text
  pub aliases : List Text
  pub source : Text
  pub key : Text
  pub operator : Text
  pub values : List Text
  pub optional : Bool

pub data Operator : Type 0 where
  required equals one_of regex unsupported : Operator

-- The operator of a rule; an empty one is `required`.
unfoldable pub operator_of : Text → Operator
operator_of t =
    let word = to_lower (trim_space t) in
    if is_empty word
    then required
    else if eq_text word (codes "required")
    then required
    else if eq_text word (codes "equals")
    then equals
    else if eq_text word (codes "one_of")
    then one_of
    else if eq_text word (codes "regex")
    then regex
    else unsupported

-- A resolver maps a source and a key to a value.
abbrev pub ValueResolver : Type 0
ValueResolver = Text → Text → Result Text

module _ (match_string : Text → Text → Result Bool) where
  equal_to : Text → Result Text → Result Bool
  equal_to value (err e) = err e
  equal_to value (ok expected) = ok (not (is_empty value) && eq_text value expected)

  match_first : List Text → Text → Result Bool
  match_first [] value = err (message (codes "regex operator requires one pattern in values"))
  match_first (p ∷ ps) value =
      if is_empty (trim_space p)
      then err (message (codes "regex operator requires one pattern in values"))
      else match_string (trim_space p) value

  -- The `switch` on the operator.
  unfoldable pub evaluate_operator :
      Operator → Text → Option ValueResolver → ClaimRule → Result Bool
  unfolding equal_to match_first
  evaluate_operator required value resolver rule = ok (not (is_empty value))
  evaluate_operator equals value none rule = err (message (codes "value resolver is required"))
  evaluate_operator equals value (some resolve) rule = equal_to value (resolve rule.source rule.key)
  evaluate_operator one_of value resolver rule =
      if is_empty value then ok false else ok (any (λ v. eq_text value (trim_space v)) rule.values)
  evaluate_operator regex value resolver rule =
      if is_empty value then ok false else match_first rule.values value
  evaluate_operator unsupported value resolver rule =
      err (message (codes "unsupported claim operator"))

  unfoldable pub evaluate_claim_rule : Subject → Option ValueResolver → ClaimRule → Result Bool
  evaluate_claim_rule s resolver rule =
      evaluate_operator (operator_of rule.operator)
        (resolve_subject_value s rule.claim rule.aliases) resolver rule
