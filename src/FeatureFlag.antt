-- ===== src/FeatureFlag.antt =====
-- pkg/featureflag/featureflag.go: typed flag definitions, their evaluation through a provider, and
-- the events that observers receive. The three methods of a kind differ in the kind, the map and
-- the cast; what they share is written once. An observer is a number that names it.
pub mod Registration
pub mod Evaluating
pub mod Posture
mod Examples
use nimburion.Base.{
  ℕ, ◌-◌, Text, codes, List, [], ◌∷◌, ◌++◌, map, Bool, true, false, not, ◌&&◌, ◌||◌, Option, none,
  some, ℤ, pos, negsuc, leb_ℤ, ltb_ℤ, eq_ℤ, two_63, is_empty, is_none, if◌then◌else◌, insert,
  lookup,
}
use nimburion.Errors.{Err, message, error_text}
use nimburion.Effect.{Result, ok, err}

pub data Kind : Type 0 where
  bool string int : Kind

pub data Source : Type 0 where
  default provider safe_default : Source

pub data EventType : Type 0 where
  provider_changed definition_added evaluated : EventType

pub record TargetContext : Type 0 where
  pub app_name : Text
  pub environment : Text
  pub user_id : Text
  pub tenant_id : Text
  pub attributes : List (Text × Text)

-- Kind, source and target are empty where the code leaves them out.
pub record Event : Type 0 where
  pub type : EventType
  pub key : Text
  pub kind : Option Kind
  pub source : Option Source
  pub outcome : Text
  pub error : Text
  pub target : Option TargetContext

-- A float64 is a whole number, a fraction or NaN, or infinite.
pub data FloatValue : Type 0 where
  whole : ℤ → FloatValue
  fraction infinite : FloatValue

-- What a provider may answer; `of_type` is a value of another type, by the name that %T prints.
pub data Raw : Type 0 where
  bool : Bool → Raw
  string : Text → Raw
  int int32 int64 : ℤ → Raw
  float64 : FloatValue → Raw
  of_type : Text → Raw

abbrev pub Provider : Type 0
Provider = Text → TargetContext → Result (Option Raw)

pub record Definition {ℓ} (A : Type ℓ) : Type ℓ where
  pub key : Text
  pub default_value : A
  pub description : Text

pub record Evaluation {ℓ} (A : Type ℓ) : Type ℓ where
  pub key : Text
  pub kind : Kind
  pub value : A
  pub default_value : A
  pub source : Source
  pub description : Text
  pub target : TargetContext
  pub error : Text

-- `events` are those that each observer has received, the last one first.
pub record Registry : Type 0 where
  pub provider : Option Provider
  pub bools : List (Text × Definition Bool)
  pub strings : List (Text × Definition Text)
  pub ints : List (Text × Definition ℤ)
  pub observers : List ℕ
  pub events : List (ℕ × Event)

unfoldable pub new_registry : Registry
new_registry = record {
  provider = none;
  bools = [];
  strings = [];
  ints = [];
  observers = [];
  events = [];
}

unfoldable pub deliver : List ℕ → Event → List (ℕ × Event) → List (ℕ × Event)
deliver [] event events = events
deliver (o ∷ os) event events = deliver os event ((o, event) ∷ events)

unfoldable pub emit : Event → Registry → Registry
unfolding deliver
emit event r = record r { events = deliver r.observers event r.events }

-- A nil observer is `none`.
unfoldable pub add_observer : Option ℕ → Registry → Registry
add_observer none r = r
add_observer (some o) r = record r { observers = r.observers ++ o ∷ [] }

unfoldable pub set_provider : Option Provider → Registry → Registry
unfolding emit
set_provider p r =
    emit
      (record {
        type = provider_changed;
        key = [];
        kind = none;
        source = none;
        outcome = codes "provider_set";
        error = [];
        target = none;
      })
      (record r { provider = p })

abbrev pub kind_text : Kind → Text
kind_text Kind.bool = codes "bool"
kind_text Kind.string = codes "string"
kind_text Kind.int = codes "int"

abbrev pub is_kind : Kind → Kind → Bool
is_kind Kind.bool Kind.bool = true
is_kind Kind.string Kind.string = true
is_kind Kind.int Kind.int = true
is_kind _ _ = false

-- `feature flag %q `, where the quotes stand for %q.
abbrev pub flag_text : Text → Text
flag_text key = codes "feature flag \"" ++ (key ++ codes "\" ")

abbrev taken : Text → Kind → Err
taken key kind = message (flag_text key ++ (codes "already registered as " ++ kind_text kind))

unfoldable pub validate_registration : Text → Kind → Registry → Option Err
validate_registration key kind r =
    if is_empty key
    then some (message (codes "feature flag key is required"))
    else if not (is_kind kind Kind.bool) && not (is_none (lookup key r.bools))
    then some (taken key Kind.bool)
    else if not (is_kind kind Kind.string) && not (is_none (lookup key r.strings))
    then some (taken key Kind.string)
    else if not (is_kind kind Kind.int) && not (is_none (lookup key r.ints))
    then some (taken key Kind.int)
    else none

abbrev pub added : Text → Kind → Event
added key kind = record {
  type = definition_added;
  key = key;
  kind = some kind;
  source = none;
  outcome = codes "registered";
  error = [];
  target = none;
}

abbrev registered : Text → Kind → Option Err → Registry → Registry → Option Err × Registry
registered key kind (some e) changed r = (some e, r)
registered key kind none changed r = (none, emit (added key kind) changed)

unfoldable pub register_bool : Definition Bool → Registry → Option Err × Registry
unfolding validate_registration emit
register_bool d r =
    registered d.key Kind.bool (validate_registration d.key Kind.bool r)
      (record r { bools = insert d.key d r.bools }) r

unfoldable pub register_string : Definition Text → Registry → Option Err × Registry
unfolding validate_registration emit
register_string d r =
    registered d.key Kind.string (validate_registration d.key Kind.string r)
      (record r { strings = insert d.key d r.strings }) r

unfoldable pub register_int : Definition ℤ → Registry → Option Err × Registry
unfolding validate_registration emit
register_int d r =
    registered d.key Kind.int (validate_registration d.key Kind.int r)
      (record r { ints = insert d.key d r.ints }) r

abbrev pub type_name : Raw → Text
type_name (Raw.bool _) = codes "bool"
type_name (Raw.string _) = codes "string"
type_name (Raw.int _) = codes "int"
type_name (Raw.int32 _) = codes "int32"
type_name (Raw.int64 _) = codes "int64"
type_name (Raw.float64 _) = codes "float64"
type_name (Raw.of_type t) = t

-- A cast, or the text of its error.
pub data Cast {ℓ} (A : Type ℓ) : Type ℓ where
  cast : A → Cast A
  mismatch : Text → Cast A

unfoldable pub cast_bool : Raw → Cast Bool
cast_bool (Raw.bool b) = cast b
cast_bool raw = mismatch (codes "expected bool value, got " ++ type_name raw)

unfoldable pub cast_string : Raw → Cast Text
cast_string (Raw.string s) = cast s
cast_string raw = mismatch (codes "expected string value, got " ++ type_name raw)

-- What int(value) is for the value 2^63, which Go leaves to the implementation, is a parameter.
abbrev cast_whole : ℤ → ℤ → Cast ℤ
cast_whole beyond value =
    if ltb_ℤ (pos two_63) value || ltb_ℤ value (negsuc (two_63 - 1))
    then mismatch (codes "expected int value, got out-of-range float64")
    else if eq_ℤ value (pos two_63)
    then cast beyond
    else cast value

-- int has 64 bits, so every int64 is one.
unfoldable pub cast_int : ℤ → Raw → Cast ℤ
cast_int beyond (Raw.int n) = cast n
cast_int beyond (Raw.int32 n) = cast n
cast_int beyond (Raw.int64 n) = cast n
cast_int beyond (Raw.float64 (whole n)) = cast_whole beyond n
cast_int beyond (Raw.float64 fraction) =
    mismatch (codes "expected int value, got non-integer float64")
cast_int beyond (Raw.float64 infinite) =
    mismatch (codes "expected int value, got out-of-range float64")
cast_int beyond raw = mismatch (codes "expected int value, got " ++ type_name raw)

module _ {ℓ} {A : Type ℓ} (kind : Kind) (cast_raw : Raw → Cast A) where
  abbrev initial : Text → TargetContext → Definition A → Evaluation A
  initial key target d = record {
    key = key;
    kind = kind;
    value = d.default_value;
    default_value = d.default_value;
    source = default;
    description = d.description;
    target = target;
    error = [];
  }

  -- The event of an evaluation, with the source that it shows.
  abbrev evaluated_event : Source → Text → Evaluation A → Event
  evaluated_event source outcome e = record {
    type = evaluated;
    key = e.key;
    kind = some kind;
    source = some source;
    outcome = outcome;
    error = e.error;
    target = some e.target;
  }

  abbrev with_event : Text → Evaluation A → Evaluation A × Event
  with_event outcome e = (e, evaluated_event e.source outcome e)

  abbrev converted : Cast A → Evaluation A → Evaluation A × Event
  converted (cast value) e =
      with_event (codes "provider_value") (record e { value = value; source = provider })
  converted (mismatch text) e =
      with_event (codes "type_mismatch")
        (record e { source = safe_default; error = flag_text e.key ++ text })

  abbrev answered : Result (Option Raw) → Evaluation A → Evaluation A × Event
  answered (err failure) e =
      with_event (codes "provider_error")
        (record e { source = safe_default; error = error_text failure })
  answered (ok none) e = with_event (codes "not_found") e
  answered (ok (some raw)) e = converted (cast_raw raw) e

  abbrev provided : Option Provider → Evaluation A → Evaluation A × Event
  provided none e = with_event (codes "default_used") e
  provided (some p) e = answered (p e.key e.target) e

  -- A flag that is not registered has the zero value of its type.
  abbrev pub judged :
      A → Option (Definition A) → Option Provider → Text → TargetContext → Evaluation A × Event
  judged zero_value none p key target =
      let e =
        initial key target (record { key = []; default_value = zero_value; description = [] }) in
      let e' = record e { error = flag_text key ++ codes "is not registered" } in
      (e', evaluated_event safe_default (codes "unregistered") e')
  judged zero_value (some d) p key target = provided p (initial key target d)

abbrev evaluated_in {ℓ} : {A : Type ℓ} → Evaluation A × Event → Registry → Evaluation A × Registry
evaluated_in (e, event) r = (e, emit event r)

unfoldable pub eval_bool : Text → TargetContext → Registry → Evaluation Bool × Registry
unfolding cast_bool emit
eval_bool key target r =
    evaluated_in (judged Kind.bool cast_bool false (lookup key r.bools) r.provider key target) r

unfoldable pub eval_string : Text → TargetContext → Registry → Evaluation Text × Registry
unfolding cast_string emit
eval_string key target r =
    evaluated_in (judged Kind.string cast_string [] (lookup key r.strings) r.provider key target) r

unfoldable pub eval_int : ℤ → Text → TargetContext → Registry → Evaluation ℤ × Registry
unfolding cast_int emit
eval_int beyond key target r =
    evaluated_in
      (judged Kind.int (cast_int beyond) (pos 0) (lookup key r.ints) r.provider key target) r
