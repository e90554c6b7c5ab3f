-- ===== src/Version/Reading.antt =====
-- Parse of semver.go. The pattern's parts are followed by characters that they cannot hold
-- themselves, so each takes all that it can, and the match is unique.
use nimburion.Base.{
  ℕ, Text, codes, List, [], ◌∷◌, ◌++◌, Bool, false, ◌||◌, ◌&&◌, Option, none, some, leb, ◌==◌, any,
  is_empty, is_digit, parse_int, trim_space, if◌then◌else◌,
}
use nimburion.Errors.{Err, message, wrapped}
use nimburion.Effect.{Result, ok, err}
use nimburion.Version.{SemVer, split}

-- [0-9A-Za-z-], and the same with the dot between identifiers.
abbrev pub is_identifier_char : ℕ → Bool
is_identifier_char c =
    is_digit c || ((leb b'A' c && leb c b'Z') || ((leb b'a' c && leb c b'z') || (c == b'-')))

abbrev pub is_part_char : ℕ → Bool
is_part_char c = is_identifier_char c || (c == b'.')

-- The longest start of a text whose characters pass the test, and the rest.
unfoldable pub span : (ℕ → Bool) → Text → Text × Text
span p [] = ([], [])
span p (c ∷ s) = let (a, b) = span p s in if p c then (c ∷ a, b) else ([], c ∷ s)

-- 0|[1-9]\d*
unfoldable pub numeral : Text → Option (Text × Text)
numeral [] = none
numeral (c ∷ s) =
    let (a, b) = span is_digit s in
    if c == b'0' then some (c ∷ [], s) else if is_digit c then some (c ∷ a, b) else none

abbrev before_dot : Text → Text → Option (Text × Text)
before_dot n [] = none
before_dot n (c ∷ s) = if c == b'.' then some (n, s) else none

-- A numeral and its dot.
unfoldable pub dotted : Text → Option (Text × Text)
dotted s = elim (numeral s) [ none ↦ none | some (n, r) ↦ before_dot n r ]

-- [0-9A-Za-z-]+(\.[0-9A-Za-z-]+)*
unfoldable pub identifiers : Text → Option (Text × Text)
identifiers s =
    let (a, b) = span is_part_char s in if any is_empty (split a) then none else some (a, b)

-- (?:-(…))? and (?:\+(…))?
unfoldable pub optional : ℕ → Text → Option (Text × Text)
optional mark [] = some ([], [])
optional mark (c ∷ s) = let given = identifiers s in if c == mark then given else some ([], c ∷ s)

-- v?
abbrev pub strip_v : Text → Text
strip_v [] = []
strip_v (c ∷ s) = if c == b'v' then s else c ∷ s

-- The five groups.
pub record Matches : Type 0 where
  pub major : Text
  pub minor : Text
  pub patch : Text
  pub pre_release : Text
  pub build : Text

infixl 5 ◌>>=◌
abbrev ◌>>=◌ {ℓ κ} : {A : Type ℓ} {B : Type κ} → Option A → (A → Option B) → Option B
none >>= f = none
some a >>= f = f a

abbrev at_end : Matches → Text → Option Matches
at_end m [] = some m
at_end m (_ ∷ _) = none

unfoldable pub find_match : Text → Option Matches
find_match s = do
  x ← dotted (strip_v s)
  y ← dotted x.1
  z ← numeral y.1
  p ← optional b'-' z.1
  b ← optional b'+' p.1
  at_end (record { major = x.0; minor = y.0; patch = z.0; pre_release = p.0; build = b.0 }) b.1

-- The error of a numeral that does not fit into 64 bits, the only one that can occur.
unfoldable pub number_error : Text → Text → Err
number_error label s =
    wrapped label
      (message (codes "strconv.ParseInt: parsing \"" ++ (s ++ codes "\": value out of range")))

abbrev starts_with_zero : Text → Bool
starts_with_zero (c ∷ _ ∷ _) = c == b'0'
starts_with_zero _ = false

-- ParseInt accepts the identifier, and it is longer than its leading zero.
abbrev is_padded : Text → Bool
is_padded id = elim (parse_int id) [ none ↦ false | some n ↦ starts_with_zero id ]

unfoldable pub check_identifiers : List Text → Option Err
check_identifiers [] = none
check_identifiers (id ∷ ids) =
    let rest = check_identifiers ids in
    if is_empty id
    then some (message (codes "invalid prerelease identifier: empty"))
    else if is_padded id
    then some (
        message
          (codes "invalid prerelease numeric identifier \"" ++ (id ++ codes "\": leading zero")))
    else rest

unfoldable pub validate_pre_release : Text → Option Err
unfolding check_identifiers
validate_pre_release p = if is_empty p then none else check_identifiers (split p)

abbrev checked : SemVer → Option Err → Result SemVer
checked v none = ok v
checked v (some e) = err e

-- The three calls of ParseInt, and what follows them.
unfoldable pub convert : Matches → Result SemVer
convert m = elim (parse_int m.major) [
  | none ↦ err (number_error (codes "invalid major version: ") m.major)
  | some a ↦ elim (parse_int m.minor) [
    | none ↦ err (number_error (codes "invalid minor version: ") m.minor)
    | some b ↦ elim (parse_int m.patch) [
      | none ↦ err (number_error (codes "invalid patch version: ") m.patch)
      | some c ↦
          checked
            (record {
              major = a;
              minor = b;
              patch = c;
              pre_release = m.pre_release;
              build = m.build;
            })
            (validate_pre_release m.pre_release)
    ]
  ]
]

-- The quotes stand for %q.
abbrev matched : Text → Option Matches → Result SemVer
matched s none = err (message (codes "invalid semantic version: \"" ++ (s ++ codes "\"")))
matched s (some m) = convert m

unfoldable pub parse : Text → Result SemVer
parse raw =
    let s = trim_space raw in
    if is_empty s then err (message (codes "version cannot be empty")) else matched s (find_match s)
