-- ===== src/Http.antt =====
-- What the HTTP middleware uses of net/http and of package strings.
use nimburion.Base.{
  ◌+◌, ◌-◌, Text, List, [], ◌∷◌, Bool, true, false, ◌&&◌, ◌||◌, Option, none, some, leb, ◌==◌,
  eq_text, if◌then◌else◌, lookup, insert,
}

-- http.Header, by canonical keys.
abbrev pub Headers : Type 0
Headers = List (Text × List Text)

abbrev first_of : Option (List Text) → Text
first_of none = []
first_of (some []) = []
first_of (some (v ∷ vs)) = v

unfoldable pub get_header : Text → Headers → Text
unfolding lookup
get_header key h = first_of (lookup key h)

unfoldable pub set_header : Text → Text → Headers → Headers
unfolding insert
set_header key value h = insert key (value ∷ []) h

abbrev pub starts_with : Text → Text → Bool
starts_with [] s = true
starts_with (_ ∷ _) [] = false
starts_with (p ∷ ps) (c ∷ s) = (p == c) && starts_with ps s

-- strings.Contains
abbrev pub has_text : Text → Text → Bool
has_text part [] = starts_with part []
has_text part (c ∷ s) = starts_with part (c ∷ s) || has_text part s

-- strings.ToUpper, on ASCII.
unfoldable pub to_upper : Text → Text
to_upper [] = []
to_upper (c ∷ s) = (if leb b'a' c && leb c b'z' then c - 32 else c) ∷ to_upper s

-- strings.ToLower, on ASCII.
unfoldable pub to_lower : Text → Text
to_lower [] = []
to_lower (c ∷ s) = (if leb b'A' c && leb c b'Z' then c + 32 else c) ∷ to_lower s

-- strings.EqualFold, on ASCII.
unfoldable pub equal_fold : Text → Text → Bool
unfolding to_lower
equal_fold s t = eq_text (to_lower s) (to_lower t)
