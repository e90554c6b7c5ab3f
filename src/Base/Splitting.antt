-- ===== src/Base/Splitting.antt =====
-- How package strings takes a text apart.
use Prim.Native.Nat.{ℕ}
use mathlib.Core.Option.{Option, none, some}
use mathlib.Core.List.{List, [], ◌∷◌, reverse}
use nimburion.Base.Tests.{◌==◌, if◌then◌else◌}
use nimburion.Base.Strings.{Text, is_space}

abbrev onto_cut : ℕ → Option (Text × Text) → Option (Text × Text)
onto_cut c none = none
onto_cut c (some (before, after)) = some (c ∷ before, after)

-- strings.SplitN(s, sep, 2) where `sep` occurs in `s`.
unfoldable pub cut : ℕ → Text → Option (Text × Text)
cut sep [] = none
cut sep (c ∷ s) = let rest = onto_cut c (cut sep s) in if c == sep then some ([], s) else rest

abbrev joined_first : ℕ → List Text → List Text
joined_first c [] = (c ∷ []) ∷ []
joined_first c (part ∷ parts) = (c ∷ part) ∷ parts

-- strings.Split(s, sep) for a separator of one character.
unfoldable pub split_on : ℕ → Text → List Text
split_on sep [] = [] ∷ []
split_on sep (c ∷ s) =
    let parts = split_on sep s in if c == sep then [] ∷ parts else joined_first c parts

abbrev word_before : Text → List Text → List Text
word_before [] words = words
word_before (c ∷ word) words = reverse (c ∷ word) ∷ words

-- strings.Fields, with the characters of the word that is being read, the last one first.
fields_from : Text → Text → List Text
fields_from word [] = word_before word []
fields_from word (c ∷ s) =
    let ended = word_before word (fields_from [] s) in
    let longer = fields_from (c ∷ word) s in if is_space c then ended else longer

unfoldable pub fields_of : Text → List Text
unfolding fields_from
fields_of s = fields_from [] s
