-- ===== src/Dedup/Examples.antt =====
-- A message that is seen twice, with a store that lists its markers.
use nimburion.Base.{
  Text, codes, ◌≡◌, refl, List, [], ◌∷◌, any, Bool, false, ◌&&◌, none, some, arith, pos, eq_text,
  eq_text_refl,
}
use nimburion.Effect.{ok}
use nimburion.Dedup.{Store, check, conclude, check_and_mark}
use nimburion.Dedup.Marking.{Remembers}

abbrev Database : Type 0
Database = List (Text × Text)

abbrev same : Text → Text → Text × Text → Bool
same scope key entry = eq_text scope entry.0 && eq_text key entry.1

abbrev store : Store Database
store = record {
  is_duplicate = λ scope key d. ok (any (same scope key) d);
  mark_seen = λ scope key now until d. (none, (scope, key) ∷ d);
}

store-Remembers : Remembers store
store-Remembers = record {
  recall = λ scope key now until d d' h. ground (arith, eq_text_refl scope, eq_text_refl key);
}

abbrev marker : Text × Text
marker = (codes "s", codes "k")

first_check :
    check_and_mark (some store) (codes "s") (codes "k") (pos 0) (pos 5) [] ≡ (ok false, marker ∷ [])
unfolding check_and_mark check conclude
first_check = refl
