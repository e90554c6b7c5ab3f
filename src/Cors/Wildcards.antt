-- ===== src/Cors/Wildcards.antt =====
-- What the patterns of CORS origins match.
use mathlib.Core.List.{append_assoc, append-nil, reverse-append}
use nimburion.Base.{
  split_on, ◌≡◌, ◌≢◌, refl, ap, ◌∙◌, Text, [], ◌∷◌, ◌++◌, reverse, true, false, ◌&&◌, All, is_empty,
  arith,
}
use nimburion.Http.{starts_with}
use nimburion.Cors.{wildcard_match, ends_with, count_stars}

abbrev pub HasNoStar : Text → Type 0
HasNoStar = All (λ c. c ≢ b'*')

split-whole : (s : Text) → HasNoStar s → split_on b'*' s ≡ s ∷ []
unfolding split_on
split-whole [] h = refl
split-whole (c ∷ s) h = rw (split-whole s h.1) (ground (arith, h.0))

split-star : (s t : Text) → HasNoStar s → HasNoStar t → split_on b'*' (s ++ (b'*' ∷ t)) ≡ s ∷ t ∷ []
unfolding split_on
split-star [] t hs ht = rw (split-whole t ht) refl
split-star (c ∷ s) t hs ht = rw (split-star s t hs.1 ht) (ground (arith, hs.0))

count-none : (s : Text) → HasNoStar s → count_stars s ≡ 0
count-none [] h = refl
count-none (c ∷ s) h = ground (arith, h.0, count-none s h.1)

count-one : (s t : Text) → HasNoStar s → HasNoStar t → count_stars (s ++ (b'*' ∷ t)) ≡ 1
count-one [] t hs ht = omega (arith, count-none t ht)
count-one (c ∷ s) t hs ht = ground (arith, hs.0, count-one s t hs.1 ht)

starts_with-append : (s t : Text) → starts_with s (s ++ t) ≡ true
starts_with-append [] t = refl
starts_with-append (c ∷ s) t = ground (arith, starts_with-append s t)

ends_with-append : (s t : Text) → ends_with t (s ++ t) ≡ true
unfolding ends_with
ends_with-append s t = rw (reverse-append s t) (starts_with-append (reverse t) (reverse s))

star-matches :
    (s t value : Text)
    → HasNoStar s
    → HasNoStar t
    → wildcard_match (s ++ (b'*' ∷ t)) value ≡ (starts_with s value && ends_with t value)
unfolding wildcard_match
star-matches s t value hs ht =
    rw (split-star s t hs ht) (ground (arith, count-one s t hs ht, some_pattern s t))
  where
    some_pattern : (s t : Text) → is_empty (s ++ (b'*' ∷ t)) ≡ false
    some_pattern [] t = refl
    some_pattern (c ∷ s) t = refl

-- A pattern with one star matches every text of its prefix, anything, and its suffix; it also matches
-- texts that have no room for both: where prefix and suffix are one text, that text alone.
wildcard_match-star :
    (s t : Text)
    → HasNoStar s
    → HasNoStar t
    → ((middle : Text) → wildcard_match (s ++ (b'*' ∷ t)) (s ++ (middle ++ t)) ≡ true)
      × (wildcard_match (s ++ (b'*' ∷ s)) s ≡ true)
wildcard_match-star s t hs ht = (
  λ middle.
      star-matches s t _ hs ht
      ∙ ground (
        arith,
        starts_with-append s (middle ++ t),
        ap (ends_with t) (append_assoc s middle t),
        ends_with-append (s ++ middle) t,
      ),
  star-matches s s s hs hs
      ∙ ground (arith, starts_with-append s [], ends_with-append [] s, append-nil s),
)
