-- ===== src/Version/RoundTrip.antt =====
-- Parsing the text of a version gives the version back.
use mathlib.Core.List.{append-nil}
use nimburion.Base.{
  Dense, Dense-show_ℕ, ℕ, zero, suc, ◌<◌, Text, [], ◌∷◌, ◌++◌, ◌≡◌, refl, ◌⊎◌, inl, inr, Bool, true,
  false, ◌==◌, none, some, arith, ℤ, pos, two_63, All, All-append, any, is_empty, is_space,
  is_digit, show_ℕ, show_ℤ, show_zero, show_ℕ-Leads, Leads, parse_int-show_ℕ, trim_space_id,
}
use nimburion.Effect.{ok}
use nimburion.Version.{SemVer, split, suffix, to_string}
use nimburion.Version.Reading.{
  is_part_char, span, numeral, dotted, identifiers, optional, strip_v, find_match,
  validate_pre_release, convert, parse,
}

-- The text is empty or starts with a character that fails the test.
abbrev Stops : (ℕ → Bool) → Text → Type 0
Stops p [] = Unit {0}
Stops p (c ∷ s) = p c ≡ false

span-append :
    (p : ℕ → Bool) (a s : Text) → All (λ c. p c ≡ true) a → Stops p s → span p (a ++ s) ≡ (a, s)
unfolding span
span-append p [] [] h k = refl
span-append p [] (c ∷ s) h k = ground (arith, k)
span-append p (c ∷ a) s h k = ground (arith, h.0, span-append p a s h.1 k)

numeral-Leads : (t s : Text) → Leads t → Stops is_digit s → numeral (t ++ s) ≡ some (t, s)
unfolding numeral
numeral-Leads [] s l k = absurd l
numeral-Leads (c ∷ t) s l k = ground (arith, l.0, l.1, span-append is_digit t s l.2 k)

numeral-show_ℕ :
    (n : ℕ) (s : Text) → Stops is_digit s → numeral (show_ℕ n ++ s) ≡ some (show_ℕ n, s)
unfolding numeral
numeral-show_ℕ zero s k = rw show_zero refl
numeral-show_ℕ (suc n) s k = numeral-Leads (show_ℕ (suc n)) s (show_ℕ-Leads n) k

dotted-show_ℕ : (n : ℕ) (s : Text) → dotted (show_ℕ n ++ b'.' ∷ s) ≡ some (show_ℕ n, s)
unfolding dotted
dotted-show_ℕ n s = ground (arith, numeral-show_ℕ n (b'.' ∷ s) refl)

-- Identifiers with dots between them.
abbrev pub IsIdentifiers : Text → Type 0
IsIdentifiers s = All (λ c. is_part_char c ≡ true) s × (any is_empty (split s) ≡ false)

abbrev pub IsOptional : Text → Type 0
IsOptional s = (s ≡ []) ⊎ IsIdentifiers s

-- A text that neither goes on with identifiers nor starts with the mark.
abbrev Ends : ℕ → Text → Type 0
Ends mark [] = Unit {0}
Ends mark (c ∷ s) = (is_part_char c ≡ false) × ((c == mark) ≡ false)

stops : (mark : ℕ) (s : Text) → Ends mark s → Stops is_part_char s
stops mark [] e = tt
stops mark (c ∷ s) e = e.0

optional_missing : (mark : ℕ) (s : Text) → Ends mark s → optional mark s ≡ some ([], s)
unfolding optional
optional_missing mark [] e = refl
optional_missing mark (c ∷ s) e = ground (arith, e.1)

optional-suffix :
    (mark : ℕ) (a s : Text)
    → IsOptional a
    → Ends mark s
    → optional mark (suffix mark a ++ s) ≡ some (a, s)
unfolding optional identifiers split
optional-suffix mark [] s v e = optional_missing mark s e
optional-suffix mark (c ∷ a) s (inl p) e = cc
optional-suffix mark (c ∷ a) s (inr (h, k)) e =
    ground (arith, k, span-append is_part_char (c ∷ a) s h (stops mark s e))

-- A part of a version within 64 bits.
abbrev pub Fits : ℤ → Type 0
Fits x = (n : ℕ) × (x ≡ pos n) × (n < two_63)

-- What the syntax allows.
pub record IsVersion (v : SemVer) : Type 0 where
  pub major : Fits v.major
  pub minor : Fits v.minor
  pub patch : Fits v.patch
  pub pre_release : IsOptional v.pre_release
  pub no_padding : validate_pre_release v.pre_release ≡ none
  pub build : IsOptional v.build

abbrev text : ℕ → ℕ → ℕ → Text → Text → Text
text a b c p q =
    show_ℕ a ++ (b'.' ∷ (show_ℕ b ++ (b'.' ∷ (show_ℕ c ++ (suffix b'-' p ++ suffix b'+' q)))))

suffix-Ends : (q : Text) → Ends b'-' (suffix b'+' q)
suffix-Ends [] = tt
suffix-Ends (c ∷ q) = (refl, refl)

suffixes-Stops : (p q : Text) → Stops is_digit (suffix b'-' p ++ suffix b'+' q)
suffixes-Stops [] [] = tt
suffixes-Stops [] (c ∷ q) = refl
suffixes-Stops (c ∷ p) q = refl

optional_last : (q : Text) → IsOptional q → optional b'+' (suffix b'+' q) ≡ some (q, [])
optional_last q v = rw (append-nil (suffix b'+' q)) at (optional-suffix b'+' q [] v tt)

strip_v-Leads : (t s : Text) → Leads t → strip_v (t ++ s) ≡ t ++ s
strip_v-Leads [] s l = absurd l
strip_v-Leads (c ∷ t) s l = ground (arith, l.0)

strip_v-show_ℕ : (n : ℕ) (s : Text) → strip_v (show_ℕ n ++ s) ≡ show_ℕ n ++ s
strip_v-show_ℕ zero s = rw show_zero refl
strip_v-show_ℕ (suc n) s = strip_v-Leads (show_ℕ (suc n)) s (show_ℕ-Leads n)

find_match-text :
    (a b c : ℕ) (p q : Text)
    → IsOptional p
    → IsOptional q
    → find_match (text a b c p q)
      ≡ some (record {
        major = show_ℕ a;
        minor = show_ℕ b;
        patch = show_ℕ c;
        pre_release = p;
        build = q;
      })
unfolding find_match
find_match-text a b c p q v w = rw (strip_v-show_ℕ a _) (
    rw (dotted-show_ℕ a _) (
      rw (dotted-show_ℕ b _) (
        rw (numeral-show_ℕ c _ (suffixes-Stops p q)) (
          rw (optional-suffix b'-' p (suffix b'+' q) v (suffix-Ends q))
            (rw (optional_last q w) refl)))))

parts-Dense : (t : Text) → All (λ c. is_part_char c ≡ true) t → Dense t
parts-Dense [] h = tt
parts-Dense (c ∷ t) h = (ground (arith, h.0), parts-Dense t h.1)

-- Nothing in the text of a version is trimmed.
Dense-suffix : (mark : ℕ) (t : Text) → is_space mark ≡ false → IsOptional t → Dense (suffix mark t)
Dense-suffix mark [] m v = tt
Dense-suffix mark (c ∷ t) m (inl e) = cc
Dense-suffix mark (c ∷ t) m (inr (h, k)) = (m, parts-Dense (c ∷ t) h)

Dense-text : (a b c : ℕ) (p q : Text) → IsOptional p → IsOptional q → Dense (text a b c p q)
Dense-text a b c p q v w = All-append _ (show_ℕ a) _ (Dense-show_ℕ a) (
  refl,
  All-append _ (show_ℕ b) _ (Dense-show_ℕ b) (
    refl,
    All-append _ (show_ℕ c) _ (Dense-show_ℕ c)
        (All-append _ (suffix b'-' p) _ (Dense-suffix b'-' p refl v) (Dense-suffix b'+' q refl w)),
  ),
)

text_nonempty : (a : ℕ) (s : Text) → is_empty (show_ℕ a ++ b'.' ∷ s) ≡ false
text_nonempty a s = go (show_ℕ a)
  where
    go : (t : Text) → is_empty (t ++ b'.' ∷ s) ≡ false
    go [] = refl
    go (_ ∷ _) = refl

convert-shown :
    (a b c : ℕ) (p q : Text)
    → a < two_63
    → b < two_63
    → c < two_63
    → validate_pre_release p ≡ none
    → convert (record {
      major = show_ℕ a;
      minor = show_ℕ b;
      patch = show_ℕ c;
      pre_release = p;
      build = q;
    })
      ≡ ok (record { major = pos a; minor = pos b; patch = pos c; pre_release = p; build = q })
unfolding convert
convert-shown a b c p q x y z k =
    ground (arith, k, parse_int-show_ℕ a x, parse_int-show_ℕ b y, parse_int-show_ℕ c z)

parse-text :
    (a b c : ℕ) (p q : Text)
    → a < two_63
    → b < two_63
    → c < two_63
    → IsOptional p
    → IsOptional q
    → validate_pre_release p ≡ none
    → parse (text a b c p q)
      ≡ ok (record { major = pos a; minor = pos b; patch = pos c; pre_release = p; build = q })
unfolding parse
parse-text a b c p q x y z v w k =
    rw (trim_space_id (text a b c p q) (Dense-text a b c p q v w)) (
      rw (text_nonempty a _) (rw (find_match-text a b c p q v w) (convert-shown a b c p q x y z k)))

-- A version whose numbers fit into 64 bits, and whose pre-release and build are what the syntax
-- allows, is read back from its text.
pub parse-to_string : (v : SemVer) → IsVersion v → parse (to_string v) ≡ ok v
unfolding to_string show_ℤ
parse-to_string v w =
    let (a, e, x) = w.major in
    let (b, f, y) = w.minor in
    let (c, g, z) = w.patch in
    rw e (
      rw f (rw g (parse-text a b c v.pre_release v.build x y z w.pre_release w.build w.no_padding)))
