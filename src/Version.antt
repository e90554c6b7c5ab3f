-- ===== src/Version.antt =====
-- pkg/version/semver.go: semantic versions, their order, and their increments. The order of Go
-- strings by bytes is that of their code points.
pub mod Ordering
pub mod Reading
pub mod RoundTrip
mod Examples
use nimburion.Base.{
  ℕ, Text, codes, List, [], ◌∷◌, ◌++◌, Bool, true, false, Option, none, some, ℤ, pos, negsuc, ltb,
  ◌==◌, ltb_ℤ, eq_ℤ, inc_64, eq_text, is_empty, if◌then◌else◌, parse_int, show_ℤ,
}

pub record SemVer : Type 0 where
  pub major : ℤ
  pub minor : ℤ
  pub patch : ℤ
  pub pre_release : Text
  pub build : Text

-- String
abbrev suffix : ℕ → Text → Text
suffix mark s = if is_empty s then [] else mark ∷ s

unfoldable pub to_string : SemVer → Text
to_string v =
    show_ℤ v.major
    ++ (b'.'
        ∷ (show_ℤ v.minor
            ++ (b'.' ∷ (show_ℤ v.patch ++ (suffix b'-' v.pre_release ++ suffix b'+' v.build)))))

unfoldable pub next_major : SemVer → SemVer
next_major v = record {
  major = inc_64 v.major;
  minor = pos 0;
  patch = pos 0;
  pre_release = [];
  build = [];
}

unfoldable pub next_minor : SemVer → SemVer
next_minor v = record {
  major = v.major;
  minor = inc_64 v.minor;
  patch = pos 0;
  pre_release = [];
  build = [];
}

unfoldable pub next_patch : SemVer → SemVer
next_patch v = record {
  major = v.major;
  minor = v.minor;
  patch = inc_64 v.patch;
  pre_release = [];
  build = [];
}

-- strings.Split(s, ".")
abbrev pub onto_first : ℕ → List Text → List Text
onto_first c [] = (c ∷ []) ∷ []
onto_first c (p ∷ ps) = (c ∷ p) ∷ ps

unfoldable pub split : Text → List Text
split [] = [] ∷ []
split (c ∷ s) = let rest = split s in if c == b'.' then [] ∷ rest else onto_first c rest

-- a < b on strings
abbrev pub less_text : Text → Text → Bool
less_text [] [] = false
less_text [] (_ ∷ _) = true
less_text (_ ∷ _) [] = false
less_text (a ∷ s) (b ∷ t) = let rest = less_text s t in if a == b then rest else ltb a b

unfoldable pub compare_int : ℤ → ℤ → ℤ
compare_int a b = if ltb_ℤ a b then negsuc 0 else if ltb_ℤ b a then pos 1 else pos 0

-- The `switch` on two identifiers that differ, with what ParseInt says of them.
abbrev pub compare_parsed : Option ℤ → Option ℤ → Text → Text → ℤ
compare_parsed (some m) (some n) a b = compare_int m n
compare_parsed (some m) none a b = negsuc 0
compare_parsed none (some n) a b = pos 1
compare_parsed none none a b = if less_text a b then negsuc 0 else pos 1

-- The loop, and the comparison of the lengths behind it.
unfoldable pub compare_parts : List Text → List Text → ℤ
compare_parts (a ∷ ps) (b ∷ qs) =
    let rest = compare_parts ps qs in
    if eq_text a b then rest else compare_parsed (parse_int a) (parse_int b) a b
compare_parts [] (_ ∷ _) = negsuc 0
compare_parts _ [] = pos 1

unfoldable pub compare_pre_release : Text → Text → ℤ
unfolding compare_parts split
compare_pre_release a b =
    if eq_text a b
    then pos 0
    else if is_empty a
    then pos 1
    else if is_empty b
    then negsuc 0
    else compare_parts (split a) (split b)

-- `if c != 0 { return c }`, and then the rest.
abbrev pub or_next : ℤ → ℤ → ℤ
or_next c next = if eq_ℤ c (pos 0) then next else c

unfoldable pub compare : SemVer → SemVer → ℤ
compare v w = or_next (compare_int v.major w.major) (
    or_next (compare_int v.minor w.minor)
      (or_next (compare_int v.patch w.patch) (compare_pre_release v.pre_release w.pre_release)))
