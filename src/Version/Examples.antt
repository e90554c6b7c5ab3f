-- ===== src/Version/Examples.antt =====
-- Versions that are read, printed, compared and raised.
use nimburion.Base.{
  ◌≡◌, refl, codes, [], none, inr, arith, pos, read_digits, parse_int, show_ℕ, show_ℤ,
}
use nimburion.Effect.{ok}
use nimburion.Version.{SemVer, split, to_string, compare_int, compare_parts, compare_pre_release}
use nimburion.Version.Reading.{validate_pre_release, parse}
use nimburion.Version.RoundTrip.{IsVersion, IsIdentifiers, parse-to_string}

abbrev candidate : SemVer
candidate = record {
  major = pos 1;
  minor = pos 20;
  patch = pos 3;
  pre_release = codes "rc.1";
  build = codes "b5";
}

abbrev release : SemVer
release = record candidate { pre_release = []; build = [] }

candidate_text : to_string candidate ≡ codes "1.20.3-rc.1+b5"
unfolding to_string show_ℤ show_ℕ
candidate_text = refl

-- Where one identifier is a number and the other is the same number with a sign, the rest of the
-- pre-releases is not compared: the first two pairs are even, and yet the third is not.
compare_ties :
    (compare_pre_release (codes "0.2") (codes "-0.1") ≡ pos 0)
    × (compare_pre_release (codes "-0.1") (codes "0.1") ≡ pos 0)
    × (compare_pre_release (codes "0.2") (codes "0.1") ≡ pos 1)
unfolding compare_pre_release compare_parts compare_int parse_int read_digits
compare_ties = (refl, refl, refl)

rc_IsIdentifiers : IsIdentifiers (codes "rc.1")
unfolding split
rc_IsIdentifiers = ground arith

build_IsIdentifiers : IsIdentifiers (codes "b5")
unfolding split
build_IsIdentifiers = ground arith

candidate_is_unpadded : validate_pre_release (codes "rc.1") ≡ none
unfolding validate_pre_release split parse_int read_digits
candidate_is_unpadded = refl

candidate-IsVersion : IsVersion candidate
candidate-IsVersion = record {
  major = (1, refl, omega arith);
  minor = (20, refl, omega arith);
  patch = (3, refl, omega arith);
  pre_release = inr rc_IsIdentifiers;
  no_padding = candidate_is_unpadded;
  build = inr build_IsIdentifiers;
}

parse-to_string_example : parse (to_string candidate) ≡ ok candidate
parse-to_string_example = parse-to_string candidate candidate-IsVersion
