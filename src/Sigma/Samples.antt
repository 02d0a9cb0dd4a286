-- ===== src/Sigma/Samples.antt =====
-- Tests of patterns, targets and wildcards, from the tests of crates/goliath-sigma, and the
-- theorems about them at concrete inputs.
use goliath_siem.Base.{◌↔◌, ◌≡◌, refl, true, false, some, [], ◌∷◌, List, text}
use goliath_siem.Sigma.Pattern.{
  PatternPart, literal, any_sequence, any_char, parse, from_parts, as_literal, matches, run_matches,
}
use goliath_siem.Sigma.Pattern.Meaning.{Matches}
use goliath_siem.Sigma.Pattern.Decide.{matches_iff}
use goliath_siem.Sigma.Pattern.Normal.{from_parts-SameMeaning, from_parts-IsNormal, IsNormal}
use goliath_siem.Sigma.Pattern.Source.{parse-from_parts}
use goliath_siem.Sigma.Pattern.Literal.{as_literal-Matches}
use goliath_siem.Sigma.Wildcard.{wildcard_matches, target_matches, pattern_of}
use goliath_siem.Sigma.Wildcard.Decide.{wildcard_matches_iff, target_matches_iff, parts_of, Covers}

backtracks : matches (parse (text "*a*b")) (text "xxaybzzb") ≡ true
unfolding parse matches run_matches
backtracks = refl

one_character_too_many : matches (parse (text "cmd?.exe")) (text "cmd12.exe") ≡ false
unfolding parse matches run_matches
one_character_too_many = refl

escaped_wildcard : as_literal (parse (text "C:\\Users\\*")) ≡ some (text "C:\\Users*")
unfolding parse as_literal
escaped_wildcard = refl

doubled_separator : matches (parse (text "C:\\Users\\\\*")) (text "C:\\Users\\adam") ≡ true
unfolding parse matches run_matches
doubled_separator = refl

abbrev split_path : List PatternPart
split_path =
    literal (text "C:\\Users\\")
    ∷ any_sequence
    ∷ any_sequence
    ∷ literal []
    ∷ literal (text "*?\\")
    ∷ literal (text "b")
    ∷ any_char
    ∷ []

normalizes :
    (from_parts split_path).parts
    ≡ literal (text "C:\\Users\\") ∷ any_sequence ∷ literal (text "*?\\b") ∷ any_char ∷ []
unfolding from_parts
normalizes = refl

selection_is_covered :
    target_matches (pattern_of (text "selection_*")) (text "selection_process") ≡ some true
unfolding target_matches wildcard_matches
selection_is_covered = refl

helper_is_hidden : target_matches (pattern_of (text "*")) (text "_helper") ≡ some false
unfolding target_matches
helper_is_hidden = refl

matches_iff_example :
    (run_matches (parse (text "*a*b")) (text "xxaybzzb")
      ≡ some (matches (parse (text "*a*b")) (text "xxaybzzb")))
    × ((matches (parse (text "*a*b")) (text "xxaybzzb") ≡ true)
        ↔ Matches (parse (text "*a*b")).parts (text "xxaybzzb"))
matches_iff_example = matches_iff (parse (text "*a*b")) (text "xxaybzzb")

from_parts-SameMeaning_example :
    Matches (from_parts split_path).parts (text "C:\\Users\\adam*?\\b1")
    ↔ Matches split_path (text "C:\\Users\\adam*?\\b1")
from_parts-SameMeaning_example = from_parts-SameMeaning split_path (text "C:\\Users\\adam*?\\b1")

from_parts-IsNormal_example : IsNormal (from_parts split_path).parts
from_parts-IsNormal_example = from_parts-IsNormal split_path

parse-from_parts_example :
    (parse (from_parts split_path).source).parts ≡ (from_parts split_path).parts
parse-from_parts_example = parse-from_parts split_path

as_literal-Matches_example :
    Matches (parse (text "C:\\Users\\*")).parts (text "C:\\Users\\adam")
    ↔ (text "C:\\Users\\adam" ≡ text "C:\\Users*")
as_literal-Matches_example =
    as_literal-Matches (parse (text "C:\\Users\\*")) (text "C:\\Users*") (text "C:\\Users\\adam")
      escaped_wildcard

wildcard_matches_iff_example :
    ((wildcard_matches (text "*abc") (text "xxabcabc") ≡ some true)
      ↔ Matches (parts_of (text "*abc")) (text "xxabcabc"))
    × ((wildcard_matches (text "*abc") (text "xxabcabc") ≡ some false)
        ↔ (¬ Matches (parts_of (text "*abc")) (text "xxabcabc")))
wildcard_matches_iff_example = wildcard_matches_iff (text "*abc") (text "xxabcabc")

target_matches_iff_example :
    ((target_matches (pattern_of (text "_*")) (text "_helper") ≡ some true)
      ↔ Covers (pattern_of (text "_*")) (text "_helper"))
    × ((target_matches (pattern_of (text "_*")) (text "_helper") ≡ some false)
        ↔ (¬ Covers (pattern_of (text "_*")) (text "_helper")))
target_matches_iff_example = target_matches_iff (pattern_of (text "_*")) (text "_helper")
