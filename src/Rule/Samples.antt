-- ===== src/Rule/Samples.antt =====
-- Tests of folding, with simple folding by the ASCII rule and the capital sigma, and of field paths,
-- and the theorems about them at concrete inputs.
use goliath_siem.Base.{ℕ, ◌≡◌, ◌++◌, ◌∷◌, [], refl, map, ◌==◌, if◌then◌else◌, text, arith, Text}
use goliath_siem.Rule.FieldPath.{FieldPath, parse}
use goliath_siem.Rule.FieldPath.Segments.{IsPathOf, parse-IsPathOf}
use goliath_siem.Rule.Fold.{fold, fold_into, fold-fold_into, to_ascii_lowercase, AgreesOnAscii}

abbrev sample_fold : ℕ → ℕ
unfolding to_ascii_lowercase
sample_fold c = if c == 0x3a3 then 0x3c3 else to_ascii_lowercase c

sample_fold-AgreesOnAscii : AgreesOnAscii sample_fold
unfolding to_ascii_lowercase
sample_fold-AgreesOnAscii c h = ground arith

-- ΣΊa
abbrev sigma_text : Text
sigma_text = 0x3a3 ∷ b'I' ∷ b'a' ∷ []

folds_ascii : fold sample_fold (text "C:\\CMD.EXE") ≡ text "c:\\cmd.exe"
unfolding fold
folds_ascii = refl

folds_sigma : fold sample_fold sigma_text ≡ 0x3c3 ∷ b'i' ∷ b'a' ∷ []
unfolding fold
folds_sigma = refl

fold-fold_into_example :
    (fold sample_fold sigma_text ≡ map sample_fold sigma_text)
    × (fold_into sample_fold sigma_text (text "prefix:")
        ≡ text "prefix:" ++ fold sample_fold sigma_text)
fold-fold_into_example =
    fold-fold_into sample_fold sample_fold-AgreesOnAscii sigma_text (text "prefix:")

abbrev os_path : FieldPath
os_path = record {
  text = text "device.os.type_id";
  segments = text "device" ∷ text "os" ∷ text "type_id" ∷ [];
}

parse-IsPathOf_example : IsPathOf (text "device.os.type_id") os_path
unfolding parse
parse-IsPathOf_example = parse-IsPathOf (text "device.os.type_id") os_path refl
