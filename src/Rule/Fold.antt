-- ===== src/Rule/Fold.antt =====
-- crates/goliath-rule/src/fold.rs: case folding. The simple folding of one character is that of
-- the crate icu_casemap, a parameter.
use goliath_siem.Base.{
  ℕ, suc, ◌+◌, ◌<◌, ◌≡◌, refl, Bool, true, false, ◌&&◌, Option, none, some, [], ◌∷◌, ◌++◌, map, ltb,
  leb, ◌==◌, if◌then◌else◌, all, any, take, drop, Text, arith,
}

unfoldable pub is_ascii : Text → Bool
is_ascii s = all (λ c. ltb c 128) s

unfoldable pub is_ascii_uppercase : ℕ → Bool
is_ascii_uppercase c = leb b'A' c && leb c b'Z'

unfoldable pub to_ascii_lowercase : ℕ → ℕ
unfolding is_ascii_uppercase
to_ascii_lowercase c = if is_ascii_uppercase c then c + 32 else c

-- `mapper.simple_fold`
module _ (simple_fold : ℕ → ℕ) where
  -- The position of the first character that folding changes.
  unfoldable pub first_change : Text → Option ℕ
  first_change [] = none
  first_change (c ∷ s) =
      let further = first_change s in
      if simple_fold c == c then elim further [ some at ↦ some (suc at) | none ↦ none ] else some 0

  unfoldable pub fold : Text → Text
  unfolding is_ascii is_ascii_uppercase to_ascii_lowercase first_change
  fold s =
      if is_ascii s
      then (if any is_ascii_uppercase s then map to_ascii_lowercase s else s)
      else elim (first_change s) [ none ↦ s | some at ↦ take at s ++ map simple_fold (drop at s) ]

  unfoldable pub fold_into : Text → Text → Text
  unfolding is_ascii to_ascii_lowercase
  fold_into s out = if is_ascii s then out ++ map to_ascii_lowercase s else out ++ map simple_fold s

  -- Folding leaves ASCII to the ASCII rule.
  abbrev pub AgreesOnAscii : Type 0
  AgreesOnAscii = (c : ℕ) → c < 128 → simple_fold c ≡ to_ascii_lowercase c

  lowercase_unchanged : (s : Text) → any is_ascii_uppercase s ≡ false → map to_ascii_lowercase s ≡ s
  unfolding to_ascii_lowercase
  lowercase_unchanged [] h = refl
  lowercase_unchanged (c ∷ s) h = ground (arith, lowercase_unchanged s)

  map-lowercase :
      AgreesOnAscii → (s : Text) → is_ascii s ≡ true → map to_ascii_lowercase s ≡ map simple_fold s
  unfolding is_ascii
  map-lowercase agrees [] h = refl
  map-lowercase agrees (c ∷ s) h = ground (arith, agrees c, map-lowercase agrees s)

  first_change_prefix :
      (s : Text)
      → (elim (first_change s) [ none ↦ s | some at ↦ take at s ++ map simple_fold (drop at s) ])
        ≡ map simple_fold s
  unfolding first_change
  first_change_prefix [] = refl
  first_change_prefix (c ∷ s) = ground (arith, first_change_prefix s)

  fold-eq-map : AgreesOnAscii → (s : Text) → fold s ≡ map simple_fold s
  unfolding fold
  fold-eq-map agrees s =
      ground (arith, lowercase_unchanged s, map-lowercase agrees s, first_change_prefix s)

  -- Folding a text is folding each of its characters, by whichever of its shortcuts, and appending
  -- the folded text to a buffer appends that.
  pub fold-fold_into :
      AgreesOnAscii
      → (s out : Text) → (fold s ≡ map simple_fold s) × (fold_into s out ≡ out ++ fold s)
  unfolding fold_into
  fold-fold_into agrees s out =
      (fold-eq-map agrees s, ground (arith, fold-eq-map agrees s, map-lowercase agrees s))

  -- Into an empty buffer `fold_into` writes what `fold` returns.
  pub fold_into-nil : (s : Text) → fold_into s [] ≡ fold s
  unfolding fold fold_into
  fold_into-nil s = ground (arith, lowercase_unchanged s, first_change_prefix s)
