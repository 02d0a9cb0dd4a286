-- ===== src/Sigma/Pattern/Source.antt =====
-- The source that `Pattern::from_parts` writes is read back by `Pattern::parse`.
use goliath_siem.Base.{
  ℕ, ◌⊎◌, inl, inr, true, false, List, [], ◌∷◌, ◌++◌, ◌≡◌, ◌∙◌, ap, refl, Text, append_assoc,
  append-nil, arith,
}
use goliath_siem.Sigma.Pattern.{
  PatternPart, literal, any_sequence, any_char, is_special, flush, parse_loop, parse, escape,
  write_source, from_parts,
}
use goliath_siem.Sigma.Pattern.Normal.{IsNormal, HasText, NoLiteralFirst, from_parts-IsNormal}

-- A character that is not special goes to the pending literal, and an escaped one too.
parse_loop-plain :
    (pending : Text) (c : ℕ) (rest : Text)
    → is_special c ≡ false
    → parse_loop pending (c ∷ rest) ≡ parse_loop (pending ++ c ∷ []) rest
unfolding parse_loop
parse_loop-plain pending c [] h = ground arith
parse_loop-plain pending c (next ∷ rest) h = ground arith

parse_loop-escaped :
    (pending : Text) (c : ℕ) (rest : Text)
    → is_special c ≡ true
    → parse_loop pending (b'\\' ∷ c ∷ rest) ≡ parse_loop (pending ++ c ∷ []) rest
unfolding parse_loop
parse_loop-escaped pending c rest h = ground arith

escape_head :
    (c : ℕ) (t rest : Text)
    → (escape (c ∷ t) ++ rest ≡ c ∷ (escape t ++ rest)) × (is_special c ≡ false)
      ⊎ (escape (c ∷ t) ++ rest ≡ b'\\' ∷ c ∷ (escape t ++ rest)) × (is_special c ≡ true)
unfolding escape
escape_head c t rest = ground arith

-- An escaped text is read into the pending literal.
parse_loop-escape :
    (pending t rest : Text) → parse_loop pending (escape t ++ rest) ≡ parse_loop (pending ++ t) rest
parse_loop-escape pending [] rest = rw append-nil (unfold escape in refl)
parse_loop-escape pending (c ∷ t) rest =
    let ih =
      parse_loop-escape (pending ++ c ∷ []) t rest
      ∙ ap (λ (x : Text). parse_loop x rest) (append_assoc pending (c ∷ []) t) in
    elim (escape_head c t rest) [
      | inl (e, plain) ↦ rw (e, parse_loop-plain pending c (escape t ++ rest) plain) ih
      | inr (e, special) ↦ rw (e, parse_loop-escaped pending c (escape t ++ rest) special) ih
    ]

-- A wildcard ends the pending literal.
parse_loop-star :
    (pending rest : Text)
    → parse_loop pending (b'*' ∷ rest) ≡ flush pending (any_sequence ∷ parse_loop [] rest)
unfolding parse_loop
parse_loop-star pending [] = refl
parse_loop-star pending (c ∷ rest) = refl

parse_loop-any_char :
    (pending rest : Text)
    → parse_loop pending (b'?' ∷ rest) ≡ flush pending (any_char ∷ parse_loop [] rest)
unfolding parse_loop
parse_loop-any_char pending [] = refl
parse_loop-any_char pending (c ∷ rest) = refl

flush-HasText : (t : Text) (ps : List PatternPart) → HasText t → flush t ps ≡ literal t ∷ ps
unfolding flush
flush-HasText [] ps h = absurd h
flush-HasText (c ∷ t) ps h = refl

flush-nil : (ps : List PatternPart) → flush [] ps ≡ ps
unfolding flush
flush-nil ps = refl

-- Normal parts are read back, and where they begin with no literal, behind what is pending.
parse_loop-write_source :
    (ps : List PatternPart)
    → IsNormal ps
    → (parse_loop [] (write_source ps) ≡ ps)
      × ((pending : Text)
          → NoLiteralFirst ps
          → parse_loop pending (write_source ps) ≡ flush pending ps)
unfolding write_source
parse_loop-write_source [] h = (unfold parse_loop in refl, λ pending _. unfold parse_loop in refl)
parse_loop-write_source (literal t ∷ ps) (text, first, h) =
    let (_, behind) = parse_loop-write_source ps h in
    (
      parse_loop-escape [] t (write_source ps) ∙ behind t first ∙ flush-HasText t ps text,
      λ _ n. absurd n,
    )
parse_loop-write_source (any_char ∷ ps) h =
    let (ih, _) = parse_loop-write_source ps h in
    (rw (parse_loop-any_char, ih) (flush-nil _), λ pending _. rw (parse_loop-any_char, ih))
parse_loop-write_source (any_sequence ∷ ps) (_, h) =
    let (ih, _) = parse_loop-write_source ps h in
    (rw (parse_loop-star, ih) (flush-nil _), λ pending _. rw (parse_loop-star, ih))

source-from_parts :
    (ps : List PatternPart) → (from_parts ps).source ≡ write_source (from_parts ps).parts
unfolding from_parts
source-from_parts ps = refl

parts-parse : (s : Text) → (parse s).parts ≡ parse_loop [] s
unfolding parse
parts-parse s = refl

-- Parsing the source of a pattern built from parts gives the parts of that pattern.
pub parse-from_parts :
    (ps : List PatternPart) → (parse (from_parts ps).source).parts ≡ (from_parts ps).parts
parse-from_parts ps =
    parts-parse _
    ∙ ap (parse_loop []) (source-from_parts ps)
    ∙ (parse_loop-write_source (from_parts ps).parts (from_parts-IsNormal ps)).0
