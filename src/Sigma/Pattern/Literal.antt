-- ===== src/Sigma/Pattern/Literal.antt =====
-- `Pattern::as_literal`: the patterns that one text matches and no other.
use goliath_siem.Base.{
  ◌↔◌, ◌⊎◌, inl, inr, some, List, [], ◌∷◌, ◌++◌, ◌≡◌, ◌∙◌, sym, ap, refl, Text, append-nil, arith,
}
use goliath_siem.Sigma.Pattern.{Pattern, PatternPart, literal, any_sequence, any_char, as_literal}
use goliath_siem.Sigma.Pattern.Meaning.{Matches, done, part_literal, literal_inv}

done_inv : {s : Text} → Matches [] s → s ≡ []
done_inv done = refl

as_literal_parts :
    (ps : List PatternPart) (p : Pattern) (t : Text)
    → p.parts ≡ ps
    → as_literal p ≡ some t
    → ((ps ≡ []) × (t ≡ [])) ⊎ (ps ≡ literal t ∷ [])
unfolding as_literal
as_literal_parts [] p t e h = ground arith
as_literal_parts (literal x ∷ []) p t e h = ground arith
as_literal_parts (any_sequence ∷ []) p t e h = ground arith
as_literal_parts (any_char ∷ []) p t e h = ground arith
as_literal_parts (part ∷ q ∷ ps) p t e h = ground arith

only_text :
    (ps : List PatternPart) (t s : Text)
    → ((ps ≡ []) × (t ≡ [])) ⊎ (ps ≡ literal t ∷ [])
    → Matches ps s ↔ (s ≡ t)
only_text ps t s (inl (e, e')) = rw (e, e') (done_inv, λ h. rw h done)
only_text ps t s (inr e) = rw e (
  λ d.
      let (r, split, m) = literal_inv d in
      split ∙ ap (λ (x : Text). t ++ x) (done_inv m) ∙ append-nil t,
  λ h. part_literal {r = []} (h ∙ sym (append-nil t)) done,
)

-- A pattern with a literal is matched by that text and no other.
pub as_literal-Matches :
    (p : Pattern) (t s : Text) → as_literal p ≡ some t → Matches p.parts s ↔ (s ≡ t)
as_literal-Matches p t s h = only_text p.parts t s (as_literal_parts p.parts p t refl h)
