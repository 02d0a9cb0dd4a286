-- ===== src/Sigma/Pattern/Meaning.antt =====
-- What it means for a text to match the parts of a pattern, with no search order in it.
use goliath_siem.Base.{ℕ, List, [], ◌∷◌, ◌++◌, ◌≡◌, refl, ap, ◌↔◌, Text}
use goliath_siem.Sigma.Pattern.{PatternPart, literal, any_sequence, any_char}

pub data Matches : List PatternPart → Text → Type 0 where
  done : Matches [] []
  part_literal :
      {t r s : Text} {p : List PatternPart} → s ≡ t ++ r → Matches p r → Matches (literal t ∷ p) s
  part_char :
      {c : ℕ} {s : Text} {p : List PatternPart} → Matches p s → Matches (any_char ∷ p) (c ∷ s)
  star_end : {s : Text} {p : List PatternPart} → Matches p s → Matches (any_sequence ∷ p) s
  star_more :
      {c : ℕ} {s : Text} {p : List PatternPart}
      → Matches (any_sequence ∷ p) s
      → Matches (any_sequence ∷ p) (c ∷ s)

module _ {p : List PatternPart} where
  pub literal_inv :
      {t s : Text} → Matches (literal t ∷ p) s → (r : Text) × (s ≡ t ++ r) × Matches p r
  literal_inv (part_literal {r = r} e d) = (r, e, d)

  pub char_inv :
      {s : Text} → Matches (any_char ∷ p) s → (c : ℕ) × (r : Text) × (s ≡ c ∷ r) × Matches p r
  char_inv (part_char {c = c} {s = r} d) = (c, r, refl, d)

  -- A star takes some beginning of the text, and the rest of the pattern matches what follows.
  pub star_split :
      {s : Text}
      → Matches (any_sequence ∷ p) s
      → (u : Text) × (v : Text) × (s ≡ u ++ v) × Matches p v
  star_split (star_end {s = s} d) = ([], s, refl, d)
  star_split (star_more {c = c} d) =
      let (u, v, e, m) = star_split d in (c ∷ u, v, ap (λ s. c ∷ s) e, m)

  pub star_join : (u : Text) {v : Text} → Matches p v → Matches (any_sequence ∷ p) (u ++ v)
  star_join [] d = star_end d
  star_join (c ∷ u) d = star_more (star_join u d)

  pub star_at_end : Matches (any_sequence ∷ p) [] → Matches p []
  star_at_end (star_end d) = d

  pub star_must_absorb :
      {c : ℕ} {s : Text}
      → Matches (any_sequence ∷ p) (c ∷ s)
      → ¬ Matches p (c ∷ s)
      → Matches (any_sequence ∷ p) s
  star_must_absorb (star_end d) n = absurd (n d)
  star_must_absorb (star_more d) n = d

  pub two_stars :
      {s : Text} → Matches (any_sequence ∷ any_sequence ∷ p) s → Matches (any_sequence ∷ p) s
  two_stars (star_end d) = d
  two_stars (star_more d) = star_more (two_stars d)

star_cons :
    {ps qs : List PatternPart}
    → ((s : Text) → Matches ps s → Matches qs s)
    → (s : Text) → Matches (any_sequence ∷ ps) s
    → Matches (any_sequence ∷ qs) s
star_cons f s (star_end d) = star_end (f s d)
star_cons f (c ∷ s) (star_more d) = star_more (star_cons f s d)

cons_map :
    (part : PatternPart) {ps qs : List PatternPart}
    → ((s : Text) → Matches ps s → Matches qs s)
    → (s : Text) → Matches (part ∷ ps) s
    → Matches (part ∷ qs) s
cons_map (literal t) f s d = let (r, e, m) = literal_inv d in part_literal e (f r m)
cons_map any_sequence f s d = star_cons f s d
cons_map any_char f s d = let (c, r, e, m) = char_inv d in rw e (part_char (f r m))

-- What matches the same may be exchanged behind any part.
pub Matches-cons :
    (part : PatternPart) {ps qs : List PatternPart}
    → ((s : Text) → Matches ps s ↔ Matches qs s)
    → (s : Text) → Matches (part ∷ ps) s ↔ Matches (part ∷ qs) s
Matches-cons part h s = (cons_map part (λ r. (h r).0) s, cons_map part (λ r. (h r).1) s)
