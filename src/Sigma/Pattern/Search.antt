-- ===== src/Sigma/Pattern/Search.antt =====
-- Why a search that returns to the latest `*` only loses nothing: the invariant of the loops of
-- `Pattern::matches` and of `wildcard_matches`, and its steps.
use goliath_siem.Base.{
  ℕ, ◌↔◌, Bool, true, false, Option, none, some, List, [], ◌∷◌, ◌++◌, ◌≡◌, refl, ap, ◌≤◌, ◌<◌,
  length, length-append, arith, Text, strip_prefix, strip_prefix-eq, strip_prefix-append, later_end,
}
use goliath_siem.Sigma.Pattern.{PatternPart, literal, any_sequence, any_char, Resume, advance}
use goliath_siem.Sigma.Pattern.Meaning.{
  Matches, part_literal, part_char, star_end, star_more, literal_inv, char_inv, star_split,
  star_join, star_must_absorb, two_stars,
}

abbrev pub IsOne : PatternPart → Type 0
IsOne any_sequence = ⊥
IsOne _ = Unit

module _ {p : List PatternPart} where
  pub Matches-advance :
      (part : PatternPart) (s r : Text)
      → IsOne part
      → advance part s ≡ some r
      → Matches p r
      → Matches (part ∷ p) s
  unfolding advance
  Matches-advance any_sequence s r one e d = absurd one
  Matches-advance any_char [] r one e d = cc
  Matches-advance any_char (c ∷ s) r one e d = part_char (let e' : s ≡ r = cc in rw e' d)
  Matches-advance (literal t) s r one e d = part_literal (strip_prefix-eq t s r e) d

  pub not-Matches-advance :
      (part : PatternPart) (s : Text) → advance part s ≡ none → ¬ Matches (part ∷ p) s
  unfolding advance
  not-Matches-advance any_sequence s e d = cc
  not-Matches-advance any_char [] e d = elim d [ ]
  not-Matches-advance any_char (c ∷ s) e d = cc
  not-Matches-advance (literal t) s e d =
      let (r, e', _) = literal_inv d in cc (ap (strip_prefix t) e', strip_prefix-append t r)

  pub advance_inv :
      (part : PatternPart) (s r : Text)
      → IsOne part
      → advance part s ≡ some r
      → Matches (part ∷ p) s
      → Matches p r
  unfolding advance
  advance_inv any_sequence s r one e d = absurd one
  advance_inv any_char s r one e d =
      let (c, v, e', m) = char_inv d in let e'' : r ≡ v = cc in rw e'' m
  advance_inv (literal t) s r one e d =
      let (v, e', m) = literal_inv d in
      let e'' : r ≡ v = cc (ap (strip_prefix t) e', strip_prefix-append t v) in rw e'' m

  -- A part that has advanced once leaves a text in which its star still finds the rest.
  pub star-advance :
      (part : PatternPart) (s r : Text)
      → IsOne part
      → advance part s ≡ some r
      → Matches (any_sequence ∷ part ∷ p) s
      → Matches (any_sequence ∷ p) r
  unfolding advance
  star-advance any_sequence s r one e d = absurd one
  star-advance any_char [] r one e d = cc
  star-advance any_char (c ∷ s) r one e d =
      let (u, v, split, m) = star_split d in
      let (x, w, first, m') = char_inv m in
      let e' : s ≡ r = cc in
      let joined : c ∷ r ≡ u ++ x ∷ w = rw (← e', ← first) split in
      let (y, end) = later_end (c ∷ []) (x ∷ []) u r w refl joined in rw end (star_join y m')
  star-advance (literal t) s r one e d =
      let (u, v, split, m) = star_split d in
      let (w, first, m') = literal_inv m in
      let joined : t ++ r ≡ u ++ (t ++ w) = rw (← first, ← split, strip_prefix-eq t s r e) in
      let (y, end) = later_end t t u r w refl joined in rw end (star_join y m')

-- `G` is the question asked at the start of the search.
module _ (G : Type 0) where
  -- What the saved position of the latest `*` stands for.
  abbrev pub Saved : List PatternPart → Text → Resume → Type 0
  Saved p s none = G → Matches p s
  Saved p s (some (bp, bs)) = (G ↔ Matches (any_sequence ∷ bp) bs) × (Matches bp bs → Matches p s)

  pub record IsOnTrack (p : List PatternPart) (s : Text) (resume : Resume) : Type 0 where
    pub sound : Matches p s → G
    pub ahead : G → Matches (any_sequence ∷ p) s
    pub saved : Saved p s resume

  pub IsOnTrack-star :
      (p : List PatternPart) (s : Text) (resume : Resume)
      → IsOnTrack (any_sequence ∷ p) s resume
      → IsOnTrack p s (some (p, s))
  IsOnTrack-star p s resume i = record {
    sound = λ d. i.sound (star_end d);
    ahead = λ g. two_stars (i.ahead g);
    saved = ((λ g. two_stars (i.ahead g), i.sound), λ d. d);
  }

  pub IsOnTrack-advance :
      (part : PatternPart) (p : List PatternPart) (s r : Text) (resume : Resume)
      → IsOne part
      → advance part s ≡ some r
      → IsOnTrack (part ∷ p) s resume
      → IsOnTrack p r resume
  IsOnTrack-advance part p s r resume one e i = record {
    sound = λ d. i.sound (Matches-advance part s r one e d);
    ahead = λ g. star-advance part s r one e (i.ahead g);
    saved = saved resume i.saved;
  }
    where
      saved : (resume : Resume) → Saved (part ∷ p) s resume → Saved p r resume
      saved none h = λ g. advance_inv part s r one e (h g)
      saved (some (bp, bs)) (same, down) = (same, λ d. advance_inv part s r one e (down d))

  -- After a mismatch the search goes on from the latest `*`, which absorbs one more character.
  pub IsOnTrack-absorb :
      (p : List PatternPart) (s : Text) (c : ℕ) (bp : List PatternPart) (bs : Text)
      → IsOnTrack p s (some (bp, c ∷ bs))
      → ¬ Matches p s
      → IsOnTrack bp bs (some (bp, bs))
  IsOnTrack-absorb p s c bp bs i mismatch =
      let (same, down) = i.saved in
      let absorbs : G → Matches (any_sequence ∷ bp) bs =
        λ g. star_must_absorb (same.0 g) (λ d. mismatch (down d)) in
      record {
        sound = λ d. same.1 (star_more (star_end d));
        ahead = absorbs;
        saved = ((absorbs, λ d. same.1 (star_more d)), λ d. d);
      }

-- The answer is right about `G`.
abbrev pub Decides : Type 0 → Option Bool → Type 0
Decides G (some true) = G
Decides G (some false) = ¬ G
Decides G none = ⊥

pub Decides→iff :
    (G : Type 0) (r : Option Bool)
    → Decides G r
    → ((r ≡ some true) ↔ G) × ((r ≡ some false) ↔ (¬ G))
Decides→iff G (some true) g = ((λ _. g, λ _. refl), (cc, λ n. absurd (n g)))
Decides→iff G (some false) n = ((cc, λ g. absurd (n g)), (λ _. n, λ _. refl))
Decides→iff G none h = absurd h

pub advance-length :
    (part : PatternPart) (s r : Text) → advance part s ≡ some r → length r ≤ length s
unfolding advance
advance-length any_sequence s r e = ground arith
advance-length any_char [] r e = cc
advance-length any_char (c ∷ s) r e = ground arith
advance-length (literal t) s r e = rw (strip_prefix-eq t s r e) (omega (arith, length-append t r))

-- `m` bounds the text that is left to absorb, and `k` is above the number of parts.
module _ (k : ℕ) where
  abbrev pub Room : ℕ → Text → Resume → Type 0
  Room m s none = length s ≤ m
  Room m s (some (bp, bs)) = (length s ≤ length bs) × (length bs ≤ m) × (length bp < k)

  pub Room-text : (m : ℕ) (s : Text) (resume : Resume) → Room m s resume → length s ≤ m
  Room-text m s none h = h
  Room-text m s (some (bp, bs)) h = omega arith

  pub Room-shorter :
      (m : ℕ) (s r : Text) (resume : Resume)
      → length r ≤ length s
      → Room m s resume
      → Room m r resume
  Room-shorter m s r none le h = omega arith
  Room-shorter m s r (some (bp, bs)) le h = omega arith
