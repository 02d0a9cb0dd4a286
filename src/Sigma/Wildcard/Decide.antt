-- ===== src/Sigma/Wildcard/Decide.antt =====
-- `wildcard_matches` stops within its fuel and decides the meaning of a pattern over names.
use goliath_siem.Base.{
  ℕ, zero, suc, ◌+◌, ◌*◌, ◌<◌, ◌↔◌, inl, inr, Bool, true, false, Option, none, some, List, [], ◌∷◌,
  ◌≡◌, ◌∙◌, sym, false≢true, refl, ap, ◌==◌, if◌then◌else◌, Bool-cases, all, Text, length, arith,
}
use goliath_siem.Sigma.Pattern.{PatternPart, literal, any_sequence, advance}
use goliath_siem.Sigma.Pattern.{Resume as PartsResume}
use goliath_siem.Sigma.Pattern.Meaning.{Matches, done, star_end, star_at_end, literal_inv}
use goliath_siem.Sigma.Pattern.Search.{
  Room, Room-text, Room-shorter, IsOnTrack, IsOnTrack-star, IsOnTrack-advance, IsOnTrack-absorb,
  not-Matches-advance, Decides, Decides→iff,
}
use goliath_siem.Sigma.Wildcard.{
  Resume, retry, wildcard_loop, wildcard_matches, starts_with_underscore, Target, them, pattern_of,
  target_matches,
}

-- A pattern over names as parts: `*` is any run of characters, any other character is itself.
unfoldable pub part_of : ℕ → PatternPart
part_of c = if c == b'*' then any_sequence else literal (c ∷ [])

unfoldable pub parts_of : Text → List PatternPart
parts_of [] = []
parts_of (c ∷ p) = part_of c ∷ parts_of p

length-parts_of : (p : Text) → length (parts_of p) ≡ length p
unfolding parts_of
length-parts_of [] = refl
length-parts_of (c ∷ p) = ap suc (length-parts_of p)

part_of-star : (c : ℕ) → (c == b'*') ≡ true → part_of c ≡ any_sequence
unfolding part_of
part_of-star c h = ground arith

part_of-other : (c : ℕ) → (c == b'*') ≡ false → part_of c ≡ literal (c ∷ [])
unfolding part_of
part_of-other c h = ground arith

abbrev saved_of : Resume → PartsResume
saved_of none = none
saved_of (some (p, s)) = some (parts_of p, s)

only_stars→Matches : (p : Text) → all (λ ch. ch == b'*') p ≡ true → Matches (parts_of p) []
unfolding parts_of
only_stars→Matches [] h = done
only_stars→Matches (c ∷ p) h =
    rw (part_of-star c (ground arith)) (star_end (only_stars→Matches p (ground arith)))

Matches→only_stars : (p : Text) → Matches (parts_of p) [] → all (λ ch. ch == b'*') p ≡ true
unfolding parts_of
Matches→only_stars [] d = refl
Matches→only_stars (c ∷ p) d = elim (Bool-cases (c == b'*')) [
  | inl star ↦
      let d' : Matches (any_sequence ∷ parts_of p) [] = rw (part_of-star c star) at d in
      ground (arith, Matches→only_stars p (star_at_end d'))
  | inr other ↦
      let d' : Matches (literal (c ∷ []) ∷ parts_of p) [] = rw (part_of-other c other) at d in
      let (r, e, _) = literal_inv d' in cc
]

advance-equal : (x c : ℕ) (s : Text) → (x == c) ≡ true → advance (literal (x ∷ [])) (c ∷ s) ≡ some s
unfolding advance
advance-equal x c s h = ground arith

advance-differ : (x c : ℕ) (s : Text) → (x == c) ≡ false → advance (literal (x ∷ [])) (c ∷ s) ≡ none
unfolding advance
advance-differ x c s h = ground arith

module _ (k : ℕ) (G : Type 0) where
  abbrev Correct : ℕ → Type 0
  Correct fuel =
      (m : ℕ) (p s : Text) (resume : Resume)
      → IsOnTrack G (parts_of p) s (saved_of resume)
      → Room k m s (saved_of resume)
      → length (parts_of p) < k
      → m * k + length (parts_of p) < fuel
      → Decides G (wildcard_loop fuel p s resume)

  end-Decides :
      (p : Text) (resume : PartsResume)
      → IsOnTrack G (parts_of p) [] resume
      → Decides G (some (all (λ ch. ch == b'*') p))
  end-Decides p resume i = elim (Bool-cases (all (λ ch. ch == b'*') p)) [
    | inl stars ↦ rw stars (i.sound (only_stars→Matches p stars))
    | inr others ↦
        rw others (λ g. false≢true (sym others ∙ Matches→only_stars p (star_at_end (i.ahead g))))
  ]

  retry-Decides :
      (fuel m : ℕ) (p : Text) (c : ℕ) (s : Text) (resume : Resume)
      → Correct fuel
      → IsOnTrack G (parts_of p) (c ∷ s) (saved_of resume)
      → Room k m (c ∷ s) (saved_of resume)
      → m * k < suc fuel
      → ¬ Matches (parts_of p) (c ∷ s)
      → Decides G (retry resume (wildcard_loop fuel))
  unfolding retry
  retry-Decides fuel m p c s none ih i room h mismatch = λ g. mismatch (i.saved g)
  retry-Decides fuel m p c s (some (wp, [])) ih i room h mismatch = absurd (omega arith)
  retry-Decides fuel zero p c s (some (wp, x ∷ ws)) ih i room h mismatch = absurd (omega arith)
  retry-Decides fuel (suc m) p c s (some (wp, x ∷ ws)) ih i room h mismatch =
      ih m wp ws (some (wp, ws))
        (IsOnTrack-absorb G (parts_of p) (c ∷ s) x (parts_of wp) ws i mismatch) (omega arith)
        (omega arith) (omega arith)

  loop-Correct : (fuel : ℕ) → Correct fuel
  unfolding wildcard_loop parts_of
  loop-Correct zero m p s resume i room hp h = absurd (omega arith)
  loop-Correct (suc fuel) m p [] resume i room hp h = end-Decides p (saved_of resume) i
  loop-Correct (suc fuel) m [] (c ∷ s) resume i room hp h =
      retry-Decides fuel m [] c s resume (loop-Correct fuel) i room (omega arith) (λ d. elim d [ ])
  loop-Correct (suc fuel) m (x ∷ p) (c ∷ s) resume i room hp h = elim (Bool-cases (x == b'*')) [
    | inl star ↦ rw star (
        loop-Correct fuel m p (c ∷ s) (some (p, c ∷ s))
          (IsOnTrack-star G (parts_of p) (c ∷ s) (saved_of resume) (rw (part_of-star x star) at i))
          (omega (arith, Room-text k m (c ∷ s) (saved_of resume) room)) (omega arith) (omega arith))
    | inr other ↦
        let i' : IsOnTrack G (literal (x ∷ []) ∷ parts_of p) (c ∷ s) (saved_of resume) =
          rw (part_of-other x other) at i in
        elim (Bool-cases (x == c)) [
          | inl equal ↦
              rw (other, equal)
                (loop-Correct fuel m p s resume
                  (IsOnTrack-advance G (literal (x ∷ [])) (parts_of p) (c ∷ s) s (saved_of resume)
                    tt (advance-equal x c s equal) i')
                  (Room-shorter k m (c ∷ s) s (saved_of resume) (omega arith) room) (omega arith)
                  (omega arith))
          | inr differ ↦
              rw (other, differ)
                (retry-Decides fuel m (x ∷ p) c s resume (loop-Correct fuel) i room (omega arith) (
                  rw (part_of-other x other)
                    (not-Matches-advance (literal (x ∷ [])) (c ∷ s) (advance-differ x c s differ))))
        ]
  ]

wildcard_matches-Decides : (p s : Text) → Decides (Matches (parts_of p) s) (wildcard_matches p s)
unfolding wildcard_matches
wildcard_matches-Decides p s =
    loop-Correct (length (parts_of p) + 1) (Matches (parts_of p) s) _ (length s) p s none
      (record { sound = λ d. d; ahead = star_end; saved = λ d. d }) (omega arith) (omega arith)
      (rw (length-parts_of p) (omega arith))

-- `wildcard_matches` ends with an answer, which is whether the candidate matches the pattern with
-- `*` for any run of characters and every other character for itself.
pub wildcard_matches_iff :
    (p s : Text)
    → ((wildcard_matches p s ≡ some true) ↔ Matches (parts_of p) s)
      × ((wildcard_matches p s ≡ some false) ↔ (¬ Matches (parts_of p) s))
wildcard_matches_iff p s =
    Decides→iff (Matches (parts_of p) s) (wildcard_matches p s) (wildcard_matches-Decides p s)

abbrev pub IsHidden : Text → Type 0
IsHidden identifier = starts_with_underscore identifier ≡ true

-- What a target covers: `them` every identifier that is not hidden, and a pattern those that match
-- it, of which hidden ones only if the pattern begins with an underscore.
abbrev pub Covers : Target → Text → Type 0
Covers them identifier = ¬ IsHidden identifier
Covers (pattern_of p) identifier =
    (IsHidden identifier → IsHidden p) × Matches (parts_of p) identifier

not-IsHidden : (s : Text) → starts_with_underscore s ≡ false → ¬ IsHidden s
not-IsHidden s h e = cc

Decides-with : (P G : Type 0) (r : Option Bool) → P → Decides G r → Decides (P × G) r
Decides-with P G (some true) p g = (p, g)
Decides-with P G (some false) p n = λ x. n x.1
Decides-with P G none p h = h

target_matches-Decides :
    (t : Target) (identifier : Text) → Decides (Covers t identifier) (target_matches t identifier)
unfolding target_matches
target_matches-Decides them identifier = elim (Bool-cases (starts_with_underscore identifier)) [
  | inl hidden ↦ rw hidden (λ n. n refl)
  | inr shown ↦ rw shown (λ h. false≢true h)
]
target_matches-Decides (pattern_of p) identifier =
    let decided = wildcard_matches-Decides p identifier in
    elim (Bool-cases (starts_with_underscore p)) [
      | inl helper ↦ rw helper (Decides-with _ _ _ (λ _. refl) decided)
      | inr ordinary ↦ elim (Bool-cases (starts_with_underscore identifier)) [
        | inl hidden ↦ rw (ordinary, hidden) (λ x. false≢true (x.0 refl))
        | inr shown ↦ rw (ordinary, shown) (Decides-with _ _ _ (λ h. absurd (false≢true h)) decided)
      ]
    ]

-- `Target::matches` ends with an answer, which is true exactly for the identifiers that the target
-- covers and false exactly for the others.
pub target_matches_iff :
    (t : Target) (identifier : Text)
    → ((target_matches t identifier ≡ some true) ↔ Covers t identifier)
      × ((target_matches t identifier ≡ some false) ↔ (¬ Covers t identifier))
target_matches_iff t identifier =
    Decides→iff (Covers t identifier) (target_matches t identifier)
      (target_matches-Decides t identifier)
