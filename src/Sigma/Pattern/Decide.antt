-- ===== src/Sigma/Pattern/Decide.antt =====
-- `Pattern::matches` stops within its fuel, and its answer is whether the text matches the parts.
use goliath_siem.Base.{
  ℕ, zero, suc, ◌+◌, ◌*◌, ◌<◌, ◌↔◌, Bool, true, false, Option, none, some, List, [], ◌∷◌, ◌≡◌, refl,
  Text, length, arith,
}
use goliath_siem.Sigma.Pattern.{
  Pattern, PatternPart, literal, any_sequence, any_char, Resume, advance, backtrack, matches_loop,
  run_matches, matches,
}
use goliath_siem.Sigma.Pattern.Meaning.{Matches, done, star_end, star_at_end}
use goliath_siem.Sigma.Pattern.Search.{
  IsOne, Room, Room-text, Room-shorter, advance-length, IsOnTrack, IsOnTrack-star,
  IsOnTrack-advance, IsOnTrack-absorb, not-Matches-advance, Decides,
}

module _ (k : ℕ) (G : Type 0) where
  abbrev Correct : ℕ → Type 0
  Correct fuel =
      (m : ℕ) (p : List PatternPart) (s : Text) (resume : Resume)
      → IsOnTrack G p s resume
      → Room k m s resume
      → length p < k
      → m * k + length p < fuel
      → Decides G (matches_loop fuel p s resume)

  backtrack-Decides :
      (fuel m : ℕ) (p : List PatternPart) (s : Text) (resume : Resume)
      → Correct fuel
      → IsOnTrack G p s resume
      → Room k m s resume
      → m * k < suc fuel
      → ¬ Matches p s
      → Decides G (backtrack resume (matches_loop fuel))
  unfolding backtrack
  backtrack-Decides fuel m p s none ih i room h mismatch = λ g. mismatch (i.saved g)
  backtrack-Decides fuel m p s (some (bp, [])) ih i room h mismatch =
      λ g. mismatch (i.saved.1 (star_at_end (i.saved.0.0 g)))
  backtrack-Decides fuel zero p s (some (bp, c ∷ bs)) ih i room h mismatch = absurd (omega arith)
  backtrack-Decides fuel (suc m) p s (some (bp, c ∷ bs)) ih i room h mismatch =
      ih m bp bs (some (bp, bs)) (IsOnTrack-absorb G p s c bp bs i mismatch) (omega arith)
        (omega arith) (omega arith)

  -- The part at hand is no star: the loop goes past it, or back to the latest `*`.
  part-Decides :
      (fuel m : ℕ) (part : PatternPart) (p : List PatternPart) (s : Text) (resume : Resume)
      → Correct fuel
      → IsOne part
      → IsOnTrack G (part ∷ p) s resume
      → Room k m s resume
      → length p + 1 < k
      → m * k + length p < fuel
      → (o : Option Text) → advance part s ≡ o
      → Decides G (elim o [
        | some r ↦ matches_loop fuel p r resume
        | none ↦ backtrack resume (matches_loop fuel)
      ])
  part-Decides fuel m part p s resume ih one i room hp h none e =
      backtrack-Decides fuel m (part ∷ p) s resume ih i room (omega arith)
        (not-Matches-advance part s e)
  part-Decides fuel m part p s resume ih one i room hp h (some r) e =
      ih m p r resume (IsOnTrack-advance G part p s r resume one e i)
        (Room-shorter k m s r resume (advance-length part s r e) room) (omega arith) h

  loop-Correct : (fuel : ℕ) → Correct fuel
  unfolding matches_loop
  loop-Correct zero m p s resume i room hp h = omega arith
  loop-Correct (suc fuel) m [] [] resume i room hp h = i.sound done
  loop-Correct (suc fuel) m [] (c ∷ s) resume i room hp h =
      backtrack-Decides fuel m [] (c ∷ s) resume (loop-Correct fuel) i room (omega arith)
        (λ d. elim d [ ])
  loop-Correct (suc fuel) m (any_sequence ∷ p) s resume i room hp h =
      loop-Correct fuel m p s (some (p, s)) (IsOnTrack-star G p s resume i)
        (omega (arith, Room-text k m s resume room)) (omega arith) (omega arith)
  loop-Correct (suc fuel) m (any_char ∷ p) s resume i room hp h =
      part-Decides fuel m any_char p s resume (loop-Correct fuel) tt i room (omega arith)
        (omega arith) (advance any_char s) refl
  loop-Correct (suc fuel) m (literal t ∷ p) s resume i room hp h =
      part-Decides fuel m (literal t) p s resume (loop-Correct fuel) tt i room (omega arith)
        (omega arith) (advance (literal t) s) refl

run_matches-Decides : (p : Pattern) (s : Text) → Decides (Matches p.parts s) (run_matches p s)
unfolding run_matches
run_matches-Decides p s =
    loop-Correct (length p.parts + 1) (Matches p.parts s) _ (length s) p.parts s none
      (record { sound = λ d. d; ahead = star_end; saved = λ d. d }) (omega arith) (omega arith)
      (omega arith)

-- The loop of `Pattern::matches` ends within its fuel, with the answer of `matches`, which is true
-- exactly for the texts that match the parts.
pub matches_iff :
    (p : Pattern) (s : Text)
    → (run_matches p s ≡ some (matches p s)) × ((matches p s ≡ true) ↔ Matches p.parts s)
unfolding matches
matches_iff p s = answer (run_matches p s) (run_matches-Decides p s)
  where
    answer :
        (r : Option Bool)
        → Decides (Matches p.parts s) r
        → (r ≡ some (elim r [ some b ↦ b | none ↦ false ]))
          × (((elim r [ some b ↦ b | none ↦ false ]) ≡ true) ↔ Matches p.parts s)
    answer (some true) d = (refl, (λ _. d, λ _. refl))
    answer (some false) n = (refl, (cc, λ d. absurd (n d)))
    answer none h = absurd h
