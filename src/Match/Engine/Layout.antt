-- ===== src/Match/Engine/Layout.antt =====
-- A scan of all sources of a group: a literal, by its index in the group, has the hits that it has in
-- the texts of its source.
use goliath_siem.Base.{
  ℕ, zero, suc, ◌+◌, ◌≡◌, ◌<◌, ◌≤◌, inl, inr, refl, ◌∙◌, Bool, false, ◌||◌, Option, some, List, [],
  ◌∷◌, any, any-append, Text, length, get_elem?, get_or, arith,
}
use goliath_siem.Base.Elems.{get_elem?-lt}
use goliath_siem.Rule.Resolved.{RegexFlags}
use goliath_siem.Crates.{Crates}
use goliath_siem.Match.Laws.{Laws}
use goliath_siem.Match.Semantics.{Event}
use goliath_siem.Match.Engine.{Origin, Shape, Source}
use goliath_siem.Match.Engine.Compile.{first_literals, total_literals}
use goliath_siem.Match.Engine.Hits.{gather}
use goliath_siem.Match.Engine.Evaluate.{source_first, all_texts}
use goliath_siem.Match.Engine.Shapes.{occurs}
use goliath_siem.Match.Engine.Denotation.{texts_of}
use goliath_siem.Match.Engine.Marks.{Marks, gives, marks_of_source, marks_of_sources}
use goliath_siem.Match.Engine.Scan.{
  AreWithin, AreWithin-append, gives_outside, Built, built_nil, built_cons, source-AreWithin,
  source-gives,
}

AreWithin-widen :
    (low high low' high' : ℕ) (marks : Marks)
    → low' ≤ low
    → high ≤ high'
    → AreWithin low high marks
    → AreWithin low' high' marks
AreWithin-widen low high low' high' marks below above within m i =
    let (f, g) = within m i in (omega (arith, below, f), omega (arith, above, g))

pub or_none_left : (a b : Bool) → a ≡ false → (a || b) ≡ b
or_none_left a b h = ground arith

or_none_right : (a b : Bool) → b ≡ false → (a || b) ≡ a
or_none_right a b h = ground arith

pub first-le :
    (total : ℕ) (literals : List (List Text)) (s : ℕ) (x : List Text)
    → get_elem? literals s ≡ some x
    → total ≤ get_or (first_literals total literals) s 0
unfolding first_literals
first-le total [] s x h = cc
first-le total (l ∷ literals) zero x h = omega arith
first-le total (l ∷ literals) (suc s) x h =
    omega (arith, first-le (total + length l) literals s x h)

-- The index of a literal in its group is one of the group's.
pub first-inside :
    (total : ℕ) (literals : List (List Text)) (s i : ℕ) (l : Text)
    → get_elem? (get_or literals s []) i ≡ some l
    → (total ≤ get_or (first_literals total literals) s 0 + i)
      × (get_or (first_literals total literals) s 0 + i < total + total_literals literals)
unfolding first_literals total_literals
first-inside total [] zero i l h = cc
first-inside total [] (suc s) i l h = cc
first-inside total (x ∷ literals) zero i l h =
    let inside = get_elem?-lt x i l h in (omega (arith, inside), omega (arith, inside))
first-inside total (x ∷ literals) (suc s) i l h =
    let (f, g) = first-inside (total + length x) literals s i l h in
    (omega (arith, f), omega (arith, g))

module _ (c : Crates) (required_literals : Text → RegexFlags → Option (List Text)) where
  open c use {Automaton}

  -- The sources know their first literals.
  pub Built-first :
      {total : ℕ} {origins : List (Origin × Bool)} {literals : List (List Text)}
      {sources : List (Source Automaton)}
      → Built c required_literals total origins literals sources
      → (s : ℕ) → source_first c sources s ≡ get_or (first_literals total literals) s 0
  unfolding first_literals
  Built-first built_nil zero = refl
  Built-first built_nil (suc s) = refl
  Built-first (built_cons e built) zero = refl
  Built-first (built_cons e built) (suc s) = Built-first built s

  -- The texts gathered for an evaluation are those of the sources.
  pub Built-texts :
      (event : Event c) {total : ℕ} {origins : List (Origin × Bool)} {literals : List (List Text)}
      {sources : List (Source Automaton)}
      → Built c required_literals total origins literals sources
      → (s : ℕ) → get_or (all_texts c event sources) s [] ≡ texts_of c event (get_elem? origins s)
  unfolding texts_of
  Built-texts event built_nil zero = refl
  Built-texts event built_nil (suc s) = refl
  Built-texts event (built_cons e built) zero = refl
  Built-texts event (built_cons e built) (suc s) = Built-texts event built s

  module _ (laws : Laws c) (event : Event c) where
    -- All later sources have later literals.
    pub Built-AreWithin :
        {total : ℕ} {origins : List (Origin × Bool)} {literals : List (List Text)}
        {sources : List (Source Automaton)}
        → Built c required_literals total origins literals sources
        → AreWithin total (total + total_literals literals) (marks_of_sources c event sources)
    unfolding total_literals
    Built-AreWithin built_nil = λ m i. absurd i.lower
    Built-AreWithin {total}
          (built_cons {origin = origin} {cased = cased} {literals = literals}
            {automaton = automaton} {rest = rest} {sources = sources} e built) =
        let source : Source Automaton = record {
          origin = origin;
          cased = cased;
          automaton = automaton;
          first_literal = total;
        } in
        let texts = gather c origin cased event in
        AreWithin-append total _ (marks_of_source c source texts) (marks_of_sources c event sources)
          (AreWithin-widen total (total + length literals) total _ (marks_of_source c source texts)
            (omega arith) (omega arith)
            (source-AreWithin c required_literals laws literals automaton source texts e refl))
          (AreWithin-widen (total + length literals) (total + length literals + total_literals rest)
            total _ (marks_of_sources c event sources) (omega arith) (omega arith)
            (Built-AreWithin built))

    -- The marks of all sources give a literal what occurs in the texts of its source.
    pub Built-gives :
        (shape : Shape) {total : ℕ} {origins : List (Origin × Bool)} {literals : List (List Text)}
        {sources : List (Source Automaton)}
        → Built c required_literals total origins literals sources
        → (s i : ℕ) (l : Text) → get_elem? (get_or literals s []) i ≡ some l
        → any
            (gives shape (get_or (first_literals total literals) s 0 + i))
            (marks_of_sources c event sources)
          ≡ any (occurs shape l) (texts_of c event (get_elem? origins s))
    unfolding first_literals texts_of
    Built-gives shape built_nil zero i l h = cc
    Built-gives shape built_nil (suc s) i l h = cc
    Built-gives shape {total}
          (built_cons {origin = origin} {cased = cased} {literals = literals}
            {automaton = automaton} {rest = rest} {sources = sources} e built)
          zero i l h =
        let source : Source Automaton = record {
          origin = origin;
          cased = cased;
          automaton = automaton;
          first_literal = total;
        } in
        let texts = gather c origin cased event in
        let later =
          gives_outside shape (total + i) (total + length literals) _
            (marks_of_sources c event sources) (Built-AreWithin built)
            (inl (omega (arith, get_elem?-lt literals i l h))) in
        any-append (gives shape (total + i)) (marks_of_source c source texts)
          (marks_of_sources c event sources)
        ∙ or_none_right _ _ later
        ∙ source-gives c required_literals laws literals automaton source i l shape texts e refl h
    Built-gives shape {total}
          (built_cons {origin = origin} {cased = cased} {literals = literals}
            {automaton = automaton} {rest = rest} {sources = sources} e built)
          (suc s) i l h =
        let source : Source Automaton = record {
          origin = origin;
          cased = cased;
          automaton = automaton;
          first_literal = total;
        } in
        let texts = gather c origin cased event in
        let g = get_or (first_literals (total + length literals) rest) s 0 + i in
        let earlier =
          gives_outside shape g total (total + length literals) (marks_of_source c source texts)
            (source-AreWithin c required_literals laws literals automaton source texts e refl)
            (inr (first-inside (total + length literals) rest s i l h).0) in
        any-append (gives shape g) (marks_of_source c source texts)
          (marks_of_sources c event sources)
        ∙ or_none_left _ _ earlier
        ∙ Built-gives shape built s i l h
