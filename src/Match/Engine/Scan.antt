-- ===== src/Match/Engine/Scan.antt =====
-- The sources of a group, as `GroupBuilder::build` lays them out: each source has the literals from
-- its first on, so a scan gives a literal its hits and no other's.
use goliath_siem.Base.{
  ℕ, ◌+◌, ◌≡◌, ◌<◌, ◌≤◌, ◌⊎◌, inl, inr, refl, sym, subst, ap, ap₂, ◌∙◌, Bool, false, ◌&&◌, ◌||◌,
  Option, none, some, List, [], ◌∷◌, ◌++◌, any, any-append, any-map, any_ext, any-In, and_left,
  append-In, ◌==◌, ==_iff, false_of_not, Text, length, get_elem?, In, arith,
}
use goliath_siem.Base.Elems.{get_elem?-lt, map-In}
use goliath_siem.Rule.Resolved.{RegexFlags}
use goliath_siem.Crates.{Crates}
use goliath_siem.Match.Laws.{Laws}
use goliath_siem.Match.Reference.{Compiled, ok, compile_error, >>=-eq-ok}
use goliath_siem.Match.Engine.{Origin, Shape, Source}
use goliath_siem.Match.Engine.Compile.{automaton_of, build_sources, first_literals}
use goliath_siem.Match.Engine.Hits.{Hit, flags_of, wanted}
use goliath_siem.Match.Engine.Shapes.{occurs}
use goliath_siem.Match.Engine.Occurrences.{marked_lem, is_mark}
use goliath_siem.Match.Engine.Marks.{Marks, gives, marks_of_text, marks_of_texts, marks_of_source}

-- The marks are of literals from the first bound on, below the second.
abbrev pub AreWithin : ℕ → ℕ → Marks → Type 0
AreWithin low high marks = (m : ℕ × Hit) → In m marks → (low ≤ m.0) × (m.0 < high)

pub AreWithin-append :
    (low high : ℕ) (xs ys : Marks)
    → AreWithin low high xs
    → AreWithin low high ys
    → AreWithin low high (xs ++ ys)
AreWithin-append low high xs ys f g m i = elim (append-In m xs ys i) [
  | inl j ↦ f m j
  | inr j ↦ g m j
]

-- What is marked elsewhere gives a literal nothing.
pub gives_outside :
    (shape : Shape) (g low high : ℕ) (marks : Marks)
    → AreWithin low high marks
    → (g < low) ⊎ (high ≤ g)
    → any (gives shape g) marks ≡ false
gives_outside shape g low high marks within outside = false_of_not _ (λ h.
    let (m, i, e) = any-In (gives shape g) marks h in
    let same : m.0 ≡ g = (==_iff m.0 g).0 (and_left _ _ e) in
    let (above, below) = within m i in
    elim outside [ inl o ↦ absurd (omega arith) | inr o ↦ absurd (omega arith) ])

module _ (c : Crates) (required_literals : Text → RegexFlags → Option (List Text)) where
  open c use {Automaton, find_overlapping, automaton_build}

  -- The sources that are built of a builder's sources and literals, from the literal of an index on.
  pub data Built
      : ℕ → List (Origin × Bool) → List (List Text) → List (Source Automaton) → Type 0 where
    built_nil : {total : ℕ} → Built total [] [] []
    built_cons :
        {total : ℕ} {origin : Origin} {cased : Bool} {literals : List Text}
        {automaton : Option Automaton} {origins : List (Origin × Bool)} {rest : List (List Text)}
        {sources : List (Source Automaton)}
        → automaton_of c required_literals literals ≡ ok automaton
        → Built (total + length literals) origins rest sources
        → Built total ((origin, cased) ∷ origins) (literals ∷ rest) (
            record { origin = origin; cased = cased; automaton = automaton; first_literal = total }
            ∷ sources)

  pub build_sources_lem :
      (total : ℕ) (origins : List (Origin × Bool)) (literals : List (List Text))
      (sources : List (Source Automaton))
      → length literals ≡ length origins
      → build_sources c required_literals origins literals (first_literals total literals)
        ≡ ok sources
      → Built total origins literals sources
  unfolding build_sources first_literals
  build_sources_lem total [] [] sources lengths h = let e : [] ≡ sources = cc in rw (← e) built_nil
  build_sources_lem total (o ∷ origins) [] sources lengths h = absurd (omega (arith, lengths))
  build_sources_lem total [] (l ∷ literals) sources lengths h = absurd (omega (arith, lengths))
  build_sources_lem total ((origin, cased) ∷ origins) (l ∷ literals) sources lengths h =
      let shorter : length literals ≡ length origins = omega (arith, lengths) in
      let (automaton, e₁, e₂) = >>=-eq-ok _ _ h in
      let (rest, e₃, e₄) = >>=-eq-ok _ _ e₂ in
      let e : record {
        origin = origin;
        cased = cased;
        automaton = automaton;
        first_literal = total;
      }
            ∷ rest
          ≡ sources =
        cc in
      let tail : Built (total + length l) origins literals rest =
        build_sources_lem (total + length l) origins literals rest shorter e₃ in
      subst (λ r. Built total ((origin, cased) ∷ origins) (l ∷ literals) r) e
        (built_cons {origin = origin} {cased = cased} e₁ tail)

  abbrev automaton_result : Option Automaton → Compiled (Option Automaton)
  automaton_result (some a) = ok (some a)
  automaton_result none = compile_error

  automaton_of-cons :
      (t : Text) (ts : List Text)
      → automaton_of c required_literals (t ∷ ts) ≡ automaton_result (automaton_build (t ∷ ts))
  unfolding automaton_of
  automaton_of-cons t ts = go (automaton_build (t ∷ ts))
    where
      go :
          (o : Option Automaton)
          → elim o as (λ x. Compiled (Option Automaton)) [
            | some a ↦ ok (some a)
            | none ↦ compile_error
          ]
            ≡ automaton_result o
      go none = refl
      go (some a) = refl

  result-some :
      (o : Option Automaton) {r : Option Automaton}
      → automaton_result o ≡ ok r
      → (a : Automaton) × (o ≡ some a) × (r ≡ some a)
  result-some none h = cc
  result-some (some a) h = (a, refl, cc)

  automaton_of-none :
      (literals : List Text) → automaton_of c required_literals literals ≡ ok none → literals ≡ []
  automaton_of-none [] h = refl
  automaton_of-none (t ∷ ts) h =
      let (a, e, e') = result-some (automaton_build (t ∷ ts)) (sym (automaton_of-cons t ts) ∙ h) in
      cc

  automaton_of-some :
      (literals : List Text) (a : Automaton)
      → automaton_of c required_literals literals ≡ ok (some a)
      → automaton_build literals ≡ some a
  unfolding automaton_of
  automaton_of-some [] a h = cc
  automaton_of-some (t ∷ ts) a h =
      let (a', e, e') = result-some (automaton_build (t ∷ ts)) (sym (automaton_of-cons t ts) ∙ h) in
      e ∙ sym e'

  module _ (laws : Laws c) where
    text-AreWithin :
        (literals : List Text) (a : Automaton) (first : ℕ) (t : Text)
        → automaton_build literals ≡ some a
        → AreWithin first (first + length literals) (marks_of_text c a first t)
    text-AreWithin literals a first t built m i =
        let (found, j, e) =
          map-In (λ found. (first + found.pattern, flags_of found (length t))) _ m i in
        let (l, u, v, at, whole, start, end) = laws.reported literals a t found built j in
        let inside = get_elem?-lt literals found.pattern l at in
        let e' : m.0 ≡ first + found.pattern = ap (λ m. m.0) e in
        (omega (arith, e'), omega (arith, e', inside))

    texts-AreWithin :
        (literals : List Text) (a : Automaton) (first : ℕ) (texts : List Text)
        → automaton_build literals ≡ some a
        → AreWithin first (first + length literals) (marks_of_texts c a first texts)
    texts-AreWithin literals a first [] built = λ m i. absurd i.lower
    texts-AreWithin literals a first (t ∷ texts) built =
        AreWithin-append _ _ (marks_of_text c a first t) (marks_of_texts c a first texts)
          (text-AreWithin literals a first t built) (texts-AreWithin literals a first texts built)

    -- The marks of a text give a literal of its source what occurs there.
    text-gives :
        (literals : List Text) (a : Automaton) (first i : ℕ) (l : Text) (shape : Shape) (t : Text)
        → automaton_build literals ≡ some a
        → get_elem? literals i ≡ some l
        → any (gives shape (first + i)) (marks_of_text c a first t) ≡ occurs shape l t
    text-gives literals a first i l shape t built here =
        any-map (λ found. (first + found.pattern, flags_of found (length t)))
          (gives shape (first + i)) (find_overlapping a t)
        ∙ any_ext _ (is_mark c laws literals a built i l here shape (length t))
            (λ found.
              ap (λ b. b && wanted shape (flags_of found (length t)))
                (shifted first found.pattern i))
            (find_overlapping a t)
        ∙ marked_lem c laws literals a built i l here shape t
      where
        shifted : (first p i : ℕ) → (first + p == first + i) ≡ (p == i)
        shifted first p i = ground arith

    texts-gives :
        (literals : List Text) (a : Automaton) (first i : ℕ) (l : Text) (shape : Shape)
        (texts : List Text)
        → automaton_build literals ≡ some a
        → get_elem? literals i ≡ some l
        → any (gives shape (first + i)) (marks_of_texts c a first texts)
          ≡ any (occurs shape l) texts
    texts-gives literals a first i l shape [] built here = refl
    texts-gives literals a first i l shape (t ∷ texts) built here =
        any-append (gives shape (first + i)) (marks_of_text c a first t)
          (marks_of_texts c a first texts)
        ∙ ap₂ ◌||◌ (text-gives literals a first i l shape t built here)
            (texts-gives literals a first i l shape texts built here)

    pub source-AreWithin :
        (literals : List Text) (automaton : Option Automaton) (source : Source Automaton)
        (texts : List Text)
        → automaton_of c required_literals literals ≡ ok automaton
        → source.automaton ≡ automaton
        → AreWithin source.first_literal
            (source.first_literal + length literals)
            (marks_of_source c source texts)
    source-AreWithin literals none source texts e same = rw same (λ m i. absurd i.lower)
    source-AreWithin literals (some a) source texts e same =
        rw same
          (texts-AreWithin literals a source.first_literal texts (automaton_of-some literals a e))

    pub source-gives :
        (literals : List Text) (automaton : Option Automaton) (source : Source Automaton) (i : ℕ)
        (l : Text) (shape : Shape) (texts : List Text)
        → automaton_of c required_literals literals ≡ ok automaton
        → source.automaton ≡ automaton
        → get_elem? literals i ≡ some l
        → any (gives shape (source.first_literal + i)) (marks_of_source c source texts)
          ≡ any (occurs shape l) texts
    source-gives literals none source i l shape texts e same here =
        let e' = automaton_of-none literals e in absurd (nothing literals e' here)
      where
        nothing : (ls : List Text) → ls ≡ [] → get_elem? ls i ≡ some l → ⊥
        nothing [] e h = cc
        nothing (t ∷ ts) e h = cc
    source-gives literals (some a) source i l shape texts e same here = rw same (
        texts-gives literals a source.first_literal i l shape texts (automaton_of-some literals a e)
          here)
