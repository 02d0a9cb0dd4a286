-- ===== src/Match/Engine/Marks.antt =====
-- `Source::scan`: a scan is a sequence of marks. Afterwards a literal has a hit of a shape exactly when
-- one of the marks gives it, and all that has a hit is on the list of what was found.
use goliath_siem.Base.{
  ℕ, ◌+◌, ◌≡◌, ◌<◌, ◌⊎◌, inl, inr, refl, sym, subst, ap, ◌∙◌, Bool, true, false, ◌&&◌, ◌||◌,
  Bool-cases, Option, none, some, List, [], ◌∷◌, ◌++◌, map, any, ◌==◌, ==_iff, if◌then◌else◌, Text,
  length, get_or, set, In, In-append_left, In-append_right, arith,
}
use goliath_siem.Base.Elems.{get_or-set_cases, get_or-set_self, get_or-set_ne, length-set}
use native.Mathlib.Decide.{ℕ_discrete}
use goliath_siem.Crates.{Crates, Found}
use goliath_siem.Match.Semantics.{Event}
use goliath_siem.Match.Engine.{Shape, equals, contains, starts_with, ends_with, Source}
use goliath_siem.Match.Engine.Hits.{
  Hit, Hits, no_hit, join, is_no_hit, flags_of, wanted, mark_hit, mark_found, scan_texts,
  scan_source, scan_sources, gather,
}
use goliath_siem.Match.Engine.Scratch.{AreFound}

abbrev pub Marks : Type 0
Marks = List (ℕ × Hit)

abbrev pub mark_all : Marks → Hits → Hits
mark_all [] s = s
mark_all ((g, flags) ∷ marks) s = mark_all marks (mark_hit s g flags)

mark_all-append : (xs ys : Marks) (s : Hits) → mark_all (xs ++ ys) s ≡ mark_all ys (mark_all xs s)
mark_all-append [] ys s = refl
mark_all-append ((g, flags) ∷ xs) ys s = mark_all-append xs ys (mark_hit s g flags)

-- The marks of a literal for a shape.
abbrev pub gives : Shape → ℕ → ℕ × Hit → Bool
gives shape g (h, flags) = (h == g) && wanted shape flags

wanted-join :
    (shape : Shape) (h flags : Hit)
    → wanted shape (join h flags) ≡ (wanted shape h || wanted shape flags)
unfolding wanted
wanted-join equals h flags = refl
wanted-join contains h flags = refl
wanted-join starts_with h flags = refl
wanted-join ends_with h flags = refl

abbrev hit_of : Hits → ℕ → Hit
hit_of s g = get_or s.hits g no_hit

or_nothing : (a b : Bool) → b ≡ false → a ≡ (a || b)
or_nothing a b h = ground arith

or_assoc : (a b d : Bool) → ((a || b) || d) ≡ (a || (b || d))
or_assoc true b d = refl
or_assoc false b d = refl

hit-mark :
    (shape : Shape) (s : Hits) (g h : ℕ) (flags : Hit)
    → g < length s.hits
    → wanted shape (hit_of (mark_hit s h flags) g)
      ≡ (wanted shape (hit_of s g) || gives shape g (h, flags))
unfolding mark_hit
hit-mark shape s g h flags inside = elim (ℕ_discrete h g) [
  | yes same ↦
      subst
        (λ k.
          wanted shape (hit_of (mark_hit s h flags) k)
          ≡ (wanted shape (hit_of s k) || gives shape k (h, flags)))
        same
        (ap (wanted shape) (
            get_or-set_self s.hits h (join (hit_of s h) flags) no_hit (omega (arith, inside, same)))
          ∙ wanted-join shape (hit_of s h) flags
          ∙ ap (λ b. wanted shape (hit_of s h) || (b && wanted shape flags))
              (sym ((==_iff h h).1 refl)))
  | no differ ↦
      let other : (h == g) ≡ false = ground arith in
      ap (wanted shape) (get_or-set_ne s.hits h g (join (hit_of s h) flags) no_hit differ)
      ∙ or_nothing (wanted shape (hit_of s g)) _ (ap (λ b. b && wanted shape flags) other)
]

length-mark : (s : Hits) (g : ℕ) (flags : Hit) → length (mark_hit s g flags).hits ≡ length s.hits
unfolding mark_hit
length-mark s g flags = length-set s.hits g _

pub length-mark_all : (marks : Marks) (s : Hits) → length (mark_all marks s).hits ≡ length s.hits
length-mark_all [] s = refl
length-mark_all ((g, flags) ∷ marks) s =
    length-mark_all marks (mark_hit s g flags) ∙ length-mark s g flags

-- The hits after a sequence of marks.
pub hit-mark_all :
    (shape : Shape) (marks : Marks) (s : Hits) (g : ℕ)
    → g < length s.hits
    → wanted shape (hit_of (mark_all marks s) g)
      ≡ (wanted shape (hit_of s g) || any (gives shape g) marks)
hit-mark_all shape [] s g inside = ground arith
hit-mark_all shape ((h, flags) ∷ marks) s g inside =
    hit-mark_all shape marks (mark_hit s h flags) g (omega (arith, length-mark s h flags, inside))
    ∙ ap (λ b. b || any (gives shape g) marks) (hit-mark shape s g h flags inside)
    ∙ or_assoc (wanted shape (hit_of s g)) (gives shape g (h, flags)) (any (gives shape g) marks)

pub true-false : ¬ (true ≡ false)
true-false e = cc

AreFound-mark :
    (s : Hits) (h : ℕ) (flags : Hit)
    → AreFound s.hits s.found
    → AreFound (mark_hit s h flags).hits (mark_hit s h flags).found
unfolding mark_hit
AreFound-mark s h flags are i = elim (Bool-cases (is_no_hit (hit_of s h))) [
  | inl e ↦
      subst listed (sym e) (elim (get_or-set_cases s.hits h i (join (hit_of s h) flags) no_hit) [
        | inl (same, written) ↦ inr (In-append_right i s.found _ (inl same))
        | inr kept ↦ elim (are i) [
          | inl z ↦ inl (kept ∙ z)
          | inr j ↦ inr (In-append_left i s.found _ j)
        ]
      ])
  | inr e ↦
      subst listed (sym e) (elim (get_or-set_cases s.hits h i (join (hit_of s h) flags) no_hit) [
        | inl (same, written) ↦ elim (are h) [
          | inl z ↦ absurd (true-false (sym (ap is_no_hit z) ∙ e))
          | inr j ↦ inr (subst (λ k. In k s.found) (sym same) j)
        ]
        | inr kept ↦ elim (are i) [ inl z ↦ inl (kept ∙ z) | inr j ↦ inr j ]
      ])
]
  where
    listed : Bool → Type 0
    listed b =
        (get_or (set s.hits h (join (hit_of s h) flags)) i no_hit ≡ no_hit)
        ⊎ In i (if b then s.found ++ h ∷ [] else s.found)

pub AreFound-mark_all :
    (marks : Marks) (s : Hits)
    → AreFound s.hits s.found
    → AreFound (mark_all marks s).hits (mark_all marks s).found
AreFound-mark_all [] s are = are
AreFound-mark_all ((g, flags) ∷ marks) s are =
    AreFound-mark_all marks (mark_hit s g flags) (AreFound-mark s g flags are)

module _ (c : Crates) where
  open c use {Automaton, find_overlapping}

  abbrev pub marks_of_text : Automaton → ℕ → Text → Marks
  marks_of_text a first t =
      map (λ found. (first + found.pattern, flags_of found (length t))) (find_overlapping a t)

  abbrev pub marks_of_texts : Automaton → ℕ → List Text → Marks
  marks_of_texts a first [] = []
  marks_of_texts a first (t ∷ texts) = marks_of_text a first t ++ marks_of_texts a first texts

  abbrev pub marks_of_source : Source Automaton → List Text → Marks
  marks_of_source source texts = elim source.automaton [
    | none ↦ []
    | some a ↦ marks_of_texts a source.first_literal texts
  ]

  abbrev pub marks_of_sources : Event c → List (Source Automaton) → Marks
  marks_of_sources event [] = []
  marks_of_sources event (source ∷ sources) =
      marks_of_source source (gather c source.origin source.cased event)
      ++ marks_of_sources event sources

  mark_found_lem :
      (first : ℕ) (t : Text) (founds : List Found) (s : Hits)
      → mark_found c first (length t) founds s
        ≡ mark_all (map (λ found. (first + found.pattern, flags_of found (length t))) founds) s
  unfolding mark_found
  mark_found_lem first t [] s = refl
  mark_found_lem first t (found ∷ founds) s = mark_found_lem first t founds _

  scan_texts_lem :
      (a : Automaton) (first : ℕ) (texts : List Text) (s : Hits)
      → scan_texts c a first texts s ≡ mark_all (marks_of_texts a first texts) s
  unfolding scan_texts
  scan_texts_lem a first [] s = refl
  scan_texts_lem a first (t ∷ texts) s =
      scan_texts_lem a first texts _
      ∙ ap (mark_all (marks_of_texts a first texts))
          (mark_found_lem first t (find_overlapping a t) s)
      ∙ sym (mark_all-append (marks_of_text a first t) (marks_of_texts a first texts) s)

  scan_source_lem :
      (source : Source Automaton) (texts : List Text) (s : Hits)
      → scan_source c source texts s ≡ mark_all (marks_of_source source texts) s
  unfolding scan_source
  scan_source_lem source texts s = go source.automaton
    where
      go :
          (o : Option Automaton)
          → elim o as (λ x. Hits) [
            | none ↦ s
            | some a ↦ scan_texts c a source.first_literal texts s
          ]
            ≡ mark_all
                (elim o as (λ x. Marks) [
                  | none ↦ []
                  | some a ↦ marks_of_texts a source.first_literal texts
                ])
                s
      go none = refl
      go (some a) = scan_texts_lem a source.first_literal texts s

  -- Scanning the sources is a sequence of marks.
  pub scan_sources_lem :
      (event : Event c) (sources : List (Source Automaton)) (s : Hits)
      → scan_sources c event sources s ≡ mark_all (marks_of_sources event sources) s
  unfolding scan_sources
  scan_sources_lem event [] s = refl
  scan_sources_lem event (source ∷ sources) s =
      scan_sources_lem event sources _
      ∙ ap (mark_all (marks_of_sources event sources))
          (scan_source_lem source (gather c source.origin source.cased event) s)
      ∙ sym (
          mark_all-append (marks_of_source source (gather c source.origin source.cased event))
            (marks_of_sources event sources) s)
