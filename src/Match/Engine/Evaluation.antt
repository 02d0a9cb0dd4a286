-- ===== src/Match/Engine/Evaluation.antt =====
-- `Group::evaluate` over a group that `GroupBuilder::build` made, with working memory that an earlier
-- evaluation may have left: the rules it adds are those whose conditions hold.
use goliath_siem.Base.{
  ℕ, ◌+◌, ◌≡◌, ◌<◌, inl, inr, refl, sym, subst, ap, ◌∙◌, true, false, Option, none, some, List, [],
  ◌∷◌, Text, length, get_or, replicate, In, In-append_left, In-append_right, arith,
}
use goliath_siem.Rule.FieldPath.{FieldPath}
use goliath_siem.Rule.Resolved.{RegexFlags, ClassValue}
use goliath_siem.Crates.{Crates}
use goliath_siem.Match.Laws.{Laws}
use goliath_siem.Match.Semantics.{Event}
use goliath_siem.Match.Reference.{ok, >>=-eq-ok}
use goliath_siem.Match.Engine.{Shape, equals, contains, starts_with, ends_with, Node}
use goliath_siem.Match.Engine.Builder.{B}
use goliath_siem.Match.Engine.Compile.{AGroup, first_literals, total_literals, place_rules, finish}
use goliath_siem.Match.Engine.Hits.{Hits, no_hit, wanted, scan_sources}
use goliath_siem.Match.Engine.Evaluate.{
  Context, GroupScratch, next_generation, all_texts, hit_at, flat_triggers,
}
use goliath_siem.Match.Engine.Denotation.{lit, texts_at, occurs_in, literal_holds, ref_holds}
use goliath_siem.Match.Engine.Additions.{store}
use goliath_siem.Match.Engine.Scratch.{IsReady, next_generation-hits, AreFound}
use goliath_siem.Match.Engine.Marks.{
  true-false, mark_all, marks_of_sources, scan_sources_lem, hit-mark_all, AreFound-mark_all,
}
use goliath_siem.Match.Engine.Scan.{Built, build_sources_lem}
use goliath_siem.Match.Engine.Layout.{
  or_none_left, Built-first, Built-texts, Built-gives, first-inside,
}
use goliath_siem.Match.Engine.Answer.{IsScanned}

wanted-no_hit : (shape : Shape) → wanted shape no_hit ≡ false
unfolding wanted
wanted-no_hit equals = refl
wanted-no_hit contains = refl
wanted-no_hit starts_with = refl
wanted-no_hit ends_with = refl

pub flat_triggers-In :
    (triggers : List (List ℕ)) (found : List ℕ) (g p : ℕ)
    → In g found
    → In p (get_or triggers g [])
    → In p (flat_triggers triggers found)
flat_triggers-In triggers [] g p i j = absurd i.lower
flat_triggers-In triggers (h ∷ found) g p (inl e) j =
    In-append_left p (get_or triggers h []) _ (subst (λ k. In p (get_or triggers k [])) e j)
flat_triggers-In triggers (h ∷ found) g p (inr i) j =
    In-append_right p (get_or triggers h []) _ (flat_triggers-In triggers found g p i j)

module _ (c : Crates) (required_literals : Text → RegexFlags → Option (List Text)) where
  abbrev pub placed_of : B c required_literals → List (ℕ × Node) → List (List ℕ) × List ℕ
  placed_of b rules =
      place_rules b.literals b.atoms (first_literals 0 b.literals) 0 rules
        (replicate (total_literals b.literals) [], [])

  -- The group that a builder becomes.
  pub record IsBuilt (b : B c required_literals) (rules : List (ℕ × Node))
      (group : AGroup c required_literals) : Type 0 where
    pub built : Built c required_literals 0 b.sources b.literals group.sources
    pub predicates : group.predicates ≡ b.predicates
    pub is_rules : group.rules ≡ rules
    pub triggers : group.triggers ≡ (placed_of b rules).0
    pub untriggered : group.untriggered ≡ (placed_of b rules).1
    pub size : group.literals ≡ total_literals b.literals

  pub finish_lem :
      (class : List (FieldPath × ClassValue)) (b : B c required_literals) (rules : List (ℕ × Node))
      (group : AGroup c required_literals)
      → length b.literals ≡ length b.sources
      → finish c required_literals class (b, rules) ≡ ok group
      → IsBuilt b rules group × (group.class ≡ class)
  unfolding finish
  finish_lem class b rules group lengths h =
      let (sources, e₁, e₂) = >>=-eq-ok _ _ h in
      let built : Built c required_literals 0 b.sources b.literals sources =
        build_sources_lem c required_literals 0 b.sources b.literals sources lengths e₁ in
      let made : AGroup c required_literals = record {
        class = class;
        sources = sources;
        predicates = b.predicates;
        rules = rules;
        triggers = (placed_of b rules).0;
        untriggered = (placed_of b rules).1;
        literals = total_literals b.literals;
      } in
      let e : made ≡ group = cc in
      subst (λ g. IsBuilt b rules g × (g.class ≡ class)) e
        (
          record {
            built = built;
            predicates = refl;
            is_rules = refl;
            triggers = refl;
            untriggered = refl;
            size = refl;
          },
          refl,
        )

  module _ (laws : Laws c) (b : B c required_literals) (rules : List (ℕ × Node))
      (group : AGroup c required_literals) (is : IsBuilt b rules group) (event : Event c)
      (work : GroupScratch) (ready : IsReady work) (size : length work.hits ≡ group.literals) where
    -- The start of an evaluation.
    abbrev pub started : GroupScratch
    started = next_generation work

    abbrev pub scanned : Hits
    scanned =
        scan_sources c event group.sources (record { hits = started.hits; found = started.found })

    abbrev pub context : Context c
    context = record {
      group = group;
      event = event;
      hits = scanned.hits;
      texts = all_texts c event group.sources;
      generation = started.generation;
    }

    start_hits : (i : ℕ) → get_or started.hits i no_hit ≡ no_hit
    start_hits i = ap (λ hits. get_or hits i no_hit) (next_generation-hits work).0 ∙ ready.hits i

    marked_hits :
        scanned
        ≡ mark_all
            (marks_of_sources c event group.sources)
            (record { hits = started.hits; found = started.found })
    marked_hits = scan_sources_lem c event group.sources _

    literal-hit :
        (shape : Shape) (s i : ℕ) (l : Text)
        → lit (store b) s i ≡ some l
        → wanted shape (hit_at c context s i) ≡ literal_holds c event (store b) shape s i
    unfolding hit_at lit literal_holds occurs_in texts_at
    literal-hit shape s i l h =
        let g = get_or (first_literals 0 b.literals) s 0 + i in
        let inside : g < length started.hits = omega (
          arith,
          (first-inside 0 b.literals s i l h).1,
          is.size,
          size,
          ap length (next_generation-hits work).0,
        ) in
        ap (λ n. wanted shape (get_or scanned.hits (n + i) no_hit))
          (Built-first c required_literals is.built s)
        ∙ ap (λ (s : Hits). wanted shape (get_or s.hits g no_hit)) marked_hits
        ∙ hit-mark_all shape (marks_of_sources c event group.sources) _ g inside
        ∙ or_none_left _ _ (ap (wanted shape) (start_hits g) ∙ wanted-no_hit shape)
        ∙ Built-gives c required_literals laws event shape is.built s i l h
        ∙ ap (λ o. occurs_in c event shape o (texts_at c event (store b) s)) (sym h)

    -- The hits and the texts are right for the event.
    pub context-IsScanned : IsScanned c context (store b)
    unfolding texts_at
    context-IsScanned = record {
      hits = λ shape s i (source, (l, h)). literal-hit shape s i l h;
      texts = λ s. Built-texts c required_literals event is.built s;
    }

    pub all-AreFound : AreFound scanned.hits scanned.found
    all-AreFound =
        subst (λ (s : Hits). AreFound s.hits s.found) (sym marked_hits)
          (AreFound-mark_all (marks_of_sources c event group.sources) _ (λ i. inl (start_hits i)))

    named-literal :
        (o : Option Text) (texts : List Text)
        → occurs_in c event contains o texts ≡ true
        → (l : Text) × (o ≡ some l)
    unfolding occurs_in
    named-literal none texts h = cc
    named-literal (some l) texts h = (l, refl)

    pub ref-lit :
        (s i : ℕ)
        → ref_holds c event (store b) (s, i) ≡ true
        → (l : Text) × (lit (store b) s i ≡ some l)
    unfolding ref_holds literal_holds
    ref-lit s i h = named-literal (lit (store b) s i) (texts_at c event (store b) s) h

    -- A literal that occurs has been found.
    pub ref-found :
        (s i : ℕ)
        → ref_holds c event (store b) (s, i) ≡ true
        → In (get_or (first_literals 0 b.literals) s 0 + i) scanned.found
    unfolding ref_holds hit_at
    ref-found s i h =
        let (l, e) = ref-lit s i h in
        let hit : wanted contains (hit_at c context s i) ≡ true =
          literal-hit contains s i l e ∙ h in
        let hit' : wanted contains
              (get_or scanned.hits (get_or (first_literals 0 b.literals) s 0 + i) no_hit)
            ≡ true =
          ap (λ n. wanted contains (get_or scanned.hits (n + i) no_hit))
            (sym (Built-first c required_literals is.built s))
          ∙ hit in
        elim (all-AreFound (get_or (first_literals 0 b.literals) s 0 + i)) [
          | inl nothing ↦
              absurd (true-false (sym hit' ∙ ap (wanted contains) nothing ∙ wanted-no_hit contains))
          | inr found ↦ found
        ]
