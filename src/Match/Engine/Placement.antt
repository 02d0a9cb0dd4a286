-- ===== src/Match/Engine/Placement.antt =====
-- The triggers of a group: a rule stands at each literal of its trigger, or among the untriggered
-- rules.
use goliath_siem.Base.{
  ℕ, zero, suc, ◌+◌, ◌≡◌, ◌<◌, inl, inr, refl, sym, subst, ◌∙◌, Option, none, some, List, [], ◌∷◌,
  ◌++◌, Text, length, get_elem?, get_or, set, In, In-append_left, In-append_right, arith,
}
use goliath_siem.Base.Elems.{get_or-set_cases, get_or-set_self, length-set}
use goliath_siem.Match.Engine.{Ref, Node}
use goliath_siem.Match.Engine.Compile.{global, push_triggers, place, place_rules, trigger}

module _ (firsts : List ℕ) where
  abbrev at_literal : List (List ℕ) → ℕ → List ℕ
  at_literal triggers g = get_or triggers g []

  abbrev push_one : ℕ → Ref → List (List ℕ) → List (List ℕ)
  push_one position r triggers =
      set triggers (global firsts r) (at_literal triggers (global firsts r) ++ position ∷ [])

  -- What was placed stays.
  push_one-keeps :
      (position : ℕ) (r : Ref) (triggers : List (List ℕ)) (g q : ℕ)
      → In q (at_literal triggers g)
      → In q (at_literal (push_one position r triggers) g)
  push_one-keeps position r triggers g q i =
      elim (get_or-set_cases triggers (global firsts r) g
        (at_literal triggers (global firsts r) ++ position ∷ []) []) [
          | inl (same, written) ↦
              subst (λ qs. In q qs) (sym written)
                (In-append_left q (at_literal triggers (global firsts r)) _
                  (subst (λ k. In q (at_literal triggers k)) same i))
          | inr kept ↦ subst (λ qs. In q qs) (sym kept) i
        ]

  push_triggers-keeps :
      (position : ℕ) (refs : List Ref) (triggers : List (List ℕ)) (g q : ℕ)
      → In q (at_literal triggers g)
      → In q (at_literal (push_triggers firsts position refs triggers) g)
  unfolding push_triggers
  push_triggers-keeps position [] triggers g q i = i
  push_triggers-keeps position (r ∷ refs) triggers g q i =
      push_triggers-keeps position refs (push_one position r triggers) g q
        (push_one-keeps position r triggers g q i)

  length-push_triggers :
      (position : ℕ) (refs : List Ref) (triggers : List (List ℕ))
      → length (push_triggers firsts position refs triggers) ≡ length triggers
  unfolding push_triggers
  length-push_triggers position [] triggers = refl
  length-push_triggers position (r ∷ refs) triggers =
      length-push_triggers position refs (push_one position r triggers)
      ∙ length-set triggers (global firsts r) _

  -- A rule is placed at each literal of its trigger.
  push_triggers-In :
      (position : ℕ) (refs : List Ref) (triggers : List (List ℕ)) (r : Ref)
      → In r refs
      → global firsts r < length triggers
      → In position (at_literal (push_triggers firsts position refs triggers) (global firsts r))
  unfolding push_triggers
  push_triggers-In position [] triggers r i inside = absurd i.lower
  push_triggers-In position (q ∷ refs) triggers r (inl e) inside =
      push_triggers-keeps position refs (push_one position q triggers) (global firsts r) position (
        subst (λ k. In position (at_literal (push_one position q triggers) (global firsts k)))
          (sym e)
          (subst (λ qs. In position qs)
            (sym (
              get_or-set_self triggers (global firsts q) _ []
                (subst (λ k. global firsts k < length triggers) e inside)))
            (In-append_right position (at_literal triggers (global firsts q)) _ (inl refl))))
  push_triggers-In position (q ∷ refs) triggers r (inr i) inside =
      push_triggers-In position refs (push_one position q triggers) r i
        (subst (λ n. global firsts r < n) (sym (length-set triggers (global firsts q) _)) inside)

  abbrev pub Placed : Type 0
  Placed = List (List ℕ) × List ℕ

  -- The rule stands where its trigger says.
  abbrev pub IsPlaced : ℕ → Option (List Ref) → Placed → Type 0
  IsPlaced position none placed = In position placed.1
  IsPlaced position (some refs) placed =
      (r : Ref)
      → In r refs
      → global firsts r < length placed.0
      → In position (at_literal placed.0 (global firsts r))

  place_lem :
      (position : ℕ) (t : Option (List Ref)) (placed : Placed)
      → IsPlaced position t (place firsts position t placed)
  place_lem position none (triggers, untriggered) =
      In-append_right position untriggered _ (inl refl)
  place_lem position (some refs) (triggers, untriggered) = λ r i inside.
      push_triggers-In position refs triggers r i
        (subst (λ n. global firsts r < n) (length-push_triggers position refs triggers) inside)

  -- Placing another rule keeps all that was placed.
  pub record Keeps (p p' : Placed) : Type 0 where
    pub lengths : length p'.0 ≡ length p.0
    pub triggers : (g q : ℕ) → In q (at_literal p.0 g) → In q (at_literal p'.0 g)
    pub untriggered : (q : ℕ) → In q p.1 → In q p'.1

  place-Keeps :
      (position : ℕ) (t : Option (List Ref)) (placed : Placed)
      → Keeps placed (place firsts position t placed)
  place-Keeps position none (triggers, untriggered) = record {
    lengths = refl;
    triggers = λ g q i. i;
    untriggered = λ q i. In-append_left q untriggered _ i;
  }
  place-Keeps position (some refs) (triggers, untriggered) = record {
    lengths = length-push_triggers position refs triggers;
    triggers = push_triggers-keeps position refs triggers;
    untriggered = λ q i. i;
  }

  IsPlaced-Keeps :
      (position : ℕ) (t : Option (List Ref)) (p p' : Placed)
      → Keeps p p'
      → IsPlaced position t p
      → IsPlaced position t p'
  IsPlaced-Keeps position none p p' keeps i = keeps.untriggered position i
  IsPlaced-Keeps position (some refs) p p' keeps h = λ r i inside.
      keeps.triggers (global firsts r) position
        (h r i (subst (λ n. global firsts r < n) keeps.lengths inside))

  module _ (literals : List (List Text)) (atoms : List (Option (List Ref))) where
    pub place_rules-Keeps :
        (first : ℕ) (rules : List (ℕ × Node)) (placed : Placed)
        → Keeps placed (place_rules literals atoms firsts first rules placed)
    unfolding place_rules
    place_rules-Keeps first [] placed = record {
      lengths = refl;
      triggers = λ g q i. i;
      untriggered = λ q i. i;
    }
    place_rules-Keeps first ((index, node) ∷ rules) placed =
        let step = place-Keeps first (trigger literals atoms node) placed in
        let rest =
          place_rules-Keeps (first + 1) rules
            (place firsts first (trigger literals atoms node) placed) in
        record {
          lengths = rest.lengths ∙ step.lengths;
          triggers = λ g q i. rest.triggers g q (step.triggers g q i);
          untriggered = λ q i. rest.untriggered q (step.untriggered q i);
        }

    -- Every rule is placed as its trigger says.
    pub place_rules_lem :
        (first : ℕ) (rules : List (ℕ × Node)) (placed : Placed) (position index : ℕ) (node : Node)
        → get_elem? rules position ≡ some (index, node)
        → IsPlaced
            (first + position)
            (trigger literals atoms node)
            (place_rules literals atoms firsts first rules placed)
    unfolding place_rules
    place_rules_lem first [] placed position index node h = cc
    place_rules_lem first ((i, n) ∷ rules) placed zero index node h =
        let e : n ≡ node = cc in
        let unshifted : first ≡ first + 0 = omega arith in
        subst
          (λ m.
            IsPlaced (first + 0) (trigger literals atoms m)
              (place_rules literals atoms firsts first ((i, n) ∷ rules) placed))
          e
          (IsPlaced-Keeps (first + 0) (trigger literals atoms n)
            (place firsts first (trigger literals atoms n) placed) _
            (place_rules-Keeps (first + 1) rules _)
            (subst
              (λ p.
                IsPlaced p (trigger literals atoms n)
                  (place firsts first (trigger literals atoms n) placed))
              unshifted (place_lem first (trigger literals atoms n) placed)))
    place_rules_lem first ((i, n) ∷ rules) placed (suc position) index node h =
        let shifted : first + 1 + position ≡ first + suc position = omega arith in
        subst
          (λ p.
            IsPlaced p (trigger literals atoms node)
              (place_rules literals atoms firsts first ((i, n) ∷ rules) placed))
          shifted
          (place_rules_lem (first + 1) rules (place firsts first (trigger literals atoms n) placed)
            position index node h)
