-- ===== src/Match/Engine/Selection.antt =====
-- `Group::evaluate` selects the members whose conditions hold: a rule whose condition holds has been
-- woken, and a rule that is woken is added only where its condition holds.
use goliath_siem.Base.{
  ℕ, ◌+◌, ◌≡◌, ◌↔◌, ◌<◌, ◌⊎◌, inl, inr, refl, sym, subst, ap, ◌∙◌, true, false, Option, none, some,
  Option-cases, List, [], ◌++◌, any-In, Text, length, get_elem?, get_or, replicate, In,
  In-append_left, In-append_right, arith,
}
use goliath_siem.Base.Elems.{get_or-get_elem?, get_or_default, length-replicate}
use goliath_siem.Rule.Resolved.{Expr, RegexFlags}
use goliath_siem.Crates.{Crates}
use goliath_siem.Match.Laws.{Laws}
use goliath_siem.Match.Semantics.{Event}
use goliath_siem.Match.Engine.{Ref, Pred, Node}
use goliath_siem.Match.Engine.Builder.{B}
use goliath_siem.Match.Engine.Compile.{AGroup, first_literals, total_literals, trigger, global}
use goliath_siem.Match.Engine.Evaluate
use goliath_siem.Match.Engine.Evaluate.{
  GroupScratch, Memo, flat_triggers, default_pred, default_rule, predicate, add_candidates,
}
use goliath_siem.Match.Engine.Denotation.{lit, ref_holds, pred_holds, node_holds}
use goliath_siem.Match.Engine.Grow.{IsPred}
use goliath_siem.Match.Engine.Additions.{store}
use goliath_siem.Match.Engine.Right.{IsWoken, leaf_holds}
use goliath_siem.Match.Engine.Conditions.{Computes, Computes-holds}
use goliath_siem.Match.Engine.Sound.{IsSound}
use goliath_siem.Match.Engine.Triggers.{trigger-holds}
use goliath_siem.Match.Engine.Memory.{IsRemembered, IsMatch, value_of, holds, run_candidates_iff}
use goliath_siem.Match.Engine.Scratch.{IsReady, next_generation-IsFresh, add_candidates_iff}
use goliath_siem.Match.Engine.Marks.{true-false}
use goliath_siem.Match.Engine.Layout.{first-inside}
use goliath_siem.Match.Engine.Placement.{IsPlaced, place_rules_lem, place_rules-Keeps}
use goliath_siem.Match.Engine.Members.{AreCompiled, AreCompiled-rule, AreCompiled-member}
use goliath_siem.Match.Engine.Answer.{predicate_lem}
use goliath_siem.Match.Engine.Evaluation.{
  IsBuilt, placed_of, started, scanned, context, context-IsScanned, ref-found, ref-lit,
  flat_triggers-In,
}

module _ (c : Crates) (required_literals : Text → RegexFlags → Option (List Text)) (laws : Laws c)
    (Known : Expr c.Float → Type 0) (members : List (ℕ × Expr c.Float)) (b : B c required_literals)
    (rules : List (ℕ × Node)) (group : AGroup c required_literals)
    (sound : IsSound c required_literals Known b)
    (compiled : AreCompiled c required_literals b members rules)
    (is : IsBuilt c required_literals b rules group) (event : Event c) (work : GroupScratch)
    (ready : IsReady work) (size : length work.hits ≡ group.literals) where
  abbrev x : Evaluate.Context c
  x = context c required_literals laws b rules group is event work ready size

  values :
      (id : ℕ) (p : Pred c.Float c.Regex)
      → get_elem? b.predicates id ≡ some p
      → value_of c x id ≡ pred_holds c event (store b) p
  values id p h =
      let (leaf, e) = sound.entries id p h in
      let here = e.here in
      let same : e.predicate ≡ p = cc in
      ap (predicate c x) (
        ap (λ ps. get_or ps id (default_pred c)) is.predicates
        ∙ get_or-get_elem? b.predicates id (default_pred c) p h)
      ∙ predicate_lem c x (store b)
          (context-IsScanned c required_literals laws b rules group is event work ready size) p
          (subst (λ q. IsPred (store b) q) same e.right.names)

  -- A member's node has the value of its condition.
  node-leaf :
      {e : Expr c.Float} {n : Node}
      → Computes c required_literals b e n
      → holds c x n ≡ leaf_holds c e event
  node-leaf computes = Computes-holds c required_literals event (value_of c x) b values computes

  -- The positions that an evaluation asks.
  abbrev asked : List ℕ
  asked =
      group.untriggered
      ++ flat_triggers group.triggers
          (scanned c required_literals laws b rules group is event work ready size).found

  woken-asked :
      (position : ℕ) (t : Option (List Ref))
      → IsPlaced (first_literals 0 b.literals) position t (placed_of c required_literals b rules)
      → IsWoken c event (store b) t
      → In position asked
  woken-asked position none placed woken =
      In-append_left position group.untriggered _
        (subst (λ ps. In position ps) (sym is.untriggered) placed)
  woken-asked position (some refs) placed woken =
      let ((s, i), at, e) = any-In (ref_holds c event (store b)) refs woken in
      let (l, e') = ref-lit c required_literals laws b rules group is event work ready size s i e in
      let keeps =
        place_rules-Keeps (first_literals 0 b.literals) b.literals b.atoms 0 rules
          (replicate (total_literals b.literals) [], []) in
      let inside : global (first_literals 0 b.literals) (s, i)
          < length (placed_of c required_literals b rules).0 =
        omega (
          arith,
          (first-inside 0 b.literals s i l (unfold lit in e')).1,
          keeps.lengths,
          length-replicate {A = List ℕ} (total_literals b.literals) [],
        ) in
      In-append_right position group.untriggered _ (
        flat_triggers-In group.triggers _ (global (first_literals 0 b.literals) (s, i)) position
          (ref-found c required_literals laws b rules group is event work ready size s i e)
          (subst (λ ts. In position (get_or ts (global (first_literals 0 b.literals) (s, i)) []))
            (sym is.triggers) (placed (s, i) at inside)))

  -- A rule whose condition holds is asked.
  holds-asked :
      (position index : ℕ) (e : Expr c.Float) (n : Node)
      → get_elem? rules position ≡ some (index, n)
      → Computes c required_literals b e n
      → holds c x n ≡ true
      → In position asked
  holds-asked position index e n here computes h =
      let shifted : 0 + position ≡ position = omega arith in
      woken-asked position (trigger b.literals b.atoms n)
        (subst
          (λ p.
            IsPlaced (first_literals 0 b.literals) p (trigger b.literals b.atoms n)
              (placed_of c required_literals b rules))
          shifted
          (place_rules_lem (first_literals 0 b.literals) b.literals b.atoms 0 rules _ position index
            n here))
        (trigger-holds c required_literals event (value_of c x) b values computes h)

  -- A member of the group whose condition holds.
  pub record IsSelected (index : ℕ) : Type 0 where
    pub place : ℕ
    pub condition : Expr c.Float
    pub member : get_elem? members place ≡ some (index, condition)
    pub holds : leaf_holds c condition event ≡ true

  rule_here :
      (position index : ℕ) (n : Node)
      → get_elem? rules position ≡ some (index, n)
      → get_or group.rules position (default_rule c) ≡ (index, n)
  rule_here position index n h =
      ap (λ rs. get_or rs position (default_rule c)) is.is_rules
      ∙ get_or-get_elem? rules position (default_rule c) (index, n) h

  Selected-Match :
      (positions : List ℕ) (index : ℕ)
      → ((p : ℕ) → In p asked → In p positions)
      → IsSelected index
      → IsMatch c x positions index
  Selected-Match positions index all sel =
      let (n, here, computes) =
        AreCompiled-rule c required_literals compiled sel.place index sel.condition sel.member in
      let true_here : holds c x n ≡ true = node-leaf computes ∙ sel.holds in
      record {
        position = sel.place;
        candidate =
            all sel.place (holds-asked sel.place index sel.condition n here computes true_here);
        is_rule = ap (λ r. r.0) (rule_here sel.place index n here);
        matches =
            ap (λ (r : ℕ × Node). holds c x r.1) (rule_here sel.place index n here) ∙ true_here;
      }

  -- What stands behind the rules never holds.
  default-never : holds c x (default_rule c).1 ≡ false
  unfolding node_holds
  default-never = refl

  Match-Selected : (positions : List ℕ) (index : ℕ) → IsMatch c x positions index → IsSelected index
  Match-Selected positions index m = elim (Option-cases (get_elem? rules m.position)) [
    | inl outside ↦
        let default : get_or group.rules m.position (default_rule c) ≡ default_rule c =
          ap (λ rs. get_or rs m.position (default_rule c)) is.is_rules
          ∙ get_or_default rules m.position (default_rule c) outside in
        absurd (
          true-false (sym m.matches ∙ ap (λ (r : ℕ × Node). holds c x r.1) default ∙ default-never))
    | inr ((i, n), here) ↦
        let (e, member, computes) =
          AreCompiled-member c required_literals compiled m.position i n here in
        let rule = rule_here m.position i n here in
        let same : i ≡ index = sym (ap (λ (r : ℕ × Node). r.0) rule) ∙ m.is_rule in
        record {
          place = m.position;
          condition = e;
          member = subst (λ k. get_elem? members m.position ≡ some (k, e)) same member;
          holds =
              sym (node-leaf computes)
              ∙ ap (λ (r : ℕ × Node). holds c x r.1) (sym rule)
              ∙ m.matches;
        }
  ]

  -- Nothing is remembered at the start of a generation.
  start-IsRemembered : IsRemembered c x (record {
    memo = (started c required_literals laws b rules group is event work ready size).memo;
    memo_value =
        (started c required_literals laws b rules group is event work ready size).memo_value;
  })
  start-IsRemembered =
      let fresh = next_generation-IsFresh work ready in
      record {
        lengths = fresh.memo_value;
        right = λ id marked. absurd (omega (arith, fresh.memo id, marked));
      }

  -- `Group::evaluate` adds the members whose conditions hold, and nothing else.
  pub evaluate_iff :
      (matched : List ℕ) (index : ℕ)
      → In index (Evaluate.evaluate c group event work matched).1
        ↔ (In index matched ⊎ IsSelected index)
  unfolding Evaluate.evaluate
  evaluate_iff matched index =
      let fresh = next_generation-IsFresh work ready in
      let s = started c required_literals laws b rules group is event work ready size in
      let marked = add_candidates s.generation asked (s.candidate, []) in
      let listed = λ (p : ℕ) (h : get_or s.candidate p 0 ≡ s.generation).
        absurd {A = In p []} (omega (arith, fresh.candidate p, h)) in
      let all = λ (p : ℕ) (i : In p asked).
        (add_candidates_iff s.generation fresh.positive asked (s.candidate, []) p listed).1
          (inr i) in
      let (f, g) =
        run_candidates_iff c x marked.1 _ matched index fresh.positive start-IsRemembered in
      (
        (λ i. elim (f i) [ inl old ↦ inl old | inr m ↦ inr (Match-Selected marked.1 index m) ]),
        (λ t. elim t [
          | inl old ↦ g (inl old)
          | inr sel ↦ g (inr (Selected-Match marked.1 index all sel))
        ]),
      )
