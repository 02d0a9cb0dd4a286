-- ===== src/Match/Engine/Reuse.antt =====
-- What `Group::evaluate` leaves: working memory that is ready for the next event.
use goliath_siem.Base.{
  ℕ, ◌≡◌, inl, inr, refl, sym, subst, ap, ◌∙◌, false, Bool-cases, List, [], ◌∷◌, ◌++◌, ◌==◌, length,
  get_or, arith,
}
use goliath_siem.Base.Elems.{length-set, get_or-replicate, length-replicate}
use goliath_siem.Crates.{Crates}
use goliath_siem.Match.Semantics.{Event}
use goliath_siem.Match.Engine.{Node, Nodes, and, or, not_node, pred, nil, cons}
use goliath_siem.Match.Engine.Evaluate
use goliath_siem.Match.Engine.Hits.{Hits, no_hit, scan_sources}
use goliath_siem.Match.Engine.Evaluate.{
  Context, Memo, GroupScratch, AGroup, pred_value, node_value, all_values, any_values,
  run_candidates, default_rule, default_pred, predicate, next_generation, group_scratch,
  add_candidates, all_texts, flat_triggers,
}
use goliath_siem.Match.Engine.Scratch.{
  IsBounded, IsBounded-set, IsReady, next_generation-IsFresh, next_generation-hits,
  add_candidates-IsBounded, reset_hits_lem, length-reset_hits, AreFound,
}
use goliath_siem.Match.Engine.Marks.{
  marks_of_sources, mark_all, scan_sources_lem, length-mark_all, AreFound-mark_all,
}

module _ (c : Crates) (x : Context c) where
  -- The marks are bounded by the generation, and as many as the values.
  abbrev pub IsKept : Memo → Type 0
  IsKept m = IsBounded x.generation m.memo × (length m.memo_value ≡ length m.memo)

  pred_value-IsKept : (id : ℕ) (m : Memo) → IsKept m → IsKept (pred_value c x id m).1
  unfolding pred_value
  pred_value-IsKept id m (bounded, lengths) =
      elim (Bool-cases (get_or m.memo id 0 == x.generation)) [
        | inl e ↦ rw e (bounded, lengths)
        | inr e ↦ rw e (
          IsBounded-set x.generation m.memo id bounded,
          length-set m.memo_value id _ ∙ lengths ∙ sym (length-set m.memo id x.generation),
        )
      ]

  mutual
    unfolding node_value

    node_value-IsKept : (node : Node) (m : Memo) → IsKept m → IsKept (node_value c x node m).1
    node_value-IsKept (and nodes) m k = all_values-IsKept nodes m k
    node_value-IsKept (or nodes) m k = any_values-IsKept nodes m k
    node_value-IsKept (not_node node) m k = node_value-IsKept node m k
    node_value-IsKept (pred id) m k = pred_value-IsKept id m k

    all_values-IsKept : (nodes : Nodes) (m : Memo) → IsKept m → IsKept (all_values c x nodes m).1
    all_values-IsKept nil m k = k
    all_values-IsKept (cons node nodes) m k =
        let k' = node_value-IsKept node m k in
        elim (Bool-cases (node_value c x node m).0) [
          | inl h ↦ rw h (all_values-IsKept nodes (node_value c x node m).1 k')
          | inr h ↦ rw h k'
        ]

    any_values-IsKept : (nodes : Nodes) (m : Memo) → IsKept m → IsKept (any_values c x nodes m).1
    any_values-IsKept nil m k = k
    any_values-IsKept (cons node nodes) m k =
        let k' = node_value-IsKept node m k in
        elim (Bool-cases (node_value c x node m).0) [
          | inl h ↦ rw h k'
          | inr h ↦ rw h (any_values-IsKept nodes (node_value c x node m).1 k')
        ]

  pub run_candidates-IsKept :
      (positions : List ℕ) (m : Memo) (matched : List ℕ)
      → IsKept m
      → IsKept (run_candidates c x positions m matched).0
  unfolding run_candidates
  run_candidates-IsKept [] m matched k = k
  run_candidates-IsKept (position ∷ positions) m matched k =
      run_candidates-IsKept positions _ _
        (node_value-IsKept (get_or x.group.rules position (default_rule c)).1 m k)

module _ (c : Crates) where
  -- A group's memory before its first event.
  pub group_scratch-IsReady : (group : AGroup c) → IsReady (group_scratch c group)
  group_scratch-IsReady group = record {
    hits = λ i. get_or-replicate group.literals i no_hit;
    found = refl;
    candidate = λ i. omega (arith, get_or-replicate {A = ℕ} (length group.rules) i 0);
    memo = λ i. omega (arith, get_or-replicate {A = ℕ} (length group.predicates) i 0);
    memo_value =
        length-replicate (length group.predicates) false
        ∙ sym (length-replicate {A = ℕ} (length group.predicates) 0);
    generation = omega arith;
  }

  module _ (group : AGroup c) (event : Event c) (work : GroupScratch) (ready : IsReady work)
      (matched : List ℕ) where
    abbrev started : GroupScratch
    started = next_generation work

    abbrev start : Hits
    start = record { hits = started.hits; found = started.found }

    abbrev scanned : Hits
    scanned = scan_sources c event group.sources start

    scanned_marks : scanned ≡ mark_all (marks_of_sources c event group.sources) start
    scanned_marks = scan_sources_lem c event group.sources start

    scanned-AreFound : AreFound scanned.hits scanned.found
    scanned-AreFound =
        subst (λ (s : Hits). AreFound s.hits s.found) (sym scanned_marks)
          (AreFound-mark_all (marks_of_sources c event group.sources) start (λ i.
            inl (ap (λ hits. get_or hits i no_hit) (next_generation-hits work).0 ∙ ready.hits i)))

    abbrev context : Context c
    context = record {
      group = group;
      event = event;
      hits = scanned.hits;
      texts = all_texts c event group.sources;
      generation = started.generation;
    }

    abbrev asked : List ℕ
    asked = group.untriggered ++ flat_triggers group.triggers scanned.found

    -- An evaluation leaves no hit, and no mark beyond its generation.
    pub evaluate-IsReady : IsReady (Evaluate.evaluate c group event work matched).0
    unfolding Evaluate.evaluate
    evaluate-IsReady =
        let fresh = next_generation-IsFresh work ready in
        let kept =
          run_candidates-IsKept c context
            (add_candidates started.generation asked (started.candidate, [])).1
            (record { memo = started.memo; memo_value = started.memo_value }) matched
            ((λ i. omega (arith, fresh.memo i)), fresh.memo_value) in
        record {
          hits = reset_hits_lem scanned.hits scanned.found scanned-AreFound;
          found = refl;
          candidate =
              add_candidates-IsBounded started.generation fresh.positive asked
                (started.candidate, []) (λ i. omega (arith, fresh.candidate i));
          memo = kept.0;
          memo_value = kept.1;
          generation = fresh.bound;
        }

    -- The number of hits stays.
    pub length-evaluate :
        length (Evaluate.evaluate c group event work matched).0.hits ≡ length work.hits
    unfolding Evaluate.evaluate
    length-evaluate =
        length-reset_hits scanned.hits scanned.found
        ∙ ap (λ (s : Hits). length s.hits) scanned_marks
        ∙ length-mark_all (marks_of_sources c event group.sources) start
        ∙ ap length (next_generation-hits work).0
