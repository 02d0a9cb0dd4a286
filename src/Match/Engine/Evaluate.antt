-- ===== src/Match/Engine/Evaluate.antt =====
-- `Group::evaluate` and `Engine::matches_into`: one event against the compiled groups, with working
-- memory that is kept from event to event. Buffers that are only kept to save allocations are not
-- modelled.
use goliath_siem.Base.{
  ℕ, zero, suc, ◌+◌, ◌%◌, ◌^◌, Bool, true, false, not, ◌&&◌, Option, none, some, List, [], ◌∷◌,
  ◌++◌, map, leb, ◌==◌, if◌then◌else◌, all, any, Text, length, get_or, set, replicate,
}
use goliath_siem.Json
use goliath_siem.Rule.Resolved.{RegexFlags}
use goliath_siem.Sigma.Pattern
use goliath_siem.Sigma.Pattern.{Pattern}
use goliath_siem.Crates.{Crates}
use goliath_siem.Match.Semantics.{Event, pool, test_values}
use goliath_siem.Match.Reference.{Check, plain, regex, has_class}
use goliath_siem.Match.Engine.{
  Source, Pred, literal, general, other, Node, Nodes, and, or, not_node, pred, nil, cons, Group,
}
use goliath_siem.Match.Engine.Compile.{Engine}
use goliath_siem.Match.Engine.Hits.{Hit, no_hit, wanted, reset_hits, gather, scan_sources}

-- The buffers of texts are only counted: what they hold is gathered anew for each event.
pub record GroupScratch : Type 0 where
  pub hits : List Hit
  pub found : List ℕ
  pub texts : ℕ
  pub candidate : List ℕ
  pub memo : List ℕ
  pub memo_value : List Bool
  pub generation : ℕ

-- The marks of the predicates that this evaluation has computed.
pub record Memo : Type 0 where
  pub memo : List ℕ
  pub memo_value : List Bool

-- `GroupScratch::next_generation`, with a 32 bit counter.
unfoldable pub next_generation : GroupScratch → GroupScratch
next_generation s =
    let generation = (s.generation + 1) % 2 ^ 32 in
    if generation == 0
    then record s {
      candidate = replicate (length s.candidate) 0;
      memo = replicate (length s.memo) 0;
      generation = 1;
    }
    else record s { generation = generation }

-- The candidate rules of an event, marked by the generation.
unfoldable pub add_candidates : ℕ → List ℕ → List ℕ × List ℕ → List ℕ × List ℕ
add_candidates generation [] marked = marked
add_candidates generation (position ∷ positions) (candidate, candidates) =
    add_candidates generation positions (
      if get_or candidate position 0 == generation
      then (candidate, candidates)
      else (set candidate position generation, candidates ++ position ∷ []))

abbrev pub flat_triggers : List (List ℕ) → List ℕ → List ℕ
flat_triggers triggers [] = []
flat_triggers triggers (g ∷ found) = get_or triggers g [] ++ flat_triggers triggers found

module _ (c : Crates) where
  open c use {
    Float, JsonNumber, number_text, simple_fold, Regex, is_match, Automaton, find_overlapping,
  }

  abbrev pub AGroup : Type 0
  AGroup = Group Float Regex Automaton

  -- `Context`
  pub record Context : Type 0 where
    pub group : AGroup
    pub event : Event c
    pub hits : List Hit
    pub texts : List (List Text)
    pub generation : ℕ

  abbrev pub source_first : List (Source Automaton) → ℕ → ℕ
  source_first [] i = 0
  source_first (s ∷ sources) zero = s.first_literal
  source_first (s ∷ sources) (suc i) = source_first sources i

  -- The hit of a source's literal.
  unfoldable pub hit_at : Context → ℕ → ℕ → Hit
  hit_at x source index = get_or x.hits (source_first x.group.sources source + index) no_hit

  -- `regex_matches_any`
  unfoldable pub regex_matches_value : Regex → Event c → Bool
  regex_matches_value re (Json.string s) = is_match re s
  regex_matches_value re (Json.number n) = is_match re (number_text n)
  regex_matches_value re _ = false

  unfoldable pub holds_check : Check Float Regex → List (Event c) → Event c → Bool
  unfolding regex_matches_value test_values
  holds_check (regex re) values event = any (regex_matches_value re) values
  holds_check (plain test) values event = test_values c test values event

  -- `required.is_none_or(..)`, and for several literals of a source.
  unfoldable pub is_found : Context → ℕ → Option ℕ → Bool
  unfolding hit_at
  is_found x source none = true
  is_found x source (some index) = (hit_at x source index).any

  unfoldable pub any_found : Context → Option (ℕ × List ℕ) → Bool
  unfolding hit_at
  any_found x none = true
  any_found x (some (source, indices)) = any (λ index. (hit_at x source index).any) indices

  -- `Context::predicate`
  unfoldable pub predicate : Context → Pred Float Regex → Bool
  unfolding wanted hit_at is_found any_found Pattern.matches holds_check pool
  predicate x (literal source index shape) = wanted shape (hit_at x source index)
  predicate x (general source required p) =
      is_found x source required && any (Pattern.matches p) (get_or x.texts source [])
  predicate x (other ps check required) =
      if any_found x required then holds_check check (pool c x.event ps) x.event else false

  abbrev pub default_pred : Pred Float Regex
  default_pred = general 0 none (record { source = []; parts = [] })

  -- A predicate is computed at most once in a generation.
  unfoldable pub pred_value : Context → ℕ → Memo → Bool × Memo
  unfolding predicate
  pred_value x index m =
      let value = predicate x (get_or x.group.predicates index default_pred) in
      if get_or m.memo index 0 == x.generation then (get_or m.memo_value index false, m) else (
        value,
        record { memo = set m.memo index x.generation; memo_value = set m.memo_value index value },
      )

  -- `Context::node`, with the operands of a connective asked until one decides.
  unfoldable mutual
    pub node_value : Context → Node → Memo → Bool × Memo
    node_value x (and operands) m = all_values x operands m
    node_value x (or operands) m = any_values x operands m
    node_value x (not_node operand) m = let (value, m') = node_value x operand m in (not value, m')
    node_value x (pred index) m = pred_value x index m

    pub all_values : Context → Nodes → Memo → Bool × Memo
    all_values x nil m = (true, m)
    all_values x (cons node nodes) m =
        let (value, m') = node_value x node m in
        let rest = all_values x nodes m' in if value then rest else (false, m')

    pub any_values : Context → Nodes → Memo → Bool × Memo
    any_values x nil m = (false, m)
    any_values x (cons node nodes) m =
        let (value, m') = node_value x node m in
        let rest = any_values x nodes m' in if value then (true, m') else rest

  abbrev pub default_rule : ℕ × Node
  default_rule = (0, or nil)

  -- The loop over the candidates, with the rules that matched up to here.
  unfoldable pub run_candidates : Context → List ℕ → Memo → List ℕ → Memo × List ℕ
  unfolding node_value pred_value
  run_candidates x [] m matched = (m, matched)
  run_candidates x (position ∷ candidates) m matched =
      let (index, node) = get_or x.group.rules position default_rule in
      let (value, m') = node_value x node m in
      run_candidates x candidates m' (if value then matched ++ index ∷ [] else matched)

  abbrev pub all_texts : Event c → List (Source Automaton) → List (List Text)
  all_texts event sources = map (λ source. gather c source.origin source.cased event) sources

  -- `Group::evaluate`
  unfoldable pub evaluate : AGroup → Event c → GroupScratch → List ℕ → GroupScratch × List ℕ
  unfolding next_generation scan_sources add_candidates run_candidates reset_hits
  evaluate group event work matched =
      let s = next_generation work in
      let scanned =
        scan_sources c event group.sources (record { hits = s.hits; found = s.found }) in
      let marked =
        add_candidates s.generation
          (group.untriggered ++ flat_triggers group.triggers scanned.found) (s.candidate, []) in
      let x : Context = record {
        group = group;
        event = event;
        hits = scanned.hits;
        texts = all_texts event group.sources;
        generation = s.generation;
      } in
      let ran =
        run_candidates x marked.1 (record { memo = s.memo; memo_value = s.memo_value }) matched in
      (
        record {
          hits = reset_hits scanned.hits scanned.found;
          found = [];
          texts = s.texts;
          candidate = marked.0;
          memo = ran.0.memo;
          memo_value = ran.0.memo_value;
          generation = s.generation;
        },
        ran.1,
      )

  abbrev pub group_scratch : AGroup → GroupScratch
  group_scratch group = record {
    hits = replicate group.literals no_hit;
    found = [];
    texts = length group.sources;
    candidate = replicate (length group.rules) 0;
    memo = replicate (length group.predicates) 0;
    memo_value = replicate (length group.predicates) false;
    generation = 0;
  }

  abbrev pub Scratch : Type 0
  Scratch = List GroupScratch

  -- `Scratch::fits`
  unfoldable pub fits : Scratch → List AGroup → Bool
  fits [] [] = true
  fits (work ∷ works) (group ∷ groups) =
      (length work.hits == group.literals)
      && (work.texts == length group.sources)
      && (length work.candidate == length group.rules)
      && (length work.memo == length group.predicates)
      && fits works groups
  fits _ _ = false

  unfoldable pub insert_index : ℕ → List ℕ → List ℕ
  insert_index i [] = i ∷ []
  insert_index i (j ∷ indices) =
      let rest = insert_index i indices in if leb i j then i ∷ j ∷ indices else j ∷ rest

  -- `sort_unstable`
  unfoldable pub sort_indices : List ℕ → List ℕ
  unfolding insert_index
  sort_indices [] = []
  sort_indices (i ∷ indices) = insert_index i (sort_indices indices)

  -- The loop of `Engine::matches_into` over the groups and their working memory.
  unfoldable pub evaluate_groups : List AGroup → Event c → Scratch → List ℕ → Scratch × List ℕ
  unfolding has_class evaluate
  evaluate_groups (group ∷ groups) event (work ∷ works) matched =
      let (work', matched') =
        (if has_class c group.class event
          then evaluate group event work matched
          else (work, matched)) in
      let (works', all) = evaluate_groups groups event works matched' in (work' ∷ works', all)
  evaluate_groups _ event works matched = (works, matched)

  module _ (required_literals : Text → RegexFlags → Option (List Text)) where
    unfoldable pub scratch : Engine c required_literals → Scratch
    scratch engine = map group_scratch engine.groups

    -- `Engine::matches_into`: the scratch it leaves, and the rules that match.
    unfoldable pub matches_into : Engine c required_literals → Event c → Scratch → Scratch × List ℕ
    unfolding fits scratch evaluate_groups sort_indices
    matches_into engine event work =
        let fitting = (if fits work engine.groups then work else scratch engine) in
        let (left, matched) = evaluate_groups engine.groups event fitting [] in
        (left, sort_indices matched)

    -- `Engine::matches`
    unfoldable pub matches : Engine c required_literals → Event c → List ℕ
    unfolding matches_into
    matches engine event = (matches_into engine event (scratch engine)).1
