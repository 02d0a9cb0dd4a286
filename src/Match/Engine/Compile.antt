-- ===== src/Match/Engine/Compile.antt =====
-- `GroupBuilder::build` and `Engine::new`: groups with their triggers and automata.
use goliath_siem.Base.{
  ℕ, ◌+◌, ◌*◌, ◌/◌, Bool, ◌&&◌, Option, none, some, List, [], ◌∷◌, ◌++◌, ltb, leb, ◌==◌,
  if◌then◌else◌, Text, text_eq, byte_length, length, get_or, set, replicate, text_lt,
}
use goliath_siem.Rule.FieldPath.{FieldPath}
use goliath_siem.Rule.Resolved.{Expr, RegexFlags, ResolvedRule, ClassValue}
use goliath_siem.Crates.{Crates}
use goliath_siem.Match.Reference.{Compiled, ok, compile_error, ◌>>=◌}
use goliath_siem.Match.Engine.{
  Origin, Source, Ref, Node, Nodes, and, or, not_node, pred, nil, cons, Group,
}
use goliath_siem.Match.Engine.Builder.{empty_builder, B, add_node}

-- `max(1)`
unfoldable pub at_least_one : ℕ → ℕ
at_least_one n = if n == 0 then 1 else n

-- `GroupBuilder::wake_cost`, over the literals of each source.
unfoldable pub wake_cost : List (List Text) → List Ref → ℕ
unfolding at_least_one
wake_cost literals [] = 0
wake_cost literals ((source, index) ∷ trigger) =
    let size = at_least_one (byte_length (get_or (get_or literals source []) index [])) in
    1_000_000 / (size * size) + wake_cost literals trigger

-- `min_by_key(wake_cost)`, with the best trigger up to here: of equal ones the first.
unfoldable pub rarer : List (List Text) → Option (List Ref) → Option (List Ref) → Option (List Ref)
unfolding wake_cost
rarer literals none trigger = trigger
rarer literals (some best) none = some best
rarer literals (some best) (some trigger) =
    if ltb (wake_cost literals trigger) (wake_cost literals best) then some trigger else some best

unfoldable pub ref_leb : Ref → Ref → Bool
ref_leb (s, i) (t, j) = if s == t then leb i j else ltb s t

unfoldable pub ref_eq : Ref → Ref → Bool
ref_eq (s, i) (t, j) = s == t && i == j

unfoldable pub insert_ref : Ref → List Ref → List Ref
unfolding ref_leb
insert_ref r [] = r ∷ []
insert_ref r (q ∷ refs) =
    let rest = insert_ref r refs in if ref_leb r q then r ∷ q ∷ refs else q ∷ rest

-- `sort_unstable`
unfoldable pub sort_refs : List Ref → List Ref
unfolding insert_ref
sort_refs [] = []
sort_refs (r ∷ refs) = insert_ref r (sort_refs refs)

-- `dedup`: of equal neighbours one is kept.
unfoldable pub dedup_refs : List Ref → List Ref
unfolding ref_eq
dedup_refs [] = []
dedup_refs (r ∷ []) = r ∷ []
dedup_refs (r ∷ q ∷ refs) =
    let rest = dedup_refs (q ∷ refs) in if ref_eq r q then rest else r ∷ rest

abbrev pub tidy : Option (List Ref) → Option (List Ref)
tidy none = none
tidy (some refs) = some (dedup_refs (sort_refs refs))

abbrev pub both : Option (List Ref) → Option (List Ref) → Option (List Ref)
both none all = none
both (some refs) none = none
both (some refs) (some all) = some (refs ++ all)

-- `GroupBuilder::trigger`, over the atoms of the predicates.
unfoldable mutual
  pub trigger : List (List Text) → List (Option (List Ref)) → Node → Option (List Ref)
  trigger literals atoms (pred index) = get_or atoms index none
  trigger literals atoms (and operands) = rarest literals atoms none operands
  trigger literals atoms (or operands) = tidy (all_triggers literals atoms operands)
  trigger literals atoms (not_node operand) = none

  pub rarest :
      List (List Text) → List (Option (List Ref)) → Option (List Ref) → Nodes → Option (List Ref)
  rarest literals atoms best nil = best
  rarest literals atoms best (cons node nodes) =
      rarest literals atoms (rarer literals best (trigger literals atoms node)) nodes

  pub all_triggers : List (List Text) → List (Option (List Ref)) → Nodes → Option (List Ref)
  all_triggers literals atoms nil = some []
  all_triggers literals atoms (cons node nodes) =
      both (trigger literals atoms node) (all_triggers literals atoms nodes)

-- The index of each source's first literal, and the number of all literals.
unfoldable pub first_literals : ℕ → List (List Text) → List ℕ
first_literals total [] = []
first_literals total (literals ∷ rest) = total ∷ first_literals (total + length literals) rest

unfoldable pub total_literals : List (List Text) → ℕ
total_literals [] = 0
total_literals (literals ∷ rest) = length literals + total_literals rest

abbrev pub global : List ℕ → Ref → ℕ
global firsts (source, index) = get_or firsts source 0 + index

-- `triggers[global(literal)].push(position)` for each literal of a trigger.
unfoldable pub push_triggers : List ℕ → ℕ → List Ref → List (List ℕ) → List (List ℕ)
push_triggers firsts position [] triggers = triggers
push_triggers firsts position (r ∷ refs) triggers =
    let g = global firsts r in
    push_triggers firsts position refs (set triggers g (get_or triggers g [] ++ position ∷ []))

abbrev pub place : List ℕ → ℕ → Option (List Ref) → List (List ℕ) × List ℕ → List (List ℕ) × List ℕ
place firsts position none (triggers, untriggered) = (triggers, untriggered ++ position ∷ [])
place firsts position (some refs) (triggers, untriggered) =
    (push_triggers firsts position refs triggers, untriggered)

-- The loop over the compiled rules that fills `triggers` and `untriggered`.
unfoldable pub place_rules :
    List (List Text)
    → List (Option (List Ref))
    → List ℕ
    → ℕ
    → List (ℕ × Node)
    → List (List ℕ) × List ℕ
    → List (List ℕ) × List ℕ
unfolding trigger push_triggers
place_rules literals atoms firsts position [] placed = placed
place_rules literals atoms firsts position ((index, node) ∷ rules) placed =
    place_rules literals atoms firsts (position + 1) rules
      (place firsts position (trigger literals atoms node) placed)

module _ (c : Crates) (required_literals : Text → RegexFlags → Option (List Text)) where
  open c use {Float, Regex, Automaton, automaton_build, class_json}

  abbrev pub AGroup : Type 0
  AGroup = Group Float Regex Automaton

  -- A source without literals has no automaton.
  unfoldable pub automaton_of : List Text → Compiled (Option Automaton)
  automaton_of [] = ok none
  automaton_of (t ∷ ts) = elim (automaton_build (t ∷ ts)) [
    | some a ↦ ok (some a)
    | none ↦ compile_error
  ]

  unfoldable pub build_sources :
      List (Origin × Bool) → List (List Text) → List ℕ → Compiled (List (Source Automaton))
  unfolding automaton_of
  build_sources ((origin, cased) ∷ sources) (literals ∷ rest) (first ∷ firsts) =
      automaton_of literals >>= λ automaton. build_sources sources rest firsts >>= λ built. ok (
        record { origin = origin; cased = cased; automaton = automaton; first_literal = first }
        ∷ built)
  build_sources _ _ _ = ok []

  -- The compiled conditions of the members, in order.
  unfoldable pub compile_members :
      B c required_literals
      → List (ℕ × Expr Float)
      → Compiled (B c required_literals × List (ℕ × Node))
  unfolding add_node
  compile_members b [] = ok (b, [])
  compile_members b ((index, condition) ∷ members) =
      add_node c required_literals b condition >>= λ (b', node).
      compile_members b' members >>= λ (b'', rules). ok (b'', (index, node) ∷ rules)

  -- `GroupBuilder::build` behind the compilation of the members.
  unfoldable pub finish :
      List (FieldPath × ClassValue) → B c required_literals × List (ℕ × Node) → Compiled AGroup
  unfolding first_literals total_literals place_rules build_sources
  finish class (b, rules) =
      let firsts = first_literals 0 b.literals in
      let placed =
        place_rules b.literals b.atoms firsts 0 rules
          (replicate (total_literals b.literals) [], []) in
      build_sources b.sources b.literals firsts >>= λ sources. ok (record {
        class = class;
        sources = sources;
        predicates = b.predicates;
        rules = rules;
        triggers = placed.0;
        untriggered = placed.1;
        literals = total_literals b.literals;
      })

  unfoldable pub build_group :
      List (FieldPath × ClassValue) → List (ℕ × Expr Float) → Compiled AGroup
  unfolding compile_members finish
  build_group class members = compile_members empty_builder members >>= finish class

  -- The rules of one class condition: its key, the condition, and the members in order.
  abbrev pub ByClass : Type 0
  ByClass = List (Text × List (FieldPath × ClassValue) × List (ℕ × Expr Float))

  -- `by_class.entry(key).or_insert_with(...).1.push(index)`, in a map ordered by its keys.
  unfoldable pub insert_class : Text → ℕ → ResolvedRule Float → ByClass → ByClass
  unfolding text_eq text_lt
  insert_class key index rule [] = (key, rule.class, (index, rule.condition) ∷ []) ∷ []
  insert_class key index rule ((k, class, members) ∷ by_class) =
      let further = insert_class key index rule by_class in
      if text_eq k key
      then (k, class, members ++ (index, rule.condition) ∷ []) ∷ by_class
      else if text_lt key k
      then (key, rule.class, (index, rule.condition) ∷ []) ∷ (k, class, members) ∷ by_class
      else (k, class, members) ∷ further

  unfoldable pub group_rules : ℕ → List (ResolvedRule Float) → ByClass → ByClass
  unfolding insert_class
  group_rules index [] by_class = by_class
  group_rules index (rule ∷ rules) by_class =
      group_rules (index + 1) rules (insert_class (class_json rule.class) index rule by_class)

  unfoldable pub build_groups : ByClass → Compiled (List AGroup)
  unfolding build_group
  build_groups [] = ok []
  build_groups ((key, class, members) ∷ by_class) =
      build_group class members >>= λ group. build_groups by_class >>= λ groups. ok (group ∷ groups)

  pub record Engine : Type 0 where
    pub rules : List (ResolvedRule Float)
    pub groups : List AGroup

  -- `Engine::new`
  unfoldable pub new : List (ResolvedRule Float) → Compiled Engine
  unfolding group_rules build_groups
  new rules = build_groups (group_rules 0 rules []) >>= λ groups.
      ok (record { rules = rules; groups = groups })
