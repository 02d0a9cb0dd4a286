-- ===== src/Match/EngineSamples.antt =====
-- Tests of the engine over a small set of rules, and the theorems about it at concrete inputs.
use goliath_siem.Base.{
  get_or, ◌≤◌, ℕ, ◌≡◌, ◌↔◌, inl, refl, true, [], ◌∷◌, text, text_eq, strip_prefix, In, zero, suc,
  arith,
}
use goliath_siem.Base.Int.{int_eq}
use goliath_siem.Rule.Resolved
use goliath_siem.Rule.Resolved.{Expr, Exprs, ResolvedRule, ClassValue, RegexFlags}
use goliath_siem.Sigma.Pattern
use goliath_siem.Match.Reference
use goliath_siem.Match.Reference.{ReferenceRule, Compiled, ok, compile_error}
use goliath_siem.Match.Engine.Builder.{
  B, empty_builder, add_predicate, add_node, shaped, literal_texts,
}
use goliath_siem.Match.Engine.Compile
use goliath_siem.Match.Engine.Compile.{Engine}
use goliath_siem.Match.Engine.Hits.{no_hit}
use goliath_siem.Match.Engine.Evaluate.{GroupScratch, next_generation, Scratch, matches_into}
use goliath_siem.Match.Engine.Sound.{Advances, IsSound-empty}
use goliath_siem.Match.Engine.Compiling.{add_node_lem}
use goliath_siem.Match.Engine.Grow.{All}
use goliath_siem.Match.Engine.Scratch.{IsReady, IsFresh, next_generation-IsFresh}
use goliath_siem.Match.Engine.Result.{IsMatchingRule}
use goliath_siem.Match.Engine.Agreement.{matches_into_iff, matches_into-AreReady}
use goliath_siem.Match.Engine.Equivalence.{engine-reference_iff}
use goliath_siem.Match.Engine.BoolFree.{
  IsBoolFree, free_object, free_field, free_number, free_string, free_end, BoolFree-HasNoBool,
}
use goliath_siem.Match.Meaning.{expr_holds, asks_text, evaluate_lem}
use goliath_siem.Match.Engine.{Node, not_node, pred, contains, ends_with}
use goliath_siem.Match.Engine.Shapes.{occurs, matches-shaped, matches-required}
use goliath_siem.Match.Engine.Conditions.{Computes}
use goliath_siem.Match.Samples.{sample_crates, sample_laws, sample_required, sample_requires}
use goliath_siem.Match.EngineRules.{
  image_leaf, keyword_leaf, regex_leaf, rule_of, sample_rules, sample_event, sample_engine, Known,
  KnownClass, compiles, leaves_apart, classes_apart, rules-Known,
}

finds_two :
    (matches_into sample_crates sample_required sample_engine sample_event []).1 ≡ 0 ∷ 1 ∷ []
unfolding Compile.new matches_into add_predicate keyword_leaf image_leaf int_eq strip_prefix
    Compile.dedup_refs Compile.sort_refs Compile.rarer
finds_two = refl

-- Working memory that an earlier event has left.
abbrev left_over : Scratch sample_crates
left_over = (matches_into sample_crates sample_required sample_engine sample_event []).0

matches_into-AreReady_example :
    All IsReady (matches_into sample_crates sample_required sample_engine sample_event []).0
matches_into-AreReady_example =
    matches_into-AreReady sample_crates sample_required Known KnownClass sample_laws sample_engine
      sample_event [] tt

left_over-AreReady : All IsReady left_over
left_over-AreReady =
    matches_into-AreReady sample_crates sample_required Known KnownClass sample_laws sample_engine
      sample_event [] tt

matches_into_iff_example :
    In 1 (matches_into sample_crates sample_required sample_engine sample_event left_over).1
    ↔ IsMatchingRule sample_crates sample_required Known sample_laws sample_rules sample_event 1
matches_into_iff_example =
    matches_into_iff sample_crates sample_required Known KnownClass sample_laws sample_requires
      leaves_apart classes_apart sample_rules rules-Known sample_engine compiles sample_event
      left_over left_over-AreReady 1

sample_free : IsBoolFree sample_event
sample_free =
    free_object (free_field (free_number tt) (free_field (free_string (text "c:cmd.exe")) free_end))

abbrev reference_of : Compiled (ReferenceRule sample_crates) → ReferenceRule sample_crates
reference_of (ok reference) = reference
reference_of compile_error = record {
  rule = rule_of [] keyword_leaf;
  condition = Reference.or Reference.nil;
}

abbrev second_rule : ResolvedRule Unit
second_rule = rule_of [] (
    Resolved.and
      (Resolved.cons regex_leaf (Resolved.cons (Resolved.not keyword_leaf) Resolved.nil)))

engine-reference_iff_example :
    In 1 (matches_into sample_crates sample_required sample_engine sample_event left_over).1 ↔ (
      Reference.matches sample_crates
        (reference_of (Reference.new sample_crates second_rule))
        sample_event
      ≡ true)
unfolding Reference.new keyword_leaf
engine-reference_iff_example =
    engine-reference_iff sample_crates sample_required Known KnownClass sample_laws sample_requires
      leaves_apart classes_apart sample_rules rules-Known sample_engine compiles sample_event
      left_over left_over-AreReady (BoolFree-HasNoBool sample_crates sample_event sample_free) 1
      second_rule (reference_of (Reference.new sample_crates second_rule)) refl refl

-- The last generation before the counter wraps.
abbrev last_generation : GroupScratch
last_generation = record {
  hits = no_hit ∷ [];
  found = [];
  texts = 1;
  candidate = 4294967295 ∷ 1 ∷ [];
  memo = 1 ∷ [];
  memo_value = true ∷ [];
  generation = 4294967295;
}

last_generation-IsReady : IsReady last_generation
last_generation-IsReady = record {
  hits = only_hit;
  found = refl;
  candidate = marks;
  memo = mark;
  memo_value = refl;
  generation = omega arith;
}
  where
    only_hit : (i : ℕ) → get_or (no_hit ∷ []) i no_hit ≡ no_hit
    only_hit zero = refl
    only_hit (suc i) = refl

    marks : (i : ℕ) → get_or (4294967295 ∷ 1 ∷ []) i 0 ≤ 4294967295
    marks zero = omega arith
    marks (suc zero) = omega arith
    marks (suc (suc i)) = omega arith

    mark : (i : ℕ) → get_or (1 ∷ []) i 0 ≤ 4294967295
    mark zero = omega arith
    mark (suc i) = omega arith

next_generation-IsFresh_example : IsFresh (next_generation last_generation)
next_generation-IsFresh_example = next_generation-IsFresh last_generation last_generation-IsReady

evaluate_lem_example :
    Reference.evaluate sample_crates
      (reference_of (Reference.new sample_crates second_rule)).condition
      sample_event
    ≡ expr_holds sample_crates (asks_text sample_crates) second_rule.condition sample_event
unfolding Reference.new keyword_leaf
evaluate_lem_example =
    evaluate_lem sample_crates second_rule.condition
      (reference_of (Reference.new sample_crates second_rule)).condition refl sample_event

matches-shaped_example :
    Pattern.matches (Pattern.parse (text "*cmd.exe")) (text "c:cmd.exe")
    ≡ occurs ends_with (text "cmd.exe") (text "c:cmd.exe")
unfolding Pattern.parse shaped
matches-shaped_example =
    matches-shaped (Pattern.parse (text "*cmd.exe")) (text "cmd.exe") ends_with refl
      (text "c:cmd.exe")

matches-required_example : occurs contains (text "evil") (text "so evil!") ≡ true
unfolding Pattern.parse literal_texts Pattern.matches Pattern.run_matches strip_prefix
matches-required_example =
    matches-required (Pattern.parse (text "*evil?")) (text "evil") (inl refl) (text "so evil!") refl

abbrev compiled_node : B sample_crates sample_required × Node
compiled_node = node_of (add_node sample_crates sample_required empty_builder second_rule.condition)
  where
    node_of :
        Compiled (B sample_crates sample_required × Node) → B sample_crates sample_required × Node
    node_of (ok r) = r
    node_of compile_error = (empty_builder, not_node (pred 0))

add_node_lem_example :
    Advances sample_crates sample_required Known empty_builder compiled_node.0
    × Computes sample_crates sample_required compiled_node.0 second_rule.condition compiled_node.1
unfolding image_leaf keyword_leaf add_node add_predicate text_eq
add_node_lem_example =
    add_node_lem sample_crates sample_required Known sample_laws sample_requires leaves_apart
      empty_builder (rules-Known 1 second_rule refl).1
      (IsSound-empty sample_crates sample_required Known) compiled_node refl
