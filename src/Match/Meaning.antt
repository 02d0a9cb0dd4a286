-- ===== src/Match/Meaning.antt =====
-- What a rule's condition means for an event, with no compilation, no memory and no triggers in it.
-- How a regular expression is asked about a value is a parameter: the reference evaluator and the
-- engine differ in it on booleans.
use goliath_siem.Base.{
  ◌≡◌, sym, subst, ap, ap₂, refl, Bool, true, false, not, ◌&&◌, ◌||◌, Option, none, some, List, any,
}
use goliath_siem.Json
use goliath_siem.Rule.Resolved
use goliath_siem.Rule.Resolved.{Expr, Exprs, Predicate, StringTest, Test, RegexFlags}
use goliath_siem.Crates.{Crates}
use goliath_siem.Match.Semantics.{
  Event, pool, string_matches, text_of, test_values, any_string, is_some_and,
}
use goliath_siem.Match.Reference
use goliath_siem.Match.Reference.{
  Compiled, ok, compile_error, ◌>>=◌, >>=-eq-ok, built-eq-ok, Check, plain, regex, Node, Nodes,
  compile, compile_all, compile_check, evaluate, evaluate_all, evaluate_any, holds_check,
}

module _ (c : Crates) where
  open c use {Float, Regex, regex_build, is_match}

  module _ (asks : Regex → Event c → Bool) where
    unfoldable pub regex_holds : Option Regex → List (Event c) → Bool
    regex_holds none values = false
    regex_holds (some re) values = any (asks re) values

    unfoldable pub test_holds : Test Float → List (Event c) → Event c → Bool
    unfolding regex_holds
    test_holds (Test.regex p flags) values event = regex_holds (regex_build p flags) values
    test_holds test values event = test_values c test values event

    unfoldable mutual
      pub expr_holds : Expr Float → Event c → Bool
      expr_holds (Resolved.and operands) event = all_hold operands event
      expr_holds (Resolved.or operands) event = any_holds operands event
      expr_holds (Resolved.not operand) event = not (expr_holds operand event)
      expr_holds (Resolved.field predicate) event =
          test_holds predicate.test (pool c event predicate.paths) event
      expr_holds (Resolved.keyword test) event = any_string c (string_matches c test) event

      pub all_hold : Exprs Float → Event c → Bool
      all_hold Resolved.nil event = true
      all_hold (Resolved.cons operand operands) event =
          expr_holds operand event && all_hold operands event

      pub any_holds : Exprs Float → Event c → Bool
      any_holds Resolved.nil event = false
      any_holds (Resolved.cons operand operands) event =
          expr_holds operand event || any_holds operands event

  -- The reference evaluator asks about the text of a value.
  unfoldable pub asks_text : Regex → Event c → Bool
  unfolding text_of
  asks_text re value = is_some_and (text_of c value) (is_match re)

  -- The text of a value, but not of a boolean: what `regex_matches_any` of the engine documents,
  -- less the booleans, which it answers with no.
  unfoldable pub asks_but_booleans : Regex → Event c → Bool
  unfolding asks_text
  asks_but_booleans re (Json.bool flag) = false
  asks_but_booleans re value = asks_text re value

  holds_check-compile :
      (test : Test Float) (check : Check Float Regex)
      → compile_check c test ≡ ok check
      → (values : List (Event c)) (event : Event c)
      → holds_check c check values event ≡ test_holds asks_text test values event
  unfolding compile_check test_holds holds_check asks_text
  holds_check-compile (Test.regex p flags) check h values event =
      let (re, e, e') = >>=-eq-ok _ _ h in
      let built : regex_build p flags ≡ some re = built-eq-ok (regex_build p flags) e in
      let same : regex re ≡ check = cc in
      subst
        (λ k. holds_check c k values event ≡ test_holds asks_text (Test.regex p flags) values event)
        same (sym (ap (λ o. regex_holds asks_text o values) built))
  holds_check-compile (Test.string test) check h values event =
      let same : plain (Test.string test) ≡ check = cc in rw (← same)
  holds_check-compile (Test.cidr n) check h values event =
      let same : plain (Test.cidr n) ≡ check = cc in rw (← same)
  holds_check-compile (Test.exists b) check h values event =
      let same : plain (Test.exists b) ≡ check = cc in rw (← same)
  holds_check-compile Test.null check h values event =
      let same : plain Test.null ≡ check = cc in rw (← same)
  holds_check-compile (Test.equals n) check h values event =
      let same : plain (Test.equals n) ≡ check = cc in rw (← same)
  holds_check-compile (Test.boolean b) check h values event =
      let same : plain (Test.boolean b) ≡ check = cc in rw (← same)
  holds_check-compile (Test.compare op n) check h values event =
      let same : plain (Test.compare op n) ≡ check = cc in rw (← same)
  holds_check-compile (Test.field_ref ps b) check h values event =
      let same : plain (Test.field_ref ps b) ≡ check = cc in rw (← same)

  mutual
    unfolding compile evaluate expr_holds

    evaluate-compile :
        (e : Expr Float) (node : Node Float Regex)
        → compile c e ≡ ok node
        → (event : Event c) → evaluate c node event ≡ expr_holds asks_text e event
    evaluate-compile (Resolved.and operands) node h event =
        let (nodes, e, e') = >>=-eq-ok _ _ h in
        let same : Reference.and nodes ≡ node = cc in
        rw (← same) (evaluate-compile_all operands nodes e event).0
    evaluate-compile (Resolved.or operands) node h event =
        let (nodes, e, e') = >>=-eq-ok _ _ h in
        let same : Reference.or nodes ≡ node = cc in
        rw (← same) (evaluate-compile_all operands nodes e event).1
    evaluate-compile (Resolved.not operand) node h event =
        let (inner, e, e') = >>=-eq-ok _ _ h in
        let same : Reference.not_node inner ≡ node = cc in
        rw (← same) (ap not (evaluate-compile operand inner e event))
    evaluate-compile (Resolved.keyword test) node h event =
        let same : Reference.keyword test ≡ node = cc in rw (← same)
    evaluate-compile (Resolved.field predicate) node h event =
        let (check, e, e') = >>=-eq-ok _ _ h in
        let same : Reference.field predicate.paths check ≡ node = cc in
        rw (← same)
          (holds_check-compile predicate.test check e (pool c event predicate.paths) event)

    evaluate-compile_all :
        (es : Exprs Float) (nodes : Nodes Float Regex)
        → compile_all c es ≡ ok nodes
        → (event : Event c)
        → (evaluate_all c nodes event ≡ all_hold asks_text es event)
          × (evaluate_any c nodes event ≡ any_holds asks_text es event)
    evaluate-compile_all Resolved.nil nodes h event =
        let same : Reference.nil ≡ nodes = cc in rw (← same) (refl, refl)
    evaluate-compile_all (Resolved.cons operand operands) nodes h event =
        let (node, e, h') = >>=-eq-ok _ _ h in
        let (rest, e', e'') = >>=-eq-ok _ _ h' in
        let same : Reference.cons node rest ≡ nodes = cc in
        let first = evaluate-compile operand node e event in
        let (alls, anys) = evaluate-compile_all operands rest e' event in
        rw (← same) (ap₂ ◌&&◌ first alls, ap₂ ◌||◌ first anys)

  -- A compiled condition is evaluated to what the condition means.
  pub evaluate_lem :
      (e : Expr Float) (node : Node Float Regex)
      → compile c e ≡ ok node
      → (event : Event c) → evaluate c node event ≡ expr_holds asks_text e event
  evaluate_lem = evaluate-compile
