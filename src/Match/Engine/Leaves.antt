-- ===== src/Match/Engine/Leaves.antt =====
-- `GroupBuilder::predicate`: the predicate that a leaf becomes is right for it.
use goliath_siem.Base.{◌≡◌, refl, Option, none, List, any, Text}
use goliath_siem.Rule.FieldPath.{FieldPath}
use goliath_siem.Rule.Resolved
use goliath_siem.Rule.Resolved.{Expr, Test, RegexFlags, StringTest}
use goliath_siem.Sigma.Pattern
use goliath_siem.Crates.{Crates}
use goliath_siem.Match.Laws.{Laws}
use goliath_siem.Match.Semantics.{Event, pool, test_values}
use goliath_siem.Match.Reference.{ok, Check, plain}
use goliath_siem.Match.Meaning.{expr_holds, test_holds, asks_but_booleans}
use goliath_siem.Match.Engine.{paths, any_string, other}
use goliath_siem.Match.Engine.Builder.{B, Leaf, string_leaf, field_leaf}
use goliath_siem.Match.Engine.Hits.{gather}
use goliath_siem.Match.Engine.Evaluate.{holds_check}
use goliath_siem.Match.Engine.Gather.{field-gather, keyword-gather}
use goliath_siem.Match.Engine.Grow.{IsTidy}
use goliath_siem.Match.Engine.Right.{leaf_holds}
use goliath_siem.Match.Engine.RegexLeaf.{RequiresSound}
use goliath_siem.Match.Engine.LeafPred.{IsLeafPred, field_of, string_leaf_lem, plain_lem}
use goliath_siem.Match.Engine.RegexPred.{regex_pred_lem}

module _ (c : Crates) (required_literals : Text → RegexFlags → Option (List Text)) where
  open c use {Float, Regex, regex_build}

  module _ (laws : Laws c) (sound : RequiresSound c required_literals) where
    plain_means :
        (ps : List FieldPath) (test : Test Float) (check : Check Float Regex)
        → ((event : Event c)
            → holds_check c check (pool c event ps) event
              ≡ test_holds c (asks_but_booleans c) test (pool c event ps) event)
        → (event : Event c)
        → holds_check c check (pool c event ps) event
          ≡ leaf_holds c (field_of c required_literals ps test) event
    unfolding expr_holds
    plain_means ps test check h event = h event

    string_means :
        (ps : List FieldPath) (test : StringTest) (event : Event c)
        → leaf_holds c (field_of c required_literals ps (Test.string test)) event
          ≡ any (Pattern.matches test.pattern) (gather c (paths ps) test.cased event)
    unfolding expr_holds test_holds test_values
    string_means ps test event = field-gather c laws test event ps

    plain_field :
        (b : B c required_literals) (ps : List FieldPath) (test : Test Float)
        → ((event : Event c)
            → holds_check c (plain test) (pool c event ps) event
              ≡ test_holds c (asks_but_booleans c) test (pool c event ps) event)
        → IsTidy b
        → (r : Leaf c required_literals) → ok (b, other ps (plain test) none, none) ≡ ok r
        → IsLeafPred c required_literals b (field_of c required_literals ps test) r
    plain_field b ps test same tidy r h =
        let same' : (b, other ps (plain test) none, none) ≡ r = cc in
        rw (← same') (
          plain_lem c required_literals b ps (plain test) (field_of c required_literals ps test)
            (plain_means ps test (plain test) same) tidy)

    pub field_leaf_lem :
        (b : B c required_literals) (ps : List FieldPath) (test : Test Float)
        → IsTidy b
        → (r : Leaf c required_literals) → field_leaf c required_literals b ps test ≡ ok r
        → IsLeafPred c required_literals b (field_of c required_literals ps test) r
    unfolding field_leaf
    field_leaf_lem b ps (Test.string test) tidy r h =
        string_leaf_lem c required_literals b (paths ps) test
          (field_of c required_literals ps (Test.string test)) (string_means ps test) tidy r h
    field_leaf_lem b ps (Test.regex p flags) tidy r h =
        regex_pred_lem c required_literals laws sound b ps p flags tidy r h
          (required_literals p flags) refl
    field_leaf_lem b ps (Test.cidr n) tidy r h =
        plain_field b ps (Test.cidr n) (λ event. unfold holds_check test_holds in refl) tidy r h
    field_leaf_lem b ps (Test.exists n) tidy r h =
        plain_field b ps (Test.exists n) (λ event. unfold holds_check test_holds in refl) tidy r h
    field_leaf_lem b ps Test.null tidy r h =
        plain_field b ps Test.null (λ event. unfold holds_check test_holds in refl) tidy r h
    field_leaf_lem b ps (Test.equals n) tidy r h =
        plain_field b ps (Test.equals n) (λ event. unfold holds_check test_holds in refl) tidy r h
    field_leaf_lem b ps (Test.boolean n) tidy r h =
        plain_field b ps (Test.boolean n) (λ event. unfold holds_check test_holds in refl) tidy r h
    field_leaf_lem b ps (Test.compare op n) tidy r h =
        plain_field b ps (Test.compare op n) (λ event. unfold holds_check test_holds in refl) tidy r
          h
    field_leaf_lem b ps (Test.field_ref n k) tidy r h =
        plain_field b ps (Test.field_ref n k) (λ event. unfold holds_check test_holds in refl) tidy
          r h

    pub keyword_leaf_lem :
        (b : B c required_literals) (test : StringTest)
        → IsTidy b
        → (r : Leaf c required_literals) → string_leaf c required_literals b any_string test ≡ ok r
        → IsLeafPred c required_literals b (Resolved.keyword test) r
    keyword_leaf_lem b test tidy r h =
        string_leaf_lem c required_literals b any_string test (Resolved.keyword test)
          (λ event. unfold expr_holds in keyword-gather c test event) tidy r h
