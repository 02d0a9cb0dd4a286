-- ===== src/Match/Engine/LeafPred.antt =====
-- What it takes for a predicate of `GroupBuilder` to be right for a leaf, for string tests and for
-- tests that the shared semantics answers.
use goliath_siem.Base.{◌≡◌, sym, ◌∙◌, Option, none, List, any, Text}
use goliath_siem.Rule.FieldPath.{FieldPath}
use goliath_siem.Rule.Resolved
use goliath_siem.Rule.Resolved.{Expr, Test, RegexFlags, StringTest}
use goliath_siem.Sigma.Pattern
use goliath_siem.Crates.{Crates}
use goliath_siem.Match.Semantics.{Event, pool}
use goliath_siem.Match.Reference.{ok, Check}
use goliath_siem.Match.Engine.{Origin, other}
use goliath_siem.Match.Engine.Builder.{B, Leaf, add_source, string_pred, string_leaf}
use goliath_siem.Match.Engine.Hits.{gather}
use goliath_siem.Match.Engine.Evaluate.{holds_check}
use goliath_siem.Match.Engine.Denotation.{pred_holds, any_required_holds}
use goliath_siem.Match.Engine.Grow.{IsTidy}
use goliath_siem.Match.Engine.Additions.{store, Grows, Grows-refl, Grows-trans, add_source_lem}
use goliath_siem.Match.Engine.Right.{IsRight, leaf_holds}
use goliath_siem.Match.Engine.StringLeaf.{string_pred_lem}

module _ (c : Crates) (required_literals : Text → RegexFlags → Option (List Text)) where
  open c use {Float, Regex, regex_build}

  -- The builder has grown by what the leaf needs.
  pub record IsLeafPred (b : B c required_literals) (leaf : Expr Float)
      (r : Leaf c required_literals) : Type 0 where
    pub grows : Grows b r.0
    pub right : IsRight c (store r.0) leaf r.1 r.2

  -- The builder after a source and a pattern over it.
  pub string_leaf_lem :
      (b : B c required_literals) (origin : Origin) (test : StringTest) (leaf : Expr Float)
      → ((event : Event c)
          → leaf_holds c leaf event
            ≡ any (Pattern.matches test.pattern) (gather c origin test.cased event))
      → IsTidy b
      → (r : Leaf c required_literals) → string_leaf c required_literals b origin test ≡ ok r
      → IsLeafPred b leaf r
  unfolding string_leaf
  string_leaf_lem b origin test leaf means tidy r h =
      let (grows, here) = add_source_lem b origin test.cased tidy in
      let b' = (add_source b origin test.cased).0 in
      let source = (add_source b origin test.cased).1 in
      let (grows', pred) =
        string_pred_lem c origin test.cased b' source test.pattern grows.tidy here in
      let same : string_pred b' source test.pattern ≡ r = cc in
      rw (← same) (record {
        grows = Grows-trans b b' _ grows grows';
        right = record {
          names = pred.names;
          means = λ event. pred.means event ∙ sym (means event);
          atom_names = pred.atom_names;
          wakes = pred.wakes;
        };
      })

  abbrev pub field_of : List FieldPath → Test Float → Expr Float
  field_of ps test = Resolved.field (record { paths = ps; test = test })

  -- A predicate that is asked through the shared semantics, with nothing required.
  pub plain_lem :
      (b : B c required_literals) (ps : List FieldPath) (check : Check Float Regex)
      (leaf : Expr Float)
      → ((event : Event c) → holds_check c check (pool c event ps) event ≡ leaf_holds c leaf event)
      → IsTidy b
      → IsLeafPred b leaf (b, other ps check none, none)
  plain_lem b ps check leaf means tidy = record {
    grows = Grows-refl b tidy;
    right = record {
      names = tt;
      means = λ event. unfold pred_holds any_required_holds in means event;
      atom_names = tt;
      wakes = λ event h. tt;
    };
  }
