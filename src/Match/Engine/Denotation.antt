-- ===== src/Match/Engine/Denotation.antt =====
-- What a compiled predicate stands for, over the sources and literals of its group: the texts of
-- each source are gathered, and a literal is found where it occurs in one of them.
use goliath_siem.Base.{
  ℕ, Bool, true, false, ◌&&◌, ◌||◌, Option, none, some, List, [], any, Text, get_elem?, get_or, not,
}
use goliath_siem.Sigma.Pattern
use goliath_siem.Crates.{Crates}
use goliath_siem.Match.Semantics.{Event, pool}
use goliath_siem.Match.Engine.{
  Origin, Shape, contains, Ref, Pred, literal, general, other, Node, Nodes, and, or, not_node, pred,
  nil, cons,
}
use goliath_siem.Match.Engine.Hits.{gather}
use goliath_siem.Match.Engine.Evaluate.{holds_check}
use goliath_siem.Match.Engine.Shapes.{occurs}

-- The literals and the sources of a group, as its builder holds them.
pub record Store : Type 0 where
  pub sources : List (Origin × Bool)
  pub literals : List (List Text)

unfoldable pub lit : Store → ℕ → ℕ → Option Text
lit st s i = get_elem? (get_or st.literals s []) i

module _ (c : Crates) (event : Event c) where
  open c use {Float, Regex}

  unfoldable pub texts_of : Option (Origin × Bool) → List Text
  texts_of none = []
  texts_of (some (origin, cased)) = gather c origin cased event

  unfoldable pub texts_at : Store → ℕ → List Text
  texts_at st s = texts_of (get_elem? st.sources s)

  unfoldable pub occurs_in : Shape → Option Text → List Text → Bool
  occurs_in shape none texts = false
  occurs_in shape (some l) texts = any (occurs shape l) texts

  unfoldable pub literal_holds : Store → Shape → ℕ → ℕ → Bool
  literal_holds st shape s i = occurs_in shape (lit st s i) (texts_at st s)

  unfoldable pub required_holds : Store → ℕ → Option ℕ → Bool
  required_holds st s none = true
  required_holds st s (some i) = literal_holds st contains s i

  unfoldable pub any_required_holds : Store → Option (ℕ × List ℕ) → Bool
  any_required_holds st none = true
  any_required_holds st (some (s, indices)) = any (literal_holds st contains s) indices

  unfoldable pub pred_holds : Store → Pred Float Regex → Bool
  pred_holds st (literal s i shape) = literal_holds st shape s i
  pred_holds st (general s required p) =
      required_holds st s required && any (Pattern.matches p) (texts_at st s)
  pred_holds st (other ps check required) =
      any_required_holds st required && holds_check c check (pool c event ps) event

  unfoldable pub ref_holds : Store → Ref → Bool
  ref_holds st (s, i) = literal_holds st contains s i

  -- A node over the values of the predicates.
  module _ (value : ℕ → Bool) where
    unfoldable mutual
      pub node_holds : Node → Bool
      node_holds (and nodes) = all_nodes nodes
      node_holds (or nodes) = any_node nodes
      node_holds (not_node node) = not (node_holds node)
      node_holds (pred id) = value id

      pub all_nodes : Nodes → Bool
      all_nodes nil = true
      all_nodes (cons node nodes) = node_holds node && all_nodes nodes

      pub any_node : Nodes → Bool
      any_node nil = false
      any_node (cons node nodes) = node_holds node || any_node nodes
