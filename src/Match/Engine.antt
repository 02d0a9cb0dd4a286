-- ===== src/Match/Engine.antt =====
-- crates/goliath-match/src/engine.rs: many rules against one event. The types of the engine.
-- `F`, `R` and `A` are the types of floating point numbers, of compiled regular expressions and of
-- automata.
pub mod Builder
pub mod Compile
pub mod Hits
pub mod Evaluate
pub mod Shapes
pub mod Denotation
pub mod Gather
pub mod Grow
pub mod Additions
pub mod Right
pub mod StringLeaf
pub mod RegexLeaf
pub mod LeafPred
pub mod RegexPred
pub mod Leaves
pub mod Conditions
pub mod Sound
pub mod Compiling
pub mod Triggers
pub mod Memory
pub mod Scratch
pub mod Occurrences
pub mod Marks
pub mod Scan
pub mod Layout
pub mod Placement
pub mod Members
pub mod Answer
pub mod Evaluation
pub mod Selection
pub mod Reuse
pub mod Grouping
pub mod Correct
pub mod Result
pub mod Agreement
pub mod Equivalence
pub mod BoolFree
use goliath_siem.Base.{
  ℕ, Bool, true, false, ◌&&◌, ◌||◌, Option, List, [], ◌∷◌, Text, text_eq, arith,
}
use goliath_siem.Rule.FieldPath.{FieldPath}
use goliath_siem.Rule.Resolved.{ClassValue}
use goliath_siem.Sigma.Pattern.{Pattern}
use goliath_siem.Match.Reference.{Check}

pub data Origin : Type 0 where
  paths : List FieldPath → Origin
  any_string : Origin

pub data Shape : Type 0 where
  equals contains starts_with ends_with : Shape

pub record Source (A : Type 0) : Type 0 where
  pub origin : Origin
  pub cased : Bool
  pub automaton : Option A
  pub first_literal : ℕ

-- A literal of a builder: its source, and its index there.
abbrev pub Ref : Type 0
Ref = ℕ × ℕ

pub data Pred (F R : Type 0) : Type 0 where
  literal : ℕ → ℕ → Shape → Pred F R
  general : ℕ → Option ℕ → Pattern → Pred F R
  other : List FieldPath → Check F R → Option (ℕ × List ℕ) → Pred F R

mutual
  pub data Node : Type 0 where
    and : Nodes → Node
    or : Nodes → Node
    not_node : Node → Node
    pred : ℕ → Node

  pub data Nodes : Type 0 where
    nil : Nodes
    cons : Node → Nodes → Nodes

pub record Group (F R A : Type 0) : Type 0 where
  pub class : List (FieldPath × ClassValue)
  pub sources : List (Source A)
  pub predicates : List (Pred F R)
  -- Index of the rule in the engine, and its compiled condition.
  pub rules : List (ℕ × Node)
  -- For each literal, the rules that it triggers, as positions in `rules`.
  pub triggers : List (List ℕ)
  pub untriggered : List ℕ
  pub literals : ℕ

unfoldable pub texts_eq : List Text → List Text → Bool
texts_eq [] [] = true
texts_eq (s ∷ ss) (t ∷ ts) = text_eq s t && texts_eq ss ts
texts_eq _ _ = false

unfoldable pub field_path_eq : FieldPath → FieldPath → Bool
unfolding texts_eq
field_path_eq p q = text_eq p.text q.text && texts_eq p.segments q.segments

unfoldable pub field_paths_eq : List FieldPath → List FieldPath → Bool
unfolding field_path_eq
field_paths_eq [] [] = true
field_paths_eq (p ∷ ps) (q ∷ qs) = field_path_eq p q && field_paths_eq ps qs
field_paths_eq _ _ = false

unfoldable pub origin_eq : Origin → Origin → Bool
unfolding field_paths_eq
origin_eq (paths ps) (paths qs) = field_paths_eq ps qs
origin_eq any_string any_string = true
origin_eq _ _ = false
