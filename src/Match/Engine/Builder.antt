-- ===== src/Match/Engine/Builder.antt =====
-- `GroupBuilder`: how the rules of one group become sources, literals and predicates. The literals
-- that a regular expression requires are those of crates/goliath-match/src/required.rs, a parameter
-- here.
use goliath_siem.Base.{
  ℕ, suc, Bool, true, false, ◌&&◌, Option, none, some, List, [], ◌∷◌, ◌++◌, map, ltb, ◌==◌,
  if◌then◌else◌, Text, text_eq, byte_length, length, get_or, set,
}
use goliath_siem.Rule.FieldPath.{FieldPath}
use goliath_siem.Rule.Resolved
use goliath_siem.Rule.Resolved.{Expr, Exprs, Predicate, StringTest, Test, RegexFlags}
use goliath_siem.Sigma.Pattern
use goliath_siem.Sigma.Pattern.{Pattern, PatternPart, any_sequence}
use goliath_siem.Crates.{Crates}
use goliath_siem.Match.Reference.{Compiled, ok, ◌>>=◌, built, plain, regex}
use goliath_siem.Match.Engine.{
  Origin, paths, any_string, Shape, equals, contains, starts_with, ends_with, Ref, Pred, literal,
  general, other, Node, Nodes, and, or, not_node, pred, nil, cons, origin_eq,
}

pub record Builder (F R : Type 0) : Type 0 where
  pub sources : List (Origin × Bool)
  pub literals : List (List Text)
  pub literal_ids : List ((ℕ × Text) × ℕ)
  pub predicates : List (Pred F R)
  pub predicate_ids : List (Text × ℕ)
  pub atoms : List (Option (List Ref))

abbrev pub empty_builder : {F R : Type 0} → Builder F R
empty_builder = record {
  sources = [];
  literals = [];
  literal_ids = [];
  predicates = [];
  predicate_ids = [];
  atoms = [];
}

abbrev pub bool_eq : Bool → Bool → Bool
bool_eq true true = true
bool_eq false false = true
bool_eq _ _ = false

unfoldable pub source_position : Origin → Bool → List (Origin × Bool) → Option ℕ
unfolding origin_eq
source_position origin cased [] = none
source_position origin cased ((known, known_cased) ∷ sources) =
    let further = source_position origin cased sources in
    if origin_eq known origin && bool_eq known_cased cased
    then some 0
    else elim further [ some index ↦ some (suc index) | none ↦ none ]

unfoldable pub literal_id : ℕ → Text → List ((ℕ × Text) × ℕ) → Option ℕ
literal_id source t [] = none
literal_id source t (((s, u), index) ∷ ids) =
    if s == source && text_eq u t then some index else literal_id source t ids

unfoldable pub predicate_id : Text → List (Text × ℕ) → Option ℕ
predicate_id key [] = none
predicate_id key ((k, id) ∷ ids) = if text_eq k key then some id else predicate_id key ids

-- The text of a part that is a literal with some text.
unfoldable pub literal_text : PatternPart → Option Text
literal_text (Pattern.literal []) = none
literal_text (Pattern.literal (c ∷ t)) = some (c ∷ t)
literal_text any_sequence = none
literal_text Pattern.any_char = none

unfoldable pub literal_texts : List PatternPart → List Text
unfolding literal_text
literal_texts [] = []
literal_texts (part ∷ parts) =
    let rest = literal_texts parts in elim (literal_text part) [ some t ↦ t ∷ rest | none ↦ rest ]

-- `max_by_key(|text| text.len())`: of equally long texts the last.
unfoldable pub longest : List Text → Option Text
longest [] = none
longest (t ∷ ts) = elim (longest ts) [
  | none ↦ some t
  | some u ↦ if ltb (byte_length u) (byte_length t) then some t else some u
]

-- How the parts of a pattern decide it by one literal.
unfoldable pub shaped : List PatternPart → Option (Text × Shape)
shaped (Pattern.literal t ∷ []) = some (t, equals)
shaped (any_sequence ∷ Pattern.literal t ∷ any_sequence ∷ []) = some (t, contains)
shaped (Pattern.literal t ∷ any_sequence ∷ []) = some (t, starts_with)
shaped (any_sequence ∷ Pattern.literal t ∷ []) = some (t, ends_with)
shaped _ = none

-- `filter(|(text, _)| !text.is_empty())`
unfoldable pub with_text : Option (Text × Shape) → Option (Text × Shape)
with_text (some ([], shape)) = none
with_text (some (c ∷ t, shape)) = some (c ∷ t, shape)
with_text none = none

abbrev pub ref_of : ℕ → Option ℕ → Option (List Ref)
ref_of source none = none
ref_of source (some index) = some ((source, index) ∷ [])

module _ {F R : Type 0} where
  -- `GroupBuilder::source`
  unfoldable pub add_source : Builder F R → Origin → Bool → Builder F R × ℕ
  unfolding source_position
  add_source b origin cased = elim (source_position origin cased b.sources) [
    | some index ↦ (b, index)
    | none ↦ (
      record b { sources = b.sources ++ (origin, cased) ∷ []; literals = b.literals ++ [] ∷ [] },
      length b.sources,
    )
  ]

  -- `GroupBuilder::literal`
  unfoldable pub add_literal : Builder F R → ℕ → Text → Builder F R × ℕ
  unfolding literal_id
  add_literal b source t = elim (literal_id source t b.literal_ids) [
    | some index ↦ (b, index)
    | none ↦
        let known = get_or b.literals source [] in
        (
          record b {
            literals = set b.literals source (known ++ t ∷ []);
            literal_ids = ((source, t), length known) ∷ b.literal_ids;
          },
          length known,
        )
  ]

  unfoldable pub add_literals : Builder F R → ℕ → List Text → Builder F R × List ℕ
  unfolding add_literal
  add_literals b source [] = (b, [])
  add_literals b source (t ∷ ts) =
      let (b', index) = add_literal b source t in
      let (b'', indices) = add_literals b' source ts in (b'', index ∷ indices)

  -- What a pattern must contain, as a literal of the source.
  unfoldable pub add_required : Builder F R → ℕ → Option Text → Builder F R × Option ℕ
  unfolding add_literal
  add_required b source none = (b, none)
  add_required b source (some t) = let (b', index) = add_literal b source t in (b', some index)

  -- `GroupBuilder::string`, with the atom that its callers make of its second result.
  unfoldable pub string_pred :
      Builder F R → ℕ → Pattern → Builder F R × Pred F R × Option (List Ref)
  unfolding with_text shaped add_literal longest literal_texts add_required
  string_pred b source p = elim (with_text (shaped p.parts)) [
    | some (t, shape) ↦
        let (b', index) = add_literal b source t in
        (b', literal source index shape, some ((source, index) ∷ []))
    | none ↦
        let (b', required) = add_required b source (longest (literal_texts p.parts)) in
        (b', general source required p, ref_of source required)
  ]

module _ (c : Crates) (required_literals : Text → RegexFlags → Option (List Text)) where
  open c use {Float, Regex, regex_build, expr_json}

  abbrev pub B : Type 0
  B = Builder Float Regex

  abbrev pub Leaf : Type 0
  Leaf = B × Pred Float Regex × Option (List Ref)

  -- A regular expression with what it requires, among the folded texts of its paths.
  unfoldable pub regex_pred : B → List FieldPath → Text → RegexFlags → Compiled Leaf
  unfolding add_source add_literals
  regex_pred b ps p flags = elim (required_literals p flags) [
    | none ↦ built (regex_build p flags) >>= λ re. ok (b, other ps (regex re) none, none)
    | some texts ↦
        let (b', source) = add_source b (paths ps) false in
        let (b'', indices) = add_literals b' source texts in
        built (regex_build p flags) >>= λ re. ok (
          b'',
          other ps (regex re) (some (source, indices)),
          some (map (λ index. (source, index)) indices),
        )
  ]

  unfoldable pub string_leaf : B → Origin → StringTest → Compiled Leaf
  unfolding add_source string_pred
  string_leaf b origin test =
      let (b', source) = add_source b origin test.cased in ok (string_pred b' source test.pattern)

  unfoldable pub field_leaf : B → List FieldPath → Test Float → Compiled Leaf
  unfolding regex_pred string_leaf
  field_leaf b ps (Test.string test) = string_leaf b (paths ps) test
  field_leaf b ps (Test.regex p flags) = regex_pred b ps p flags
  field_leaf b ps test = ok (b, other ps (plain test) none, none)

  -- The match of `GroupBuilder::predicate`. Its last arm is never reached: `node` handles operators.
  unfoldable pub leaf_pred : B → Expr Float → Compiled Leaf
  unfolding string_leaf field_leaf
  leaf_pred b (Resolved.keyword test) = string_leaf b any_string test
  leaf_pred b (Resolved.field predicate) = field_leaf b predicate.paths predicate.test
  leaf_pred b operator = ok (b, other [] (plain (Test.exists false)) none, none)

  -- The last lines of `GroupBuilder::predicate`.
  unfoldable pub push_pred : Text → Leaf → B × ℕ
  push_pred key (b, predicate, atom) =
      let id = length b.predicates in
      (
        record b {
          predicates = b.predicates ++ predicate ∷ [];
          atoms = b.atoms ++ atom ∷ [];
          predicate_ids = (key, id) ∷ b.predicate_ids;
        },
        id,
      )

  -- `GroupBuilder::predicate`
  unfoldable pub add_predicate : B → Expr Float → Compiled (B × ℕ)
  unfolding predicate_id leaf_pred push_pred
  add_predicate b leaf = elim (predicate_id (expr_json leaf) b.predicate_ids) [
    | some id ↦ ok (b, id)
    | none ↦ leaf_pred b leaf >>= λ result. ok (push_pred (expr_json leaf) result)
  ]

  abbrev pub leaf_node : B × ℕ → B × Node
  leaf_node (b, id) = (b, pred id)

  -- `GroupBuilder::node`
  unfoldable mutual
    pub add_node : B → Expr Float → Compiled (B × Node)
    add_node b (Resolved.and operands) = add_nodes b operands >>= λ (b', nodes). ok (b', and nodes)
    add_node b (Resolved.or operands) = add_nodes b operands >>= λ (b', nodes). ok (b', or nodes)
    add_node b (Resolved.not operand) = add_node b operand >>= λ (b', node). ok (b', not_node node)
    add_node b (Resolved.field predicate) =
        add_predicate b (Resolved.field predicate) >>= λ result. ok (leaf_node result)
    add_node b (Resolved.keyword test) =
        add_predicate b (Resolved.keyword test) >>= λ result. ok (leaf_node result)

    pub add_nodes : B → Exprs Float → Compiled (B × Nodes)
    add_nodes b Resolved.nil = ok (b, nil)
    add_nodes b (Resolved.cons operand operands) = add_node b operand >>= λ (b', node).
        add_nodes b' operands >>= λ (b'', nodes). ok (b'', cons node nodes)
