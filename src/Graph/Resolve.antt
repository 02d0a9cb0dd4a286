-- ===== src/Graph/Resolve.antt =====
-- Which identifiers are one entity, crates/goliath-graph/src/resolve.rs: the evidence, the claims
-- that may join, and `resolve`. A set of identifiers is a list without repetition; where the source
-- goes through a map in the order of its keys and sorts the result, the model goes through it in
-- the order of insertion and sorts the result.
pub mod Rows
pub mod Partners
pub mod Sharing
pub mod Sorting
pub mod Claims
pub mod Entities
pub mod AliasRows
pub mod Outcome
use goliath_siem.Base.{
  ℕ, ◌+◌, ◌%◌, ◌^◌, Ordering, compare, Bool, true, false, not, ◌&&◌, ◌||◌, Option, none, some, List,
  [], ◌∷◌, ◌++◌, map, Text, text, text_eq, text_lt, if◌then◌else◌, ltb, leb, ◌==◌, length, get_or,
  keep, any,
}
use goliath_siem.Base.Int.{ℤ, pos, int_compare}
use goliath_siem.Graph.{
  Form, Identifier, same_identifier, kind_order, form_order, sid, uid, email, name, local, mac, ip,
  hash,
}
use goliath_siem.Graph.Ranks.{strength, is_weak, rank, to_text}
use goliath_siem.Graph.Groups.{Edge, Groups, Followed, find, follow, nothing_followed}

pub record Evidence : Type 0 where
  pub one : Identifier
  pub other : Identifier
  pub rule : Text
  pub events : ℕ
  pub first_seen : ℤ
  pub last_seen : ℤ

-- What people said, as `Said` holds it.
pub record Said : Type 0 where
  pub same : List (Identifier × Identifier × Text)
  pub different : List (Identifier × Identifier)

pub data Standing : Type 0 where
  member alias shared : Standing

pub record Resolved : Type 0 where
  pub identifier : Identifier
  pub entity : Identifier
  pub standing : Standing
  pub seen_with : Option Identifier
  pub rule : Text
  pub by : Option Text
  pub events : ℕ
  pub first_seen : ℤ
  pub last_seen : ℤ

pub record Summary : Type 0 where
  pub entities : ℕ
  pub members : ℕ
  pub aliases : ℕ
  pub shared : ℕ
  pub held_apart : ℕ

pub record Resolution : Type 0 where
  pub resolved : List Resolved
  pub summary : Summary

unfoldable pub is_one_of : List Identifier → Identifier → Bool
unfolding same_identifier
is_one_of xs x = any (λ y. same_identifier y x) xs

-- `BTreeSet::insert`.
unfoldable pub add_one : Identifier → List Identifier → List Identifier
unfolding is_one_of
add_one x xs = if is_one_of xs x then xs else x ∷ xs

-- The strong identifiers of a form that an identifier was claimed with.
unfoldable pub partner :
    Identifier → Form → Identifier → Identifier → List Identifier → List Identifier
unfolding strength same_identifier add_one
partner x f this that found =
    if not (is_weak (strength that))
      && same_identifier this x
      && form_order that.form == form_order f
    then add_one that found
    else found

unfoldable pub partners : Identifier → Form → List Evidence → List Identifier
unfolding partner
partners x f [] = []
partners x f (claim ∷ evidence) =
    partner x f claim.one claim.other (partner x f claim.other claim.one (partners x f evidence))

abbrev pub all_forms : List Form
all_forms = sid ∷ uid ∷ email ∷ name ∷ local ∷ mac ∷ ip ∷ hash ∷ []

unfoldable pub is_shared : List Evidence → ℕ → Identifier → Bool
unfolding partners
is_shared evidence over x = any (λ f. ltb over (length (partners x f evidence))) all_forms

-- The set that `shared` returns.
unfoldable pub shared_ones : List Evidence → ℕ → List Evidence → List Identifier
unfolding is_shared add_one
shared_ones evidence over [] = []
shared_ones evidence over (claim ∷ claims) =
    let rest = shared_ones evidence over claims in
    let with_other =
      if is_shared evidence over claim.other then add_one claim.other rest else rest in
    if is_shared evidence over claim.one then add_one claim.one with_other else with_other

unfoldable pub joins : List Evidence → ℕ → Identifier → Bool
unfolding strength is_shared
joins evidence over x = not (is_weak (strength x)) && not (is_shared evidence over x)

-- The derived order of identifiers.
unfoldable pub identifier_lt : Identifier → Identifier → Bool
unfolding text_lt
identifier_lt a b =
    if kind_order a.kind == kind_order b.kind
    then if form_order a.form == form_order b.form
      then text_lt a.value b.value
      else ltb (form_order a.form) (form_order b.form)
    else ltb (kind_order a.kind) (kind_order b.kind)

-- Whether the one claim is to be followed strictly before the other: the most seen first, then by
-- the identifiers and the rule.
unfoldable pub edge_lt : Edge → Edge → Bool
unfolding identifier_lt same_identifier text_lt
edge_lt a b =
    if a.events == b.events
    then if same_identifier a.one b.one
      then if same_identifier a.other b.other
        then text_lt a.rule b.rule
        else identifier_lt a.other b.other
      else identifier_lt a.one b.one
    else ltb b.events a.events

-- A stable sort, `sort_by`.
module _ {ℓ} {A : Type ℓ} (lt : A → A → Bool) where
  unfoldable pub insert_sorted : A → List A → List A
  insert_sorted x [] = x ∷ []
  insert_sorted x (y ∷ ys) =
      let rest = insert_sorted x ys in if lt y x then y ∷ rest else x ∷ y ∷ ys

  unfoldable pub sort_by : List A → List A
  unfolding insert_sorted
  sort_by [] = []
  sort_by (x ∷ xs) = insert_sorted x (sort_by xs)

unfoldable pub said_edge : Identifier × Identifier × Text → Edge
said_edge (a, b, by) = record {
  one = a;
  other = b;
  rule = text "said";
  by = some by;
  events = 0;
  first_seen = pos 0;
  last_seen = pos 0;
}

unfoldable pub claim_edge : Evidence → Edge
claim_edge claim = record {
  one = claim.one;
  other = claim.other;
  rule = claim.rule;
  by = none;
  events = claim.events;
  first_seen = claim.first_seen;
  last_seen = claim.last_seen;
}

unfoldable pub may_join : (Identifier → Bool) → Evidence → Bool
unfolding same_identifier
may_join joining claim =
    not (same_identifier claim.one claim.other) && joining claim.one && joining claim.other

unfoldable pub edges : List Evidence → Said → (Identifier → Bool) → List Edge
unfolding said_edge claim_edge may_join sort_by edge_lt
edges evidence said joining =
    map said_edge said.same ++ sort_by edge_lt (map claim_edge (keep (may_join joining) evidence))
