-- ===== src/Graph/Resolve/Rows.antt =====
-- The rows of a resolution and how they are counted, `resolve` and `aliases` of
-- crates/goliath-graph/src/resolve.rs.
use goliath_siem.Base.{
  ℕ, ◌+◌, ◌%◌, ◌^◌, Ordering, Bool, not, ◌&&◌, ◌||◌, Option, none, some, List, [], ◌∷◌, ◌++◌, map,
  text_lt, if◌then◌else◌, ltb, ◌==◌, length, get_or,
}
use goliath_siem.Base.Int.{ℤ, pos, int_compare}
use goliath_siem.Graph.{Identifier, same_identifier}
use goliath_siem.Graph.Ranks.{strength, is_weak, rank, to_text}
use goliath_siem.Graph.Groups.{Edge, Groups, find, follow, nothing_followed}
use goliath_siem.Graph.Resolve.{
  Evidence, Said, Standing, member, alias, shared, Resolved, Resolution, shared_ones, joins,
  identifier_lt, sort_by, edges,
}

-- The first claim followed that names an identifier, `brought`.
unfoldable pub brought : List Edge → Identifier → Option Edge
unfolding same_identifier
brought [] x = none
brought (e ∷ joined) x =
    if same_identifier e.one x || same_identifier e.other x then some e else brought joined x

-- The order of `min_by_key`: by rank, then by the text.
unfoldable pub name_lt : Identifier → Identifier → Bool
unfolding rank to_text text_lt
name_lt a b = if rank a == rank b then text_lt (to_text a) (to_text b) else ltb (rank a) (rank b)

unfoldable pub strongest : Identifier → List Identifier → Identifier
unfolding name_lt
strongest x [] = x
strongest x (y ∷ ys) = strongest (if name_lt y x then y else x) ys

unfoldable pub named : List Identifier → Option Identifier
unfolding strongest
named [] = none
named (x ∷ xs) = some (strongest x xs)

abbrev pub other_end : Edge → Identifier → Identifier
other_end e x = if same_identifier e.one x then e.other else e.one

-- The row of a member of the entity that has this name.
unfoldable pub member_row : List Edge → Identifier → Identifier → Resolved
unfolding brought same_identifier
member_row joined entity x =
    let through : Option Edge = if same_identifier x entity then none else brought joined x in
    elim through [
      | none ↦ record {
        identifier = x;
        entity = entity;
        standing = member;
        seen_with = none;
        rule = [];
        by = none;
        events = 0;
        first_seen = pos 0;
        last_seen = pos 0;
      }
      | some e ↦ record {
        identifier = x;
        entity = entity;
        standing = member;
        seen_with = some (other_end e x);
        rule = e.rule;
        by = e.by;
        events = e.events;
        first_seen = e.first_seen;
        last_seen = e.last_seen;
      }
    ]

-- The rows of one group, none for a group of fewer than two.
unfoldable pub group_rows : List Edge → List Identifier → List Resolved
unfolding named member_row
group_rows joined xs = elim (named xs) [
  | none ↦ []
  | some entity ↦ if ltb (length xs) 2 then [] else map (member_row joined entity) xs
]

unfoldable pub member_rows : List Edge → List (List Identifier) → List Resolved
unfolding group_rows
member_rows joined [] = []
member_rows joined (xs ∷ groups) = group_rows joined xs ++ member_rows joined groups

-- How many groups are of more than one.
unfoldable pub count_entities : List (List Identifier) → ℕ
count_entities [] = 0
count_entities (xs ∷ groups) = (if ltb (length xs) 2 then 0 else 1) + count_entities groups

unfoldable pub shared_row : Identifier → Resolved
shared_row x = record {
  identifier = x;
  entity = x;
  standing = shared;
  seen_with = none;
  rule = [];
  by = none;
  events = 0;
  first_seen = pos 0;
  last_seen = pos 0;
}

-- The name of the entity that an identifier is in, if it is in any.
unfoldable pub entity_of : Groups → Identifier → Groups × Option Identifier
unfolding find named
entity_of g x =
    let (g', r) = find g x in
    (g', elim r [ none ↦ none | some group ↦ named (get_or g'.members group []) ])

abbrev pub earlier : ℤ → ℤ → ℤ
earlier a b = elim (int_compare a b) [ Ordering.gt ↦ b | _ ↦ a ]

abbrev pub later : ℤ → ℤ → ℤ
later a b = elim (int_compare a b) [ Ordering.gt ↦ a | _ ↦ b ]

-- An alias that there is counts the claim's events too; another is added.
unfoldable pub add_alias :
    (weak strong entity : Identifier) → Evidence → List Resolved → List Resolved
unfolding same_identifier int_compare
add_alias weak strong entity claim [] =
    record {
      identifier = weak;
      entity = entity;
      standing = alias;
      seen_with = some strong;
      rule = claim.rule;
      by = none;
      events = claim.events;
      first_seen = claim.first_seen;
      last_seen = claim.last_seen;
    }
    ∷ []
add_alias weak strong entity claim (r ∷ rows) =
    let rest = add_alias weak strong entity claim rows in
    if same_identifier r.identifier weak && same_identifier r.entity entity
    then record r {
      events = (r.events + claim.events) % 2 ^ 64;
      first_seen = earlier r.first_seen claim.first_seen;
      last_seen = later r.last_seen claim.last_seen;
    }
      ∷ rows
    else r ∷ rest

unfoldable pub alias_of :
    (Identifier → Bool)
    → Evidence
    → Identifier
    → Identifier
    → Groups × List Resolved
    → Groups × List Resolved
unfolding strength entity_of add_alias
alias_of joining claim weak strong (g, rows) =
    if not (is_weak (strength weak)) || not (joining strong)
    then (g, rows)
    else let (g', entity) = entity_of g strong in
      (g', add_alias weak strong (elim entity [ some e ↦ e | none ↦ strong ]) claim rows)

unfoldable pub aliases :
    (Identifier → Bool) → List Evidence → Groups × List Resolved → Groups × List Resolved
unfolding alias_of
aliases joining [] s = s
aliases joining (claim ∷ evidence) s =
    aliases joining evidence (
      alias_of joining claim claim.other claim.one (alias_of joining claim claim.one claim.other s))

abbrev pub standing_order : Standing → ℕ
standing_order member = 0
standing_order alias = 1
standing_order shared = 2

unfoldable pub row_lt : Resolved → Resolved → Bool
unfolding same_identifier identifier_lt
row_lt a b =
    if same_identifier a.entity b.entity
    then if standing_order a.standing == standing_order b.standing
      then identifier_lt a.identifier b.identifier
      else ltb (standing_order a.standing) (standing_order b.standing)
    else identifier_lt a.entity b.entity

unfoldable pub resolve : List Evidence → Said → ℕ → Resolution
unfolding follow nothing_followed edges joins shared_ones member_rows count_entities shared_row
    aliases sort_by row_lt
resolve evidence said over =
    let joining = joins evidence over in
    let f = follow said.different (edges evidence said joining) nothing_followed in
    let of_members = member_rows f.joined f.groups.members in
    let apart = shared_ones evidence over evidence in
    let (_, of_aliases) = aliases joining evidence (f.groups, []) in
    record {
      resolved = sort_by row_lt (of_members ++ (map shared_row apart ++ of_aliases));
      summary = record {
        entities = count_entities f.groups.members;
        members = length of_members;
        aliases = length of_aliases;
        shared = length apart;
        held_apart = f.held_apart;
      };
    }
