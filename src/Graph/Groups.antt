-- ===== src/Graph/Groups.antt =====
-- Identifiers in groups that only grow, crates/goliath-graph/src/resolve.rs: the union-find
-- `Groups`, and the loop of `resolve` that follows the claims. An index out of range, at which the
-- source would panic, reads a default: the children show that there is none.
pub mod Forest
pub mod Well
pub mod Grown
pub mod Insert
pub mod Move
pub mod Moved
pub mod Together
pub mod Joining
pub mod Round
pub mod Following
use goliath_siem.Base.{
  ℕ, zero, suc, ◌+◌, Bool, true, false, not, ◌&&◌, ◌||◌, Option, none, some, List, [], ◌∷◌, ◌++◌,
  Text, if◌then◌else◌, ltb, ◌==◌, length, get_or, set, any,
}
use goliath_siem.Base.Int.{ℤ}
use goliath_siem.Graph.{Identifier, same_identifier}

-- A claim that may join two identifiers.
pub record Edge : Type 0 where
  pub one : Identifier
  pub other : Identifier
  pub rule : Text
  pub by : Option Text
  pub events : ℕ
  pub first_seen : ℤ
  pub last_seen : ℤ

pub record Groups : Type 0 where
  pub index : List (Identifier × ℕ)
  pub parent : List ℕ
  pub members : List (List Identifier)

unfoldable pub no_groups : Groups
no_groups = record { index = []; parent = []; members = [] }

unfoldable pub index_of : Identifier → List (Identifier × ℕ) → Option ℕ
unfolding same_identifier
index_of x [] = none
index_of x ((y, i) ∷ m) = if same_identifier y x then some i else index_of x m

-- The loop of `root` with the parents it leaves; each step halves the path.
unfoldable pub root_loop : ℕ → List ℕ → ℕ → List ℕ × ℕ
root_loop zero parent at = (parent, at)
root_loop (suc fuel) parent at =
    let up = get_or parent at at in
    let above = get_or parent up up in
    let rest = root_loop fuel (set parent at above) above in if up == at then (parent, at) else rest

unfoldable pub root : Groups → ℕ → Groups × ℕ
unfolding root_loop
root g at =
    let (parent, r) = root_loop (length g.parent) g.parent at in (record g { parent = parent }, r)

-- A new identifier with a group of its own.
unfoldable pub insert_new : Groups → Identifier → Groups
insert_new g x = record {
  index = (x, length g.parent) ∷ g.index;
  parent = g.parent ++ length g.parent ∷ [];
  members = g.members ++ (x ∷ []) ∷ [];
}

-- `Groups::of`.
unfoldable pub group_of : Groups → Identifier → Groups × ℕ
unfolding root index_of insert_new
group_of g x = elim (index_of x g.index) [
  | some i ↦ root g i
  | none ↦ root (insert_new g x) (length g.parent)
]

unfoldable pub find : Groups → Identifier → Groups × Option ℕ
unfolding root index_of
find g x = elim (index_of x g.index) [
  | some i ↦ let (g', r) = root g i in (g', some r)
  | none ↦ (g, none)
]

unfoldable pub holds : Groups → ℕ → Identifier → Bool
unfolding same_identifier
holds g group x = any (λ y. same_identifier y x) (get_or g.members group [])

abbrev pub is_empty {ℓ} : {A : Type ℓ} → List A → Bool
is_empty [] = true
is_empty (x ∷ xs) = false

-- Whether a person said that something in the one is different from something in the other.
unfoldable pub apart : Groups → ℕ → ℕ → List (Identifier × Identifier) → Bool
unfolding holds
apart g one other different =
    not (is_empty different)
    && any (λ p. (holds g one p.0 && holds g other p.1) || (holds g one p.1 && holds g other p.0))
        different

abbrev pub move : Groups → ℕ → ℕ → Groups
move g from into = record g {
  parent = set g.parent from into;
  members = set (set g.members from []) into (get_or g.members into [] ++ get_or g.members from []);
}

-- The smaller into the larger.
unfoldable pub join : Groups → ℕ → ℕ → Groups
join g one other =
    if ltb (length (get_or g.members one [])) (length (get_or g.members other []))
    then move g one other
    else move g other one

pub record Followed : Type 0 where
  pub groups : Groups
  pub joined : List Edge
  pub held_apart : ℕ

-- A round of the loop of `resolve` over the claims.
unfoldable pub follow_one : List (Identifier × Identifier) → Edge → Followed → Followed
unfolding group_of apart join
follow_one different e s =
    let (g, one) = group_of s.groups e.one in
    let (g', other) = group_of g e.other in
    if one == other
    then record s { groups = g' }
    else if apart g' one other different
    then record s { groups = g'; held_apart = s.held_apart + 1 }
    else record s { groups = join g' one other; joined = s.joined ++ e ∷ [] }

unfoldable pub follow : List (Identifier × Identifier) → List Edge → Followed → Followed
unfolding follow_one
follow different [] s = s
follow different (e ∷ es) s = follow different es (follow_one different e s)

unfoldable pub nothing_followed : Followed
unfolding no_groups
nothing_followed = record { groups = no_groups; joined = []; held_apart = 0 }
