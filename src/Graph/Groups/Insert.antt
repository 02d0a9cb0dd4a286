-- ===== src/Graph/Groups/Insert.antt =====
-- A new identifier gets a group of its own, `Groups::of` of crates/goliath-graph/src/resolve.rs.
use goliath_siem.Base.{
  ℕ, ◌<◌, ◌≡◌, refl, sym, ap, ◌∙◌, ◌⊎◌, inl, inr, none, some, List, [], ◌∷◌, ◌++◌, length, get_or,
  In, arith, Bool-cases, length-append,
}
use goliath_siem.Base.Elems.{
  get_or-append_left, get_or-append_length, get_or-append_beyond, In-of_eq,
}
use goliath_siem.Graph.{Identifier, same_identifier, same_identifier_iff}
use goliath_siem.Graph.Groups.{Groups, index_of, insert_new}
use goliath_siem.Graph.Groups.Well.{IsWell, total, total-append}
use goliath_siem.Graph.Groups.Grown.{extended, extended_old, extended_new, split, insert-IsForest}

pub index_new :
    (x y : Identifier) (n : ℕ) (m : List (Identifier × ℕ)) {i : ℕ}
    → index_of y ((x, n) ∷ m) ≡ some i
    → ((x ≡ y) × (i ≡ n)) ⊎ (index_of y m ≡ some i)
unfolding index_of
index_new x y n m {i} e = elim (Bool-cases (same_identifier x y)) [
  | inl s ↦ inl ((same_identifier_iff x y).0 s, ground arith)
  | inr s ↦ inr (ground arith)
]

-- What was known before stays known.
pub index_kept :
    (x y : Identifier) (n : ℕ) (m : List (Identifier × ℕ)) {i : ℕ}
    → index_of x m ≡ none
    → index_of y m ≡ some i
    → index_of y ((x, n) ∷ m) ≡ some i
unfolding index_of
index_kept x y n m {i} f e = elim (Bool-cases (same_identifier x y)) [
  | inl s ↦
      let q = (same_identifier_iff x y).0 s in
      let f' : index_of y m ≡ none = ap (λ (z : Identifier). index_of z m) (sym q) ∙ f in absurd cc
  | inr s ↦ rw s e
]

pub index_self :
    (x : Identifier) (n : ℕ) (m : List (Identifier × ℕ)) → index_of x ((x, n) ∷ m) ≡ some n
unfolding index_of
index_self x n m = let s = (same_identifier_iff x x).1 refl in rw s refl

order_cases : (r n : ℕ) → (r < n) ⊎ ((r ≡ n) ⊎ (n < r))
order_cases r n = ground arith

known_new :
    {g : Groups} {top depth : ℕ → ℕ} (x y : Identifier) (r : ℕ)
    → IsWell g top depth
    → index_of x g.index ≡ none
    → In y (get_or (g.members ++ (x ∷ []) ∷ []) r [])
    → (i : ℕ) × (index_of y ((x, length g.parent) ∷ g.index) ≡ some i)
      × (extended (length g.parent) top (length g.parent) i ≡ r)
known_new {g} {top} x y r w f i =
    let n : ℕ = length g.parent in
    let gl = w.groups_length in
    let members' : ℕ → List Identifier = λ k. get_or (g.members ++ (x ∷ []) ∷ []) k [] in
    elim (order_cases r (length g.members)) [
      | inl l ↦
          let i' : In y (get_or g.members r []) =
            In-of_eq y _ _ (get_or-append_left g.members ((x ∷ []) ∷ []) r [] l) i in
          let (k, e, t) = w.known y r i' in
          (k, index_kept x y n g.index f e, extended_old n top n k (w.indexed y k e) ∙ t)
      | inr (inl q) ↦
          let i' : In y (x ∷ []) =
            In-of_eq y _ _ (ap members' q ∙ get_or-append_length g.members (x ∷ []) []) i in
          elim i' [
            | inl e ↦ (
              n,
              ap (λ (z : Identifier). index_of z ((x, n) ∷ g.index)) e ∙ index_self x n g.index,
              extended_new n top n ∙ sym gl ∙ sym q,
            )
            | inr z ↦ absurd z.lower
          ]
      | inr (inr l) ↦
          let i' : In y (let e : List Identifier = [] in e) =
            In-of_eq y _ _ (get_or-append_beyond g.members (x ∷ []) [] r l) i in
          absurd i'.lower
    ]

-- The members of a group, and of the new one, once it is added.
module _ {g : Groups} {top depth : ℕ → ℕ} (x : Identifier) (w : IsWell g top depth) where
  abbrev n : ℕ
  n = length g.parent

  abbrev members' : ℕ → List Identifier
  members' r = get_or (g.members ++ (x ∷ []) ∷ []) r []

  members_new : members' n ≡ x ∷ []
  members_new = ap members' (sym w.groups_length) ∙ get_or-append_length g.members (x ∷ []) []

  members_old : (i : ℕ) → i < n → members' (extended n top n i) ≡ get_or g.members (top i) []
  members_old i l =
      let gl = w.groups_length in
      let k = w.forest.top_inside i l in
      ap members' (extended_old n top n i l)
      ∙ get_or-append_left g.members ((x ∷ []) ∷ []) (top i) [] (omega arith)

  members_of_new : (i : ℕ) → i ≡ n → members' (extended n top n i) ≡ x ∷ []
  members_of_new i e = ap members' (ap (extended n top n) e ∙ extended_new n top n) ∙ members_new

  shallow_grown :
      (i : ℕ)
      → i < length (g.parent ++ n ∷ [])
      → extended n depth 0 i < length (members' (extended n top n i))
  shallow_grown i l = elim (split w.forest i l) [
    | inl k ↦
        let d = extended_old n depth 0 i k in
        let t = ap (λ (m : List Identifier). length m) (members_old i k) in
        let s = w.shallow i k in omega arith
    | inr e ↦
        let t = ap (λ (m : List Identifier). length m) (members_of_new i e) in
        let d = ap (extended n depth 0) e ∙ extended_new n depth 0 in omega arith
  ]

  held_grown :
      (y : Identifier) (i : ℕ)
      → index_of y ((x, n) ∷ g.index) ≡ some i
      → In y (members' (extended n top n i))
  held_grown y i e = elim (index_new x y n g.index e) [
    | inl (q, z) ↦ rw (members_of_new i z) (inl (sym q))
    | inr q ↦ rw (members_old i (w.indexed y i q)) (w.held y i q)
  ]

  pub insert_new-IsWell :
      index_of x g.index ≡ none → IsWell (insert_new g x) (extended n top n) (extended n depth 0)
  unfolding insert_new total
  insert_new-IsWell none_before =
      let gl = w.groups_length in
      let c = w.counted in
      let p = length-append g.parent (n ∷ []) in
      record {
        forest = insert-IsForest w.forest;
        groups_length = omega (arith, length-append g.members ((x ∷ []) ∷ []));
        counted = omega (arith, total-append g.members ((x ∷ []) ∷ []));
        shallow = shallow_grown;
        indexed = λ y i e. elim (index_new x y n g.index e) [
          | inl (_, q) ↦ omega arith
          | inr q ↦ let l = w.indexed y i q in omega arith
        ];
        known = λ y r i. known_new x y r w none_before i;
        held = held_grown;
      }
