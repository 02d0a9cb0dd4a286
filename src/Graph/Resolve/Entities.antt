-- ===== src/Graph/Resolve/Entities.antt =====
-- The members that a resolution lists are the groups, each under its strongest identifier,
-- `resolve` of crates/goliath-graph/src/resolve.rs.
use goliath_siem.Base.{
  ℕ, zero, suc, ◌≤◌, ◌≡◌, ◌≢◌, refl, sym, ap, ◌∙◌, ◌⊎◌, inl, inr, subst, Bool, true, false, Option,
  none, List, [], ◌∷◌, map, if◌then◌else◌, ltb, ◌==◌, length, get_or, In, In-append_left,
  In-append_right, append-In, arith, Bool-cases, Option-cases,
}
use goliath_siem.Base.Elems.{map-In, In-map}
use goliath_siem.Graph.{Identifier, same_identifier}
use goliath_siem.Graph.Ranks.{rank}
use goliath_siem.Graph.Groups.{Edge}
use goliath_siem.Graph.Resolve.{Resolved, member}
use goliath_siem.Graph.Resolve.Rows.{
  brought, name_lt, strongest, named, member_row, group_rows, member_rows,
}

first_le : (m n : ℕ) (b : Bool) → (if m == n then b else ltb m n) ≡ true → m ≤ n
first_le m n b h = ground arith

second_le : (m n : ℕ) (b : Bool) → (if m == n then b else ltb m n) ≡ false → n ≤ m
second_le m n b h = ground arith

-- A step of the search for the strongest keeps the one whose rank is not above the other's.
strongest_step :
    (x y : Identifier) (ys : List Identifier)
    → ((strongest x (y ∷ ys) ≡ strongest y ys) × (rank y ≤ rank x))
      ⊎ ((strongest x (y ∷ ys) ≡ strongest x ys) × (rank x ≤ rank y))
unfolding strongest name_lt
strongest_step x y ys = elim (Bool-cases (name_lt y x)) [
  | inl t ↦
      inl (ap (λ (b : Bool). strongest (if b then y else x) ys) t, first_le (rank y) (rank x) _ t)
  | inr t ↦
      inr (ap (λ (b : Bool). strongest (if b then y else x) ys) t, second_le (rank y) (rank x) _ t)
]

strongest-In : (x : Identifier) (xs : List Identifier) → In (strongest x xs) (x ∷ xs)
strongest-In x [] = unfold strongest in inl refl
strongest-In x (y ∷ ys) =
    let a = strongest-In y ys in
    let b = strongest-In x ys in
    elim (strongest_step x y ys) [
      | inl (e, _) ↦ subst (λ z. In z (x ∷ y ∷ ys)) (sym e) (inr a)
      | inr (e, _) ↦
          subst (λ z. In z (x ∷ y ∷ ys)) (sym e) (elim b [ inl q ↦ inl q | inr i ↦ inr (inr i) ])
    ]

strongest-le :
    (x : Identifier) (xs : List Identifier) (z : Identifier)
    → In z (x ∷ xs)
    → rank (strongest x xs) ≤ rank z
strongest-le x [] z (inl e) = let w = ap rank e in unfold strongest in omega arith
strongest-le x [] z (inr i) = absurd i.lower
strongest-le x (y ∷ ys) z i =
    let rest_y = strongest-le y ys in
    let rest_x = strongest-le x ys in
    elim (strongest_step x y ys) [
      | inl (e, l) ↦
          let w = ap rank e in
          let first = rest_y y (inl refl) in
          elim i [
            | inl q ↦ let v = ap rank q in omega arith
            | inr j ↦ let v = rest_y z j in omega arith
          ]
      | inr (e, l) ↦
          let w = ap rank e in
          let first = rest_x x (inl refl) in
          elim i [
            | inl q ↦ let v = ap rank q in omega arith
            | inr j ↦ elim j [
              | inl q ↦ let v = ap rank q in omega arith
              | inr k ↦ let v = rest_x z (inr k) in omega arith
            ]
          ]
    ]

pub member_row_fields :
    (joined : List Edge) (entity x : Identifier)
    → let r = member_row joined entity x in
      (r.identifier ≡ x) × (r.entity ≡ entity) × (r.standing ≡ member)
unfolding member_row
member_row_fields joined entity x =
    let through : Option Edge = if same_identifier x entity then none else brought joined x in
    elim (Option-cases through) [
      | inl e ↦ rw (e, member_row) (refl, refl, refl)
      | inr (d, e) ↦ rw (e, member_row) (refl, refl, refl)
    ]

-- The name of a group with members.
abbrev pub name_of : List Identifier → Identifier → Identifier
name_of [] d = d
name_of (x ∷ xs) d = strongest x xs

-- A row of a group is of one of its members, under its strongest.
pub group_rows-In :
    (joined : List Edge) (xs : List Identifier) (r : Resolved)
    → In r (group_rows joined xs)
    → In r.identifier xs
      × In r.entity xs
      × ((z : Identifier) → In z xs → rank r.entity ≤ rank z)
      × ((d : Identifier) → r.entity ≡ name_of xs d)
unfolding group_rows named
group_rows-In joined [] r i = absurd i.lower
group_rows-In joined (x ∷ xs) r i = elim (Bool-cases (ltb (length (x ∷ xs)) 2)) [
  | inl t ↦
      let i' : In r (let e : List Resolved = [] in e) =
        subst (λ b. In r (if b then [] else map (member_row joined (strongest x xs)) (x ∷ xs))) t
          i in
      absurd i'.lower
  | inr t ↦
      let i' : In r (map (member_row joined (strongest x xs)) (x ∷ xs)) =
        subst (λ b. In r (if b then [] else map (member_row joined (strongest x xs)) (x ∷ xs))) t
          i in
      let (y, j, e) = map-In (member_row joined (strongest x xs)) (x ∷ xs) r i' in
      let f = member_row_fields joined (strongest x xs) y in
      let who = ap (λ (q : Resolved). q.identifier) e ∙ f.0 in
      let what = ap (λ (q : Resolved). q.entity) e ∙ f.1 in
      (
        subst (λ z. In z (x ∷ xs)) (sym who) j,
        subst (λ z. In z (x ∷ xs)) (sym what) (strongest-In x xs),
        λ z k. let l = strongest-le x xs z k in let w = ap rank what in omega arith,
        λ d. what,
      )
]

two_members :
    (xs : List Identifier) (x y : Identifier)
    → In x xs
    → In y xs
    → x ≢ y
    → ltb (length xs) 2 ≡ false
two_members [] x y i j n = absurd i.lower
two_members (z ∷ []) x y (inl e) (inl f) n = absurd (n (e ∙ sym f))
two_members (z ∷ []) x y (inr i) j n = absurd i.lower
two_members (z ∷ []) x y (inl e) (inr j) n = absurd j.lower
two_members (z ∷ w ∷ xs) x y i j n = ground arith

pub In-group_rows :
    (joined : List Edge) (xs : List Identifier) (x y z : Identifier)
    → In x xs
    → In y xs
    → x ≢ y
    → In z xs
    → In (member_row joined (name_of xs x) z) (group_rows joined xs)
unfolding group_rows named
In-group_rows joined [] x y z i j n k = absurd i.lower
In-group_rows joined (w ∷ xs) x y z i j n k =
    rw (two_members (w ∷ xs) x y i j n) (In-map (member_row joined (strongest w xs)) (w ∷ xs) z k)

module _ (joined : List Edge) where
  pub member_rows-In :
      (groups : List (List Identifier)) (r : Resolved)
      → In r (member_rows joined groups)
      → (k : ℕ) × In r (group_rows joined (get_or groups k []))
  unfolding member_rows
  member_rows-In [] r i = absurd i.lower
  member_rows-In (xs ∷ groups) r i = elim (append-In r (group_rows joined xs) _ i) [
    | inl a ↦ (zero, a)
    | inr b ↦ let (k, c) = member_rows-In groups r b in (suc k, c)
  ]

  pub In-member_rows :
      (groups : List (List Identifier)) (k : ℕ) (r : Resolved)
      → In r (group_rows joined (get_or groups k []))
      → In r (member_rows joined groups)
  unfolding member_rows group_rows named
  In-member_rows [] k r i = absurd i.lower
  In-member_rows (xs ∷ groups) zero r i = In-append_left r (group_rows joined xs) _ i
  In-member_rows (xs ∷ groups) (suc k) r i =
      In-append_right r (group_rows joined xs) _ (In-member_rows groups k r i)
