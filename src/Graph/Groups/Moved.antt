-- ===== src/Graph/Groups/Moved.antt =====
-- The groups once the members of one have moved to another, `Groups::join` of
-- crates/goliath-graph/src/resolve.rs.
use goliath_siem.Base.{
  ℕ, ◌<◌, ◌≡◌, ◌≢◌, sym, ap, ◌∙◌, inl, inr, some, List, [], ◌++◌, length, get_or, set, In,
  In-append_left, In-append_right, append-In, arith, length-append,
}
use goliath_siem.Base.Elems.{length-set, get_or-set_self, get_or-set_ne, In-of_eq}
use goliath_siem.Graph.{Identifier}
use goliath_siem.Graph.Groups.{Groups, index_of, move}
use goliath_siem.Graph.Groups.Forest.{up}
use goliath_siem.Graph.Groups.Well.{IsWell, total, total-set}
use goliath_siem.Graph.Groups.Move.{
  eq_or_ne, redirected, redirected_moved, redirected_kept, deepened, deepened_moved, deepened_kept,
  move-IsForest,
}

-- The members after a move.
module _ (members : List (List Identifier)) (from into : ℕ) (inside_from : from < length members)
    (inside_into : into < length members) (distinct : from ≢ into) where
  abbrev moved : List (List Identifier)
  moved = set (set members from []) into (get_or members into [] ++ get_or members from [])

  cleared_length : length (set members from []) ≡ length members
  cleared_length = length-set members from []

  pub length-moved : length moved ≡ length members
  length-moved = length-set (set members from []) into _ ∙ cleared_length

  pub moved_into : get_or moved into [] ≡ get_or members into [] ++ get_or members from []
  moved_into =
      let c = cleared_length in get_or-set_self (set members from []) into _ [] (omega arith)

  pub moved_from : get_or moved from [] ≡ []
  moved_from =
      get_or-set_ne (set members from []) into from _ [] (λ e. distinct (sym e))
      ∙ get_or-set_self members from [] [] inside_from

  pub moved_other : (r : ℕ) → r ≢ from → r ≢ into → get_or moved r [] ≡ get_or members r []
  moved_other r n m =
      get_or-set_ne (set members from []) into r _ [] (λ e. m (sym e))
      ∙ get_or-set_ne members from r [] [] (λ e. n (sym e))

  pub total-moved : total moved ≡ total members
  total-moved =
      let c = cleared_length in
      let a = total-set members from [] inside_from in
      let b =
        total-set (set members from []) into (get_or members into [] ++ get_or members from [])
          (omega arith) in
      let k =
        ap (λ (m : List Identifier). length m) (get_or-set_ne members from into [] [] distinct) in
      let l = length-append (get_or members into []) (get_or members from []) in omega arith

module _ {g : Groups} {top depth : ℕ → ℕ} (w : IsWell g top depth) (from into : ℕ)
    (inside_from : from < length g.parent) (inside_into : into < length g.parent)
    (up_from : up g.parent from ≡ from) (up_into : up g.parent into ≡ into)
    (distinct : from ≢ into) where
  abbrev in_from : from < length g.members
  in_from = let q = w.groups_length in omega arith

  abbrev in_into : into < length g.members
  in_into = let q = w.groups_length in omega arith

  top_of_from : top from ≡ from
  top_of_from = (w.forest.ends from inside_from up_from).0

  top_of_into : top into ≡ into
  top_of_into = (w.forest.ends into inside_into up_into).0

  members_into :
      get_or (move g from into).members into []
      ≡ get_or g.members into [] ++ get_or g.members from []
  members_into = moved_into g.members from into in_from in_into distinct

  -- An identifier stays in its group, wherever that is now.
  move-held :
      (x : Identifier) (i : ℕ)
      → In x (get_or g.members (top i) [])
      → In x (get_or (move g from into).members (redirected top from into i) [])
  move-held x i m =
      let new : ℕ → List Identifier = λ r. get_or (move g from into).members r [] in
      elim (eq_or_ne (top i) from) [
        | inl t ↦
            In-of_eq x _ _ (sym (ap new (redirected_moved top depth from into i t) ∙ members_into))
              (In-append_right x _ _ (In-of_eq x _ _ (ap (λ (r : ℕ). get_or g.members r []) t) m))
        | inr t ↦ elim (eq_or_ne (top i) into) [
          | inl z ↦
              In-of_eq x _ _
                (sym (ap new (redirected_kept top depth from into i t ∙ z) ∙ members_into))
                (In-append_left x _ _ (In-of_eq x _ _ (ap (λ (r : ℕ). get_or g.members r []) z) m))
          | inr z ↦
              In-of_eq x _ _
                (sym (
                  ap new (redirected_kept top depth from into i t)
                  ∙ moved_other g.members from into in_from in_into distinct (top i) t z))
                m
        ]
      ]

  -- Who is in a group after a move was in it, or in the one that moved.
  move-known :
      (x : Identifier) (r : ℕ)
      → In x (get_or (move g from into).members r [])
      → (i : ℕ) × (index_of x g.index ≡ some i) × (redirected top from into i ≡ r)
  move-known x r m =
      let new : ℕ → List Identifier = λ k. get_or (move g from into).members k [] in
      elim (eq_or_ne r from) [
        | inl e ↦
            let m' : In x (let q : List Identifier = [] in q) =
              In-of_eq x _ _ (ap new e ∙ moved_from g.members from into in_from in_into distinct)
                m in
            absurd m'.lower
        | inr n ↦ elim (eq_or_ne r into) [
          | inl e ↦ elim (append-In x _ _ (In-of_eq x _ _ (ap new e ∙ members_into) m)) [
            | inl a ↦
                let (i, q, t) = w.known x into a in
                (
                  i,
                  q,
                  redirected_kept top depth from into i (λ z. distinct (sym z ∙ t)) ∙ t ∙ sym e,
                )
            | inr b ↦
                let (i, q, t) = w.known x from b in
                (i, q, redirected_moved top depth from into i t ∙ sym e)
          ]
          | inr k ↦
              let (i, q, t) = w.known x r (
                In-of_eq x _ _ (moved_other g.members from into in_from in_into distinct r n k)
                  m) in
              (i, q, redirected_kept top depth from into i (λ z. n (sym t ∙ z)) ∙ t)
        ]
      ]

  pub move-IsWell : IsWell (move g from into) (redirected top from into) (deepened top depth from)
  move-IsWell =
      let len = length-set g.parent from into in
      let new : ℕ → List Identifier = λ k. get_or (move g from into).members k [] in
      let sizes = ap (λ (m : List Identifier). length m) members_into in
      let both = length-append (get_or g.members into []) (get_or g.members from []) in
      record {
        forest = move-IsForest w.forest from into inside_from inside_into up_from up_into distinct;
        groups_length =
            length-moved g.members from into in_from in_into distinct ∙ w.groups_length ∙ sym len;
        counted = total-moved g.members from into in_from in_into distinct ∙ w.counted ∙ sym len;
        shallow = λ i l.
            let s = w.shallow i (omega arith) in
            elim (eq_or_ne (top i) from) [
              | inl t ↦
                  let d = deepened_moved top depth from into i t in
                  let a =
                    ap (λ (m : List Identifier). length m)
                      (ap new (redirected_moved top depth from into i t)) in
                  let b = ap (λ (k : ℕ). length (get_or g.members k [])) t in
                  let c = w.shallow into inside_into in
                  let c' = ap (λ (k : ℕ). length (get_or g.members k [])) top_of_into in omega arith
              | inr t ↦
                  let d = deepened_kept top depth from into i t in
                  let a =
                    ap (λ (m : List Identifier). length m)
                      (ap new (redirected_kept top depth from into i t)) in
                  elim (eq_or_ne (top i) into) [
                    | inl z ↦
                        let b = ap (λ (k : ℕ). length (get_or g.members k [])) z in
                        let b' = ap (λ (m : List Identifier). length m) (ap new z) in omega arith
                    | inr z ↦
                        let b =
                          ap (λ (m : List Identifier). length m)
                            (moved_other g.members from into in_from in_into distinct (top i) t
                              z) in
                        omega arith
                  ]
            ];
        indexed = λ x i e. let k = w.indexed x i e in omega arith;
        known = move-known;
        held = λ x i e. move-held x i (w.held x i e);
      }
