-- ===== src/Graph/Resolve/Outcome.antt =====
-- What a resolution says of the evidence and of what people said, `resolve` of
-- crates/goliath-graph/src/resolve.rs.
use goliath_siem.Base.{
  ℕ, ◌≤◌, ◌≡◌, ◌≢◌, sym, ap, ◌∙◌, ◌⊎◌, inl, inr, subst, List, [], ◌++◌, map, get_or, In,
  In-append_left, append-In, arith, Bool-cases,
}
use goliath_siem.Base.Elems.{map-In}
use goliath_siem.Graph.{Identifier, same_identifier, same_identifier_iff}
use goliath_siem.Graph.Ranks.{rank}
use goliath_siem.Graph.Groups.{Edge, Followed, follow, nothing_followed}
use goliath_siem.Graph.Groups.Together.{Together}
use goliath_siem.Graph.Groups.Following.{follow_lem}
use goliath_siem.Graph.Resolve.{
  Evidence, Said, Resolved, Resolution, member, shared, joins, shared_ones, edges,
}
use goliath_siem.Graph.Resolve.Rows.{member_row, member_rows, shared_row, aliases, row_lt, resolve}
use goliath_siem.Graph.Resolve.Sorting.{sort_by-In, In-sort_by}
use goliath_siem.Graph.Resolve.Claims.{
  IsClaim, AreLinked, linked_self, IsClaim-followed, Connected-AreLinked,
}
use goliath_siem.Graph.Resolve.AliasRows.{aliases-AreAliases}
use goliath_siem.Graph.Resolve.Entities.{
  member_row_fields, group_rows-In, In-group_rows, member_rows-In, In-member_rows, name_of,
}

-- A resolution lists the identifier as a member of the entity.
abbrev pub Lists : Resolution → Identifier → Identifier → Type 0
Lists res x entity =
    (r : Resolved) × In r res.resolved
    × (r.standing ≡ member)
    × (r.identifier ≡ x)
    × (r.entity ≡ entity)

-- It gives the two identifiers one entity; an identifier it does not list is one of its own.
abbrev pub AreOne : Resolution → Identifier → Identifier → Type 0
AreOne res x y = (x ≡ y) ⊎ ((entity : Identifier) × Lists res x entity × Lists res y entity)

module _ (evidence : List Evidence) (said : Said) (over : ℕ) where
  abbrev to_follow : List Edge
  to_follow = edges evidence said (joins evidence over)

  abbrev outcome : Followed
  outcome = follow said.different to_follow nothing_followed

  abbrev aliased : List Resolved
  aliased = (aliases (joins evidence over) evidence (outcome.groups, [])).1

  abbrev apart_rows : List Resolved
  apart_rows = map shared_row (shared_ones evidence over evidence)

  -- The groups are what is listed.
  listed-Together :
      (x entity : Identifier)
      → Lists (resolve evidence said over) x entity
      → (k : ℕ) × In x (get_or outcome.groups.members k [])
        × In entity (get_or outcome.groups.members k [])
        × ((z : Identifier) → In z (get_or outcome.groups.members k []) → rank entity ≤ rank z)
        × ((d : Identifier) → entity ≡ name_of (get_or outcome.groups.members k []) d)
  unfolding resolve
  listed-Together x entity (r, i, standing, who, what) =
      let rows = member_rows outcome.joined outcome.groups.members in
      let j = sort_by-In row_lt (rows ++ (apart_rows ++ aliased)) r i in
      elim (append-In r rows (apart_rows ++ aliased) j) [
        | inl a ↦
            let (k, b) = member_rows-In outcome.joined outcome.groups.members r a in
            let (c, d, e, f) = group_rows-In outcome.joined _ r b in
            (
              k,
              subst (λ z. In z (get_or outcome.groups.members k [])) who c,
              subst (λ z. In z (get_or outcome.groups.members k [])) what d,
              λ z m. let w = ap rank what in let l = e z m in omega arith,
              λ y. sym what ∙ f y,
            )
        | inr b ↦ absurd (elim (append-In r apart_rows aliased b) [
          | inl c ↦
              let (y, _, e) = map-In shared_row (shared_ones evidence over evidence) r c in
              let q : r.standing ≡ shared =
                unfold shared_row in ap (λ (p : Resolved). p.standing) e in
              cc
          | inr d ↦
              let q =
                aliases-AreAliases (joins evidence over) evidence (outcome.groups, [])
                  (λ r' m. absurd m.lower) r d in
              cc
        ])
      ]

  Together-listed :
      (x y : Identifier)
      → x ≢ y
      → Together outcome.groups x y
      → (entity : Identifier) × Lists (resolve evidence said over) x entity
        × Lists (resolve evidence said over) y entity
  unfolding resolve
  Together-listed x y n (k, a, b) =
      let xs = get_or outcome.groups.members k [] in
      let rows = member_rows outcome.joined outcome.groups.members in
      let entity : Identifier = name_of xs x in
      let list = λ (z : Identifier) (i : In z xs).
        In-sort_by row_lt (rows ++ (apart_rows ++ aliased)) (member_row outcome.joined entity z) (
          In-append_left (member_row outcome.joined entity z) rows _ (
            In-member_rows outcome.joined outcome.groups.members k _
              (In-group_rows outcome.joined xs x y z a b n i))) in
      let fx = member_row_fields outcome.joined entity x in
      let fy = member_row_fields outcome.joined entity y in
      (
        entity,
        (member_row outcome.joined entity x, list x a, fx.2, fx.0, fx.1),
        (member_row outcome.joined entity y, list y b, fy.2, fy.0, fy.1),
      )

  AreOne-Together :
      (x y : Identifier)
      → AreOne (resolve evidence said over) x y
      → (x ≡ y) ⊎ Together outcome.groups x y
  AreOne-Together x y (inl e) = inl e
  AreOne-Together x y (inr (entity, a, b)) =
      let (k, c, d, _, _) = listed-Together x entity a in
      let (l, e, f, _, _) = listed-Together y entity b in
      let same = (follow_lem said.different to_follow).0 entity l k f d in
      inr (k, c, subst (λ j. In y (get_or outcome.groups.members j [])) same e)

  Together-AreOne :
      (x y : Identifier) → Together outcome.groups x y → AreOne (resolve evidence said over) x y
  Together-AreOne x y t = elim (Bool-cases (same_identifier x y)) [
    | inl e ↦ inl ((same_identifier_iff x y).0 e)
    | inr e ↦ inr (Together-listed x y (λ q. let z = (same_identifier_iff x y).1 q in cc) t)
  ]

-- A pair that a person said is different stands between the entities of the two.
abbrev pub AreHeldApart : Said → Resolution → Identifier → Identifier → Type 0
AreHeldApart said res a b =
    (p : Identifier × Identifier) × In p said.different
    × ((AreOne res a p.0 × AreOne res b p.1) ⊎ (AreOne res a p.1 × AreOne res b p.0))

-- A claim of two identifiers is that a person said they are one, or that an event showed them as
-- one, where they are different, both strong and neither is shared. Identifiers that a resolution
-- makes one entity are linked by claims; no two identifiers that a person said are different are
-- one entity; and the two identifiers of every claim are one entity, but where a pair that a person
-- said is different stands between their entities.
pub resolve_lem :
    (evidence : List Evidence) (said : Said) (over : ℕ)
    → let res = resolve evidence said over in
      ((x y : Identifier) → AreOne res x y → AreLinked evidence said over x y)
      × ((p : Identifier × Identifier) → In p said.different → p.0 ≢ p.1 → ¬ AreOne res p.0 p.1)
      × ((a b : Identifier)
          → IsClaim evidence said over a b
          → AreOne res a b ⊎ AreHeldApart said res a b)
resolve_lem evidence said over =
    let f = follow_lem said.different (to_follow evidence said over) in
    let one = Together-AreOne evidence said over in
    (
      λ x y a. elim (AreOne-Together evidence said over x y a) [
        | inl e ↦ subst (AreLinked evidence said over x) e (linked_self x)
        | inr t ↦ Connected-AreLinked evidence said over x y (f.1 x y t)
      ],
      λ p i n a. elim (AreOne-Together evidence said over p.0 p.1 a) [
        | inl e ↦ n e
        | inr t ↦ f.2 p i n t
      ],
      λ a b claim.
          let (e, i, p, q) = IsClaim-followed evidence said over a b claim in
          let settled : AreOne (resolve evidence said over) e.one e.other
              ⊎ AreHeldApart said (resolve evidence said over) e.one e.other =
            elim (f.3 e i) [
              | inl t ↦ inl (one e.one e.other t)
              | inr (d, j, between) ↦ inr (
                d,
                j,
                elim between.divides [
                  | inl (u, v) ↦ inl (one e.one d.0 u, one e.other d.1 v)
                  | inr (u, v) ↦ inr (one e.one d.1 u, one e.other d.0 v)
                ],
              )
            ] in
          subst
            (λ z.
              AreOne (resolve evidence said over) a z
              ⊎ AreHeldApart said (resolve evidence said over) a z)
            q
            (subst
              (λ z.
                AreOne (resolve evidence said over) z e.other
                ⊎ AreHeldApart said (resolve evidence said over) z e.other)
              p settled),
    )

-- A resolution lists an identifier as a member of one entity only, whose name is one of its
-- identifiers and none of them ranks before.
pub resolve_names :
    (evidence : List Evidence) (said : Said) (over : ℕ) (x entity : Identifier)
    → let res = resolve evidence said over in
      Lists res x entity
      → AreOne res x entity
        × ((entity' : Identifier) → Lists res x entity' → entity' ≡ entity)
        × ((y : Identifier) → AreOne res x y → rank entity ≤ rank y)
resolve_names evidence said over x entity h =
    let o = outcome evidence said over in
    let one = (follow_lem said.different (to_follow evidence said over)).0 in
    let (k, c, d, low, name) = listed-Together evidence said over x entity h in
    (
      Together-AreOne evidence said over x entity (k, c, d),
      λ entity' h'.
          let (k', c', _, _, name') = listed-Together evidence said over x entity' h' in
          name' x
          ∙ ap (λ (j : ℕ). name_of (get_or o.groups.members j []) x) (one x k' k c' c)
          ∙ sym (name x),
      λ y a. elim (AreOne-Together evidence said over x y a) [
        | inl e ↦ let w = ap rank e in let l = low x c in omega arith
        | inr (j, c', t) ↦
            low y (subst (λ i. In y (get_or o.groups.members i [])) (one x j k c' c) t)
      ],
    )
