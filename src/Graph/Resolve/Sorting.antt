-- ===== src/Graph/Resolve/Sorting.antt =====
-- Sorting keeps what it is given, and the claims to follow are those that may join, the most seen
-- first, `edges` of crates/goliath-graph/src/resolve.rs.
use goliath_siem.Base.{
  none, some, Text, text, false_of_not, ◌≤◌, ◌≡◌, ◌≢◌, ◌↔◌, refl, sym, ap, ◌⊎◌, inl, inr, subst,
  Bool, true, false, List, [], ◌∷◌, ◌++◌, map, if◌then◌else◌, ltb, ◌==◌, keep, In, arith,
  Bool-cases,
}
use goliath_siem.Base.Elems.{map-In, In-map, keep-In, In-keep}
use goliath_siem.Graph.{Identifier, same_identifier, same_identifier_iff}
use goliath_siem.Graph.Groups.{Edge}
use goliath_siem.Graph.Resolve.{
  Evidence, Said, edge_lt, insert_sorted, sort_by, said_edge, claim_edge, may_join, edges,
}

module _ {ℓ} {A : Type ℓ} (lt : A → A → Bool) where
  insert_sorted-In :
      (x : A) (ys : List A) (z : A) → In z (insert_sorted lt x ys) → (z ≡ x) ⊎ In z ys
  unfolding insert_sorted
  insert_sorted-In x [] z (inl e) = inl e
  insert_sorted-In x [] z (inr i) = inr i
  insert_sorted-In x (y ∷ ys) z i = elim (Bool-cases (lt y x)) [
    | inl t ↦
        elim (let i' : In z (y ∷ insert_sorted lt x ys) =
            subst (λ b. In z (if b then y ∷ insert_sorted lt x ys else x ∷ y ∷ ys)) t i in
          i') [
            | inl e ↦ inr (inl e)
            | inr j ↦ elim (insert_sorted-In x ys z j) [ inl e ↦ inl e | inr k ↦ inr (inr k) ]
          ]
    | inr t ↦
        let i' : In z (x ∷ y ∷ ys) =
          subst (λ b. In z (if b then y ∷ insert_sorted lt x ys else x ∷ y ∷ ys)) t i in
        i'
  ]

  In-insert_sorted :
      (x : A) (ys : List A) (z : A) → (z ≡ x) ⊎ In z ys → In z (insert_sorted lt x ys)
  unfolding insert_sorted
  In-insert_sorted x [] z h = h
  In-insert_sorted x (y ∷ ys) z h = elim (Bool-cases (lt y x)) [
    | inl t ↦ rw t (elim h [
      | inl e ↦ inr (In-insert_sorted x ys z (inl e))
      | inr i ↦ elim i [ inl e ↦ inl e | inr j ↦ inr (In-insert_sorted x ys z (inr j)) ]
    ])
    | inr t ↦ rw t h
  ]

  pub sort_by-In : (xs : List A) (z : A) → In z (sort_by lt xs) → In z xs
  unfolding sort_by
  sort_by-In [] z i = i
  sort_by-In (x ∷ xs) z i = elim (insert_sorted-In x (sort_by lt xs) z i) [
    | inl e ↦ inl e
    | inr j ↦ inr (sort_by-In xs z j)
  ]

  pub In-sort_by : (xs : List A) (z : A) → In z xs → In z (sort_by lt xs)
  unfolding sort_by
  In-sort_by [] z i = i
  In-sort_by (x ∷ xs) z (inl e) = In-insert_sorted x (sort_by lt xs) z (inl e)
  In-sort_by (x ∷ xs) z (inr i) = In-insert_sorted x (sort_by lt xs) z (inr (In-sort_by xs z i))

-- The most seen first.
abbrev pub IsMostSeenFirst : List Edge → Type 0
IsMostSeenFirst [] = Unit {0}
IsMostSeenFirst (e ∷ es) = ((z : Edge) → In z es → z.events ≤ e.events) × IsMostSeenFirst es

edge_lt_events : (a b : Edge) → edge_lt a b ≡ true → b.events ≤ a.events
unfolding edge_lt
edge_lt_events a b h = elim (Bool-cases (a.events == b.events)) [
  | inl e ↦ ground arith
  | inr e ↦ let q : ltb b.events a.events ≡ true = (rw e at h) in ground arith
]

edge_lt_not : (a b : Edge) → edge_lt a b ≡ false → a.events ≤ b.events
unfolding edge_lt
edge_lt_not a b h = elim (Bool-cases (a.events == b.events)) [
  | inl e ↦ ground arith
  | inr e ↦ let q : ltb b.events a.events ≡ false = (rw e at h) in ground arith
]

insert_sorted-IsMostSeenFirst :
    (e : Edge) (es : List Edge) → IsMostSeenFirst es → IsMostSeenFirst (insert_sorted edge_lt e es)
unfolding insert_sorted
insert_sorted-IsMostSeenFirst e [] h = (λ z i. absurd i.lower, tt)
insert_sorted-IsMostSeenFirst e (d ∷ es) h = elim (Bool-cases (edge_lt d e)) [
  | inl t ↦ rw t (
    λ z i. elim (insert_sorted-In edge_lt e es z i) [
      | inl q ↦ let l = edge_lt_events d e t in let w = ap (λ (x : Edge). x.events) q in omega arith
      | inr j ↦ h.0 z j
    ],
    insert_sorted-IsMostSeenFirst e es h.1,
  )
  | inr t ↦ rw t (
    λ z i.
        let l = edge_lt_not d e t in
        elim i [
          | inl q ↦ let w = ap (λ (x : Edge). x.events) q in omega arith
          | inr j ↦ let w = h.0 z j in omega arith
        ],
    h,
  )
]

sort_by-IsMostSeenFirst : (es : List Edge) → IsMostSeenFirst (sort_by edge_lt es)
unfolding sort_by
sort_by-IsMostSeenFirst [] = tt
sort_by-IsMostSeenFirst (e ∷ es) =
    insert_sorted-IsMostSeenFirst e (sort_by edge_lt es) (sort_by-IsMostSeenFirst es)

-- The claims of what people decided: of each its two identifiers and who said so, in their order,
-- seen by no event.
abbrev pub AreSaid : List (Identifier × Identifier × Text) → List Edge → Type 0
AreSaid [] [] = Unit {0}
AreSaid [] (e ∷ es) = ⊥
AreSaid (d ∷ ds) [] = ⊥
AreSaid ((a, b, who) ∷ ds) (e ∷ es) =
    ((e.one ≡ a) × (e.other ≡ b) × (e.by ≡ some who) × (e.rule ≡ text "said") × (e.events ≡ 0))
    × AreSaid ds es

-- The claim is of what was seen: its identifiers, its rule, how often and when, said by nobody.
pub record IsOf (c : Evidence) (e : Edge) : Type 0 where
  pub one : e.one ≡ c.one
  pub other : e.other ≡ c.other
  pub rule : e.rule ≡ c.rule
  pub by : e.by ≡ none
  pub events : e.events ≡ c.events
  pub first_seen : e.first_seen ≡ c.first_seen
  pub last_seen : e.last_seen ≡ c.last_seen

said-AreSaid :
    (decisions : List (Identifier × Identifier × Text))
    → AreSaid decisions (map said_edge decisions)
unfolding said_edge
said-AreSaid [] = tt
said-AreSaid ((a, b, who) ∷ decisions) = ((refl, refl, refl, refl, refl), said-AreSaid decisions)

pub claim_edge-IsOf : (c : Evidence) (e : Edge) → e ≡ claim_edge c → IsOf c e
unfolding claim_edge
claim_edge-IsOf c e q = record {
  one = ap (λ (x : Edge). x.one) q;
  other = ap (λ (x : Edge). x.other) q;
  rule = ap (λ (x : Edge). x.rule) q;
  by = ap (λ (x : Edge). x.by) q;
  events = ap (λ (x : Edge). x.events) q;
  first_seen = ap (λ (x : Edge). x.first_seen) q;
  last_seen = ap (λ (x : Edge). x.last_seen) q;
}

IsOf-claim_edge : (c : Evidence) (e : Edge) → IsOf c e → e ≡ claim_edge c
unfolding claim_edge
IsOf-claim_edge c e h = λ i. record {
  one = h.one i;
  other = h.other i;
  rule = h.rule i;
  by = h.by i;
  events = h.events i;
  first_seen = h.first_seen i;
  last_seen = h.last_seen i;
}

different_ones : (a b : Identifier) → a ≢ b → same_identifier a b ≡ false
different_ones a b n = false_of_not _ (λ t. n ((same_identifier_iff a b).0 t))

-- The claims to follow are one for each decision that two identifiers are one, with its
-- identifiers and who said so, in their order, and behind them exactly the claims of two different
-- identifiers that both join, with all that was seen of them, the most seen first.
pub edges_lem :
    (evidence : List Evidence) (said : Said) (joining : Identifier → Bool)
    → (decided : List Edge) × (claims : List Edge) × (edges evidence said joining
        ≡ decided ++ claims)
      × AreSaid said.same decided
      × IsMostSeenFirst claims
      × ((e : Edge)
          → In e claims ↔ (
              (c : Evidence) × In c evidence
              × IsOf c e
              × (c.one ≢ c.other)
              × (joining c.one ≡ true)
              × (joining c.other ≡ true)))
unfolding edges may_join
edges_lem evidence said joining =
    let kept = keep (may_join joining) evidence in
    (
      map said_edge said.same,
      sort_by edge_lt (map claim_edge kept),
      refl,
      said-AreSaid said.same,
      sort_by-IsMostSeenFirst (map claim_edge kept),
      λ e. (
        λ i.
            let (c, j, q) =
              map-In claim_edge kept e (sort_by-In edge_lt (map claim_edge kept) e i) in
            let (k, h) = keep-In (may_join joining) evidence c j in
            (
              c,
              k,
              claim_edge-IsOf c e q,
              λ z. let t = (same_identifier_iff c.one c.other).1 z in ground arith,
              ground arith,
              ground arith,
            ),
        λ x.
            let (c, k, q, n, a, b) = x in
            let s = different_ones c.one c.other n in
            let h : may_join joining c ≡ true = ground arith in
            In-sort_by edge_lt (map claim_edge kept) e (
              subst (λ z. In z (map claim_edge kept)) (sym (IsOf-claim_edge c e q))
                (In-map claim_edge kept c (In-keep (may_join joining) evidence c k h))),
      ),
    )
