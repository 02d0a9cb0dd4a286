-- ===== src/Graph/Groups/Following.antt =====
-- What following the claims comes to, `resolve` of crates/goliath-graph/src/resolve.rs: who is
-- together, and why.
use goliath_siem.Base.{
  ℕ, ◌≡◌, ◌≢◌, refl, sym, ap, ◌∙◌, ◌⊎◌, inl, inr, List, [], ◌∷◌, get_or, In, arith, subst,
}
use goliath_siem.Graph.{Identifier}
use goliath_siem.Graph.Groups.{
  Edge, Groups, Followed, follow_one, follow, no_groups, nothing_followed,
}
use goliath_siem.Graph.Groups.Well.{no_groups-IsWell}
use goliath_siem.Graph.Groups.Together.{Together, IsSound}
use goliath_siem.Graph.Groups.Round.{Connected, Settled, IsResolved, Round, follow_one-Round}

module _ (all : List Edge) (different : List (Identifier × Identifier)) where
  -- A claim stays settled as groups grow.
  Settled-grows :
      {g g' : Groups} (e : Edge)
      → ((x y : Identifier) → Together g x y → Together g' x y)
      → Settled different g e
      → Settled different g' e
  Settled-grows e f (inl t) = inl (f _ _ t)
  Settled-grows e f (inr (p, i, d)) = inr (
    p,
    i,
    record {
      divides = elim d.divides [
        | inl (a, b) ↦ inl (f _ _ a, f _ _ b)
        | inr (a, b) ↦ inr (f _ _ a, f _ _ b)
      ];
    },
  )

  pub record Outcome (g : Groups) (es : List Edge) (g' : Groups) : Type 0 where
    pub resolved : IsResolved all different g'
    pub grows : (x y : Identifier) → Together g x y → Together g' x y
    pub settled : (e : Edge) → In e es → Settled different g' e

  follow-Outcome :
      (es : List Edge) (s : Followed)
      → IsResolved all different s.groups
      → ((e : Edge) → In e es → In e all)
      → Outcome s.groups es (follow different es s).groups
  unfolding follow
  follow-Outcome [] s h i = record {
    resolved = h;
    grows = λ x y t. t;
    settled = λ e j. absurd j.lower;
  }
  follow-Outcome (e ∷ es) s h i =
      let a = follow_one-Round all different s e h (i e (inl refl)) in
      let b = follow-Outcome es (follow_one different e s) a.resolved (λ e' j. i e' (inr j)) in
      record {
        resolved = b.resolved;
        grows = λ x y t. b.grows x y (a.grows x y t);
        settled = λ e' j. settled_cases a b e' j;
      }
    where
      settled_cases :
          {g g' g'' : Groups} {e : Edge} {es : List Edge}
          → Round all different g g' e
          → Outcome g' es g''
          → (e' : Edge) → (e' ≡ e) ⊎ In e' es
          → Settled different g'' e'
      settled_cases {g'' = g''} {e = e} a b e' (inl q) =
          subst (Settled different g'') (sym q) (Settled-grows e b.grows a.settled)
      settled_cases a b e' (inr j) = b.settled e' j

nothing-IsResolved :
    (all : List Edge) (different : List (Identifier × Identifier))
    → IsResolved all different nothing_followed.groups
unfolding nothing_followed no_groups
nothing-IsResolved all different = record {
  sound = (_, _, unfold no_groups in no_groups-IsWell);
  because = λ x y t. absurd t.1.lower;
  held_apart = λ p i n t. absurd t.1.lower;
}

-- An identifier is in one group at most.
one_group :
    (g : Groups) (x : Identifier) (r r' : ℕ)
    → IsSound g
    → In x (get_or g.members r [])
    → In x (get_or g.members r' [])
    → r ≡ r'
one_group g x r r' (top, depth, w) a b =
    let (i, e, t) = w.known x r a in
    let (j, f, u) = w.known x r' b in let q : i ≡ j = ground arith in sym t ∙ ap top q ∙ u

-- Following claims from no groups: each identifier is in one group at most; the identifiers of a group are connected by claims; no two that
-- a person said are different are in one group; and each claim has joined its two identifiers, but
-- where a pair that a person said is different stands across their groups.
pub follow_lem :
    (different : List (Identifier × Identifier)) (es : List Edge)
    → let g = (follow different es nothing_followed).groups in
      ((x : Identifier) (r r' : ℕ)
        → In x (get_or g.members r [])
        → In x (get_or g.members r' [])
        → r ≡ r')
      × ((x y : Identifier) → Together g x y → Connected es x y)
      × ((p : Identifier × Identifier) → In p different → p.0 ≢ p.1 → ¬ Together g p.0 p.1)
      × ((e : Edge) → In e es → Settled different g e)
follow_lem different es =
    let o =
      follow-Outcome es different es nothing_followed (nothing-IsResolved es different)
        (λ e i. i) in
    let g = (follow different es nothing_followed).groups in
    (
      λ x r r' a b. one_group g x r r' o.resolved.sound a b,
      o.resolved.because,
      o.resolved.held_apart,
      o.settled,
    )
