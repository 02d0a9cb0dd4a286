-- ===== src/Graph/Resolve/Claims.antt =====
-- Which two identifiers are claimed to be one, `resolve` of crates/goliath-graph/src/resolve.rs, told
-- from the evidence and from what people said alone.
use goliath_siem.Base.{
  ℕ, ◌≡◌, ◌≢◌, refl, sym, subst, ap, ◌∙◌, ◌⊎◌, inl, inr, List, [], ◌∷◌, Text, In, In-append_left,
  In-append_right, append-In,
}
use goliath_siem.Graph.{Identifier, strong}
use goliath_siem.Graph.Ranks.{strength}
use goliath_siem.Graph.Groups.{Edge}
use goliath_siem.Graph.Groups.Round.{Connected, itself, claimed, back, through}
use goliath_siem.Graph.Resolve.{Evidence, Said, edges, joins, claim_edge}
use goliath_siem.Graph.Resolve.Sharing.{IsShared, joins_iff}
use goliath_siem.Graph.Resolve.Sorting.{AreSaid, claim_edge-IsOf, edges_lem}

module _ (evidence : List Evidence) (said : Said) (over : ℕ) where
  -- Events showed the one as the other, two different identifiers, both strong and not shared.
  pub record AreSeen (a b : Identifier) : Type 0 where
    pub claim : Evidence
    pub is_claim : In claim evidence
    pub one : claim.one ≡ a
    pub other : claim.other ≡ b
    pub differ : a ≢ b
    pub one_strong : strength a ≡ strong
    pub other_strong : strength b ≡ strong
    pub one_own : ¬ IsShared evidence over a
    pub other_own : ¬ IsShared evidence over b

  -- A person said that the two are one, or events showed it.
  abbrev pub IsClaim : Identifier → Identifier → Type 0
  IsClaim a b = ((who : Text) × In (a, b, who) said.same) ⊎ AreSeen a b

  -- Claims lead from the one identifier to the other.
  pub data AreLinked : Identifier → Identifier → Type 0 where
    linked_self : (x : Identifier) → AreLinked x x
    linked_claim : {x y : Identifier} → IsClaim x y → AreLinked x y
    linked_back : {x y : Identifier} → AreLinked x y → AreLinked y x
    linked_through : {x y z : Identifier} → AreLinked x y → AreLinked y z → AreLinked x z

  abbrev followed : List Edge
  followed = edges evidence said (joins evidence over)

  said-In :
      (ds : List (Identifier × Identifier × Text)) (es : List Edge)
      → AreSaid ds es
      → (e : Edge) → In e es
      → (who : Text) × In (e.one, e.other, who) ds
  said-In [] [] h e i = absurd i.lower
  said-In [] (e' ∷ es) h e i = absurd h
  said-In (d ∷ ds) [] h e i = absurd i.lower
  said-In ((a, b, who) ∷ ds) (e' ∷ es) ((one, other, _, _, _), h) e (inl q) =
      let p : (Edge.one e, Edge.other e, who) ≡ (a, b, who) = cc in (who, inl p)
  said-In (d ∷ ds) (e' ∷ es) (_, h) e (inr i) = let (who, j) = said-In ds es h e i in (who, inr j)

  In-said :
      (ds : List (Identifier × Identifier × Text)) (es : List Edge)
      → AreSaid ds es
      → (a b : Identifier) (who : Text) → In (a, b, who) ds
      → (e : Edge) × In e es × (e.one ≡ a) × (e.other ≡ b)
  In-said [] es h a b who i = absurd i.lower
  In-said (d ∷ ds) [] h a b who i = absurd h
  In-said ((a', b', who') ∷ ds) (e ∷ es) ((one, other, _, _, _), h) a b who (inl q) =
      (e, inl refl, cc, cc)
  In-said (d ∷ ds) (e ∷ es) (_, h) a b who (inr i) =
      let (e', j, p, q) = In-said ds es h a b who i in (e', inr j, p, q)

  -- What is followed are claims.
  pub followed-IsClaim : (e : Edge) → In e followed → IsClaim e.one e.other
  followed-IsClaim e i =
      let (decided, claims, same, said', _, iff) = edges_lem evidence said (joins evidence over) in
      elim (append-In e decided claims (subst (λ es. In e es) same i)) [
        | inl j ↦ inl (said-In said.same decided said' e j)
        | inr j ↦
            let (c, k, of, n, one, other) = (iff e).0 j in
            let (one_strong, one_own) = (joins_iff evidence over c.one).0 one in
            let (other_strong, other_own) = (joins_iff evidence over c.other).0 other in
            inr (record {
              claim = c;
              is_claim = k;
              one = sym of.one;
              other = sym of.other;
              differ = λ z. n cc;
              one_strong = ap strength of.one ∙ one_strong;
              other_strong = ap strength of.other ∙ other_strong;
              one_own = subst (λ z. ¬ IsShared evidence over z) (sym of.one) one_own;
              other_own = subst (λ z. ¬ IsShared evidence over z) (sym of.other) other_own;
            })
      ]

  -- Every claim is followed.
  pub IsClaim-followed :
      (a b : Identifier) → IsClaim a b → (e : Edge) × In e followed × (e.one ≡ a) × (e.other ≡ b)
  IsClaim-followed a b (inl (who, i)) =
      let (decided, claims, same, said', _, iff) = edges_lem evidence said (joins evidence over) in
      let (e, j, p, q) = In-said said.same decided said' a b who i in
      (e, subst (λ es. In e es) (sym same) (In-append_left e decided claims j), p, q)
  IsClaim-followed a b (inr s) =
      let (decided, claims, same, said', _, iff) = edges_lem evidence said (joins evidence over) in
      let c = s.claim in
      let of = claim_edge-IsOf c (claim_edge c) refl in
      let one = (joins_iff evidence over c.one).1 (
        ap strength s.one ∙ s.one_strong,
        subst (λ z. ¬ IsShared evidence over z) (sym s.one) s.one_own,
      ) in
      let other = (joins_iff evidence over c.other).1 (
        ap strength s.other ∙ s.other_strong,
        subst (λ z. ¬ IsShared evidence over z) (sym s.other) s.other_own,
      ) in
      let n : c.one ≢ c.other = λ z. s.differ (sym s.one ∙ z ∙ s.other) in
      let j = (iff (claim_edge c)).1 (c, s.is_claim, of, n, one, other) in
      (
        claim_edge c,
        subst (λ es. In (claim_edge c) es) (sym same)
            (In-append_right (claim_edge c) decided claims j),
        of.one ∙ s.one,
        of.other ∙ s.other,
      )

  pub Connected-AreLinked : (x y : Identifier) → Connected followed x y → AreLinked x y
  Connected-AreLinked x _ (itself _) = linked_self x
  Connected-AreLinked _ _ (claimed e i) = linked_claim (followed-IsClaim e i)
  Connected-AreLinked x y (back _ _ c) = linked_back (Connected-AreLinked y x c)
  Connected-AreLinked x z (through _ y _ c d) =
      linked_through (Connected-AreLinked x y c) (Connected-AreLinked y z d)
