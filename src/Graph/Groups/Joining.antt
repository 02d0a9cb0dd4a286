-- ===== src/Graph/Groups/Joining.antt =====
-- Which groups are held apart and what a join does, crates/goliath-graph/src/resolve.rs.
use goliath_siem.Base.{
  ℕ, ◌≡◌, ◌≢◌, ◌↔◌, refl, sym, ap, ◌∙◌, ◌⊎◌, inl, inr, Bool, true, not, ◌&&◌, ◌||◌, List, [], ◌∷◌,
  if◌then◌else◌, ltb, ◌==◌, length, get_or, In, any, any-In, In-any, arith, Bool-cases, subst,
}
use goliath_siem.Base.Elems.{In-of_eq}
use goliath_siem.Graph.{Identifier, same_identifier, same_identifier_iff}
use goliath_siem.Graph.Groups.{Groups, holds, is_empty, apart, move, join}
use goliath_siem.Graph.Groups.Well.{IsWell}
use goliath_siem.Graph.Groups.Move.{
  eq_or_ne, redirected, redirected_moved, redirected_kept, deepened,
}
use goliath_siem.Graph.Groups.Moved.{move-IsWell}
use goliath_siem.Graph.Groups.Together.{Together, IsSound, IsTop}

pub holds_iff :
    (g : Groups) (r : ℕ) (x : Identifier) → (holds g r x ≡ true) ↔ In x (get_or g.members r [])
unfolding holds
holds_iff g r x = (
  λ h.
      let (y, i, e) = any-In (λ z. same_identifier z x) (get_or g.members r []) h in
      subst (λ z. In z (get_or g.members r [])) ((same_identifier_iff y x).0 e) i,
  λ i.
      In-any (λ z. same_identifier z x) (get_or g.members r []) i
        ((same_identifier_iff x x).1 refl),
)

-- One of the pair is in the one group, and the other in the other.
abbrev pub Across : Groups → ℕ → ℕ → Identifier × Identifier → Type 0
Across g one other p =
    (In p.0 (get_or g.members one []) × In p.1 (get_or g.members other []))
    ⊎ (In p.1 (get_or g.members one []) × In p.0 (get_or g.members other []))

across : Groups → ℕ → ℕ → Identifier × Identifier → Bool
across g one other p =
    (holds g one p.0 && holds g other p.1) || (holds g one p.1 && holds g other p.0)

across-Across :
    (g : Groups) (one other : ℕ) (p : Identifier × Identifier)
    → across g one other p ≡ true
    → Across g one other p
unfolding across
across-Across g one other p h = elim (Bool-cases (holds g one p.0 && holds g other p.1)) [
  | inl e ↦ inl ((holds_iff g one p.0).0 (ground arith), (holds_iff g other p.1).0 (ground arith))
  | inr e ↦ inr ((holds_iff g one p.1).0 (ground arith), (holds_iff g other p.0).0 (ground arith))
]

Across-across :
    (g : Groups) (one other : ℕ) (p : Identifier × Identifier)
    → Across g one other p
    → across g one other p ≡ true
unfolding across
Across-across g one other p (inl (a, b)) =
    let a' = (holds_iff g one p.0).1 a in let b' = (holds_iff g other p.1).1 b in ground arith
Across-across g one other p (inr (a, b)) =
    let a' = (holds_iff g one p.1).1 a in let b' = (holds_iff g other p.0).1 b in ground arith

module _ (g : Groups) (one other : ℕ) (different : List (Identifier × Identifier)) where
  pub apart-Across :
      apart g one other different ≡ true
      → (p : Identifier × Identifier) × In p different × Across g one other p
  unfolding apart across
  apart-Across h =
      let (p, i, e) = any-In (across g one other) different (ground arith) in
      (p, i, across-Across g one other p e)

  pub Across-apart :
      (p : Identifier × Identifier)
      → In p different
      → Across g one other p
      → apart g one other different ≡ true
  unfolding apart across
  Across-apart p i a =
      let e = In-any (across g one other) different i (Across-across g one other p a) in
      nonempty different p i (any (across g one other) different) e
    where
      nonempty :
          (d : List (Identifier × Identifier)) (p : Identifier × Identifier)
          → In p d
          → (b : Bool) → b ≡ true
          → (not (is_empty d) && b) ≡ true
      nonempty [] p i b e = absurd i.lower
      nonempty (x ∷ d) p i b e = e

-- What a join does to who is together.
pub record Joined (g : Groups) (one other : ℕ) (out : Groups) : Type 0 where
  pub sound : IsSound out
  pub kept : (y z : Identifier) → Together g y z → Together out y z
  pub across :
      (y z : Identifier)
      → In y (get_or g.members one [])
      → In z (get_or g.members other [])
      → Together out y z
  pub before : (y z : Identifier) → Together out y z → Together g y z ⊎ Across g one other (y, z)

module _ {g : Groups} {top depth : ℕ → ℕ} (w : IsWell g top depth) (from into : ℕ)
    (t : IsTop g from) (t' : IsTop g into) (distinct : from ≢ into) where
  abbrev moved : IsWell (move g from into) (redirected top from into) (deepened top depth from)
  moved = move-IsWell w from into t.0 t'.0 t.1 t'.1 distinct

  abbrev new_group : ℕ → ℕ
  new_group r = if r == from then into else r

  redirected_lem : (i r : ℕ) → top i ≡ r → redirected top from into i ≡ new_group r
  unfolding redirected
  redirected_lem i r e = ap new_group e

  stays :
      (y : Identifier) (r : ℕ)
      → In y (get_or g.members r [])
      → In y (get_or (move g from into).members (new_group r) [])
  stays y r m =
      let (i, e, q) = w.known y r m in
      In-of_eq y _ _ (ap (λ (k : ℕ). get_or (move g from into).members k []) (redirected_lem i r q))
        (moved.held y i e)

  came :
      (y : Identifier) (r : ℕ)
      → In y (get_or (move g from into).members r [])
      → In y (get_or g.members r []) ⊎ ((r ≡ into) × In y (get_or g.members from []))
  came y r m =
      let (i, e, q) = moved.known y r m in
      elim (eq_or_ne (top i) from) [
        | inl z ↦ inr (
          sym q ∙ redirected_moved top depth from into i z,
          In-of_eq y _ _ (ap (λ (k : ℕ). get_or g.members k []) z) (w.held y i e),
        )
        | inr z ↦ inl (
            In-of_eq y _ _
              (ap (λ (k : ℕ). get_or g.members k [])
                (sym (redirected_kept top depth from into i z) ∙ q))
              (w.held y i e))
      ]

  move-before :
      (y z : Identifier)
      → Together (move g from into) y z
      → Together g y z ⊎ Across g from into (y, z)
  move-before y z (r, a, b) = elim (came y r a) [
    | inl c ↦ elim (came z r b) [
      | inl d ↦ inl (r, c, d)
      | inr (e, d) ↦ inr (inr (d, In-of_eq y _ _ (ap (λ (k : ℕ). get_or g.members k []) e) c))
    ]
    | inr (e, c) ↦ elim (came z r b) [
      | inl d ↦ inr (inl (c, In-of_eq z _ _ (ap (λ (k : ℕ). get_or g.members k []) e) d))
      | inr (_, d) ↦ inl (from, c, d)
    ]
  ]

  into_itself : new_group into ≡ into
  into_itself = ground arith

  from_into : new_group from ≡ into
  from_into = ground arith

  move-across :
      (y z : Identifier)
      → In y (get_or g.members from [])
      → In z (get_or g.members into [])
      → Together (move g from into) y z
  move-across y z a b = (
    into,
    In-of_eq y _ _ (ap (λ (k : ℕ). get_or (move g from into).members k []) from_into)
        (stays y from a),
    In-of_eq z _ _ (ap (λ (k : ℕ). get_or (move g from into).members k []) into_itself)
        (stays z into b),
  )

  move-Joined : Joined g from into (move g from into)
  move-Joined = record {
    sound = (_, _, moved);
    kept = λ y z h. (new_group h.0, stays y h.0 h.1, stays z h.0 h.2);
    across = move-across;
    before = move-before;
  }

Joined-swap :
    {g : Groups} {one other : ℕ} {out : Groups} → Joined g one other out → Joined g other one out
Joined-swap j = record {
  sound = j.sound;
  kept = j.kept;
  across = λ y z a b. let (r, c, d) = j.across z y b a in (r, d, c);
  before = λ y z h. elim (j.before y z h) [
    | inl b ↦ inl b
    | inr (inl (a, b)) ↦ inr (inr (b, a))
    | inr (inr (a, b)) ↦ inr (inl (b, a))
  ];
}

pub join-Joined :
    (g : Groups) (one other : ℕ)
    → IsSound g
    → IsTop g one
    → IsTop g other
    → one ≢ other
    → Joined g one other (join g one other)
unfolding join
join-Joined g one other (top, depth, w) t t' n =
    elim (Bool-cases
      (ltb (length (get_or g.members one [])) (length (get_or g.members other [])))) [
        | inl e ↦ rw e (move-Joined w one other t t' n)
        | inr e ↦ rw e (Joined-swap (move-Joined w other one t' t (λ q. n (sym q))))
      ]
