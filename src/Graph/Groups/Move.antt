-- ===== src/Graph/Groups/Move.antt =====
-- The forest with one tree put under the top of another, `Groups::join` of
-- crates/goliath-graph/src/resolve.rs.
use goliath_siem.Base.{
  ℕ, ◌+◌, ◌<◌, ◌≡◌, ◌≢◌, sym, ap, ◌∙◌, ◌⊎◌, inl, inr, List, if◌then◌else◌, ◌==◌, length, set, arith,
  Bool-cases, ==_iff,
}
use goliath_siem.Base.Elems.{length-set, get_or-set_self, get_or-set_ne}
use goliath_siem.Graph.Groups.Forest.{IsForest, up}

pub eq_or_ne : (i j : ℕ) → (i ≡ j) ⊎ (i ≢ j)
eq_or_ne i j = elim (Bool-cases (i == j)) [
  | inl e ↦ inl ((==_iff i j).0 e)
  | inr e ↦ inr (λ q. let z = (==_iff i j).1 q in cc)
]

-- What stands for an index once the tree of the one is under the other.
unfoldable pub redirected : (top : ℕ → ℕ) (from into : ℕ) → ℕ → ℕ
redirected top from into i = if top i == from then into else top i

pub deepened : (top depth : ℕ → ℕ) (from : ℕ) → ℕ → ℕ
deepened top depth from i = if top i == from then depth i + 1 else depth i

module _ (top depth : ℕ → ℕ) (from into i : ℕ) where
  pub redirected_moved : top i ≡ from → redirected top from into i ≡ into
  unfolding redirected
  redirected_moved e = ground arith

  pub redirected_kept : top i ≢ from → redirected top from into i ≡ top i
  unfolding redirected
  redirected_kept n = ground arith

  pub deepened_moved : top i ≡ from → deepened top depth from i ≡ depth i + 1
  unfolding deepened
  deepened_moved e = ground arith

  pub deepened_kept : top i ≢ from → deepened top depth from i ≡ depth i
  unfolding deepened
  deepened_kept n = ground arith

module _ {parent : List ℕ} {top depth : ℕ → ℕ} (f : IsForest parent top depth) (from into : ℕ)
    (inside_from : from < length parent) (inside_into : into < length parent)
    (up_from : up parent from ≡ from) (up_into : up parent into ≡ into)
    (distinct : from ≢ into) where
  up_moved : up (set parent from into) from ≡ into
  up_moved = get_or-set_self parent from into from inside_from

  up_kept : (i : ℕ) → i ≢ from → up (set parent from into) i ≡ up parent i
  up_kept i n = get_or-set_ne parent from i into i (λ e. n (sym e))

  top_from : top from ≡ from
  top_from = (f.ends from inside_from up_from).0

  top_into : top into ≡ into
  top_into = (f.ends into inside_into up_into).0

  top_into_ne : top into ≢ from
  top_into_ne e = distinct (sym (sym top_into ∙ e))

  -- A move takes an index with what is above it.
  redirected_same :
      (i j : ℕ) → top i ≡ top j → redirected top from into i ≡ redirected top from into j
  unfolding redirected
  redirected_same i j e = ap (λ (t : ℕ). if t == from then into else t) e

  abbrev parent' : List ℕ
  parent' = set parent from into

  abbrev top' : ℕ → ℕ
  top' = redirected top from into

  abbrev depth' : ℕ → ℕ
  depth' = deepened top depth from

  moved_inside : (i : ℕ) → i < length parent → up parent' i < length parent
  moved_inside i l = elim (eq_or_ne i from) [
    | inl e ↦ rw e (let u = up_moved in omega arith)
    | inr n ↦ let u = up_kept i n in let w = f.inside i l in omega arith
  ]

  moved_same : (i : ℕ) → i < length parent → top' (up parent' i) ≡ top' i
  moved_same i l = elim (eq_or_ne i from) [
    | inl e ↦ rw e (
        ap top' up_moved
        ∙ redirected_kept top depth from into into top_into_ne
        ∙ top_into
        ∙ sym (redirected_moved top depth from into from top_from))
    | inr n ↦ ap top' (up_kept i n) ∙ redirected_same _ i (f.same i l)
  ]

  moved_ends : (i : ℕ) → i < length parent → up parent' i ≡ i → (top' i ≡ i) × (depth' i ≡ 0)
  moved_ends i l q = elim (eq_or_ne i from) [
    | inl e ↦ absurd (distinct (sym e ∙ sym q ∙ ap (up parent') e ∙ up_moved))
    | inr n ↦
        let w = f.ends i l (sym (up_kept i n) ∙ q) in
        let t : top i ≢ from = λ z. n (sym w.0 ∙ z) in
        (redirected_kept top depth from into i t ∙ w.0, deepened_kept top depth from into i t ∙ w.1)
  ]

  -- An index and what is above it have one top, so both are deepened or neither is.
  deepened_lt : (i j : ℕ) → top j ≡ top i → depth j < depth i → depth' j < depth' i
  deepened_lt i j s l = elim (eq_or_ne (top i) from) [
    | inl t ↦
        let b = deepened_moved top depth from into i t in
        let c = deepened_moved top depth from into j (s ∙ t) in omega arith
    | inr t ↦
        let b = deepened_kept top depth from into i t in
        let c = deepened_kept top depth from into j (λ z. t (sym s ∙ z)) in omega arith
  ]

  moved_nearer : (i : ℕ) → i < length parent → up parent' i ≢ i → depth' (up parent' i) < depth' i
  moved_nearer i l q = elim (eq_or_ne i from) [
    | inl e ↦
        let a = ap depth' (ap (up parent') e ∙ up_moved) in
        let b = deepened_kept top depth from into into top_into_ne in
        let c = (f.ends into inside_into up_into).1 in
        let d = ap depth' e ∙ deepened_moved top depth from into from top_from in omega arith
    | inr n ↦
        let u = up_kept i n in
        let a = ap depth' u in
        let w = deepened_lt i _ (f.same i l) (f.nearer i l (λ z. q (u ∙ z))) in omega arith
  ]

  moved_top_inside : (i : ℕ) → i < length parent → top' i < length parent
  moved_top_inside i l = elim (eq_or_ne (top i) from) [
    | inl t ↦ let a = redirected_moved top depth from into i t in omega arith
    | inr t ↦
        let a = redirected_kept top depth from into i t in let w = f.top_inside i l in omega arith
  ]

  moved_top_up : (i : ℕ) → i < length parent → up parent' (top' i) ≡ top' i
  moved_top_up i l = elim (eq_or_ne (top i) from) [
    | inl t ↦
        let a = redirected_moved top depth from into i t in
        ap (up parent') a ∙ up_kept into (λ z. distinct (sym z)) ∙ up_into ∙ sym a
    | inr t ↦
        let a = redirected_kept top depth from into i t in
        ap (up parent') a ∙ up_kept (top i) t ∙ f.top_up i l ∙ sym a
  ]

  pub move-IsForest :
      IsForest (set parent from into) (redirected top from into) (deepened top depth from)
  move-IsForest =
      let len = length-set parent from into in
      let old = λ (i : ℕ) (l : i < length (set parent from into)).
        let k : i < length parent = omega arith in k in
      record {
        inside = λ i l. let w = moved_inside i (old i l) in omega arith;
        same = λ i l. moved_same i (old i l);
        ends = λ i l. moved_ends i (old i l);
        nearer = λ i l. moved_nearer i (old i l);
        top_inside = λ i l. let w = moved_top_inside i (old i l) in omega arith;
        top_up = λ i l. moved_top_up i (old i l);
      }
