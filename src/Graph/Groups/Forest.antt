-- ===== src/Graph/Groups/Forest.antt =====
-- The parents of `Groups` as a forest, crates/goliath-graph/src/resolve.rs: `root` ends at the top
-- of its tree, and halving a path changes no tree.
use goliath_siem.Base.{
  ℕ, zero, suc, ◌≤◌, ◌<◌, ◌≡◌, ◌≢◌, refl, sym, ap, ◌∙◌, inl, inr, List, ◌==◌, length, get_or, set,
  arith, Bool-cases, ==_iff,
}
use goliath_siem.Base.Elems.{length-set, get_or-set_cases}
use goliath_siem.Graph.Groups.{root_loop}

abbrev pub up : List ℕ → ℕ → ℕ
up parent i = get_or parent i i

-- Each index leads up, nearer each time, to the index that stands for its tree.
pub record IsForest (parent : List ℕ) (top depth : ℕ → ℕ) : Type 0 where
  pub inside : (i : ℕ) → i < length parent → up parent i < length parent
  pub same : (i : ℕ) → i < length parent → top (up parent i) ≡ top i
  pub ends : (i : ℕ) → i < length parent → up parent i ≡ i → (top i ≡ i) × (depth i ≡ 0)
  pub nearer : (i : ℕ) → i < length parent → up parent i ≢ i → depth (up parent i) < depth i
  pub top_inside : (i : ℕ) → i < length parent → top i < length parent
  pub top_up : (i : ℕ) → i < length parent → up parent (top i) ≡ top i

module _ {parent : List ℕ} {top depth : ℕ → ℕ} (f : IsForest parent top depth) where
  depth-up : (i : ℕ) → i < length parent → depth (up parent i) ≤ depth i
  depth-up i l = elim (Bool-cases (up parent i == i)) [
    | inl e ↦ let q = (==_iff _ i).0 e in omega (arith, ap depth q)
    | inr e ↦ omega (arith, f.nearer i l (λ q. let z = (==_iff _ i).1 q in cc))
  ]

  -- A step of `root`: an index that is no top is set below its grandparent.
  pub halved-IsForest :
      (at : ℕ)
      → at < length parent
      → up parent at ≢ at
      → IsForest (set parent at (up parent (up parent at))) top depth
  halved-IsForest at l n =
      let above : ℕ = up parent (up parent at) in
      let len = length-set parent at above in
      let near = f.nearer at l n in
      let in_up = f.inside at l in
      let near' = depth-up (up parent at) in_up in
      record {
        inside = λ i k. elim (get_or-set_cases parent at i above i) [
          | inl (_, q) ↦ let w = f.inside _ in_up in omega arith
          | inr q ↦ let w = f.inside i (omega arith) in omega arith
        ];
        same = λ i k. elim (get_or-set_cases parent at i above i) [
          | inl (e, q) ↦ ap top q ∙ f.same _ in_up ∙ f.same at l ∙ ap top (sym e)
          | inr q ↦ ap top q ∙ f.same i (omega arith)
        ];
        ends = λ i k u. elim (get_or-set_cases parent at i above i) [
          | inl (e, q) ↦ let w = ap depth (sym q ∙ u ∙ e) in absurd (omega arith)
          | inr q ↦ f.ends i (omega arith) (sym q ∙ u)
        ];
        nearer = λ i k u. elim (get_or-set_cases parent at i above i) [
          | inl (e, q) ↦ let w = ap depth q in let w' = ap depth e in omega arith
          | inr q ↦
              let w = ap depth q in let m = f.nearer i (omega arith) (λ z. u (q ∙ z)) in omega arith
        ];
        top_inside = λ i k. let w = f.top_inside i (omega arith) in omega arith;
        top_up = λ i k. elim (get_or-set_cases parent at (top i) above (top i)) [
          | inl (e, q) ↦
              let w = f.top_up i (omega arith) in
              let z = ap (λ (x : ℕ). up parent x) e in absurd (n (sym z ∙ w ∙ e))
          | inr q ↦ q ∙ f.top_up i (omega arith)
        ];
      }

-- `root` with fuel beyond the depth returns the top of the tree, and leaves the same forest.
pub root_loop-top :
    (fuel : ℕ) (parent : List ℕ) (at : ℕ) {top depth : ℕ → ℕ}
    → IsForest parent top depth
    → at < length parent
    → depth at < fuel
    → ((root_loop fuel parent at).1 ≡ top at)
      × IsForest (root_loop fuel parent at).0 top depth
      × (length (root_loop fuel parent at).0 ≡ length parent)
unfolding root_loop
root_loop-top zero parent at f l d = absurd (omega arith)
root_loop-top (suc fuel) parent at {top} {depth} f l d =
    let above : ℕ = up parent (up parent at) in
    let len = length-set parent at above in
    elim (Bool-cases (up parent at == at)) [
      | inl e ↦ rw e (sym (f.ends at l ((==_iff _ at).0 e)).0, f, refl)
      | inr e ↦
          let n : up parent at ≢ at = λ q. let z = (==_iff _ at).1 q in cc in
          let in_up = f.inside at l in
          let in_above = f.inside _ in_up in
          let near = f.nearer at l n in
          let near' = depth-up f (up parent at) in_up in
          let ih =
            root_loop-top fuel (set parent at above) above (halved-IsForest f at l n) (omega arith)
              (omega arith) in
          rw e (ih.0 ∙ f.same _ in_up ∙ f.same at l, ih.1, ih.2 ∙ len)
    ]
