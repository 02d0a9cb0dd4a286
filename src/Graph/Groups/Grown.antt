-- ===== src/Graph/Groups/Grown.antt =====
-- The forest with one more index, which stands for itself, `Groups::of` of
-- crates/goliath-graph/src/resolve.rs.
use goliath_siem.Base.{
  ℕ, suc, ◌<◌, ◌≡◌, sym, ap, ◌∙◌, ◌⊎◌, inl, inr, List, [], ◌∷◌, ◌++◌, if◌then◌else◌, ◌==◌, length,
  arith, length-append,
}
use goliath_siem.Base.Elems.{get_or-append_left, get_or-append_length}
use goliath_siem.Graph.Groups.Forest.{IsForest, up}

-- A new index stands for itself.
pub extended : ℕ → (ℕ → ℕ) → ℕ → ℕ → ℕ
extended n f v k = if k == n then v else f k

pub extended_old : (n : ℕ) (f : ℕ → ℕ) (v k : ℕ) → k < n → extended n f v k ≡ f k
unfolding extended
extended_old n f v k l = ground arith

pub extended_new : (n : ℕ) (f : ℕ → ℕ) (v : ℕ) → extended n f v n ≡ v
unfolding extended
extended_new n f v = ground arith

module _ (parent : List ℕ) where
  up_old : (i : ℕ) → i < length parent → up (parent ++ length parent ∷ []) i ≡ up parent i
  up_old i l = get_or-append_left parent (length parent ∷ []) i i l

  up_new : up (parent ++ length parent ∷ []) (length parent) ≡ length parent
  up_new = get_or-append_length parent (length parent) (length parent)

old_or_new : (n i : ℕ) → i < suc n → (i < n) ⊎ (i ≡ n)
old_or_new n i l = ground arith

module _ {parent : List ℕ} {top depth : ℕ → ℕ} (f : IsForest parent top depth) where
  abbrev n : ℕ
  n = length parent

  abbrev parent' : List ℕ
  parent' = parent ++ n ∷ []

  abbrev top' : ℕ → ℕ
  top' = extended n top n

  abbrev depth' : ℕ → ℕ
  depth' = extended n depth 0

  grown : length parent' ≡ suc n
  grown = length-append parent (n ∷ []) ∙ omega arith

  pub split : (i : ℕ) → i < length parent' → (i < n) ⊎ (i ≡ n)
  split i l = let g = grown in old_or_new n i (omega arith)

  pub insert-IsForest : IsForest parent' top' depth'
  insert-IsForest =
      let g = grown in
      record {
        inside = λ i l. elim (split i l) [
          | inl k ↦ let u = up_old parent i k in let w = f.inside i k in omega arith
          | inr e ↦ rw e (let u = up_new parent in omega arith)
        ];
        same = λ i l. elim (split i l) [
          | inl k ↦
              ap top' (up_old parent i k)
              ∙ extended_old n top n _ (f.inside i k)
              ∙ f.same i k
              ∙ sym (extended_old n top n i k)
          | inr e ↦ rw e (ap top' (up_new parent))
        ];
        ends = λ i l q. elim (split i l) [
          | inl k ↦
              let w = f.ends i k (sym (up_old parent i k) ∙ q) in
              (extended_old n top n i k ∙ w.0, extended_old n depth 0 i k ∙ w.1)
          | inr e ↦ rw e (extended_new n top n, extended_new n depth 0)
        ];
        nearer = λ i l q. elim (split i l) [
          | inl k ↦
              let u = up_old parent i k in
              let w = f.nearer i k (λ z. q (u ∙ z)) in
              let a = ap depth' u in
              let b = extended_old n depth 0 _ (f.inside i k) in
              let c = extended_old n depth 0 i k in omega arith
          | inr e ↦ absurd (q (ap (λ (j : ℕ). up parent' j) e ∙ up_new parent ∙ sym e))
        ];
        top_inside = λ i l. elim (split i l) [
          | inl k ↦ let w = f.top_inside i k in let c = extended_old n top n i k in omega arith
          | inr e ↦ rw e (let c = extended_new n top n in omega arith)
        ];
        top_up = λ i l. elim (split i l) [
          | inl k ↦
              let c = extended_old n top n i k in
              ap (λ (j : ℕ). up parent' j) c
              ∙ up_old parent (top i) (f.top_inside i k)
              ∙ f.top_up i k
              ∙ sym c
          | inr e ↦ rw e (
              ap (λ (j : ℕ). up parent' j) (extended_new n top n)
              ∙ up_new parent
              ∙ sym (extended_new n top n))
        ];
      }
