-- ===== src/Graph/Groups/Well.antt =====
-- What holds of `Groups` between two operations, crates/goliath-graph/src/resolve.rs: the forest,
-- the index and the members agree on who is in which group.
use goliath_siem.Base.{
  ℕ, zero, suc, ◌+◌, ◌≤◌, ◌<◌, ◌≡◌, refl, sym, ◌∙◌, some, List, [], ◌∷◌, ◌++◌, length, get_or, set,
  In, arith,
}
use goliath_siem.Graph.{Identifier}
use goliath_siem.Graph.Groups.{Groups, no_groups, index_of, root}
use goliath_siem.Graph.Groups.Forest.{IsForest, root_loop-top}

unfoldable pub total : List (List Identifier) → ℕ
total [] = 0
total (m ∷ ms) = length m + total ms

pub length-le-total : (ms : List (List Identifier)) (r : ℕ) → length (get_or ms r []) ≤ total ms
unfolding total
length-le-total [] r = omega arith
length-le-total (m ∷ ms) zero = omega arith
length-le-total (m ∷ ms) (suc r) = omega (arith, length-le-total ms r)

pub total-set :
    (ms : List (List Identifier)) (i : ℕ) (v : List Identifier)
    → i < length ms
    → total (set ms i v) + length (get_or ms i []) ≡ total ms + length v
unfolding total
total-set [] i v l = absurd (omega arith)
total-set (m ∷ ms) zero v l = omega arith
total-set (m ∷ ms) (suc i) v l = omega (arith, total-set ms i v (omega arith))

pub total-append : (ms ns : List (List Identifier)) → total (ms ++ ns) ≡ total ms + total ns
unfolding total
total-append [] ns = omega arith
total-append (m ∷ ms) ns = omega (arith, total-append ms ns)

pub record IsWell (g : Groups) (top depth : ℕ → ℕ) : Type 0 where
  pub forest : IsForest g.parent top depth
  pub groups_length : length g.members ≡ length g.parent
  pub counted : total g.members ≡ length g.parent
  pub shallow : (i : ℕ) → i < length g.parent → depth i < length (get_or g.members (top i) [])
  pub indexed : (x : Identifier) (i : ℕ) → index_of x g.index ≡ some i → i < length g.parent
  pub known :
      (x : Identifier) (r : ℕ)
      → In x (get_or g.members r [])
      → (i : ℕ) × (index_of x g.index ≡ some i) × (top i ≡ r)
  pub held :
      (x : Identifier) (i : ℕ) → index_of x g.index ≡ some i → In x (get_or g.members (top i) [])

pub no_groups-IsWell : IsWell no_groups (λ i. i) (λ i. 0)
unfolding no_groups index_of total
no_groups-IsWell = record {
  forest = record {
    inside = λ i l. absurd (omega arith);
    same = λ i l. absurd (omega arith);
    ends = λ i l. absurd (omega arith);
    nearer = λ i l. absurd (omega arith);
    top_inside = λ i l. absurd (omega arith);
    top_up = λ i l. absurd (omega arith);
  };
  groups_length = refl;
  counted = refl;
  shallow = λ i l. absurd (omega arith);
  indexed = λ x i e. cc;
  known = λ x r i. absurd i.lower;
  held = λ x i e. cc;
}

-- `root` returns the top, and changes nothing but the paths.
pub root-IsWell :
    {g : Groups} {top depth : ℕ → ℕ} (i : ℕ)
    → IsWell g top depth
    → i < length g.parent
    → ((root g i).1 ≡ top i) × IsWell (root g i).0 top depth
unfolding root
root-IsWell {g} {top} {depth} i w l =
    let s = w.shallow i l in
    let t = length-le-total g.members (top i) in
    let c = w.counted in
    let (r, f, len) = root_loop-top (length g.parent) g.parent i w.forest l (omega arith) in
    (
      r,
      record {
        forest = f;
        groups_length = w.groups_length ∙ sym len;
        counted = w.counted ∙ sym len;
        shallow = λ j k. w.shallow j (omega arith);
        indexed = λ x j e. let q = w.indexed x j e in omega arith;
        known = w.known;
        held = w.held;
      },
    )
