-- ===== src/Graph/Groups/Together.antt =====
-- Who is in one group after each operation of `Groups`, crates/goliath-graph/src/resolve.rs.
use goliath_siem.Base.{
  ℕ, zero, suc, ◌<◌, ◌≡◌, refl, sym, ap, ◌∙◌, ◌⊎◌, inl, inr, none, some, List, [], ◌∷◌, ◌++◌,
  length, get_or, In, arith, Option-cases, length-append, subst,
}
use goliath_siem.Base.Elems.{In-of_eq, get_or-append_left, get_or-append_length}
use goliath_siem.Graph.{Identifier}
use goliath_siem.Graph.Groups.{Groups, index_of, root, insert_new, group_of}
use goliath_siem.Graph.Groups.Forest.{up}
use goliath_siem.Graph.Groups.Well.{IsWell, root-IsWell}
use goliath_siem.Graph.Groups.Insert.{insert_new-IsWell, index_self}

-- Two identifiers are in one group.
abbrev pub Together : Groups → Identifier → Identifier → Type 0
Together g x y = (r : ℕ) × In x (get_or g.members r []) × In y (get_or g.members r [])

-- The groups are in order, whatever stands for each of their trees.
abbrev pub IsSound : Groups → Type 0
IsSound g = (top : ℕ → ℕ) × (depth : ℕ → ℕ) × IsWell g top depth

-- A group that the index of some identifier leads to.
abbrev pub IsTop : Groups → ℕ → Type 0
IsTop g r = (r < length g.parent) × (up g.parent r ≡ r)

-- What `Groups::of` does: the group holds the identifier, no group is lost, and nobody else comes
-- to be with another.
pub record Placed (g : Groups) (x : Identifier) (out : Groups × ℕ) : Type 0 where
  pub sound : IsSound out.0
  pub here : In x (get_or out.0.members out.1 [])
  pub top : IsTop out.0 out.1
  pub kept :
      (r : ℕ) (y : Identifier) → In y (get_or g.members r []) → In y (get_or out.0.members r [])
  pub before : (y z : Identifier) → Together out.0 y z → (y ≡ z) ⊎ Together g y z
  pub tops_kept : (r : ℕ) → IsTop g r → IsTop out.0 r

root-Placed :
    {g : Groups} {top depth : ℕ → ℕ} (x : Identifier) (i : ℕ)
    → IsWell g top depth
    → index_of x g.index ≡ some i
    → Placed g x (root g i)
root-Placed {g} {top} {depth} x i w e =
    let l = w.indexed x i e in
    let (r, w') = root-IsWell i w l in
    let same : (root g i).0.members ≡ g.members = unfold root in refl in
    let len : length (root g i).0.parent ≡ length g.parent =
      sym w'.groups_length ∙ ap (λ (m : List (List Identifier)). length m) same ∙ w.groups_length in
    let inside = w.forest.top_inside i l in
    record {
      sound = (top, depth, w');
      here =
          In-of_eq x _ _
            (ap (λ (k : ℕ). get_or g.members k []) (sym r)
              ∙ ap (λ (m : List (List Identifier)). get_or m (root g i).1 []) (sym same))
            (w.held x i e);
      top = (
        omega arith,
        ap (λ (k : ℕ). up (root g i).0.parent k) r ∙ w'.forest.top_up i (omega arith) ∙ sym r,
      );
      kept = λ k y m.
          In-of_eq y _ _ (ap (λ (ms : List (List Identifier)). get_or ms k []) (sym same)) m;
      before = λ y z t. inr (
        t.0,
        In-of_eq y _ _ (ap (λ (ms : List (List Identifier)). get_or ms t.0 []) same) t.1,
        In-of_eq z _ _ (ap (λ (ms : List (List Identifier)). get_or ms t.0 []) same) t.2,
      );
      tops_kept = λ k h.
          let q = (w.forest.ends k h.0 h.1).0 in
          (
            omega arith,
            ap (λ (j : ℕ). up (root g i).0.parent j) (sym q) ∙ w'.forest.top_up k (omega arith) ∙ q,
          );
    }

In-get_or_append :
    (ms ns : List (List Identifier)) (r : ℕ) (y : Identifier)
    → In y (get_or ms r [])
    → In y (get_or (ms ++ ns) r [])
In-get_or_append [] ns r y i = absurd i.lower
In-get_or_append (m ∷ ms) ns zero y i = i
In-get_or_append (m ∷ ms) ns (suc r) y i = In-get_or_append ms ns r y i

-- A group after one of a single identifier was added at the end.
get_or_append-In :
    (ms : List (List Identifier)) (x : Identifier) (r : ℕ) (y : Identifier)
    → In y (get_or (ms ++ (x ∷ []) ∷ []) r [])
    → ((r < length ms) × In y (get_or ms r [])) ⊎ ((r ≡ length ms) × (y ≡ x))
get_or_append-In [] x zero y (inl e) = inr (refl, e)
get_or_append-In [] x zero y (inr i) = absurd i.lower
get_or_append-In [] x (suc r) y i = absurd i.lower
get_or_append-In (m ∷ ms) x zero y i = inl (omega arith, i)
get_or_append-In (m ∷ ms) x (suc r) y i = elim (get_or_append-In ms x r y i) [
  | inl (l, j) ↦ inl (omega arith, j)
  | inr (e, q) ↦ inr (ap suc e, q)
]

insert_new-Placed :
    {g : Groups} {top depth : ℕ → ℕ} (x : Identifier)
    → IsWell g top depth
    → index_of x g.index ≡ none
    → Placed g x (insert_new g x, length g.parent)
unfolding insert_new
insert_new-Placed {g} {top} {depth} x w e =
    let gl = w.groups_length in
    let len = length-append g.parent (length g.parent ∷ []) in
    record {
      sound = (_, _, insert_new-IsWell x w e);
      here =
          In-of_eq x (x ∷ []) _
            (sym (
              ap (λ (k : ℕ). get_or (g.members ++ (x ∷ []) ∷ []) k []) (sym gl)
              ∙ get_or-append_length g.members (x ∷ []) []))
            (inl refl);
      top = (omega arith, get_or-append_length g.parent (length g.parent) (length g.parent));
      kept = λ r y i. In-get_or_append g.members _ r y i;
      before = λ y z t. elim (get_or_append-In g.members x t.0 y t.1) [
        | inl (l, i) ↦ elim (get_or_append-In g.members x t.0 z t.2) [
          | inl (_, j) ↦ inr (t.0, i, j)
          | inr (q, _) ↦ absurd (omega arith)
        ]
        | inr (q, a) ↦ elim (get_or_append-In g.members x t.0 z t.2) [
          | inl (l, _) ↦ absurd (omega arith)
          | inr (_, b) ↦ inl (a ∙ sym b)
        ]
      ];
      tops_kept = λ r h.
          (omega (arith, h.0), get_or-append_left g.parent (length g.parent ∷ []) r r h.0 ∙ h.1);
    }

pub group_of-Placed : (g : Groups) (x : Identifier) → IsSound g → Placed g x (group_of g x)
unfolding group_of root
group_of-Placed g x (top, depth, w) = elim (Option-cases (index_of x g.index)) [
  | inr (i, e) ↦ subst (Placed g x) (sym (rw (e, group_of) refl)) (root-Placed x i w e)
  | inl e ↦
      let a = insert_new-Placed x w e in
      let q : index_of x (insert_new g x).index ≡ some (length g.parent) =
        unfold insert_new in index_self x (length g.parent) g.index in
      let b = root-Placed {g = insert_new g x} x (length g.parent) (insert_new-IsWell x w e) q in
      subst (Placed g x) (sym (rw (e, group_of) refl)) (record {
        sound = b.sound;
        here = b.here;
        top = b.top;
        kept = λ r y i. b.kept r y (a.kept r y i);
        before = λ y z t. elim (b.before y z t) [ inl s ↦ inl s | inr u ↦ a.before y z u ];
        tops_kept = λ r h. b.tops_kept r (a.tops_kept r h);
      })
]

-- In groups that are in order, root ends within its fuel: it returns an index that is its own
-- parent, and changes neither the members of any group nor who is indexed.
pub root-IsTop :
    (g : Groups) (i : ℕ)
    → IsSound g
    → i < length g.parent
    → IsTop (root g i).0 (root g i).1
      × IsSound (root g i).0
      × ((root g i).0.members ≡ g.members)
      × ((root g i).0.index ≡ g.index)
root-IsTop g i (top, depth, w) l =
    let (r, w') = root-IsWell i w l in
    let same : (root g i).0.members ≡ g.members = unfold root in refl in
    let len : length (root g i).0.parent ≡ length g.parent =
      sym w'.groups_length ∙ ap (λ (m : List (List Identifier)). length m) same ∙ w.groups_length in
    let inside = w.forest.top_inside i l in
    (
      (
        omega arith,
        ap (λ (k : ℕ). up (root g i).0.parent k) r ∙ w'.forest.top_up i (omega arith) ∙ sym r,
      ),
      (top, depth, w'),
      same,
      unfold root in refl,
    )
