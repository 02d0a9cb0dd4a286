-- ===== src/Match/Engine/Compiling.antt =====
-- `GroupBuilder::predicate` and `GroupBuilder::node`, as the builder changes: what they return is
-- right for the leaf and for the condition. Leaves share a predicate where their serialized forms
-- are equal, so the leaves in use must be told apart by those.
use goliath_siem.Base.{
  ℕ, ◌≡◌, inl, inr, sym, subst, ◌∙◌, Option, none, some, Option-cases, List, Text,
}
use goliath_siem.Rule.Resolved
use goliath_siem.Rule.Resolved.{Expr, Exprs, RegexFlags}
use goliath_siem.Crates.{Crates}
use goliath_siem.Match.Laws.{Laws}
use goliath_siem.Match.Reference.{ok, ◌>>=◌, >>=-eq-ok}
use goliath_siem.Match.Engine.{Node, Nodes, and, or, not_node, nil, cons}
use goliath_siem.Match.Engine.Builder.{
  B, Leaf, predicate_id, leaf_pred, push_pred, add_predicate, add_node, add_nodes, leaf_node,
}
use goliath_siem.Match.Engine.Grow.{IsTidy}
use goliath_siem.Match.Engine.RegexLeaf.{RequiresSound}
use goliath_siem.Match.Engine.LeafPred.{IsLeafPred}
use goliath_siem.Match.Engine.Leaves.{field_leaf_lem, keyword_leaf_lem}
use goliath_siem.Match.Engine.Conditions.{
  Follows-refl, Follows-trans, IsEntry, Computes, ComputesAll, computes_and, computes_or,
  computes_not, computes_leaf, computes_nil, computes_cons, Computes-Follows,
}
use goliath_siem.Match.Engine.Sound.{
  HasLeaves, HaveLeaves, leaves_and, leaves_or, leaves_not, leaves_field, leaves_keyword,
  leaves_nil, leaves_cons, IsLeaf, field_leaf, keyword_leaf, AreApart, IsSound, Advances,
  Advances-trans, Grows-Follows, IsSound-Grows, IsSound-push, Follows-push, entry_push,
}

module _ (c : Crates) (required_literals : Text → RegexFlags → Option (List Text))
    (Known : Expr c.Float → Type 0) where
  open c use {Float, Regex, expr_json}

  module _ (laws : Laws c) (requires : RequiresSound c required_literals)
      (apart : AreApart c required_literals Known) where
    leaf_pred_lem :
        (b : B c required_literals) (leaf : Expr Float)
        → IsLeaf leaf
        → IsTidy b
        → (r : Leaf c required_literals) → leaf_pred c required_literals b leaf ≡ ok r
        → IsLeafPred c required_literals b leaf r
    unfolding leaf_pred
    leaf_pred_lem b _ (field_leaf p) tidy r h =
        field_leaf_lem c required_literals laws requires b p.paths p.test tidy r h
    leaf_pred_lem b _ (keyword_leaf test) tidy r h =
        keyword_leaf_lem c required_literals laws requires b test tidy r h

    add_predicate-known :
        (b : B c required_literals) (leaf : Expr Float) (id : ℕ)
        → predicate_id (expr_json leaf) b.predicate_ids ≡ some id
        → add_predicate c required_literals b leaf ≡ ok (b, id)
    unfolding add_predicate
    add_predicate-known b leaf id e = rw (e, add_predicate)

    add_predicate-fresh :
        (b : B c required_literals) (leaf : Expr Float)
        → predicate_id (expr_json leaf) b.predicate_ids ≡ none
        → add_predicate c required_literals b leaf ≡ (
            leaf_pred c required_literals b leaf >>= λ result.
            ok (push_pred c required_literals (expr_json leaf) result))
    unfolding add_predicate
    add_predicate-fresh b leaf e = rw (e, add_predicate)

    push_pred_lem :
        (b : B c required_literals) (leaf : Expr Float) (l : Leaf c required_literals)
        → Known leaf
        → IsSound c required_literals Known b
        → IsLeafPred c required_literals b leaf l
        → Advances c required_literals Known b (push_pred c required_literals (expr_json leaf) l).0
          × IsEntry c required_literals
              (push_pred c required_literals (expr_json leaf) l).0
              (push_pred c required_literals (expr_json leaf) l).1
              leaf
    unfolding push_pred
    push_pred_lem b leaf (b', p, atom) known sound made =
        let sound' = IsSound-Grows c required_literals Known b b' sound made.grows in
        (
          record {
            follows =
                Follows-trans c required_literals b b' _
                  (Grows-Follows c required_literals Known b b' made.grows)
                  (Follows-push c required_literals Known b' (expr_json leaf) p atom);
            sound = IsSound-push c required_literals Known b' leaf p atom sound' known made.right;
          },
          entry_push c required_literals Known b' (expr_json leaf) p atom leaf made.right
              sound'.atoms_length,
        )

    -- A new leaf is pushed; a leaf whose serialized form is there is the leaf that it was made for.
    add_predicate_lem :
        (b : B c required_literals) (leaf : Expr Float)
        → IsLeaf leaf
        → Known leaf
        → IsSound c required_literals Known b
        → (r : B c required_literals × ℕ) → add_predicate c required_literals b leaf ≡ ok r
        → Advances c required_literals Known b r.0 × IsEntry c required_literals r.0 r.1 leaf
    add_predicate_lem b leaf is known sound r h =
        elim (Option-cases (predicate_id (expr_json leaf) b.predicate_ids)) [
          | inr (id, e) ↦
              let found = add_predicate-known b leaf id e in
              let same : (b, id) ≡ r = cc in
              let (l, k, j, entry) = sound.keyed (expr_json leaf) id e in
              let entry' : IsEntry c required_literals b id leaf =
                subst (λ x. IsEntry c required_literals b id x) (apart l leaf k known j) entry in
              rw (← same)
                (record { follows = Follows-refl c required_literals b; sound = sound }, entry')
          | inl e ↦
              let (l, e₁, e₂) = >>=-eq-ok _ _ (sym (add_predicate-fresh b leaf e) ∙ h) in
              let same : push_pred c required_literals (expr_json leaf) l ≡ r = cc in
              rw (← same)
                (push_pred_lem b leaf l known sound (leaf_pred_lem b leaf is sound.tidy l e₁))
        ]

    leaf_node_lem :
        (b : B c required_literals) (leaf : Expr Float)
        → IsLeaf leaf
        → Known leaf
        → IsSound c required_literals Known b
        → (r : B c required_literals × Node)
        → (add_predicate c required_literals b leaf >>= λ result.
            ok (leaf_node c required_literals result))
          ≡ ok r
        → Advances c required_literals Known b r.0 × Computes c required_literals r.0 leaf r.1
    leaf_node_lem b leaf is known sound r h =
        let (x, e₁, e₂) = >>=-eq-ok _ _ h in
        let (advances, entry) = add_predicate_lem b leaf is known sound x e₁ in
        let same : leaf_node c required_literals x ≡ r = cc in
        rw (← same) (advances, computes_leaf entry)

    mutual
      unfolding add_node

      add_node-Computes :
          (b : B c required_literals) {e : Expr Float}
          → HasLeaves Known e
          → IsSound c required_literals Known b
          → (r : B c required_literals × Node) → add_node c required_literals b e ≡ ok r
          → Advances c required_literals Known b r.0 × Computes c required_literals r.0 e r.1
      add_node-Computes b (leaves_field {p = p} known) sound r h =
          leaf_node_lem b (Resolved.field p) (field_leaf p) known sound r h
      add_node-Computes b (leaves_keyword {test = test} known) sound r h =
          leaf_node_lem b (Resolved.keyword test) (keyword_leaf test) known sound r h
      add_node-Computes b (leaves_not {e = e} known) sound r h =
          let (x, e₁, e₂) = >>=-eq-ok _ _ h in
          let (advances, computes) = add_node-Computes b known sound x e₁ in
          let same : (x.0, not_node x.1) ≡ r = cc in rw (← same) (advances, computes_not computes)
      add_node-Computes b (leaves_and known) sound r h =
          let (x, e₁, e₂) = >>=-eq-ok _ _ h in
          let (advances, computes) = add_nodes-Computes b known sound x e₁ in
          let same : (x.0, and x.1) ≡ r = cc in rw (← same) (advances, computes_and computes)
      add_node-Computes b (leaves_or known) sound r h =
          let (x, e₁, e₂) = >>=-eq-ok _ _ h in
          let (advances, computes) = add_nodes-Computes b known sound x e₁ in
          let same : (x.0, or x.1) ≡ r = cc in rw (← same) (advances, computes_or computes)

      add_nodes-Computes :
          (b : B c required_literals) {es : Exprs Float}
          → HaveLeaves Known es
          → IsSound c required_literals Known b
          → (r : B c required_literals × Nodes) → add_nodes c required_literals b es ≡ ok r
          → Advances c required_literals Known b r.0 × ComputesAll c required_literals r.0 es r.1
      add_nodes-Computes b leaves_nil sound r h =
          let same : (b, nil) ≡ r = cc in
          rw (← same)
            (record { follows = Follows-refl c required_literals b; sound = sound }, computes_nil)
      add_nodes-Computes b (leaves_cons known knowns) sound r h =
          let (x, e₁, e₂) = >>=-eq-ok _ _ h in
          let (y, e₃, e₄) = >>=-eq-ok _ _ e₂ in
          let (advances, computes) = add_node-Computes b known sound x e₁ in
          let (advances', all) = add_nodes-Computes x.0 knowns advances.sound y e₃ in
          let same : (y.0, cons x.1 y.1) ≡ r = cc in
          rw (← same) (
            Advances-trans c required_literals Known b x.0 y.0 advances advances',
            computes_cons (Computes-Follows c required_literals x.0 y.0 advances'.follows computes)
                all,
          )

    -- Where the crates keep their laws, matched texts contain a literal that their expression
    -- requires, and the serialized forms tell the known leaves apart: over a sound builder, for a
    -- condition whose leaves are known, what `GroupBuilder::node` returns computes the condition, and
    -- the builder stays sound and keeps all that it had. A node computes a condition where it has its
    -- shape, and for each leaf a predicate that holds for exactly the events for which the leaf
    -- holds, where a regular expression holds of a string's or a number's text, and never of a
    -- boolean.
    pub add_node_lem :
        (b : B c required_literals) {e : Expr Float}
        → HasLeaves Known e
        → IsSound c required_literals Known b
        → (r : B c required_literals × Node) → add_node c required_literals b e ≡ ok r
        → Advances c required_literals Known b r.0 × Computes c required_literals r.0 e r.1
    add_node_lem b known sound r h = add_node-Computes b known sound r h
