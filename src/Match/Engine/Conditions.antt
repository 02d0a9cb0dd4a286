-- ===== src/Match/Engine/Conditions.antt =====
-- `GroupBuilder::predicate` and `GroupBuilder::node`: the compiled condition computes the condition.
-- Leaves are told apart by their serialized form, as far as the group's own leaves go.
use goliath_siem.Base.{
  ℕ, ◌≡◌, refl, ap, ap₂, ◌∙◌, Bool, not, ◌&&◌, ◌||◌, Option, some, List, Text, get_elem?,
}
use goliath_siem.Rule.Resolved
use goliath_siem.Rule.Resolved.{Expr, Exprs, RegexFlags}
use goliath_siem.Crates.{Crates}
use goliath_siem.Match.Semantics.{Event}
use goliath_siem.Match.Meaning.{expr_holds, all_hold, any_holds, asks_but_booleans}
use goliath_siem.Match.Engine.{Ref, Pred, Node, Nodes, and, or, not_node, pred, nil, cons}
use goliath_siem.Match.Engine.Builder.{B}
use goliath_siem.Match.Engine.Denotation.{pred_holds, node_holds, all_nodes, any_node}
use goliath_siem.Match.Engine.Grow.{Extends, Extends-refl, Extends-trans}
use goliath_siem.Match.Engine.Additions.{store}
use goliath_siem.Match.Engine.Right.{IsRight, IsRight-Extends, leaf_holds}

module _ (c : Crates) (required_literals : Text → RegexFlags → Option (List Text)) where
  open c use {Float, Regex, expr_json}

  -- The builder has grown, and its predicates keep their places.
  pub record Follows (b b' : B c required_literals) : Type 0 where
    pub extends : Extends (store b) (store b')
    pub predicates :
        (id : ℕ) (p : Pred Float Regex)
        → get_elem? b.predicates id ≡ some p
        → get_elem? b'.predicates id ≡ some p
    pub atoms :
        (id : ℕ) (a : Option (List Ref))
        → get_elem? b.atoms id ≡ some a
        → get_elem? b'.atoms id ≡ some a

  pub Follows-refl : (b : B c required_literals) → Follows b b
  Follows-refl b = record {
    extends = Extends-refl (store b);
    predicates = λ id p h. h;
    atoms = λ id a h. h;
  }

  pub Follows-trans :
      (b b' b'' : B c required_literals) → Follows b b' → Follows b' b'' → Follows b b''
  Follows-trans b b' b'' f g = record {
    extends = Extends-trans (store b) (store b') (store b'') f.extends g.extends;
    predicates = λ id p h. g.predicates id p (f.predicates id p h);
    atoms = λ id a h. g.atoms id a (f.atoms id a h);
  }

  -- The predicate with the identifier is right for the leaf.
  pub record IsEntry (b : B c required_literals) (id : ℕ) (leaf : Expr Float) : Type 0 where
    pub predicate : Pred Float Regex
    pub atom : Option (List Ref)
    pub here : get_elem? b.predicates id ≡ some predicate
    pub atom_here : get_elem? b.atoms id ≡ some atom
    pub right : IsRight c (store b) leaf predicate atom

  pub IsEntry-Follows :
      (b b' : B c required_literals) (id : ℕ) (leaf : Expr Float)
      → Follows b b'
      → IsEntry b id leaf
      → IsEntry b' id leaf
  IsEntry-Follows b b' id leaf f e = record {
    predicate = e.predicate;
    atom = e.atom;
    here = f.predicates id e.predicate e.here;
    atom_here = f.atoms id e.atom e.atom_here;
    right = IsRight-Extends c (store b) (store b') leaf e.predicate e.atom f.extends e.right;
  }

  -- A compiled condition has the shape of the condition, with a right predicate for each leaf.
  mutual
    pub data Computes (b : B c required_literals) : Expr Float → Node → Type 0 where
      computes_and :
          {es : Exprs Float} {ns : Nodes}
          → ComputesAll b es ns
          → Computes b (Resolved.and es) (and ns)
      computes_or :
          {es : Exprs Float} {ns : Nodes}
          → ComputesAll b es ns
          → Computes b (Resolved.or es) (or ns)
      computes_not :
          {e : Expr Float} {n : Node} → Computes b e n → Computes b (Resolved.not e) (not_node n)
      computes_leaf : {leaf : Expr Float} {id : ℕ} → IsEntry b id leaf → Computes b leaf (pred id)

    pub data ComputesAll (b : B c required_literals) : Exprs Float → Nodes → Type 0 where
      computes_nil : ComputesAll b Resolved.nil nil
      computes_cons :
          {e : Expr Float} {es : Exprs Float} {n : Node} {ns : Nodes}
          → Computes b e n
          → ComputesAll b es ns
          → ComputesAll b (Resolved.cons e es) (cons n ns)

  mutual
    pub Computes-Follows :
        (b b' : B c required_literals)
        → Follows b b'
        → {e : Expr Float} {n : Node} → Computes b e n
        → Computes b' e n
    Computes-Follows b b' f (computes_and h) = computes_and (ComputesAll-Follows b b' f h)
    Computes-Follows b b' f (computes_or h) = computes_or (ComputesAll-Follows b b' f h)
    Computes-Follows b b' f (computes_not h) = computes_not (Computes-Follows b b' f h)
    Computes-Follows b b' f (computes_leaf {leaf = leaf} {id = id} h) =
        computes_leaf (IsEntry-Follows b b' id leaf f h)

    pub ComputesAll-Follows :
        (b b' : B c required_literals)
        → Follows b b'
        → {es : Exprs Float} {ns : Nodes} → ComputesAll b es ns
        → ComputesAll b' es ns
    ComputesAll-Follows b b' f computes_nil = computes_nil
    ComputesAll-Follows b b' f (computes_cons h hs) =
        computes_cons (Computes-Follows b b' f h) (ComputesAll-Follows b b' f hs)

  -- With the right values of the predicates, a compiled condition holds where the condition holds.
  module _ (event : Event c) (value : ℕ → Bool) (b : B c required_literals)
      (values : (id : ℕ) (p : Pred Float Regex)
        → get_elem? b.predicates id ≡ some p
        → value id ≡ pred_holds c event (store b) p) where
    mutual
      unfolding node_holds expr_holds

      pub Computes-holds :
          {e : Expr Float} {n : Node}
          → Computes b e n
          → node_holds c event value n ≡ leaf_holds c e event
      Computes-holds (computes_and h) = (ComputesAll-holds h).0
      Computes-holds (computes_or h) = (ComputesAll-holds h).1
      Computes-holds (computes_not h) = ap not (Computes-holds h)
      Computes-holds (computes_leaf {leaf = leaf} {id = id} h) =
          values id h.predicate h.here ∙ h.right.means event

      pub ComputesAll-holds :
          {es : Exprs Float} {ns : Nodes}
          → ComputesAll b es ns
          → (all_nodes c event value ns ≡ all_hold c (asks_but_booleans c) es event)
            × (any_node c event value ns ≡ any_holds c (asks_but_booleans c) es event)
      ComputesAll-holds computes_nil = (refl, refl)
      ComputesAll-holds (computes_cons h hs) =
          let (alls, anys) = ComputesAll-holds hs in
          (ap₂ ◌&&◌ (Computes-holds h) alls, ap₂ ◌||◌ (Computes-holds h) anys)
