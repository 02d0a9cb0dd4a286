-- ===== src/Match/Engine/Sound.antt =====
-- What a builder's predicates are kept to, that it is kept as the builder grows and as a predicate is
-- pushed, `GroupBuilder::predicate` of crates/goliath-match/src/engine.rs.
use goliath_siem.Base.{
  ℕ, ◌≡◌, inl, inr, refl, sym, subst, ap, ◌∙◌, Bool-cases, Option, some, List, [], ◌∷◌, ◌++◌, Text,
  text_eq, text_eq_iff, get_elem?, length, length-append, arith,
}
use goliath_siem.Base.Elems.{get_elem?-append_left, get_elem?-append_length, get_elem?-append_one}
use goliath_siem.Rule.Resolved
use goliath_siem.Rule.Resolved.{Expr, Exprs, RegexFlags}
use goliath_siem.Crates.{Crates}
use goliath_siem.Match.Engine.{Ref, Pred}
use goliath_siem.Match.Engine.Builder.{B, empty_builder, predicate_id, literal_id, push_pred}
use goliath_siem.Match.Engine.Grow.{Extends-refl, IsTidy}
use goliath_siem.Match.Engine.Additions.{store, Grows}
use goliath_siem.Match.Engine.Right.{IsRight}
use goliath_siem.Match.Engine.Conditions.{Follows, Follows-trans, IsEntry, IsEntry-Follows}

-- All leaves of a condition are known.
mutual
  pub data HasLeaves {F : Type 0} (Known : Expr F → Type 0) : Expr F → Type 0 where
    leaves_and : {es : Exprs F} → HaveLeaves Known es → HasLeaves Known (Resolved.and es)
    leaves_or : {es : Exprs F} → HaveLeaves Known es → HasLeaves Known (Resolved.or es)
    leaves_not : {e : Expr F} → HasLeaves Known e → HasLeaves Known (Resolved.not e)
    leaves_field :
        {p : Resolved.Predicate F} → Known (Resolved.field p) → HasLeaves Known (Resolved.field p)
    leaves_keyword :
        {test : Resolved.StringTest}
        → Known (Resolved.keyword test)
        → HasLeaves Known (Resolved.keyword test)

  pub data HaveLeaves {F : Type 0} (Known : Expr F → Type 0) : Exprs F → Type 0 where
    leaves_nil : HaveLeaves Known Resolved.nil
    leaves_cons :
        {e : Expr F} {es : Exprs F}
        → HasLeaves Known e
        → HaveLeaves Known es
        → HaveLeaves Known (Resolved.cons e es)

-- A leaf of a condition is a field or keywords.
pub data IsLeaf {F : Type 0} : Expr F → Type 0 where
  field_leaf : (p : Resolved.Predicate F) → IsLeaf (Resolved.field p)
  keyword_leaf : (test : Resolved.StringTest) → IsLeaf (Resolved.keyword test)

module _ (c : Crates) (required_literals : Text → RegexFlags → Option (List Text))
    (Known : Expr c.Float → Type 0) where
  open c use {Float, Regex, expr_json}

  -- Known leaves with one serialized form are one leaf.
  abbrev pub AreApart : Type 0
  AreApart = (l l' : Expr Float) → Known l → Known l' → expr_json l ≡ expr_json l' → l ≡ l'

  -- The predicate was made for a known leaf with the key.
  abbrev pub IsKeyed : B c required_literals → Text → ℕ → Type 0
  IsKeyed b key id =
      (leaf : Expr Float) × Known leaf
      × (expr_json leaf ≡ key)
      × IsEntry c required_literals b id leaf

  -- What a builder's predicates are kept to.
  pub record IsSound (b : B c required_literals) : Type 0 where
    pub tidy : IsTidy b
    pub atoms_length : length b.atoms ≡ length b.predicates
    pub entries :
        (id : ℕ) (p : Pred Float Regex)
        → get_elem? b.predicates id ≡ some p
        → (leaf : Expr Float) × IsEntry c required_literals b id leaf
    pub keyed :
        (key : Text) (id : ℕ) → predicate_id key b.predicate_ids ≡ some id → IsKeyed b key id

  -- What an operation of the builder makes of a sound builder.
  pub record Advances (b b' : B c required_literals) : Type 0 where
    pub follows : Follows c required_literals b b'
    pub sound : IsSound b'

  pub Advances-trans : (a b d : B c required_literals) → Advances a b → Advances b d → Advances a d
  Advances-trans a b d f g = record {
    follows = Follows-trans c required_literals a b d f.follows g.follows;
    sound = g.sound;
  }

  pub Grows-Follows : (b b' : B c required_literals) → Grows b b' → Follows c required_literals b b'
  Grows-Follows b b' grows = record {
    extends = grows.extends;
    predicates = λ id p h. ap (λ ps. get_elem? ps id) grows.predicates ∙ h;
    atoms = λ id a h. ap (λ atoms. get_elem? atoms id) grows.atoms ∙ h;
  }

  module _ (b : B c required_literals) (key : Text) (p : Pred Float Regex)
      (atom : Option (List Ref)) where
    abbrev pub pushed : B c required_literals
    unfolding push_pred
    pushed = (push_pred c required_literals key (b, p, atom)).0

    pub Follows-push : Follows c required_literals b pushed
    unfolding push_pred
    Follows-push = record {
      extends = Extends-refl (store b);
      predicates = λ id q h. get_elem?-append_left b.predicates (p ∷ []) id q h;
      atoms = λ id a h. get_elem?-append_left b.atoms (atom ∷ []) id a h;
    }

    module _ (leaf : Expr Float) (right : IsRight c (store b) leaf p atom)
        (lengths : length b.atoms ≡ length b.predicates) where
      pub entry_push : IsEntry c required_literals pushed (length b.predicates) leaf
      unfolding push_pred
      entry_push = record {
        predicate = p;
        atom = atom;
        here = get_elem?-append_length b.predicates p;
        atom_here =
            subst (λ n. get_elem? (b.atoms ++ atom ∷ []) n ≡ some atom) lengths
              (get_elem?-append_length b.atoms atom);
        right = right;
      }

      entries_push :
          ((id : ℕ) (q : Pred Float Regex)
            → get_elem? b.predicates id ≡ some q
            → (l : Expr Float) × IsEntry c required_literals b id l)
          → (id : ℕ) (q : Pred Float Regex) → get_elem? pushed.predicates id ≡ some q
          → (l : Expr Float) × IsEntry c required_literals pushed id l
      unfolding push_pred
      entries_push entries id q h = elim (get_elem?-append_one b.predicates p id q h) [
        | inl old ↦
            let (l, e) = entries id q old in
            (l, IsEntry-Follows c required_literals b pushed id l Follows-push e)
        | inr (last, same) ↦
            (leaf, subst (λ i. IsEntry c required_literals pushed i leaf) (sym last) entry_push)
      ]

      IsKeyed-push :
          Known leaf
          → expr_json leaf ≡ key
          → ((k : Text) (id : ℕ) → predicate_id k b.predicate_ids ≡ some id → IsKeyed b k id)
          → (k : Text) (id : ℕ) → predicate_id k pushed.predicate_ids ≡ some id
          → IsKeyed pushed k id
      unfolding push_pred predicate_id
      IsKeyed-push known json keyed k id h = elim (Bool-cases (text_eq key k)) [
        | inl same ↦
            let e : key ≡ k = (text_eq_iff key k).0 same in
            let e' : length b.predicates ≡ id = ground arith in
            (
              leaf,
              known,
              json ∙ e,
              subst (λ i. IsEntry c required_literals pushed i leaf) e' entry_push,
            )
        | inr differ ↦
            let (l, k', j, e) = keyed k id (ground arith) in
            (l, k', j, IsEntry-Follows c required_literals b pushed id l Follows-push e)
      ]

  -- The builder that a leaf leaves is as sound as before, since its predicates are the same.
  pub IsSound-Grows : (b b' : B c required_literals) → IsSound b → Grows b b' → IsSound b'
  IsSound-Grows b b' sound grows =
      let follows = Grows-Follows b b' grows in
      record {
        tidy = grows.tidy;
        atoms_length =
            ap length grows.atoms ∙ sound.atoms_length ∙ sym (ap length grows.predicates);
        entries = λ id p h.
            let (l, e) =
              sound.entries id p (sym (ap (λ ps. get_elem? ps id) grows.predicates) ∙ h) in
            (l, IsEntry-Follows c required_literals b b' id l follows e);
        keyed = λ key id h.
            let (l, k, j, e) =
              sound.keyed key id (sym (ap (predicate_id key) grows.predicate_ids) ∙ h) in
            (l, k, j, IsEntry-Follows c required_literals b b' id l follows e);
      }

  pub IsSound-push :
      (b : B c required_literals) (leaf : Expr Float) (p : Pred Float Regex)
      (atom : Option (List Ref))
      → IsSound b
      → Known leaf
      → IsRight c (store b) leaf p atom
      → IsSound (push_pred c required_literals (expr_json leaf) (b, p, atom)).0
  unfolding push_pred
  IsSound-push b leaf p atom sound known right = record {
    tidy = record { lengths = sound.tidy.lengths; ids = sound.tidy.ids };
    atoms_length = omega (
      arith,
      sound.atoms_length,
      length-append b.atoms (atom ∷ []),
      length-append b.predicates (p ∷ []),
    );
    entries = entries_push b (expr_json leaf) p atom leaf right sound.atoms_length sound.entries;
    keyed =
        IsKeyed-push b (expr_json leaf) p atom leaf right sound.atoms_length known refl sound.keyed;
  }

  pub IsSound-empty : IsSound empty_builder
  unfolding predicate_id literal_id
  IsSound-empty = record {
    tidy = record { lengths = refl; ids = λ s t i h. cc };
    atoms_length = refl;
    entries = λ id p h. cc;
    keyed = λ key id h. cc;
  }
