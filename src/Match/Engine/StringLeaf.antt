-- ===== src/Match/Engine/StringLeaf.antt =====
-- `GroupBuilder::string`: the predicate of a pattern over a source holds where the pattern matches
-- one of the source's texts.
use goliath_siem.Base.{
  ℕ, ◌≡◌, refl, sym, ap, ap₂, ◌∙◌, inl, inr, Bool, true, false, ◌&&◌, ◌||◌, Bool-cases, and_left,
  Option, none, some, Option-cases, List, [], ◌∷◌, ◌++◌, append-nil, any, any_ext, any-In, In-any,
  Text, get_elem?, arith,
}
use goliath_siem.Sigma.Pattern
use goliath_siem.Sigma.Pattern.{Pattern, PatternPart}
use goliath_siem.Crates.{Crates}
use goliath_siem.Match.Semantics.{Event}
use goliath_siem.Match.Engine.{
  Origin, Shape, equals, contains, starts_with, ends_with, Ref, Pred, literal, general,
}
use goliath_siem.Match.Engine.Builder.{
  Builder, shaped, with_text, longest, literal_texts, ref_of, string_pred,
}
use goliath_siem.Match.Engine.Hits.{gather}
use goliath_siem.Match.Engine.Shapes.{
  occurs, occurs_iff, matches-shaped, matches-required, longest-In,
}
use goliath_siem.Match.Engine.Denotation.{
  Store, lit, texts_at, texts_of, occurs_in, literal_holds, required_holds, pred_holds, ref_holds,
}
use goliath_siem.Match.Engine.Grow.{IsPred, IsTidy, IsNamed}
use goliath_siem.Match.Engine.Additions.{store, Grows, add_literal_lem, add_required_lem}
use goliath_siem.Match.Engine.Right.{IsAtom, IsWoken}

with_text-some : (o : Option (Text × Shape)) (x : Text × Shape) → with_text o ≡ some x → o ≡ some x
unfolding with_text
with_text-some none x h = cc
with_text-some (some ([], s)) x h = cc
with_text-some (some (c ∷ u, s)) x h = h

-- A literal that occurs in some way is found.
occurs-contains :
    (shape : Shape) (l t : Text) → occurs shape l t ≡ true → occurs contains l t ≡ true
occurs-contains equals l t h =
    let e = (occurs_iff equals l t).0 h in
    (occurs_iff contains l t).1 ([], [], e ∙ sym (append-nil l))
occurs-contains contains l t h = h
occurs-contains starts_with l t h =
    let (v, e) = (occurs_iff starts_with l t).0 h in (occurs_iff contains l t).1 ([], v, e)
occurs-contains ends_with l t h =
    let (u, e) = (occurs_iff ends_with l t).0 h in
    (occurs_iff contains l t).1 (u, [], e ∙ ap (λ (x : Text). u ++ x) (sym (append-nil l)))

any_implies :
    {A : Type 0} (p q : A → Bool)
    → ((x : A) → p x ≡ true → q x ≡ true)
    → (xs : List A) → any p xs ≡ true
    → any q xs ≡ true
any_implies p q h xs a = let (x, i, e) = any-In p xs a in In-any q xs i (h x e)

module _ (c : Crates) (origin : Origin) (cased : Bool) where
  open c use {Float, Regex}

  abbrev B : Type 0
  B = Builder Float Regex

  -- The predicate over the source holds where the pattern matches a text of the source.
  pub record IsStringPred (b' : B) (pr : Pred Float Regex) (atom : Option (List Ref)) (p : Pattern)
      : Type 0 where
    pub names : IsPred (store b') pr
    pub means :
        (event : Event c)
        → pred_holds c event (store b') pr ≡ any (Pattern.matches p) (gather c origin cased event)
    pub atom_names : IsAtom (store b') atom
    pub wakes :
        (event : Event c)
        → pred_holds c event (store b') pr ≡ true
        → IsWoken c event (store b') atom

  module _ (st : Store) (source : ℕ) (here : get_elem? st.sources source ≡ some (origin, cased))
      (event : Event c) where
    texts-here : texts_at c event st source ≡ gather c origin cased event
    unfolding texts_at texts_of
    texts-here = rw here

    literal_holds-here :
        (shape : Shape) (i : ℕ) (t : Text)
        → lit st source i ≡ some t
        → literal_holds c event st shape source i
          ≡ any (occurs shape t) (gather c origin cased event)
    unfolding literal_holds occurs_in
    literal_holds-here shape i t e = rw (e, texts-here)

    literal_holds-contains :
        (shape : Shape) (i : ℕ) (t : Text)
        → lit st source i ≡ some t
        → literal_holds c event st shape source i ≡ true
        → (literal_holds c event st contains source i || false) ≡ true
    literal_holds-contains shape i t e h =
        let h' : any (occurs shape t) (gather c origin cased event) ≡ true =
          sym (literal_holds-here shape i t e) ∙ h in
        rw (
          literal_holds-here contains i t e,
          any_implies (occurs shape t) (occurs contains t) (occurs-contains shape t)
              (gather c origin cased event) h',
        )

  literal-IsStringPred :
      (b' : B) (source i : ℕ) (p : Pattern) (t : Text) (shape : Shape)
      → get_elem? b'.sources source ≡ some (origin, cased)
      → lit (store b') source i ≡ some t
      → shaped p.parts ≡ some (t, shape)
      → IsStringPred b' (literal source i shape) (some ((source, i) ∷ [])) p
  unfolding pred_holds ref_holds
  literal-IsStringPred b' source i p t shape here e h = record {
    names = (((origin, cased), here), (t, e));
    means = λ event.
        literal_holds-here (store b') source here event shape i t e
        ∙ sym (
            any_ext (Pattern.matches p) (occurs shape t) (matches-shaped p t shape h)
              (gather c origin cased event));
    atom_names = ((((origin, cased), here), (t, e)), tt);
    wakes = λ event holds. literal_holds-contains (store b') source here event shape i t e holds;
  }

  -- Asking first whether the required literal is found changes no answer.
  required-any :
      (texts : List Text) (p : Pattern) (t : Text)
      → longest (literal_texts p.parts) ≡ some t
      → (any (occurs contains t) texts && any (Pattern.matches p) texts)
        ≡ any (Pattern.matches p) texts
  required-any texts p t h = elim (Bool-cases (any (Pattern.matches p) texts)) [
    | inl e ↦
        let found =
          any_implies (Pattern.matches p) (occurs contains t)
            (matches-required p t (longest-In (literal_texts p.parts) t h)) texts e in
        rw (e, found)
    | inr e ↦ ground arith
  ]

  general-IsStringPred :
      (b' : B) (source : ℕ) (required : Option ℕ) (p : Pattern) (o : Option Text)
      → get_elem? b'.sources source ≡ some (origin, cased)
      → longest (literal_texts p.parts) ≡ o
      → IsNamed (store b') source required o
      → IsStringPred b' (general source required p) (ref_of source required) p
  unfolding pred_holds ref_holds required_holds
  general-IsStringPred b' source none p none here h n = record {
    names = (((origin, cased), here), tt);
    means = λ event. ap (any (Pattern.matches p)) (texts-here (store b') source here event);
    atom_names = tt;
    wakes = λ event holds. tt;
  }
  general-IsStringPred b' source none p (some t) here h n = absurd n
  general-IsStringPred b' source (some i) p none here h n = absurd n
  general-IsStringPred b' source (some i) p (some t) here h n = record {
    names = (((origin, cased), here), (((origin, cased), here), (t, n)));
    means = λ event.
        ap₂ ◌&&◌ (literal_holds-here (store b') source here event contains i t n)
          (ap (any (Pattern.matches p)) (texts-here (store b') source here event))
        ∙ required-any (gather c origin cased event) p t h;
    atom_names = ((((origin, cased), here), (t, n)), tt);
    wakes = λ event holds.
        literal_holds-contains (store b') source here event contains i t n (and_left _ _ holds);
  }

  pub string_pred_lem :
      (b : B) (source : ℕ) (p : Pattern)
      → IsTidy b
      → get_elem? b.sources source ≡ some (origin, cased)
      → Grows b (string_pred b source p).0
        × IsStringPred
            (string_pred b source p).0
            (string_pred b source p).1
            (string_pred b source p).2
            p
  unfolding string_pred
  string_pred_lem b source p tidy here = elim (Option-cases (with_text (shaped p.parts))) [
    | inl e ↦
        let (grows, named) =
          add_required_lem b source (longest (literal_texts p.parts)) tidy
            ((origin, cased), here) in
        rw (e, string_pred)
          (
            grows,
            general-IsStringPred _ source _ p _ (grows.extends.sources source (origin, cased) here)
                refl named,
          )
    | inr ((t, shape), e) ↦
        let (grows, named) = add_literal_lem b source t tidy ((origin, cased), here) in
        rw (e, string_pred)
          (
            grows,
            literal-IsStringPred _ source _ p t shape
                (grows.extends.sources source (origin, cased) here) named
                (with_text-some (shaped p.parts) (t, shape) e),
          )
  ]
