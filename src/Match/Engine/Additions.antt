-- ===== src/Match/Engine/Additions.antt =====
-- `GroupBuilder::source` and `GroupBuilder::literal`: each returns a place that holds what was asked
-- for, and all that was there keeps its place.
use goliath_siem.Base.{
  ℕ, zero, suc, ◌≡◌, ◌<◌, inl, inr, refl, ◌∙◌, Bool, ◌&&◌, Option, none, some, Option-cases, List,
  [], ◌∷◌, ◌++◌, Text, text_eq, text_eq_iff, get_elem?, get_or, set, length, length-append, arith,
  Bool-cases, ◌==◌,
}
use goliath_siem.Base.Elems.{
  get_elem?-append_left, get_elem?-append_length, get_elem?-lt, get_or-set_self, get_or-set_ne,
  length-set,
}
use native.Mathlib.Decide.{ℕ_discrete}
use goliath_siem.Match.Engine.{Origin}
use goliath_siem.Match.Engine.Builder.{
  Builder, source_position, literal_id, add_source, add_literal, add_literals, add_required,
}
use goliath_siem.Match.Engine.Denotation.{Store, lit}
use goliath_siem.Match.Engine.Grow.{
  Extends, Extends-refl, Extends-trans, IsSource, IsTidy, IsSource-Extends, Names, IsNamed,
  source_position-get_elem?,
}

module _ {F R : Type 0} where
  abbrev pub store : Builder F R → Store
  store b = record { sources = b.sources; literals = b.literals }

  -- The builder has grown, and its predicates are as they were.
  pub record Grows (b b' : Builder F R) : Type 0 where
    pub extends : Extends (store b) (store b')
    pub tidy : IsTidy b'
    pub predicates : b'.predicates ≡ b.predicates
    pub predicate_ids : b'.predicate_ids ≡ b.predicate_ids
    pub atoms : b'.atoms ≡ b.atoms

  pub Grows-refl : (b : Builder F R) → IsTidy b → Grows b b
  Grows-refl b tidy = record {
    extends = Extends-refl (store b);
    tidy = tidy;
    predicates = refl;
    predicate_ids = refl;
    atoms = refl;
  }

  pub Grows-trans : (a b d : Builder F R) → Grows a b → Grows b d → Grows a d
  Grows-trans a b d f g = record {
    extends = Extends-trans (store a) (store b) (store d) f.extends g.extends;
    tidy = g.tidy;
    predicates = g.predicates ∙ f.predicates;
    predicate_ids = g.predicate_ids ∙ f.predicate_ids;
    atoms = g.atoms ∙ f.atoms;
  }

  -- A new source at the end, with no literals.
  abbrev with_source : Builder F R → Origin → Bool → Builder F R
  with_source b origin cased = record b {
    sources = b.sources ++ (origin, cased) ∷ [];
    literals = b.literals ++ [] ∷ [];
  }

  literals_with_source :
      (b : Builder F R) (origin : Origin) (cased : Bool) (s i : ℕ) (l : Text)
      → get_elem? (get_or b.literals s []) i ≡ some l
      → get_elem? (get_or (b.literals ++ [] ∷ []) s []) i ≡ some l
  literals_with_source b origin cased s i l h = go b.literals s h
    where
      go :
          (ls : List (List Text)) (s : ℕ)
          → get_elem? (get_or ls s []) i ≡ some l
          → get_elem? (get_or (ls ++ [] ∷ []) s []) i ≡ some l
      go [] zero h = h
      go [] (suc s) h = h
      go (x ∷ ls) zero h = h
      go (x ∷ ls) (suc s) h = go ls s h

  Grows-with_source :
      (b : Builder F R) (origin : Origin) (cased : Bool)
      → IsTidy b
      → Grows b (with_source b origin cased)
  Grows-with_source b origin cased tidy = record {
    extends = record {
      sources = λ s x h. get_elem?-append_left b.sources _ s x h;
      literals = unfold lit in literals_with_source b origin cased;
    };
    tidy = record {
      lengths = omega (
        arith,
        tidy.lengths,
        length-append b.literals ([] ∷ []),
        length-append b.sources ((origin, cased) ∷ []),
      );
      ids = λ s t i h. literals_with_source b origin cased s i t (tidy.ids s t i h);
    };
    predicates = refl;
    predicate_ids = refl;
    atoms = refl;
  }

  -- `GroupBuilder::source` returns the index of a source as asked for.
  pub add_source_lem :
      (b : Builder F R) (origin : Origin) (cased : Bool)
      → IsTidy b
      → Grows b (add_source b origin cased).0
        × (get_elem? (add_source b origin cased).0.sources (add_source b origin cased).1
            ≡ some (origin, cased))
  unfolding add_source
  add_source_lem b origin cased tidy =
      elim (Option-cases (source_position origin cased b.sources)) [
        | inl e ↦
            rw (e, add_source)
              (
                Grows-with_source b origin cased tidy,
                get_elem?-append_length b.sources (origin, cased),
              )
        | inr (i, e) ↦
            rw (e, add_source)
              (Grows-refl b tidy, source_position-get_elem? origin cased b.sources i e)
      ]

  abbrev known : Builder F R → ℕ → List Text
  known b source = get_or b.literals source []

  abbrev with_literal : Builder F R → ℕ → Text → Builder F R
  with_literal b source t = record b {
    literals = set b.literals source (known b source ++ t ∷ []);
    literal_ids = ((source, t), length (known b source)) ∷ b.literal_ids;
  }

  module _ (b : Builder F R) (source : ℕ) (t : Text) (inside : source < length b.literals) where
    known-with_literal : known (with_literal b source t) source ≡ known b source ++ t ∷ []
    known-with_literal = get_or-set_self b.literals source _ [] inside

    literals_with_literal :
        (s i : ℕ) (l : Text)
        → get_elem? (known b s) i ≡ some l
        → get_elem? (known (with_literal b source t) s) i ≡ some l
    literals_with_literal s i l h = elim (ℕ_discrete source s) [
      | yes e ↦
          let h' : get_elem? (known b source) i ≡ some l = rw e h in
          rw (← e, known-with_literal) (get_elem?-append_left (known b source) _ i l h')
      | no n ↦ rw (get_or-set_ne b.literals source s (known b source ++ t ∷ []) [] n) h
    ]

    new_literal :
        get_elem? (known (with_literal b source t) source) (length (known b source)) ≡ some t
    new_literal = rw known-with_literal (get_elem?-append_length (known b source) t)

    ids_with_literal :
        IsTidy b
        → (s : ℕ) (u : Text) (i : ℕ) → literal_id s u (with_literal b source t).literal_ids ≡ some i
        → get_elem? (known (with_literal b source t) s) i ≡ some u
    unfolding literal_id
    ids_with_literal tidy s u i h = elim (Bool-cases (source == s && text_eq t u)) [
      | inl same ↦
          let e₁ : source ≡ s = ground arith in
          let e₂ : t ≡ u = (text_eq_iff t u).0 (ground arith) in
          let e₃ : length (known b source) ≡ i = ground arith in rw (← e₁, ← e₂, ← e₃) new_literal
      | inr differ ↦ literals_with_literal s i u (tidy.ids s u i (ground arith))
    ]

    Grows-with_literal : IsTidy b → Grows b (with_literal b source t)
    Grows-with_literal tidy = record {
      extends = record { sources = λ s x h. h; literals = unfold lit in literals_with_literal };
      tidy = record {
        lengths = length-set b.literals source _ ∙ tidy.lengths;
        ids = ids_with_literal tidy;
      };
      predicates = refl;
      predicate_ids = refl;
      atoms = refl;
    }

  -- `GroupBuilder::literal` returns the index of the literal in its source.
  pub add_literal_lem :
      (b : Builder F R) (source : ℕ) (t : Text)
      → IsTidy b
      → IsSource (store b) source
      → Grows b (add_literal b source t).0
        × (lit (store (add_literal b source t).0) source (add_literal b source t).1 ≡ some t)
  unfolding add_literal lit
  add_literal_lem b source t tidy (x, h) =
      let inside : source < length b.literals =
        omega (arith, tidy.lengths, get_elem?-lt b.sources source x h) in
      elim (Option-cases (literal_id source t b.literal_ids)) [
        | inl e ↦
            rw (e, add_literal)
              (Grows-with_literal b source t inside tidy, new_literal b source t inside)
        | inr (i, e) ↦ rw (e, add_literal) (Grows-refl b tidy, tidy.ids source t i e)
      ]

  pub add_literals_lem :
      (b : Builder F R) (source : ℕ) (texts : List Text)
      → IsTidy b
      → IsSource (store b) source
      → Grows b (add_literals b source texts).0
        × Names (store (add_literals b source texts).0) source (add_literals b source texts).1 texts
  unfolding add_literals
  add_literals_lem b source [] tidy h = (Grows-refl b tidy, tt)
  add_literals_lem b source (t ∷ texts) tidy h =
      let (grows, named) = add_literal_lem b source t tidy h in
      let b' = (add_literal b source t).0 in
      let (grows', names) =
        add_literals_lem b' source texts grows.tidy (IsSource-Extends grows.extends source h) in
      (Grows-trans b b' _ grows grows', (grows'.extends.literals source _ t named, names))

  pub add_required_lem :
      (b : Builder F R) (source : ℕ) (required : Option Text)
      → IsTidy b
      → IsSource (store b) source
      → Grows b (add_required b source required).0
        × IsNamed
            (store (add_required b source required).0)
            source
            (add_required b source required).1
            required
  unfolding add_required
  add_required_lem b source none tidy h = (Grows-refl b tidy, tt)
  add_required_lem b source (some t) tidy h = add_literal_lem b source t tidy h
