-- ===== src/Match/Engine/RegexLeaf.antt =====
-- The predicate of a regular expression: where it matches, a literal that it requires is found
-- among the folded texts of its paths.
use goliath_siem.Base.{
  ℕ, ◌≡◌, sym, ap, ◌∙◌, inl, inr, Bool, true, false, Bool-cases, or_left, or_right, or_second,
  Option, some, List, [], ◌∷◌, any, any-append, any-In, In, keep, Text, get_elem?, arith,
}
use goliath_siem.Json
use goliath_siem.Rule.FieldPath.{FieldPath, lookup}
use goliath_siem.Rule.Fold.{fold, fold_into-nil}
use goliath_siem.Rule.Resolved.{RegexFlags}
use goliath_siem.Crates.{Crates}
use goliath_siem.Match.Laws.{Laws}
use goliath_siem.Match.Semantics.{Event, pool, non_null}
use goliath_siem.Match.Engine.{Origin, paths, contains}
use goliath_siem.Match.Engine.Hits.{gather, gather_paths, gathered, buffer}
use goliath_siem.Match.Engine.Evaluate.{regex_matches_value}
use goliath_siem.Match.Engine.Shapes.{occurs}
use goliath_siem.Match.Engine.Denotation.{Store, lit, texts_at, texts_of, occurs_in, literal_holds}
use goliath_siem.Match.Engine.Grow.{Names}

module _ (c : Crates) (required_literals : Text → RegexFlags → Option (List Text)) where
  open c use {Regex, regex_build, is_match, simple_fold}

  -- Of the literals that a regular expression is said to require, every text that it matches
  -- contains one once folded.
  pub record RequiresSound : Type 0 where
    pub contained :
        (p : Text) (flags : RegexFlags) (re : Regex) (literals : List Text) (t : Text)
        → regex_build p flags ≡ some re
        → required_literals p flags ≡ some literals
        → is_match re t ≡ true
        → any (λ l. occurs contains l (fold simple_fold t)) literals ≡ true

  module _ (laws : Laws c) (sound : RequiresSound) (p : Text) (flags : RegexFlags) (re : Regex)
      (literals : List Text) (built : regex_build p flags ≡ some re)
      (required : required_literals p flags ≡ some literals) where
    abbrev Found : List Text → Type 0
    Found texts = (l : Text) × In l literals × (any (occurs contains l) texts ≡ true)

    found_head :
        (t s : Text) (texts : List Text)
        → fold simple_fold t ≡ s
        → is_match re t ≡ true
        → Found (s ∷ texts)
    found_head t s texts e m =
        let (l, i, h) =
          any-In _ literals (sound.contained p flags re literals t built required m) in
        let h' : occurs contains l s ≡ true = ap (occurs contains l) (sym e) ∙ h in (l, i, rw h')

    found_tail : (s : Text) (texts : List Text) → Found texts → Found (s ∷ texts)
    found_tail s texts (l, i, h) = (l, i, ground arith)

    found-gathered :
        (values : List (Event c))
        → any (regex_matches_value c re) (keep (non_null c) values) ≡ true
        → Found (gathered c false values)
    unfolding gathered regex_matches_value non_null buffer
    found-gathered [] h = cc
    found-gathered (Json.null ∷ values) h = found-gathered values h
    found-gathered (Json.bool b ∷ values) h = found_tail _ _ (found-gathered values h)
    found-gathered (Json.array items ∷ values) h = found-gathered values h
    found-gathered (Json.object fields ∷ values) h = found-gathered values h
    found-gathered (Json.string s ∷ values) h = elim (Bool-cases (is_match re s)) [
      | inl m ↦ found_head s _ (gathered c false values) (sym (fold_into-nil simple_fold s)) m
      | inr n ↦ found_tail _ _ (found-gathered values (ground arith))
    ]
    found-gathered (Json.number n ∷ values) h = elim (Bool-cases (is_match re (c.number_text n))) [
      | inl m ↦ found_head (c.number_text n) _ (gathered c false values) (laws.number_folded n) m
      | inr m ↦ found_tail _ _ (found-gathered values (ground arith))
    ]

    found-paths :
        (event : Event c) (ps : List FieldPath)
        → any (regex_matches_value c re) (pool c event ps) ≡ true
        → Found (gather_paths c false ps event)
    unfolding pool gather_paths
    found-paths event [] h = cc
    found-paths event (path ∷ ps) h =
        let here = keep (non_null c) (lookup path event) in
        let joined = λ (l : Text).
          any-append (occurs contains l) (gathered c false (lookup path event))
            (gather_paths c false ps event) in
        let split = sym (any-append (regex_matches_value c re) here (pool c event ps)) ∙ h in
        elim (Bool-cases (any (regex_matches_value c re) here)) [
          | inl e ↦
              let (l, i, f) = found-gathered (lookup path event) e in
              (l, i, joined l ∙ or_left _ _ f)
          | inr e ↦
              let (l, i, f) = found-paths event ps (or_second _ _ split e) in
              (l, i, joined l ∙ or_right _ _ f)
        ]

    -- Where the expression matches a value, one of the literals is found at its source.
    pub found-regex :
        (event : Event c) (ps : List FieldPath)
        → any (regex_matches_value c re) (pool c event ps) ≡ true
        → (l : Text) × In l literals
          × (any (occurs contains l) (gather c (paths ps) false event) ≡ true)
    unfolding gather
    found-regex event ps h = found-paths event ps h

  pub Names-any :
      (event : Event c) (st : Store) (source : ℕ) (origin : Origin) (cased : Bool)
      (indices : List ℕ) (texts : List Text) (l : Text)
      → get_elem? st.sources source ≡ some (origin, cased)
      → Names st source indices texts
      → In l texts
      → any (occurs contains l) (gather c origin cased event) ≡ true
      → any (literal_holds c event st contains source) indices ≡ true
  unfolding literal_holds occurs_in texts_at texts_of
  Names-any event st source origin cased [] [] l here n i h = absurd i.lower
  Names-any event st source origin cased [] (t ∷ ts) l here n i h = absurd n
  Names-any event st source origin cased (k ∷ ks) [] l here n i h = absurd n
  Names-any event st source origin cased (k ∷ ks) (t ∷ ts) l here (e, n) (inl same) h =
      let e' : lit st source k ≡ some l = e ∙ ap some (sym same) in rw (e', here, h)
  Names-any event st source origin cased (k ∷ ks) (t ∷ ts) l here (e, n) (inr i) h =
      ground (arith, Names-any event st source origin cased ks ts l here n i h)
