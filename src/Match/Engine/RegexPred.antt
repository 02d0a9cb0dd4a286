-- ===== src/Match/Engine/RegexPred.antt =====
-- `GroupBuilder::predicate` on a regular expression: it is asked only where a literal that it
-- requires is found.
use goliath_siem.Base.{
  ap, Bool, ℕ, ◌≡◌, sym, ◌∙◌, inl, inr, true, false, Bool-cases, and_left, and_false, Option, none,
  some, List, [], ◌∷◌, map, any, any-map, Text, get_elem?,
}
use goliath_siem.Rule.FieldPath.{FieldPath}
use goliath_siem.Rule.Resolved.{Test, RegexFlags}
use goliath_siem.Crates.{Crates}
use goliath_siem.Match.Laws.{Laws}
use goliath_siem.Match.Semantics.{Event, pool}
use goliath_siem.Match.Reference.{Compiled, ok, ◌>>=◌, built, >>=-eq-ok, built-eq-ok, Check, regex}
use goliath_siem.Match.Meaning.{expr_holds, test_holds, regex_holds}
use goliath_siem.Match.Engine.{paths, contains, Ref, other}
use goliath_siem.Match.Engine.Builder.{B, Leaf, add_source, add_literals, regex_pred}
use goliath_siem.Match.Engine.Evaluate.{regex_matches_value, holds_check}
use goliath_siem.Match.Engine.Denotation.{pred_holds, any_required_holds, literal_holds, ref_holds}
use goliath_siem.Match.Engine.Grow.{IsTidy, Names, Names-All, All, IsRef}
use goliath_siem.Match.Engine.Additions.{store, Grows-trans, add_source_lem, add_literals_lem}
use goliath_siem.Match.Engine.Right.{leaf_holds, engine_asks}
use goliath_siem.Match.Engine.RegexLeaf.{RequiresSound, found-regex, Names-any}
use goliath_siem.Match.Engine.LeafPred.{IsLeafPred, field_of, plain_lem}

module _ (c : Crates) (required_literals : Text → RegexFlags → Option (List Text)) where
  open c use {Float, Regex, regex_build}

  regex_means :
      (ps : List FieldPath) (p : Text) (flags : RegexFlags) (re : Regex)
      → regex_build p flags ≡ some re
      → (event : Event c)
      → holds_check c (regex re) (pool c event ps) event
        ≡ leaf_holds c (field_of c required_literals ps (Test.regex p flags)) event
  unfolding expr_holds test_holds regex_holds holds_check
  regex_means ps p flags re e event =
      rw e (ap (λ (asks : Regex → Event c → Bool). any (asks re) (pool c event ps)) (engine_asks c))

  refs-any :
      (event : Event c) (b : B c required_literals) (source : ℕ) (indices : List ℕ)
      → any (ref_holds c event (store b)) (map (λ index. (source, index)) indices)
        ≡ any (literal_holds c event (store b) contains source) indices
  unfolding ref_holds
  refs-any event b source indices =
      any-map (λ index. (source, index)) (ref_holds c event (store b)) indices

  required_first :
      (event : Event c) (b : B c required_literals) (ps : List FieldPath)
      (check : Check Float Regex) (source : ℕ) (indices : List ℕ)
      → pred_holds c event (store b) (other ps check (some (source, indices))) ≡ true
      → any (literal_holds c event (store b) contains source) indices ≡ true
  unfolding pred_holds any_required_holds
  required_first event b ps check source indices h = and_left _ _ h

  All-refs :
      (b : B c required_literals) (source : ℕ) (indices : List ℕ)
      → All (IsRef (store b) source) indices
      → All (λ (s, i). IsRef (store b) s i) (map (λ (index : ℕ). (source, index)) indices)
  All-refs b source [] h = tt
  All-refs b source (i ∷ indices) (r, h) = (r, All-refs b source indices h)

  module _ (laws : Laws c) (sound : RequiresSound c required_literals) where
    -- The expression is asked only where one of its literals is found; where it matches, one is.
    required_means :
        (b' : B c required_literals) (ps : List FieldPath) (p : Text) (flags : RegexFlags)
        (re : Regex) (source : ℕ) (indices : List ℕ) (texts : List Text)
        → regex_build p flags ≡ some re
        → required_literals p flags ≡ some texts
        → get_elem? b'.sources source ≡ some (paths ps, false)
        → Names (store b') source indices texts
        → (event : Event c)
        → pred_holds c event (store b') (other ps (regex re) (some (source, indices)))
          ≡ leaf_holds c (field_of c required_literals ps (Test.regex p flags)) event
    unfolding pred_holds any_required_holds
    required_means b' ps p flags re source indices texts e r here names event =
        elim (Bool-cases (any (regex_matches_value c re) (pool c event ps))) [
          | inl m ↦
              let (l, i, found) =
                found-regex c required_literals laws sound p flags re texts e r event ps m in
              let any_found =
                Names-any c required_literals event (store b') source (paths ps) false indices texts
                  l here names i found in
              rw any_found (regex_means ps p flags re e event)
          | inr n ↦
              let fails : holds_check c (regex re) (pool c event ps) event ≡ false =
                unfold holds_check in n in
              and_false (any (literal_holds c event (store b') contains source) indices) _ fails
              ∙ sym (sym (regex_means ps p flags re e event) ∙ fails)
        ]

    abbrev with_regex :
        B c required_literals
        → List FieldPath
        → Option (ℕ × List ℕ)
        → Option (List Ref)
        → Regex
        → Compiled (Leaf c required_literals)
    with_regex b ps required atom re = ok (b, other ps (regex re) required, atom)

    regex_pred-none :
        (b : B c required_literals) (ps : List FieldPath) (p : Text) (flags : RegexFlags)
        → required_literals p flags ≡ none
        → regex_pred c required_literals b ps p flags
          ≡ (built (regex_build p flags) >>= with_regex b ps none none)
    unfolding regex_pred
    regex_pred-none b ps p flags e = rw (e, regex_pred)

    regex_pred-some :
        (b : B c required_literals) (ps : List FieldPath) (p : Text) (flags : RegexFlags)
        (texts : List Text)
        → required_literals p flags ≡ some texts
        → regex_pred c required_literals b ps p flags ≡ (
            let added = add_source b (paths ps) false in
            let named = add_literals added.0 added.1 texts in
            built (regex_build p flags)
            >>= with_regex named.0 ps
                (some (added.1, named.1))
                (some (map (λ index. (added.1, index)) named.1)))
    unfolding regex_pred
    regex_pred-some b ps p flags texts e = rw (e, regex_pred)

    pub regex_pred_lem :
        (b : B c required_literals) (ps : List FieldPath) (p : Text) (flags : RegexFlags)
        → IsTidy b
        → (r : Leaf c required_literals) → regex_pred c required_literals b ps p flags ≡ ok r
        → (o : Option (List Text)) → required_literals p flags ≡ o
        → IsLeafPred c required_literals b (field_of c required_literals ps (Test.regex p flags)) r
    regex_pred_lem b ps p flags tidy r h none e =
        let (re, e₁, e₂) = >>=-eq-ok _ _ (sym (regex_pred-none b ps p flags e) ∙ h) in
        let same : (b, other ps (regex re) none, none) ≡ r = cc in
        rw (← same) (
          plain_lem c required_literals b ps (regex re)
            (field_of c required_literals ps (Test.regex p flags))
            (regex_means ps p flags re (built-eq-ok _ e₁)) tidy)
    regex_pred_lem b ps p flags tidy r h (some texts) e =
        let (re, e₁, e₂) = >>=-eq-ok _ _ (sym (regex_pred-some b ps p flags texts e) ∙ h) in
        let (grows, here) = add_source_lem b (paths ps) false tidy in
        let b₁ = (add_source b (paths ps) false).0 in
        let source = (add_source b (paths ps) false).1 in
        let (grows', names) =
          add_literals_lem b₁ source texts grows.tidy ((paths ps, false), here) in
        let b₂ = (add_literals b₁ source texts).0 in
        let indices = (add_literals b₁ source texts).1 in
        let here' = grows'.extends.sources source (paths ps, false) here in
        let refs = Names-All (store b₂) source indices texts ((paths ps, false), here') names in
        let same : (
          b₂,
          other ps (regex re) (some (source, indices)),
          some (map (λ index. (source, index)) indices),
        )
            ≡ r =
          cc in
        rw (← same) (record {
          grows = Grows-trans b b₁ b₂ grows grows';
          right = record {
            names = refs;
            means =
                required_means b₂ ps p flags re source indices texts (built-eq-ok _ e₁) e here'
                  names;
            atom_names = All-refs b₂ source indices refs;
            wakes = λ event holds.
                refs-any event b₂ source indices
                ∙ required_first event b₂ ps (regex re) source indices holds;
          };
        })
