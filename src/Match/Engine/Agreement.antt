-- ===== src/Match/Engine/Agreement.antt =====
-- `Engine::new` with `Engine::matches_into`: over the rules of an engine, the answer for an event.
use goliath_siem.Base.{
  ℕ, ◌+◌, ◌≡◌, ◌↔◌, inl, inr, sym, subst, ap, ◌∙◌, Option, some, List, [], ◌∷◌, Text, get_elem?, In,
  arith,
}
use goliath_siem.Rule.Resolved.{Expr, RegexFlags, ResolvedRule}
use goliath_siem.Crates.{Crates}
use goliath_siem.Match.Laws.{Laws}
use goliath_siem.Match.Semantics.{Event}
use goliath_siem.Match.Reference.{ok, >>=-eq-ok, has_class}
use goliath_siem.Match.Engine.Compile
use goliath_siem.Match.Engine.Compile.{Engine, build_groups, group_rules}
use goliath_siem.Match.Engine.Evaluate.{Scratch, matches_into, scratch}
use goliath_siem.Match.Engine.Evaluate
use goliath_siem.Match.Engine.Grow.{All}
use goliath_siem.Match.Engine.Right.{leaf_holds}
use goliath_siem.Match.Engine.RegexLeaf.{RequiresSound}
use goliath_siem.Match.Engine.Sound.{HasLeaves, AreApart}
use goliath_siem.Match.Engine.Scratch.{IsReady}
use goliath_siem.Match.Engine.Grouping.{
  Class, Entry, Entries, HasMember, IsFair, IsFrom, group_rules-member, group_rules-IsFair,
}
use goliath_siem.Match.Engine.Correct.{
  AreGroupsOf, AreKnown, build_groups_lem, sort_indices-In, IsMemberMatch,
}
use goliath_siem.Match.Engine.Result.{
  AnyMatch, evaluate_groups_iff, evaluate_groups-AreReady, fitting, fitting-AreFit,
  fitting-AreReady, AnyMatch-In, In-AnyMatch, In-All, IsMatchingRule,
}

module _ (c : Crates) (required_literals : Text → RegexFlags → Option (List Text))
    (Known : Expr c.Float → Type 0) (KnownClass : Class c required_literals → Type 0) where
  -- Known classes with one serialized form are one class.
  abbrev pub AreClassesApart : Type 0
  AreClassesApart =
      (a b : Class c required_literals)
      → KnownClass a
      → KnownClass b
      → c.class_json a ≡ c.class_json b
      → a ≡ b

  -- The rules of an engine, with known classes and leaves.
  abbrev pub AreKnownRules : List (ResolvedRule c.Float) → Type 0
  AreKnownRules rules =
      (index : ℕ) (rule : ResolvedRule c.Float)
      → get_elem? rules index ≡ some rule
      → KnownClass rule.class × HasLeaves Known rule.condition

  module _ (laws : Laws c) (requires : RequiresSound c required_literals)
      (apart : AreApart c required_literals Known) (classes : AreClassesApart)
      (rules : List (ResolvedRule c.Float)) (known : AreKnownRules rules) where
    abbrev IsRule : ℕ → ResolvedRule c.Float → Type 0
    IsRule index rule = get_elem? rules index ≡ some rule

    abbrev entries : Entries c required_literals
    entries = group_rules c required_literals 0 rules []

    are-IsFair : All (IsFair c required_literals IsRule) entries
    are-IsFair =
        group_rules-IsFair c required_literals IsRule 0 rules []
          (λ position rule h.
            let same : position ≡ 0 + position = omega arith in subst (λ n. IsRule n rule) same h)
          tt

    members-Known :
        (key : Text) (members : List (ℕ × Expr c.Float))
        → All (IsFrom c required_literals IsRule key) members
        → All (λ (index, e). HasLeaves Known e) members
    members-Known key [] h = tt
    members-Known key ((index, e) ∷ members) ((rule, is, json, same), h) =
        (subst (HasLeaves Known) same (known index rule is).1, members-Known key members h)

    entries-Known :
        (es : Entries c required_literals)
        → All (IsFair c required_literals IsRule) es
        → All (AreKnown c required_literals Known) es
    entries-Known [] h = tt
    entries-Known ((key, class, members) ∷ es) ((first, all), h) =
        (members-Known key members all, entries-Known es h)

    engine_groups :
        (engine : Engine c required_literals)
        → Compile.new c required_literals rules ≡ ok engine
        → AreGroupsOf c required_literals Known entries engine.groups
    unfolding Compile.new
    engine_groups engine h =
        let (groups, e₁, e₂) = >>=-eq-ok _ _ h in
        let made : record { rules = rules; groups = groups } ≡ engine = cc in
        let are =
          build_groups_lem c required_literals Known laws requires apart entries groups
            (entries-Known entries are-IsFair) e₁ in
        subst
          (λ (e : Engine c required_literals).
            AreGroupsOf c required_literals Known entries e.groups)
          made are

    module _ (event : Event c) (index : ℕ) where
      Match-rule :
          (entry : Entry c required_literals)
          → In entry entries
          → IsMemberMatch c required_literals Known event entry index
          → IsMatchingRule c required_literals Known laws rules event index
      Match-rule entry i m =
          let ((i₀, r₀, is₀, json₀, same₀), all) =
            In-All c required_literals Known laws (IsFair c required_literals IsRule) entries entry
              i are-IsFair in
          let (rule, is, json, same) =
            In-All c required_literals Known laws (IsFrom c required_literals IsRule entry.0)
              entry.2 (index, m.condition) m.member all in
          let one : entry.1 ≡ rule.class =
            sym same₀
            ∙ classes r₀.class rule.class (known i₀ r₀ is₀).0 (known index rule is).0
                (json₀ ∙ sym json) in
          record {
            rule = rule;
            is_rule = is;
            class = ap (λ cl. has_class c cl event) (sym one) ∙ m.class;
            condition = ap (λ e. leaf_holds c e event) same ∙ m.holds;
          }

      rule-Match :
          IsMatchingRule c required_literals Known laws rules event index
          → AnyMatch c required_literals Known laws event entries index
      rule-Match r =
          let same : 0 + index ≡ index = omega arith in
          let has : HasMember c required_literals entries (c.class_json r.rule.class)
              (index, r.rule.condition) =
            subst
              (λ n.
                HasMember c required_literals entries (c.class_json r.rule.class)
                  (n, r.rule.condition))
              same (group_rules-member c required_literals 0 rules [] index r.rule r.is_rule) in
          let ((i₀, r₀, is₀, json₀, same₀), all) =
            In-All c required_literals Known laws (IsFair c required_literals IsRule) entries _
              has.entry are-IsFair in
          let one : has.class ≡ r.rule.class =
            sym same₀
            ∙ classes r₀.class r.rule.class (known i₀ r₀ is₀).0 (known index r.rule r.is_rule).0
                json₀ in
          In-AnyMatch c required_literals Known laws event entries index
            (c.class_json r.rule.class, has.class, has.members) has.entry
            (record {
              class = ap (λ cl. has_class c cl event) one ∙ r.class;
              condition = r.rule.condition;
              member = has.is_member;
              holds = r.condition;
            })

    -- Where the crates keep their laws, matched texts contain a literal that their expression
    -- requires, and the serialized forms tell the rules' leaves and classes apart: with working
    -- memory that is ready, an engine that compiled finds an index for an event exactly when it is
    -- the index of a rule whose class and condition hold for the event, where a regular expression
    -- holds of a string's or a number's text, and never of a boolean.
    pub matches_into_iff :
        (engine : Engine c required_literals)
        → Compile.new c required_literals rules ≡ ok engine
        → (event : Event c) (work : Scratch c) → All IsReady work
        → (index : ℕ)
        → In index (matches_into c required_literals engine event work).1
          ↔ IsMatchingRule c required_literals Known laws rules event index
    unfolding matches_into
    matches_into_iff engine h event work ready index =
        let fit = fitting c required_literals Known laws event engine work in
        let (f, g) =
          evaluate_groups_iff c required_literals Known laws event entries engine.groups fit []
            index (engine_groups engine h)
            (fitting-AreFit c required_literals Known laws event engine work ready) in
        let (f', g') =
          sort_indices-In c index (Evaluate.evaluate_groups c engine.groups event fit []).1 in
        (
          (λ i. elim (f (f' i)) [
            | inl never ↦ absurd never.lower
            | inr m ↦
                let (entry, j, m') =
                  AnyMatch-In c required_literals Known laws event entries index m in
                Match-rule event index entry j m'
          ]),
          (λ r. g' (g (inr (rule-Match event index r)))),
        )

  -- Working memory that is ready before an event is ready after it, for any engine: each group has no
  -- hit and nothing found, and no mark beyond its generation, which is below 2 ^ 32.
  pub matches_into-AreReady :
      (laws : Laws c) (engine : Engine c required_literals) (event : Event c) (work : Scratch c)
      → All IsReady work
      → All IsReady (matches_into c required_literals engine event work).0
  unfolding matches_into
  matches_into-AreReady laws engine event work ready =
      evaluate_groups-AreReady c required_literals Known laws event engine.groups
        (fitting c required_literals Known laws event engine work) []
        (fitting-AreReady c required_literals Known laws event engine work ready)
