-- ===== src/Match/Engine/Equivalence.antt =====
-- The engine against the reference evaluator. They ask a regular expression about a boolean
-- differently, so they agree on events whose fields have none.
use goliath_siem.Base.{
  ℕ, ◌≡◌, ◌↔◌, inl, inr, refl, sym, subst, ap, ap₂, ◌∙◌, Bool, true, not, ◌&&◌, ◌||◌, and_intro,
  and_left, and_right, any, Option, none, some, List, [], ◌∷◌, Text, get_elem?, In,
}
use goliath_siem.Json
use goliath_siem.Rule.FieldPath.{FieldPath}
use goliath_siem.Rule.Resolved
use goliath_siem.Rule.Resolved.{Expr, Exprs, Test, RegexFlags, ResolvedRule}
use goliath_siem.Crates.{Crates}
use goliath_siem.Match.Laws.{Laws}
use goliath_siem.Match.Semantics.{Event, pool}
use goliath_siem.Match.Reference
use goliath_siem.Match.Reference.{ReferenceRule, ok, ◌>>=◌, >>=-eq-ok, has_class, compile}
use goliath_siem.Match.Meaning.{
  expr_holds, all_hold, any_holds, test_holds, regex_holds, asks_text, asks_but_booleans,
  evaluate_lem,
}
use goliath_siem.Match.Engine.Compile
use goliath_siem.Match.Engine.Compile.{Engine}
use goliath_siem.Match.Engine.Evaluate.{Scratch, matches_into}
use goliath_siem.Match.Engine.Grow.{All}
use goliath_siem.Match.Engine.Right.{leaf_holds}
use goliath_siem.Match.Engine.RegexLeaf.{RequiresSound}
use goliath_siem.Match.Engine.Sound.{AreApart}
use goliath_siem.Match.Engine.Scratch.{IsReady}
use goliath_siem.Match.Engine.Grouping.{Class}
use goliath_siem.Match.Engine.Agreement.{AreClassesApart, AreKnownRules, matches_into_iff}

any-In_ext {ℓ} :
    {A : Type ℓ} (p q : A → Bool) (xs : List A)
    → ((x : A) → In x xs → p x ≡ q x)
    → any p xs ≡ any q xs
any-In_ext p q [] h = refl
any-In_ext p q (x ∷ xs) h = ap₂ ◌||◌ (h x (inl refl)) (any-In_ext p q xs (λ y i. h y (inr i)))

module _ (c : Crates) where
  open c use {Float, Regex}

  abbrev pub IsPlain : Event c → Type 0
  IsPlain (Json.bool flag) = ⊥
  IsPlain _ = Unit

  -- No field of the event is a boolean.
  abbrev pub HasNoBool : Event c → Type 0
  HasNoBool event =
      (ps : List FieldPath) (value : Event c) → In value (pool c event ps) → IsPlain value

  asks_plain :
      (re : Regex) (value : Event c)
      → IsPlain value
      → asks_text c re value ≡ asks_but_booleans c re value
  unfolding asks_but_booleans
  asks_plain re Json.null h = refl
  asks_plain re (Json.bool flag) h = absurd h
  asks_plain re (Json.number n) h = refl
  asks_plain re (Json.string s) h = refl
  asks_plain re (Json.array items) h = refl
  asks_plain re (Json.object fields) h = refl

  regex_plain :
      (o : Option Regex) (values : List (Event c))
      → ((v : Event c) → In v values → IsPlain v)
      → regex_holds c (asks_text c) o values ≡ regex_holds c (asks_but_booleans c) o values
  unfolding regex_holds
  regex_plain none values h = refl
  regex_plain (some re) values h = any-In_ext _ _ values (λ v i. asks_plain re v (h v i))

  module _ (event : Event c) (plain : HasNoBool event) where
    test_plain :
        (test : Test Float) (ps : List FieldPath)
        → test_holds c (asks_text c) test (pool c event ps) event
          ≡ test_holds c (asks_but_booleans c) test (pool c event ps) event
    unfolding test_holds
    test_plain (Test.regex p flags) ps =
        regex_plain (c.regex_build p flags) (pool c event ps) (plain ps)
    test_plain (Test.string t) ps = refl
    test_plain (Test.cidr n) ps = refl
    test_plain (Test.exists b) ps = refl
    test_plain Test.null ps = refl
    test_plain (Test.equals n) ps = refl
    test_plain (Test.boolean b) ps = refl
    test_plain (Test.compare op n) ps = refl
    test_plain (Test.field_ref p b) ps = refl

    mutual
      unfolding expr_holds

      expr_plain : (e : Expr Float) → expr_holds c (asks_text c) e event ≡ leaf_holds c e event
      expr_plain (Resolved.and es) = (exprs_plain es).0
      expr_plain (Resolved.or es) = (exprs_plain es).1
      expr_plain (Resolved.not e) = ap not (expr_plain e)
      expr_plain (Resolved.field p) = test_plain p.test p.paths
      expr_plain (Resolved.keyword test) = refl

      exprs_plain :
          (es : Exprs Float)
          → (all_hold c (asks_text c) es event ≡ all_hold c (asks_but_booleans c) es event)
            × (any_holds c (asks_text c) es event ≡ any_holds c (asks_but_booleans c) es event)
      exprs_plain Resolved.nil = (refl, refl)
      exprs_plain (Resolved.cons e es) =
          let (alls, anys) = exprs_plain es in
          (ap₂ ◌&&◌ (expr_plain e) alls, ap₂ ◌||◌ (expr_plain e) anys)

    -- A compiled reference rule matches where its class and condition hold.
    reference_lem :
        (rule : ResolvedRule Float) (r : ReferenceRule c)
        → Reference.new c rule ≡ ok r
        → Reference.matches c r event
          ≡ (has_class c rule.class event && leaf_holds c rule.condition event)
    unfolding Reference.new Reference.matches
    reference_lem rule r h =
        let (node, e₁, e₂) = >>=-eq-ok _ _ h in
        let made : record { rule = rule; condition = node } ≡ r = cc in
        subst
          (λ (r : ReferenceRule c).
            (has_class c r.rule.class event && Reference.evaluate c r.condition event)
            ≡ (has_class c rule.class event && leaf_holds c rule.condition event))
          made
          (ap (λ b. has_class c rule.class event && b)
            (evaluate_lem c rule.condition node e₁ event ∙ expr_plain rule.condition))

module _ (c : Crates) (required_literals : Text → RegexFlags → Option (List Text))
    (Known : Expr c.Float → Type 0) (KnownClass : Class c required_literals → Type 0)
    (laws : Laws c) (requires : RequiresSound c required_literals)
    (apart : AreApart c required_literals Known)
    (classes : AreClassesApart c required_literals Known KnownClass)
    (rules : List (ResolvedRule c.Float))
    (known : AreKnownRules c required_literals Known KnownClass rules) where
  -- Where the crates keep their laws, matched texts contain a literal that their expression requires,
  -- and the serialized forms tell the rules' leaves and classes apart: for an event whose fields hold
  -- no boolean, and with working memory that is ready, an engine that compiled finds a rule exactly
  -- when the reference evaluator of the rule, if that compiled, matches the event.
  pub engine-reference_iff :
      (engine : Engine c required_literals)
      → Compile.new c required_literals rules ≡ ok engine
      → (event : Event c) (work : Scratch c) → All IsReady work
      → HasNoBool c event
      → (index : ℕ) (rule : ResolvedRule c.Float) (reference : ReferenceRule c)
      → get_elem? rules index ≡ some rule
      → Reference.new c rule ≡ ok reference
      → In index (matches_into c required_literals engine event work).1
        ↔ (Reference.matches c reference event ≡ true)
  engine-reference_iff engine h event work ready plain index rule reference here compiled =
      let (f, g) =
        matches_into_iff c required_literals Known KnownClass laws requires apart classes rules
          known engine h event work ready index in
      let meaning = reference_lem c event plain rule reference compiled in
      (
        (λ i.
            let m = f i in
            let is_rule = m.is_rule in
            let same : m.rule ≡ rule = cc in
            meaning
            ∙ subst (λ r. (has_class c r.class event && leaf_holds c r.condition event) ≡ true) same
                (and_intro _ _ m.class m.condition)),
        (λ e.
            let both : (has_class c rule.class event && leaf_holds c rule.condition event) ≡ true =
              sym meaning ∙ e in
            g (record {
              rule = rule;
              is_rule = here;
              class = and_left _ _ both;
              condition =
                  and_right (has_class c rule.class event) (leaf_holds c rule.condition event) both;
            })),
      )
