-- ===== src/Match/EngineRules.antt =====
-- A small set of rules that the engine is tested with, and what the theorems about the engine ask
-- of it.
use goliath_siem.Base.{
  ℕ, ◌≡◌, ◌≢◌, ◌⊎◌, inl, inr, refl, sym, subst, ap, ◌∙◌, false, none, some, List, [], ◌∷◌, Text,
  text, zero, suc, arith, length,
}
use goliath_siem.Base.Int.{pos}
use goliath_siem.Json
use goliath_siem.Json.{Value}
use goliath_siem.Rule.FieldPath.{FieldPath}
use goliath_siem.Rule.Resolved
use goliath_siem.Rule.Resolved.{Expr, Exprs, ResolvedRule, ClassValue, RegexFlags}
use goliath_siem.Sigma.Pattern
use goliath_siem.Match.Reference.{Compiled, ok, compile_error}
use goliath_siem.Match.Engine.Builder.{add_predicate}
use goliath_siem.Match.Engine.Compile
use goliath_siem.Match.Engine.Compile.{Engine}
use goliath_siem.Match.Engine.Sound.{
  HasLeaves, leaves_and, leaves_or, leaves_not, leaves_field, leaves_keyword, leaves_nil,
  leaves_cons, AreApart,
}
use goliath_siem.Match.Engine.Agreement.{AreClassesApart, AreKnownRules}
use goliath_siem.Match.Samples.{sample_expr_json, sample_class_json, sample_crates, sample_required}

abbrev path : Text → FieldPath
path name = record { text = name; segments = name ∷ [] }

abbrev sample_class : List (FieldPath × ClassValue)
sample_class = (path (text "class_uid"), Resolved.ClassValue.integer (pos 1)) ∷ []

unfoldable pub image_leaf : Expr Unit
unfolding Pattern.parse
image_leaf = Resolved.field (record {
  paths = path (text "image") ∷ [];
  test = Resolved.Test.string (record { pattern = Pattern.parse (text "*cmd.exe"); cased = false });
})

unfoldable pub keyword_leaf : Expr Unit
unfolding Pattern.parse
keyword_leaf = Resolved.keyword (record { pattern = Pattern.parse (text "*evil?"); cased = false })

abbrev pub regex_leaf : Expr Unit
regex_leaf = Resolved.field (record {
  paths = path (text "image") ∷ [];
  test =
      Resolved.Test.regex (text "c:cmd.exe")
        (record { case_insensitive = false; multiline = false; dot_all = false });
})

abbrev pub rule_of : List (FieldPath × ClassValue) → Expr Unit → ResolvedRule Unit
rule_of class condition = record {
  title = text "sample";
  id = none;
  mapping = record { name = text "ocsf"; version = 1 };
  class = class;
  condition = condition;
}

abbrev pub sample_rules : List (ResolvedRule Unit)
sample_rules =
    rule_of sample_class
      (Resolved.or (Resolved.cons image_leaf (Resolved.cons keyword_leaf Resolved.nil)))
    ∷ rule_of [] (
        Resolved.and
          (Resolved.cons regex_leaf (Resolved.cons (Resolved.not keyword_leaf) Resolved.nil)))
    ∷ rule_of sample_class keyword_leaf
    ∷ []

abbrev pub sample_event : Value Unit
sample_event = Json.object (
    Json.field (text "class_uid") (Json.number tt)
      (Json.field (text "image") (Json.string (text "c:cmd.exe")) Json.end))

abbrev engine_of :
    Compiled (Engine sample_crates sample_required) → Engine sample_crates sample_required
engine_of (ok engine) = engine
engine_of compile_error = record { rules = []; groups = [] }

abbrev pub sample_engine : Engine sample_crates sample_required
sample_engine = engine_of (Compile.new sample_crates sample_required sample_rules)

pub compiles : Compile.new sample_crates sample_required sample_rules ≡ ok sample_engine
unfolding Compile.new add_predicate keyword_leaf image_leaf
compiles = refl

-- The leaves of the rules, told apart by their serialized forms.
abbrev pub Known : Expr Unit → Type 0
Known e = (e ≡ image_leaf) ⊎ ((e ≡ keyword_leaf) ⊎ (e ≡ regex_leaf))

differ : (a b : ℕ) (s t : Text) → a ≢ b → (a ∷ s) ≡ (b ∷ t) → ⊥
differ a b s t h e = h (ap first e)
  where
    first : Text → ℕ
    first [] = 0
    first (x ∷ u) = x

json-differ :
    (l l' k k' : Expr Unit)
    → l ≡ k
    → l' ≡ k'
    → sample_expr_json l ≡ sample_expr_json l'
    → sample_expr_json k ≡ sample_expr_json k'
json-differ l l' k k' e e' h = ap sample_expr_json (sym e) ∙ h ∙ ap sample_expr_json e'

pub leaves_apart : AreApart sample_crates sample_required Known
unfolding image_leaf keyword_leaf
leaves_apart l l' (inl e) (inl e') h = e ∙ sym e'
leaves_apart l l' (inr (inl e)) (inr (inl e')) h = e ∙ sym e'
leaves_apart l l' (inr (inr e)) (inr (inr e')) h = e ∙ sym e'
leaves_apart l l' (inl e) (inr (inl e')) h =
    absurd (differ 115 107 _ _ (omega arith) (json-differ l l' image_leaf keyword_leaf e e' h))
leaves_apart l l' (inl e) (inr (inr e')) h =
    absurd (differ 115 114 _ _ (omega arith) (json-differ l l' image_leaf regex_leaf e e' h))
leaves_apart l l' (inr (inl e)) (inl e') h =
    absurd (differ 107 115 _ _ (omega arith) (json-differ l l' keyword_leaf image_leaf e e' h))
leaves_apart l l' (inr (inl e)) (inr (inr e')) h =
    absurd (differ 107 114 _ _ (omega arith) (json-differ l l' keyword_leaf regex_leaf e e' h))
leaves_apart l l' (inr (inr e)) (inl e') h =
    absurd (differ 114 115 _ _ (omega arith) (json-differ l l' regex_leaf image_leaf e e' h))
leaves_apart l l' (inr (inr e)) (inr (inl e')) h =
    absurd (differ 114 107 _ _ (omega arith) (json-differ l l' regex_leaf keyword_leaf e e' h))

abbrev pub KnownClass : List (FieldPath × ClassValue) → Type 0
KnownClass class = (class ≡ []) ⊎ (class ≡ sample_class)

sizes : ¬ (length {A = ℕ} [] ≡ length {A = ℕ} (49 ∷ []))
sizes e = omega (arith, e)

pub classes_apart : AreClassesApart sample_crates sample_required Known KnownClass
classes_apart a b (inl e) (inl e') h = e ∙ sym e'
classes_apart a b (inr e) (inr e') h = e ∙ sym e'
classes_apart a b (inl e) (inr e') h =
    absurd (sizes (ap length (sym (ap sample_class_json e) ∙ h ∙ ap sample_class_json e')))
classes_apart a b (inr e) (inl e') h =
    absurd (sizes (sym (ap length (sym (ap sample_class_json e) ∙ h ∙ ap sample_class_json e'))))

some_value : {A : Type 0} {a b : A} → some a ≡ some b → a ≡ b
some_value h = cc

pub rules-Known : AreKnownRules sample_crates sample_required Known KnownClass sample_rules
unfolding image_leaf keyword_leaf
rules-Known zero rule h =
    subst (λ r. KnownClass r.class × HasLeaves Known r.condition) (some_value h)
      (
        inr refl,
        leaves_or (
            leaves_cons (leaves_field (inl refl))
              (leaves_cons (leaves_keyword (inr (inl refl))) leaves_nil)),
      )
rules-Known (suc zero) rule h =
    subst (λ r. KnownClass r.class × HasLeaves Known r.condition) (some_value h)
      (
        inl refl,
        leaves_and (
            leaves_cons (leaves_field (inr (inr refl)))
              (leaves_cons (leaves_not (leaves_keyword (inr (inl refl)))) leaves_nil)),
      )
rules-Known (suc (suc zero)) rule h =
    subst (λ r. KnownClass r.class × HasLeaves Known r.condition) (some_value h)
      (inr refl, leaves_keyword (inr (inl refl)))
rules-Known (suc (suc (suc i))) rule h = cc
