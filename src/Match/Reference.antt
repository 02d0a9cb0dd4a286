-- ===== src/Match/Reference.antt =====
-- crates/goliath-match/src/reference.rs: the reference evaluator, which asks each rule by itself.
-- `F` and `R` are the types of floating point numbers and of compiled regular expressions.
use goliath_siem.Base.{
  ◌≡◌, refl, Bool, true, false, not, ◌&&◌, ◌||◌, Option, none, some, List, all, any,
}
use goliath_siem.Rule.FieldPath.{FieldPath}
use goliath_siem.Rule.Resolved
use goliath_siem.Rule.Resolved.{
  Expr, Exprs, Predicate, StringTest, Test, RegexFlags, ResolvedRule, ClassValue,
}
use goliath_siem.Crates.{Crates}
use goliath_siem.Match.Semantics.{
  Event, pool, has_class_value, string_matches, text_of, test_values, any_string, is_some_and,
}

-- `Result` with the error `CompileError`, of which only the presence is modelled.
pub data Compiled {κ} (X : Type κ) : Type κ where
  compile_error : Compiled X
  ok : X → Compiled X

-- The operator `?` of the source: what follows is done with the value, if there is one.
infixl 5 ◌>>=◌
abbrev pub ◌>>=◌ {κ ℓ} :
    {X : Type κ} → {Y : Type ℓ} → (compiled : Compiled X) → (further : X → Compiled Y) → Compiled Y
compile_error >>= further = compile_error
ok value >>= further = further value

abbrev pub built {ℓ} : {A : Type ℓ} → Option A → Compiled A
built none = compile_error
built (some a) = ok a

pub data Check (F R : Type 0) : Type 0 where
  plain : Test F → Check F R
  regex : R → Check F R

mutual
  pub data Node (F R : Type 0) : Type 0 where
    and : Nodes F R → Node F R
    or : Nodes F R → Node F R
    not_node : Node F R → Node F R
    field : List FieldPath → Check F R → Node F R
    keyword : StringTest → Node F R

  pub data Nodes (F R : Type 0) : Type 0 where
    nil : Nodes F R
    cons : Node F R → Nodes F R → Nodes F R

module _ (c : Crates) where
  open c use {Float, Regex, regex_build, is_match}

  unfoldable pub compile_check : Test Float → Compiled (Check Float Regex)
  compile_check (Test.regex pattern flags) = do
    re ← built (regex_build pattern flags)
    ok (regex re)
  compile_check other = ok (plain other)

  unfoldable mutual
    pub compile : Expr Float → Compiled (Node Float Regex)
    compile (Resolved.and operands) = compile_all operands >>= λ nodes. ok (and nodes)
    compile (Resolved.or operands) = compile_all operands >>= λ nodes. ok (or nodes)
    compile (Resolved.not operand) = compile operand >>= λ node. ok (not_node node)
    compile (Resolved.keyword test) = ok (keyword test)
    compile (Resolved.field predicate) =
        compile_check predicate.test >>= λ check. ok (field predicate.paths check)

    pub compile_all : Exprs Float → Compiled (Nodes Float Regex)
    compile_all Resolved.nil = ok nil
    compile_all (Resolved.cons operand operands) =
        compile operand >>= λ node. compile_all operands >>= λ nodes. ok (cons node nodes)

  unfoldable pub holds_check : Check Float Regex → List (Event c) → Event c → Bool
  unfolding text_of test_values
  holds_check (regex re) values event =
      any (λ value. is_some_and (text_of c value) (is_match re)) values
  holds_check (plain test) values event = test_values c test values event

  unfoldable mutual
    pub evaluate : Node Float Regex → Event c → Bool
    evaluate (and operands) event = evaluate_all operands event
    evaluate (or operands) event = evaluate_any operands event
    evaluate (not_node operand) event = not (evaluate operand event)
    evaluate (keyword test) event = any_string c (string_matches c test) event
    evaluate (field paths check) event = holds_check check (pool c event paths) event

    pub evaluate_all : Nodes Float Regex → Event c → Bool
    evaluate_all nil event = true
    evaluate_all (cons node nodes) event = evaluate node event && evaluate_all nodes event

    pub evaluate_any : Nodes Float Regex → Event c → Bool
    evaluate_any nil event = false
    evaluate_any (cons node nodes) event = evaluate node event || evaluate_any nodes event

  pub record ReferenceRule : Type 0 where
    pub rule : ResolvedRule Float
    pub condition : Node Float Regex

  -- `ReferenceRule::new`
  unfoldable pub new : ResolvedRule Float → Compiled ReferenceRule
  unfolding compile compile_check
  new rule =
      compile rule.condition >>= λ condition. ok (record { rule = rule; condition = condition })

  unfoldable pub has_class : List (FieldPath × ClassValue) → Event c → Bool
  unfolding has_class_value
  has_class class event = all (λ (path, expected). has_class_value c event path expected) class

  -- `ReferenceRule::matches`
  unfoldable pub matches : ReferenceRule → Event c → Bool
  unfolding has_class evaluate
  matches r event = has_class r.rule.class event && evaluate r.condition event

-- What follows a fallible step succeeds only with the step's value.
pub >>=-eq-ok {κ ℓ} :
    {X : Type κ} {Y : Type ℓ} (compiled : Compiled X) (further : X → Compiled Y) {answer : Y}
    → (compiled >>= further) ≡ ok answer
    → (value : X) × (compiled ≡ ok value) × (further value ≡ ok answer)
>>=-eq-ok compile_error further h = cc
>>=-eq-ok (ok value) further h = (value, refl, h)

pub built-eq-ok {ℓ} : {A : Type ℓ} (o : Option A) {a : A} → built o ≡ ok a → o ≡ some a
built-eq-ok none h = cc
built-eq-ok (some x) h = cc
