-- ===== src/Sigma/Parser.antt =====
-- crates/goliath-sigma/src/parser.rs, and the tree of crates/goliath-sigma/src/condition.rs that it
-- builds. A parser is the tokens that are left, and the length of the source for errors at its end. The
-- recursion is on fuel, of which each token needs five steps: `or`, `and`, `not`, a primary, and the
-- loop behind it.
use goliath_siem.Base.{
  ℕ, zero, suc, ◌+◌, ◌*◌, Option, none, some, List, [], ◌∷◌, ◌==◌, if◌then◌else◌, Text, text,
  byte_length, length,
}
use goliath_siem.Sigma.Span.{Span, empty_at, merge}
use goliath_siem.Sigma.Lexer
use goliath_siem.Sigma.Lexer.{Token, TokenKind, Tokens, tokens, unexpected_character, tokenize}
use goliath_siem.Sigma.Wildcard.{Target, them, pattern_of}
pub mod Steps
pub mod Ends

pub data Quantifier : Type 0 where
  any all : Quantifier

mutual
  pub data Condition : Type 0 where
    identifier : Text → Span → Condition
    quantified : Quantifier → Target → Span → Condition
    not : Condition → Span → Condition
    and : Conditions → Span → Condition
    or : Conditions → Span → Condition

  pub data Conditions : Type 0 where
    nil : Conditions
    cons : Condition → Conditions → Conditions

-- `Condition::span`
unfoldable pub span : Condition → Span
span (identifier name s) = s
span (quantified quantifier target s) = s
span (not operand s) = s
span (and operands s) = s
span (or operands s) = s

pub data ConditionError : Type 0 where
  empty : ConditionError
  bad_character : ℕ → Span → ConditionError
  unexpected_token : Text → TokenKind → Span → ConditionError
  unexpected_end : Text → Span → ConditionError
  unclosed_group : Span → ConditionError
  unsupported_quantifier : ℕ → Span → ConditionError
  aggregation_unsupported : Span → ConditionError

-- `Result`, with the tokens that are left.
pub data Parsed (A : Type 0) : Type 0 where
  parsed : A → List Token → Parsed A
  failed : ConditionError → Parsed A
  out_of_fuel : Parsed A

infixl 5 ◌then◌
abbrev pub ◌then◌ : {A B : Type 0} → Parsed A → (A → List Token → Parsed B) → Parsed B
parsed a left then more = more a left
failed e then more = failed e
out_of_fuel then more = out_of_fuel

abbrev pub push : Conditions → Condition → Conditions
push nil c = cons c nil
push (cons d operands) c = cons d (push operands c)

-- `reduce(Span::merge)`
unfoldable pub merge_spans : Span → Conditions → Span
unfolding merge span
merge_spans s nil = s
merge_spans s (cons c operands) = merge_spans (merge s (span c)) operands

-- `Parser::fold`
unfoldable pub fold_operands : Conditions → (Conditions → Span → Condition) → Condition
unfolding merge_spans span
fold_operands nil combine = combine nil (empty_at 0)
fold_operands (cons c nil) combine = c
fold_operands (cons c (cons d operands)) combine =
    combine (cons c (cons d operands)) (merge_spans (span c) (cons d operands))

abbrev expression : Text
expression = text "an expression"

abbrev quantified_target : Text
quantified_target = text "`them` or an identifier pattern"

-- `parse_quantified` behind `of`.
unfoldable pub parse_target : ℕ → Quantifier → Span → List Token → Parsed Condition
unfolding merge
parse_target end quantifier start [] = failed (unexpected_end quantified_target (empty_at end))
parse_target end quantifier start (token ∷ left) = elim token.kind [
  | Lexer.them ↦ parsed (quantified quantifier them (merge start token.span)) left
  | Lexer.identifier pattern ↦
      parsed (quantified quantifier (pattern_of pattern) (merge start token.span)) left
  | other ↦ failed (unexpected_token quantified_target other token.span)
]

-- `parse_quantified`, with `expect`.
unfoldable pub parse_quantified : ℕ → Quantifier → Span → List Token → Parsed Condition
unfolding parse_target
parse_quantified end quantifier start [] = failed (unexpected_end (text "`of`") (empty_at end))
parse_quantified end quantifier start (token ∷ left) = elim token.kind [
  | Lexer.of ↦ parse_target end quantifier start left
  | other ↦ failed (unexpected_token (text "`of`") other token.span)
]

-- What follows the inner condition of a group.
unfoldable pub close_group : Span → Condition → List Token → Parsed Condition
close_group opened inner [] = failed (unclosed_group opened)
close_group opened inner (token ∷ left) = elim token.kind [
  | Lexer.r_paren ↦ parsed inner left
  | other ↦ failed (unexpected_token (text "`)`") other token.span)
]

abbrev end_expected : ℕ → Parsed Condition
end_expected end = failed (unexpected_end expression (empty_at end))

unfoldable mutual
  unfolding parse_quantified close_group fold_operands merge span

  pub parse_or : ℕ → ℕ → List Token → Parsed Condition
  parse_or zero end left = out_of_fuel
  parse_or (suc fuel) end left =
      parse_and fuel end left then λ first left. or_loop fuel end (cons first nil) left

  -- The loop of `parse_or`, with the operands that are parsed.
  pub or_loop : ℕ → ℕ → Conditions → List Token → Parsed Condition
  or_loop zero end operands left = out_of_fuel
  or_loop (suc fuel) end operands [] = parsed (fold_operands operands or) []
  or_loop (suc fuel) end operands (token ∷ left) = elim token.kind [
    | Lexer.or ↦
        parse_and fuel end left then λ operand left. or_loop fuel end (push operands operand) left
    | _ ↦ parsed (fold_operands operands or) (token ∷ left)
  ]

  pub parse_and : ℕ → ℕ → List Token → Parsed Condition
  parse_and zero end left = out_of_fuel
  parse_and (suc fuel) end left =
      parse_not fuel end left then λ first left. and_loop fuel end (cons first nil) left

  -- The loop of `parse_and`.
  pub and_loop : ℕ → ℕ → Conditions → List Token → Parsed Condition
  and_loop zero end operands left = out_of_fuel
  and_loop (suc fuel) end operands [] = parsed (fold_operands operands and) []
  and_loop (suc fuel) end operands (token ∷ left) = elim token.kind [
    | Lexer.and ↦
        parse_not fuel end left then λ operand left. and_loop fuel end (push operands operand) left
    | _ ↦ parsed (fold_operands operands and) (token ∷ left)
  ]

  pub parse_not : ℕ → ℕ → List Token → Parsed Condition
  parse_not zero end left = out_of_fuel
  parse_not (suc fuel) end [] = end_expected end
  parse_not (suc fuel) end (token ∷ left) = elim token.kind [
    | Lexer.not ↦ parse_not fuel end left then λ operand left.
        parsed (not operand (merge token.span (span operand))) left
    | _ ↦ parse_primary fuel end (token ∷ left)
  ]

  pub parse_primary : ℕ → ℕ → List Token → Parsed Condition
  parse_primary zero end left = out_of_fuel
  parse_primary (suc fuel) end [] = end_expected end
  parse_primary (suc fuel) end (token ∷ left) = elim token.kind [
    | Lexer.l_paren ↦ parse_or fuel end left then λ inner left. close_group token.span inner left
    | Lexer.all ↦ parse_quantified end all token.span left
    | Lexer.number value ↦
        if value == 1
        then parse_quantified end any token.span left
        else failed (unsupported_quantifier value token.span)
    | Lexer.identifier name ↦ parsed (identifier name token.span) left
    | other ↦ failed (unexpected_token expression other token.span)
  ]

-- The match at the end of `parse_condition`.
unfoldable pub at_end : ℕ → Condition → List Token → Parsed Condition
at_end end condition [] = parsed condition []
at_end end condition (token ∷ left) = elim token.kind [
  | Lexer.pipe ↦ failed (aggregation_unsupported (record { start = token.span.start; end = end }))
  | other ↦ failed (unexpected_token (text "the end of the condition") other token.span)
]

unfoldable pub parse_tokens : ℕ → List Token → Parsed Condition
unfolding parse_or at_end
parse_tokens end [] = failed empty
parse_tokens end (token ∷ left) =
    parse_or (5 * length (token ∷ left) + 5) end (token ∷ left) then at_end end

unfoldable pub parse_condition : Text → Parsed Condition
unfolding tokenize parse_tokens byte_length
parse_condition source = elim (tokenize source) [
  | tokens read ↦ parse_tokens (byte_length source) read
  | unexpected_character c s ↦ failed (bad_character c s)
]
