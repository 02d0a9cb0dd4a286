-- ===== src/Sigma/Parser/Steps.antt =====
-- What a function of the parser of conditions leaves of the tokens, given what the functions that it
-- calls leave, crates/goliath-sigma/src/parser.rs.
use goliath_siem.Base.{
  ℕ, suc, ◌+◌, ◌<◌, ◌≤◌, inl, inr, Bool-cases, List, [], ◌∷◌, ◌==◌, length, arith,
}
use goliath_siem.Sigma.Span.{Span}
use goliath_siem.Sigma.Lexer
use goliath_siem.Sigma.Lexer.{Token, TokenKind, Tokens, tokens, unexpected_character, tokenize}
use goliath_siem.Sigma.Parser
use goliath_siem.Sigma.Parser.{
  Condition, Conditions, ConditionError, Quantifier, Parsed, parsed, failed, out_of_fuel, ◌then◌,
  parse_or, or_loop, parse_and, and_loop, parse_not, parse_primary, parse_quantified, parse_target,
  close_group, at_end, parse_tokens, parse_condition,
}

-- There is an error, or a value with fewer tokens left than the bound.
abbrev pub IsDone : {A : Type 0} → ℕ → Parsed A → Type 0
IsDone bound (parsed a left) = length left < bound
IsDone bound (failed e) = Unit
IsDone bound out_of_fuel = ⊥

pub IsDone-then :
    {A B : Type 0} (bound bound' : ℕ) (m : Parsed A) (more : A → List Token → Parsed B)
    → IsDone bound m
    → ((a : A) (left : List Token) → length left < bound → IsDone bound' (more a left))
    → IsDone bound' (m then more)
IsDone-then bound bound' (parsed a left) more done next = next a left done
IsDone-then bound bound' (failed e) more done next = tt
IsDone-then bound bound' out_of_fuel more done next = absurd done

pub IsDone-widen :
    {A : Type 0} (bound bound' : ℕ) (m : Parsed A)
    → bound ≤ bound'
    → IsDone bound m
    → IsDone bound' m
IsDone-widen bound bound' (parsed a left) wider done = omega (arith, wider, done)
IsDone-widen bound bound' (failed e) wider done = tt
IsDone-widen bound bound' out_of_fuel wider done = absurd done

abbrev pub token_of : TokenKind → Span → Token
token_of kind span = record { kind = kind; span = span }

pub target-IsDone :
    (end : ℕ) (q : Quantifier) (start : Span) (kind : TokenKind) (s : Span) (left : List Token)
    → IsDone (length left + 2) (parse_target end q start (token_of kind s ∷ left))
unfolding parse_target
target-IsDone end q start Lexer.them s left = omega arith
target-IsDone end q start (Lexer.identifier name) s left = omega arith
target-IsDone end q start (Lexer.number n) s left = tt
target-IsDone end q start Lexer.and s left = tt
target-IsDone end q start Lexer.or s left = tt
target-IsDone end q start Lexer.not s left = tt
target-IsDone end q start Lexer.of s left = tt
target-IsDone end q start Lexer.all s left = tt
target-IsDone end q start Lexer.l_paren s left = tt
target-IsDone end q start Lexer.r_paren s left = tt
target-IsDone end q start Lexer.pipe s left = tt

pub parse_target-IsDone :
    (end : ℕ) (q : Quantifier) (start : Span) (left : List Token)
    → IsDone (length left + 1) (parse_target end q start left)
parse_target-IsDone end q start [] = unfold parse_target in tt
parse_target-IsDone end q start (token ∷ left) =
    IsDone-widen (length left + 2) (length (token ∷ left) + 1) _ (omega arith)
      (target-IsDone end q start token.kind token.span left)

pub quantified-IsDone :
    (end : ℕ) (q : Quantifier) (start : Span) (kind : TokenKind) (s : Span) (left : List Token)
    → IsDone (length left + 2) (parse_quantified end q start (token_of kind s ∷ left))
unfolding parse_quantified
quantified-IsDone end q start Lexer.of s left =
    IsDone-widen (length left + 1) (length left + 2) _ (omega arith)
      (parse_target-IsDone end q start left)
quantified-IsDone end q start Lexer.them s left = tt
quantified-IsDone end q start (Lexer.identifier name) s left = tt
quantified-IsDone end q start (Lexer.number n) s left = tt
quantified-IsDone end q start Lexer.and s left = tt
quantified-IsDone end q start Lexer.or s left = tt
quantified-IsDone end q start Lexer.not s left = tt
quantified-IsDone end q start Lexer.all s left = tt
quantified-IsDone end q start Lexer.l_paren s left = tt
quantified-IsDone end q start Lexer.r_paren s left = tt
quantified-IsDone end q start Lexer.pipe s left = tt

pub parse_quantified-IsDone :
    (end : ℕ) (q : Quantifier) (start : Span) (left : List Token)
    → IsDone (length left + 1) (parse_quantified end q start left)
parse_quantified-IsDone end q start [] = unfold parse_quantified in tt
parse_quantified-IsDone end q start (token ∷ left) =
    IsDone-widen (length left + 2) (length (token ∷ left) + 1) _ (omega arith)
      (quantified-IsDone end q start token.kind token.span left)

pub closed-IsDone :
    (opened : Span) (inner : Condition) (kind : TokenKind) (s : Span) (left : List Token)
    → IsDone (length left + 2) (close_group opened inner (token_of kind s ∷ left))
unfolding close_group
closed-IsDone opened inner Lexer.r_paren s left = omega arith
closed-IsDone opened inner Lexer.of s left = tt
closed-IsDone opened inner Lexer.them s left = tt
closed-IsDone opened inner (Lexer.identifier name) s left = tt
closed-IsDone opened inner (Lexer.number n) s left = tt
closed-IsDone opened inner Lexer.and s left = tt
closed-IsDone opened inner Lexer.or s left = tt
closed-IsDone opened inner Lexer.not s left = tt
closed-IsDone opened inner Lexer.all s left = tt
closed-IsDone opened inner Lexer.l_paren s left = tt
closed-IsDone opened inner Lexer.pipe s left = tt

pub close_group-IsDone :
    (opened : Span) (inner : Condition) (left : List Token)
    → IsDone (length left + 1) (close_group opened inner left)
close_group-IsDone opened inner [] = unfold close_group in tt
close_group-IsDone opened inner (token ∷ left) =
    IsDone-widen (length left + 2) (length (token ∷ left) + 1) _ (omega arith)
      (closed-IsDone opened inner token.kind token.span left)

pub or_kind-IsDone :
    (fuel end : ℕ) (operands : Conditions) (kind : TokenKind) (s : Span) (left : List Token)
    → IsDone (length left) (parse_and fuel end left)
    → ((operands : Conditions) (left' : List Token)
        → length left' < length left
        → IsDone (length left' + 1) (or_loop fuel end operands left'))
    → IsDone
        (length (token_of kind s ∷ left) + 1)
        (or_loop (suc fuel) end operands (token_of kind s ∷ left))
unfolding parse_or
or_kind-IsDone fuel end operands Lexer.or s left operand again =
    IsDone-then (length left) (length (token_of Lexer.or s ∷ left) + 1) (parse_and fuel end left) _
      operand
      (λ c left' shorter.
        IsDone-widen (length left' + 1) (length (token_of Lexer.or s ∷ left) + 1) _
          (omega (arith, shorter)) (again _ left' shorter))
or_kind-IsDone fuel end operands Lexer.of s left operand again = omega arith
or_kind-IsDone fuel end operands Lexer.them s left operand again = omega arith
or_kind-IsDone fuel end operands (Lexer.identifier name) s left operand again = omega arith
or_kind-IsDone fuel end operands (Lexer.number n) s left operand again = omega arith
or_kind-IsDone fuel end operands Lexer.and s left operand again = omega arith
or_kind-IsDone fuel end operands Lexer.not s left operand again = omega arith
or_kind-IsDone fuel end operands Lexer.all s left operand again = omega arith
or_kind-IsDone fuel end operands Lexer.l_paren s left operand again = omega arith
or_kind-IsDone fuel end operands Lexer.r_paren s left operand again = omega arith
or_kind-IsDone fuel end operands Lexer.pipe s left operand again = omega arith

pub and_kind-IsDone :
    (fuel end : ℕ) (operands : Conditions) (kind : TokenKind) (s : Span) (left : List Token)
    → IsDone (length left) (parse_not fuel end left)
    → ((operands : Conditions) (left' : List Token)
        → length left' < length left
        → IsDone (length left' + 1) (and_loop fuel end operands left'))
    → IsDone
        (length (token_of kind s ∷ left) + 1)
        (and_loop (suc fuel) end operands (token_of kind s ∷ left))
unfolding parse_or
and_kind-IsDone fuel end operands Lexer.and s left operand again =
    IsDone-then (length left) (length (token_of Lexer.and s ∷ left) + 1) (parse_not fuel end left) _
      operand
      (λ c left' shorter.
        IsDone-widen (length left' + 1) (length (token_of Lexer.and s ∷ left) + 1) _
          (omega (arith, shorter)) (again _ left' shorter))
and_kind-IsDone fuel end operands Lexer.of s left operand again = omega arith
and_kind-IsDone fuel end operands Lexer.them s left operand again = omega arith
and_kind-IsDone fuel end operands (Lexer.identifier name) s left operand again = omega arith
and_kind-IsDone fuel end operands (Lexer.number n) s left operand again = omega arith
and_kind-IsDone fuel end operands Lexer.or s left operand again = omega arith
and_kind-IsDone fuel end operands Lexer.not s left operand again = omega arith
and_kind-IsDone fuel end operands Lexer.all s left operand again = omega arith
and_kind-IsDone fuel end operands Lexer.l_paren s left operand again = omega arith
and_kind-IsDone fuel end operands Lexer.r_paren s left operand again = omega arith
and_kind-IsDone fuel end operands Lexer.pipe s left operand again = omega arith

pub not_kind-IsDone :
    (fuel end : ℕ) (kind : TokenKind) (s : Span) (left : List Token)
    → IsDone (length left) (parse_not fuel end left)
    → IsDone (length (token_of kind s ∷ left)) (parse_primary fuel end (token_of kind s ∷ left))
    → IsDone (length (token_of kind s ∷ left)) (parse_not (suc fuel) end (token_of kind s ∷ left))
unfolding parse_or
not_kind-IsDone fuel end Lexer.not s left operand primary =
    IsDone-then (length left) (length (token_of Lexer.not s ∷ left)) (parse_not fuel end left) _
      operand (λ c left' shorter. omega (arith, shorter))
not_kind-IsDone fuel end Lexer.of s left operand primary = primary
not_kind-IsDone fuel end Lexer.them s left operand primary = primary
not_kind-IsDone fuel end (Lexer.identifier name) s left operand primary = primary
not_kind-IsDone fuel end (Lexer.number n) s left operand primary = primary
not_kind-IsDone fuel end Lexer.and s left operand primary = primary
not_kind-IsDone fuel end Lexer.or s left operand primary = primary
not_kind-IsDone fuel end Lexer.all s left operand primary = primary
not_kind-IsDone fuel end Lexer.l_paren s left operand primary = primary
not_kind-IsDone fuel end Lexer.r_paren s left operand primary = primary
not_kind-IsDone fuel end Lexer.pipe s left operand primary = primary

pub primary_kind-IsDone :
    (fuel end : ℕ) (kind : TokenKind) (s : Span) (left : List Token)
    → IsDone (length left) (parse_or fuel end left)
    → IsDone
        (length (token_of kind s ∷ left))
        (parse_primary (suc fuel) end (token_of kind s ∷ left))
unfolding parse_or
primary_kind-IsDone fuel end Lexer.l_paren s left group =
    let bound = length (token_of Lexer.l_paren s ∷ left) in
    IsDone-then (length left) bound (parse_or fuel end left) _ group (λ inner left' shorter.
      IsDone-widen (length left' + 1) bound _ (omega (arith, shorter))
        (close_group-IsDone s inner left'))
primary_kind-IsDone fuel end Lexer.all s left group =
    IsDone-widen (length left + 1) (length (token_of Lexer.all s ∷ left)) _ (omega arith)
      (parse_quantified-IsDone end Parser.all s left)
primary_kind-IsDone fuel end (Lexer.number value) s left group = elim (Bool-cases (value == 1)) [
  | inl e ↦ rw e (
      IsDone-widen (length left + 1) (length (token_of (Lexer.number value) s ∷ left)) _
        (omega arith) (parse_quantified-IsDone end Parser.any s left))
  | inr e ↦ rw e tt
]
primary_kind-IsDone fuel end (Lexer.identifier name) s left group = omega arith
primary_kind-IsDone fuel end Lexer.of s left group = tt
primary_kind-IsDone fuel end Lexer.them s left group = tt
primary_kind-IsDone fuel end Lexer.and s left group = tt
primary_kind-IsDone fuel end Lexer.or s left group = tt
primary_kind-IsDone fuel end Lexer.not s left group = tt
primary_kind-IsDone fuel end Lexer.r_paren s left group = tt
primary_kind-IsDone fuel end Lexer.pipe s left group = tt
