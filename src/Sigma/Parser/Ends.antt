-- ===== src/Sigma/Parser/Ends.antt =====
-- The parser of conditions ends: its fuel is enough for the tokens, each of which is read once.
use goliath_siem.Base.{
  ℕ, zero, suc, ◌+◌, ◌*◌, ◌≡◌, ◌<◌, refl, List, [], ◌∷◌, Text, length, byte_length, arith,
}
use goliath_siem.Sigma.Span.{Span}
use goliath_siem.Sigma.Lexer
use goliath_siem.Sigma.Lexer.{Token, TokenKind, Tokens, tokens, unexpected_character, tokenize}
use goliath_siem.Sigma.Parser
use goliath_siem.Sigma.Parser.{
  Condition, Conditions, ConditionError, Quantifier, Parsed, parsed, failed, out_of_fuel, ◌then◌,
  parse_or, or_loop, parse_and, and_loop, parse_not, parse_primary, parse_quantified, parse_target,
  close_group, at_end, parse_tokens, parse_condition,
}
use goliath_siem.Sigma.Parser.Steps.{
  token_of, IsDone, IsDone-then, IsDone-widen, or_kind-IsDone, and_kind-IsDone, not_kind-IsDone,
  primary_kind-IsDone,
}

mutual
  unfolding parse_or

  or-IsDone :
      (fuel end : ℕ) (left : List Token)
      → 5 * length left + 4 < fuel
      → IsDone (length left) (parse_or fuel end left)
  or-IsDone zero end left enough = absurd (omega (arith, enough))
  or-IsDone (suc fuel) end left enough =
      IsDone-then (length left) (length left) (parse_and fuel end left) _
        (and-IsDone fuel end left (omega (arith, enough)))
        (λ first left' shorter.
          IsDone-widen (length left' + 1) (length left) _ (omega (arith, shorter))
            (or_loop-IsDone fuel end _ left' (omega (arith, shorter, enough))))

  or_loop-IsDone :
      (fuel end : ℕ) (operands : Conditions) (left : List Token)
      → 5 * length left < fuel
      → IsDone (length left + 1) (or_loop fuel end operands left)
  or_loop-IsDone zero end operands left enough = absurd (omega (arith, enough))
  or_loop-IsDone (suc fuel) end operands [] enough = omega arith
  or_loop-IsDone (suc fuel) end operands (token ∷ left) enough =
      or_kind-IsDone fuel end operands token.kind token.span left
        (and-IsDone fuel end left (omega (arith, enough)))
        (λ operands left' shorter.
          or_loop-IsDone fuel end operands left' (omega (arith, shorter, enough)))

  and-IsDone :
      (fuel end : ℕ) (left : List Token)
      → 5 * length left + 3 < fuel
      → IsDone (length left) (parse_and fuel end left)
  and-IsDone zero end left enough = absurd (omega (arith, enough))
  and-IsDone (suc fuel) end left enough =
      IsDone-then (length left) (length left) (parse_not fuel end left) _
        (not-IsDone fuel end left (omega (arith, enough)))
        (λ first left' shorter.
          IsDone-widen (length left' + 1) (length left) _ (omega (arith, shorter))
            (and_loop-IsDone fuel end _ left' (omega (arith, shorter, enough))))

  and_loop-IsDone :
      (fuel end : ℕ) (operands : Conditions) (left : List Token)
      → 5 * length left < fuel
      → IsDone (length left + 1) (and_loop fuel end operands left)
  and_loop-IsDone zero end operands left enough = absurd (omega (arith, enough))
  and_loop-IsDone (suc fuel) end operands [] enough = omega arith
  and_loop-IsDone (suc fuel) end operands (token ∷ left) enough =
      and_kind-IsDone fuel end operands token.kind token.span left
        (not-IsDone fuel end left (omega (arith, enough)))
        (λ operands left' shorter.
          and_loop-IsDone fuel end operands left' (omega (arith, shorter, enough)))

  not-IsDone :
      (fuel end : ℕ) (left : List Token)
      → 5 * length left + 2 < fuel
      → IsDone (length left) (parse_not fuel end left)
  not-IsDone zero end left enough = absurd (omega (arith, enough))
  not-IsDone (suc fuel) end [] enough = tt
  not-IsDone (suc fuel) end (token ∷ left) enough =
      not_kind-IsDone fuel end token.kind token.span left
        (not-IsDone fuel end left (omega (arith, enough)))
        (primary-IsDone fuel end (token ∷ left) (omega (arith, enough)))

  primary-IsDone :
      (fuel end : ℕ) (left : List Token)
      → 5 * length left + 1 < fuel
      → IsDone (length left) (parse_primary fuel end left)
  primary-IsDone zero end left enough = absurd (omega (arith, enough))
  primary-IsDone (suc fuel) end [] enough = tt
  primary-IsDone (suc fuel) end (token ∷ left) enough =
      primary_kind-IsDone fuel end token.kind token.span left
        (or-IsDone fuel end left (omega (arith, enough)))

end-IsDone :
    (end : ℕ) (condition : Condition) (kind : TokenKind) (s : Span) (left : List Token)
    → IsDone 1 (at_end end condition (token_of kind s ∷ left))
unfolding at_end
end-IsDone end condition Lexer.of s left = tt
end-IsDone end condition Lexer.them s left = tt
end-IsDone end condition (Lexer.identifier name) s left = tt
end-IsDone end condition (Lexer.number n) s left = tt
end-IsDone end condition Lexer.and s left = tt
end-IsDone end condition Lexer.or s left = tt
end-IsDone end condition Lexer.not s left = tt
end-IsDone end condition Lexer.all s left = tt
end-IsDone end condition Lexer.l_paren s left = tt
end-IsDone end condition Lexer.r_paren s left = tt
end-IsDone end condition Lexer.pipe s left = tt

at_end-IsDone :
    (end : ℕ) (condition : Condition) (left : List Token) → IsDone 1 (at_end end condition left)
at_end-IsDone end condition [] = unfold at_end in omega arith
at_end-IsDone end condition (token ∷ left) = end-IsDone end condition token.kind token.span left

parse_tokens-IsDone : (end : ℕ) (read : List Token) → IsDone 1 (parse_tokens end read)
unfolding parse_tokens
parse_tokens-IsDone end [] = tt
parse_tokens-IsDone end (token ∷ left) =
    let fuel = 5 * length (token ∷ left) + 5 in
    IsDone-then (length (token ∷ left)) 1 (parse_or fuel end (token ∷ left)) (at_end end)
      (or-IsDone fuel end (token ∷ left) (omega arith))
      (λ condition left' shorter. at_end-IsDone end condition left')

-- The result of a parse: an error, or a value with no token left.
pub data Outcome {A : Type 0} (result : Parsed A) : Type 0 where
  has_error : (e : ConditionError) → result ≡ failed e → Outcome result
  has_value : (a : A) → result ≡ parsed a [] → Outcome result

IsDone-Outcome : {A : Type 0} (result : Parsed A) → IsDone 1 result → Outcome result
IsDone-Outcome (parsed a []) done = has_value a refl
IsDone-Outcome (parsed a (token ∷ left)) done = absurd (omega (arith, done))
IsDone-Outcome (failed e) done = has_error e refl
IsDone-Outcome out_of_fuel done = absurd done

-- Parsing a condition ends within its fuel, with an error or with a condition and all tokens read.
pub parse_condition-Outcome : (source : Text) → Outcome (parse_condition source)
unfolding parse_condition
parse_condition-Outcome source = IsDone-Outcome (parse_condition source) (done (tokenize source))
  where
    done :
        (t : Tokens)
        → IsDone 1 (elim t as (λ x. Parsed Condition) [
          | tokens read ↦ parse_tokens (byte_length source) read
          | unexpected_character c s ↦ failed (Parser.bad_character c s)
        ])
    done (tokens read) = parse_tokens-IsDone (byte_length source) read
    done (unexpected_character c s) = tt
