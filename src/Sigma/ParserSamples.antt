-- ===== src/Sigma/ParserSamples.antt =====
-- Tests of the parser of conditions, from the tests of crates/goliath-sigma/src/parser.rs.
use goliath_siem.Base.{◌≡◌, refl, [], text}
use goliath_siem.Sigma.Parser
use goliath_siem.Sigma.Parser.{Conditions, nil, cons, parsed, failed, parse_condition}
use goliath_siem.Sigma.Parser.Ends.{Outcome, parse_condition-Outcome}
use goliath_siem.Sigma.Wildcard.{pattern_of}

precedence :
    parse_condition (text "a or b AND not c")
    ≡ parsed
        (Parser.or
          (cons (Parser.identifier (text "a") (record { start = 0; end = 1 })) (
            cons
              (Parser.and
                (cons (Parser.identifier (text "b") (record { start = 5; end = 6 })) (
                  cons
                    (Parser.not
                      (Parser.identifier (text "c") (record { start = 15; end = 16 }))
                      (record { start = 11; end = 16 }))
                    nil))
                (record { start = 5; end = 16 }))
              nil))
          (record { start = 0; end = 16 }))
        []
unfolding parse_condition
precedence = refl

quantifier :
    parse_condition (text "1 of filter_*")
    ≡ parsed
        (Parser.quantified Parser.any
          (pattern_of (text "filter_*"))
          (record { start = 0; end = 13 }))
        []
unfolding parse_condition
quantifier = refl

aggregation :
    parse_condition (text "a | count() > 5")
    ≡ failed (Parser.aggregation_unsupported (record { start = 2; end = 15 }))
unfolding parse_condition
aggregation = refl

unclosed :
    parse_condition (text "(a or b")
    ≡ failed (Parser.unclosed_group (record { start = 0; end = 1 }))
unfolding parse_condition
unclosed = refl

parse_condition-Outcome_example : Outcome (parse_condition (text "not (a or all of them) and b"))
parse_condition-Outcome_example = parse_condition-Outcome (text "not (a or all of them) and b")
