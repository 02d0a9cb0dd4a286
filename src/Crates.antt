-- ===== src/Crates.antt =====
-- What the program takes from outside its repository, as a parameter of the models: floating point
-- numbers, serde_json's numbers and its printing, regular expressions of the crate regex, the
-- automata of the crate aho-corasick, Unicode simple case folding of icu_casemap, and the parsing
-- of addresses and of floating point numbers. Offsets into texts count characters.
use goliath_siem.Base.{ℕ, Ordering, Bool, Option, List, Text}
use goliath_siem.Base.Int.{ℤ}
use goliath_siem.Rule.Resolved.{IpAddr, RegexFlags, Expr, ClassValue}
use goliath_siem.Rule.FieldPath.{FieldPath}

-- One occurrence that an automaton reports: the index of the literal, and where it begins and ends.
pub record Found : Type 0 where
  pub pattern : ℕ
  pub start : ℕ
  pub end : ℕ

pub record Crates : Type 1 where
  -- f64
  pub Float : Type 0
  pub float_of : ℤ → Float
  pub float_compare : Float → Float → Option Ordering
  pub float_parse : Text → Option Float
  -- serde_json::Number
  pub JsonNumber : Type 0
  pub number_text : JsonNumber → Text
  pub number_int : JsonNumber → Option ℤ
  pub number_float : JsonNumber → Option Float
  pub number_eq : JsonNumber → JsonNumber → Bool
  -- serde_json::to_string
  pub expr_json : Expr Float → Text
  pub class_json : List (FieldPath × ClassValue) → Text
  -- std::net::IpAddr
  pub address_parse : Text → Option IpAddr
  -- icu_casemap::CaseMapper::simple_fold
  pub simple_fold : ℕ → ℕ
  -- regex::Regex, regex::RegexBuilder
  pub Regex : Type 0
  pub regex_build : Text → RegexFlags → Option Regex
  pub is_match : Regex → Text → Bool
  -- aho_corasick::AhoCorasick with MatchKind::Standard
  pub Automaton : Type 0
  pub automaton_build : List Text → Option Automaton
  pub find_overlapping : Automaton → Text → List Found
