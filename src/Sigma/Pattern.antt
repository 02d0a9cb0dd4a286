-- ===== src/Sigma/Pattern.antt =====
-- crates/goliath-sigma/src/value.rs: string values as patterns, their parsing and their matching.
pub mod Meaning
pub mod Search
pub mod Decide
pub mod Normal
pub mod Source
pub mod Literal
use goliath_siem.Base.{
  ℕ, zero, suc, ◌+◌, ◌*◌, Bool, true, false, Option, none, some, List, [], ◌∷◌, ◌++◌, ◌||◌, Text,
  length, strip_prefix, ◌==◌, if◌then◌else◌,
}

pub data PatternPart : Type 0 where
  literal : Text → PatternPart
  any_sequence : PatternPart
  any_char : PatternPart

pub record Pattern : Type 0 where
  pub source : Text
  pub parts : List PatternPart

-- `*`, `?` and the backslash: what a backslash escapes.
unfoldable pub is_special : ℕ → Bool
is_special c = c == b'*' || c == b'?' || c == b'\\'

-- A pending literal is pushed before the parts that follow, unless it is empty.
unfoldable pub flush : Text → List PatternPart → List PatternPart
flush [] parts = parts
flush (c ∷ t) parts = literal (c ∷ t) ∷ parts

unfoldable pub wildcard : ℕ → PatternPart
wildcard c = if c == b'*' then any_sequence else any_char

-- The loop of `Pattern::parse`, with the pending literal. The parts that it pushes are its result.
unfoldable pub parse_loop : Text → Text → List PatternPart
unfolding is_special flush wildcard
parse_loop pending [] = flush pending []
parse_loop pending (ch ∷ []) =
    if ch == b'\\'
    then flush (pending ++ b'\\' ∷ []) []
    else if ch == b'*' || ch == b'?'
    then flush pending (wildcard ch ∷ [])
    else flush (pending ++ ch ∷ []) []
parse_loop pending (ch ∷ next ∷ rest) =
    let escaped = parse_loop (pending ++ next ∷ []) rest in
    let backslash = parse_loop (pending ++ b'\\' ∷ []) (next ∷ rest) in
    let after_wildcard = parse_loop [] (next ∷ rest) in
    let other = parse_loop (pending ++ ch ∷ []) (next ∷ rest) in
    if ch == b'\\'
    then (if is_special next then escaped else backslash)
    else if ch == b'*' || ch == b'?'
    then flush pending (wildcard ch ∷ after_wildcard)
    else other

unfoldable pub parse : Text → Pattern
unfolding parse_loop
parse source = record { source = source; parts = parse_loop [] source }

-- One round of the first loop of `Pattern::from_parts`: what `part` does to the normalized parts.
unfoldable pub push_part : List PatternPart → PatternPart → List PatternPart
push_part normalized (literal []) = normalized
push_part [] part = part ∷ []
push_part (literal previous ∷ []) (literal t) = literal (previous ++ t) ∷ []
push_part (any_sequence ∷ []) any_sequence = any_sequence ∷ []
push_part (last ∷ []) part = last ∷ part ∷ []
push_part (p ∷ q ∷ normalized) part = p ∷ push_part (q ∷ normalized) part

unfoldable pub normalize : List PatternPart → List PatternPart → List PatternPart
unfolding push_part
normalize normalized [] = normalized
normalize normalized (part ∷ parts) = normalize (push_part normalized part) parts

unfoldable pub escape : Text → Text
unfolding is_special
escape [] = []
escape (ch ∷ t) = if is_special ch then b'\\' ∷ ch ∷ escape t else ch ∷ escape t

-- The second loop of `Pattern::from_parts`.
unfoldable pub write_source : List PatternPart → Text
unfolding escape
write_source [] = []
write_source (literal t ∷ parts) = escape t ++ write_source parts
write_source (any_sequence ∷ parts) = b'*' ∷ write_source parts
write_source (any_char ∷ parts) = b'?' ∷ write_source parts

unfoldable pub from_parts : List PatternPart → Pattern
unfolding normalize write_source
from_parts parts =
    let normalized = normalize [] parts in
    record { source = write_source normalized; parts = normalized }

unfoldable pub as_literal : Pattern → Option Text
as_literal p = elim p.parts [
  | [] ↦ some []
  | part ∷ rest ↦ elim rest [
    | [] ↦ elim part [ literal t ↦ some t | any_sequence ↦ none | any_char ↦ none ]
    | _ ∷ _ ↦ none
  ]
]

-- What `Pattern::matches` calls `advanced`: the position after the current part.
unfoldable pub advance : PatternPart → Text → Option Text
unfolding strip_prefix
advance any_sequence s = some s
advance any_char [] = none
advance any_char (c ∷ s) = some s
advance (literal t) s = strip_prefix t s

-- The parts after the latest `*`, and where that `*` stopped absorbing.
abbrev pub Resume : Type 0
Resume = Option (List PatternPart × Text)

unfoldable pub mark : PatternPart → List PatternPart → Text → Resume → Resume
mark any_sequence p s resume = some (p, s)
mark part p s resume = resume

abbrev pub Round : Type 0
Round = List PatternPart → Text → Resume → Option Bool

-- After a mismatch the latest `*` absorbs one more character.
unfoldable pub backtrack : Resume → Round → Option Bool
backtrack none next = some false
backtrack (some (p, [])) next = some false
backtrack (some (p, c ∷ s)) next = next p s (some (p, s))

-- The loop of `Pattern::matches`; `none` only when the fuel runs out.
unfoldable pub matches_loop : ℕ → Round
unfolding advance mark backtrack
matches_loop zero p s resume = none
matches_loop (suc fuel) [] [] resume = some true
matches_loop (suc fuel) [] (c ∷ s) resume = backtrack resume (matches_loop fuel)
matches_loop (suc fuel) (part ∷ p) s resume = elim (advance part s) [
  | some r ↦ matches_loop fuel p r (mark part p s resume)
  | none ↦ backtrack resume (matches_loop fuel)
]

unfoldable pub run_matches : Pattern → Text → Option Bool
unfolding matches_loop
run_matches p candidate =
    matches_loop ((length candidate + 1) * (length p.parts + 1) + 1) p.parts candidate none

-- `Pattern::matches`. The fuel never runs out, so the second case is never taken.
unfoldable pub matches : Pattern → Text → Bool
matches p candidate = elim (run_matches p candidate) [ some answer ↦ answer | none ↦ false ]
