-- ===== src/Sigma/Wildcard.antt =====
-- crates/goliath-sigma/src/condition.rs: `wildcard_matches` and `Target::matches`.
pub mod Decide
use goliath_siem.Base.{
  ℕ, zero, suc, ◌+◌, ◌*◌, Bool, true, false, not, ◌&&◌, ◌||◌, Option, none, some, List, [], ◌∷◌,
  ◌==◌, if◌then◌else◌, all, Text, length,
}

-- The pattern after the latest `*`, and how far that `*` has consumed the candidate.
abbrev pub Resume : Type 0
Resume = Option (Text × Text)

abbrev pub Round : Type 0
Round = Text → Text → Resume → Option Bool

-- The last two branches of the loop: the latest `*` consumes one more character, if there is one.
-- At the end of the candidate the position moves past the end, where the loop stops.
unfoldable pub retry : Resume → Round → Option Bool
retry none next = some false
retry (some (wildcard_end, [])) next = next wildcard_end [] (some (wildcard_end, []))
retry (some (wildcard_end, c ∷ s)) next = next wildcard_end s (some (wildcard_end, s))

-- `none` only when the fuel runs out.
unfoldable pub wildcard_loop : ℕ → Round
unfolding retry
wildcard_loop zero p s resume = none
wildcard_loop (suc fuel) p [] resume = some (all (λ ch. ch == b'*') p)
wildcard_loop (suc fuel) [] (c ∷ s) resume = retry resume (wildcard_loop fuel)
wildcard_loop (suc fuel) (x ∷ p) (c ∷ s) resume =
    let wildcard = wildcard_loop fuel p (c ∷ s) (some (p, c ∷ s)) in
    let equal = wildcard_loop fuel p s resume in
    let again = retry resume (wildcard_loop fuel) in
    if x == b'*' then wildcard else if x == c then equal else again

unfoldable pub wildcard_matches : Text → Text → Option Bool
unfolding wildcard_loop
wildcard_matches pattern candidate =
    wildcard_loop ((length candidate + 1) * (length pattern + 1) + 1) pattern candidate none

pub data Target : Type 0 where
  them : Target
  pattern_of : Text → Target

unfoldable pub starts_with_underscore : Text → Bool
starts_with_underscore [] = false
starts_with_underscore (c ∷ s) = c == b'_'

unfoldable pub target_matches : Target → Text → Option Bool
unfolding starts_with_underscore
target_matches them identifier = some (not (starts_with_underscore identifier))
target_matches (pattern_of p) identifier =
    if starts_with_underscore p || not (starts_with_underscore identifier)
    then wildcard_matches p identifier
    else some false
