-- ===== src/Match/Laws.antt =====
-- What the program relies on of the crates: that the decimal text of a number is folded already,
-- and that an automaton reports the occurrences of its literals, all of them and nothing else.
use goliath_siem.Base.{ℕ, ◌+◌, ◌≡◌, some, List, ◌++◌, Text, length, get_elem?, In}
use goliath_siem.Rule.Fold.{fold}
use goliath_siem.Crates.{Crates, Found}

pub record Laws (c : Crates) : Type 0 where
  pub number_folded : (n : c.JsonNumber) → fold c.simple_fold (c.number_text n) ≡ c.number_text n
  pub reports :
      (literals : List Text) (a : c.Automaton) (i : ℕ) (l u v : Text)
      → c.automaton_build literals ≡ some a
      → get_elem? literals i ≡ some l
      → In
          (record { pattern = i; start = length u; end = length u + length l })
          (c.find_overlapping a (u ++ (l ++ v)))
  pub reported :
      (literals : List Text) (a : c.Automaton) (t : Text) (found : Found)
      → c.automaton_build literals ≡ some a
      → In found (c.find_overlapping a t)
      → (l : Text) × (u : Text) × (v : Text) × (get_elem? literals found.pattern ≡ some l)
        × (t ≡ u ++ (l ++ v))
        × (found.start ≡ length u)
        × (found.end ≡ length u + length l)
