-- ===== src/Match/Engine/Hits.antt =====
-- The texts of an event that a source asks for, the scan for the literals of all rules, and the hits it
-- marks: `Source::gather`, `strings` and the first part of `Group::evaluate`.
use goliath_siem.Base.{
  ℕ, ◌+◌, Bool, true, false, not, ◌&&◌, ◌||◌, none, some, List, [], ◌∷◌, ◌++◌, map, ◌==◌,
  if◌then◌else◌, Text, length, get_or, set,
}
use goliath_siem.Json
use goliath_siem.Rule.FieldPath.{FieldPath, lookup}
use goliath_siem.Rule.Fold.{fold_into}
use goliath_siem.Crates.{Crates, Found}
use goliath_siem.Match.Semantics.{Event, bool_text}
use goliath_siem.Match.Engine.{
  Origin, paths, any_string, Shape, equals, contains, starts_with, ends_with, Source,
}

-- The bits of `hit`: whether a literal was found at all, at the start of a text, at its end, and
-- as the whole of it.
pub record Hit : Type 0 where
  pub any : Bool
  pub start : Bool
  pub end : Bool
  pub whole : Bool

abbrev pub no_hit : Hit
no_hit = record { any = false; start = false; end = false; whole = false }

-- `hits[literal] |= flags`
abbrev pub join : Hit → Hit → Hit
join h flags = record {
  any = h.any || flags.any;
  start = h.start || flags.start;
  end = h.end || flags.end;
  whole = h.whole || flags.whole;
}

-- `hits[literal] == 0`
abbrev pub is_no_hit : Hit → Bool
is_no_hit h = not (h.any || h.start || h.end || h.whole)

-- The flags of one occurrence in a text of the given length.
unfoldable pub flags_of : Found → ℕ → Hit
flags_of found size = record {
  any = true;
  start = found.start == 0;
  end = found.end == size;
  whole = found.start == 0 && found.end == size;
}

unfoldable pub wanted : Shape → Hit → Bool
wanted equals h = h.whole
wanted contains h = h.any
wanted starts_with h = h.start
wanted ends_with h = h.end

-- The literals found, with their hits and in the order of their first hits.
pub record Hits : Type 0 where
  pub hits : List Hit
  pub found : List ℕ

unfoldable pub mark_hit : Hits → ℕ → Hit → Hits
mark_hit s g flags =
    let old = get_or s.hits g no_hit in
    record {
      hits = set s.hits g (join old flags);
      found = if is_no_hit old then s.found ++ g ∷ [] else s.found;
    }

-- `for &literal in found { hits[literal] = 0 }`
unfoldable pub reset_hits : List Hit → List ℕ → List Hit
reset_hits hits [] = hits
reset_hits hits (g ∷ found) = reset_hits (set hits g no_hit) found

module _ (c : Crates) where
  open c use {
    Float, JsonNumber, number_text, simple_fold, Regex, is_match, Automaton, find_overlapping,
  }

  -- `Texts::push`
  unfoldable pub buffer : Text → Bool → Text
  unfolding fold_into
  buffer s cased = if cased then s else fold_into simple_fold s []

  unfoldable pub gathered : Bool → List (Event c) → List Text
  unfolding buffer bool_text
  gathered cased [] = []
  gathered cased (Json.string s ∷ values) = buffer s cased ∷ gathered cased values
  gathered cased (Json.number n ∷ values) = number_text n ∷ gathered cased values
  gathered cased (Json.bool flag ∷ values) = buffer (bool_text flag) cased ∷ gathered cased values
  gathered cased (_ ∷ values) = gathered cased values

  unfoldable pub gather_paths : Bool → List FieldPath → Event c → List Text
  unfolding gathered lookup
  gather_paths cased [] event = []
  gather_paths cased (path ∷ ps) event =
      gathered cased (lookup path event) ++ gather_paths cased ps event

  -- `strings`
  unfoldable mutual
    pub strings : Event c → List Text
    strings (Json.string s) = s ∷ []
    strings (Json.array items) = strings_items items
    strings (Json.object fields) = strings_members fields
    strings _ = []

    pub strings_items : Json.Items JsonNumber → List Text
    strings_items Json.nil = []
    strings_items (Json.cons item items) = strings item ++ strings_items items

    pub strings_members : Json.Fields JsonNumber → List Text
    strings_members Json.end = []
    strings_members (Json.field name value fields) = strings value ++ strings_members fields

  -- `Source::gather`
  unfoldable pub gather : Origin → Bool → Event c → List Text
  unfolding gather_paths strings buffer
  gather (paths ps) cased event = gather_paths cased ps event
  gather any_string cased event = map (λ s. buffer s cased) (strings event)

  unfoldable pub mark_found : ℕ → ℕ → List Found → Hits → Hits
  unfolding flags_of mark_hit
  mark_found first size [] s = s
  mark_found first size (found ∷ rest) s =
      mark_found first size rest (mark_hit s (first + found.pattern) (flags_of found size))

  unfoldable pub scan_texts : Automaton → ℕ → List Text → Hits → Hits
  unfolding mark_found
  scan_texts a first [] s = s
  scan_texts a first (t ∷ texts) s =
      scan_texts a first texts (mark_found first (length t) (find_overlapping a t) s)

  unfoldable pub scan_source : Source Automaton → List Text → Hits → Hits
  unfolding scan_texts
  scan_source source texts s = elim source.automaton [
    | none ↦ s
    | some a ↦ scan_texts a source.first_literal texts s
  ]

  unfoldable pub scan_sources : Event c → List (Source Automaton) → Hits → Hits
  unfolding gather scan_source
  scan_sources event [] s = s
  scan_sources event (source ∷ sources) s =
      scan_sources event sources (scan_source source (gather source.origin source.cased event) s)
