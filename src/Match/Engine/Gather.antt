-- ===== src/Match/Engine/Gather.antt =====
-- The texts that a source gathers are those that the reference evaluator asks its string tests
-- about.
use goliath_siem.Base.{
  inl, inr, ◌≡◌, refl, sym, ap₂, ◌∙◌, Bool, ◌||◌, List, [], ◌∷◌, any, any_ext, any-map, any-append,
  keep, Text, Bool-cases, arith,
}
use goliath_siem.Json
use goliath_siem.Rule.FieldPath.{FieldPath, lookup}
use goliath_siem.Rule.Fold.{fold_into-nil}
use goliath_siem.Rule.Resolved.{StringTest}
use goliath_siem.Sigma.Pattern
use goliath_siem.Crates.{Crates}
use goliath_siem.Match.Laws.{Laws}
use goliath_siem.Match.Semantics.{
  Event, pool, string_matches, any_string, any_string_item, any_string_member, text_of, bool_text,
  is_some_and, non_null,
}
use goliath_siem.Match.Engine.{Origin, paths}
use goliath_siem.Match.Engine
use goliath_siem.Match.Engine.Hits.{
  gather, gather_paths, gathered, buffer, strings, strings_items, strings_members,
}

module _ (c : Crates) where
  mutual
    unfolding any_string strings

    any_string-strings :
        (visit : Text → Bool) (v : Event c) → any_string c visit v ≡ any visit (strings c v)
    any_string-strings visit Json.null = refl
    any_string-strings visit (Json.bool b) = refl
    any_string-strings visit (Json.number n) = refl
    any_string-strings visit (Json.string s) = ground arith
    any_string-strings visit (Json.array items) = any_string_item-strings visit items
    any_string-strings visit (Json.object fields) = any_string_member-strings visit fields

    any_string_item-strings :
        (visit : Text → Bool) (items : Json.Items c.JsonNumber)
        → any_string_item c visit items ≡ any visit (strings_items c items)
    any_string_item-strings visit Json.nil = refl
    any_string_item-strings visit (Json.cons v items) =
        ap₂ ◌||◌ (any_string-strings visit v) (any_string_item-strings visit items)
        ∙ sym (any-append visit (strings c v) (strings_items c items))

    any_string_member-strings :
        (visit : Text → Bool) (fields : Json.Fields c.JsonNumber)
        → any_string_member c visit fields ≡ any visit (strings_members c fields)
    any_string_member-strings visit Json.end = refl
    any_string_member-strings visit (Json.field name v fields) =
        ap₂ ◌||◌ (any_string-strings visit v) (any_string_member-strings visit fields)
        ∙ sym (any-append visit (strings c v) (strings_members c fields))

  -- Folding into the buffer first, or in the test, is the same.
  string_matches-buffer :
      (test : StringTest) (s : Text)
      → string_matches c test s ≡ Pattern.matches test.pattern (buffer c s test.cased)
  unfolding string_matches buffer
  string_matches-buffer test s = elim (Bool-cases test.cased) [
    | inl e ↦ rw e
    | inr e ↦ rw (e, fold_into-nil)
  ]

  abbrev asks_string : StringTest → Event c → Bool
  asks_string test value = is_some_and (text_of c value) (string_matches c test)

  module _ (laws : Laws c) (test : StringTest) where
    number_matches :
        (n : c.JsonNumber)
        → string_matches c test (c.number_text n) ≡ Pattern.matches test.pattern (c.number_text n)
    unfolding string_matches
    number_matches n = elim (Bool-cases test.cased) [
      | inl e ↦ rw e
      | inr e ↦ rw (e, laws.number_folded n)
    ]

    -- One value: the reference asks its text, and the source has gathered it.
    keep-gathered :
        (values : List (Event c))
        → any (asks_string test) (keep (non_null c) values)
          ≡ any (Pattern.matches test.pattern) (gathered c test.cased values)
    unfolding gathered text_of non_null
    keep-gathered [] = refl
    keep-gathered (Json.null ∷ values) = keep-gathered values
    keep-gathered (Json.bool b ∷ values) =
        ap₂ ◌||◌ (string_matches-buffer test (bool_text b)) (keep-gathered values)
    keep-gathered (Json.number n ∷ values) = ap₂ ◌||◌ (number_matches n) (keep-gathered values)
    keep-gathered (Json.string s ∷ values) =
        ap₂ ◌||◌ (string_matches-buffer test s) (keep-gathered values)
    keep-gathered (Json.array items ∷ values) = keep-gathered values
    keep-gathered (Json.object fields ∷ values) = keep-gathered values

    pool-gather_paths :
        (event : Event c) (ps : List FieldPath)
        → any (asks_string test) (pool c event ps)
          ≡ any (Pattern.matches test.pattern) (gather_paths c test.cased ps event)
    unfolding pool gather_paths
    pool-gather_paths event [] = refl
    pool-gather_paths event (path ∷ ps) =
        any-append (asks_string test) (keep (non_null c) (lookup path event)) (pool c event ps)
        ∙ ap₂ ◌||◌ (keep-gathered (lookup path event)) (pool-gather_paths event ps)
        ∙ sym (
            any-append (Pattern.matches test.pattern) (gathered c test.cased (lookup path event))
              (gather_paths c test.cased ps event))

    -- A field's string test asks the texts of its source.
    pub field-gather :
        (event : Event c) (ps : List FieldPath)
        → any (asks_string test) (pool c event ps)
          ≡ any (Pattern.matches test.pattern) (gather c (paths ps) test.cased event)
    unfolding gather
    field-gather event ps = pool-gather_paths event ps

  -- A keyword asks the texts of the source of all strings.
  pub keyword-gather :
      (test : StringTest) (event : Event c)
      → any_string c (string_matches c test) event
        ≡ any (Pattern.matches test.pattern) (gather c Engine.any_string test.cased event)
  unfolding gather
  keyword-gather test event =
      any_string-strings (string_matches c test) event
      ∙ any_ext (string_matches c test) (λ s. Pattern.matches test.pattern (buffer c s test.cased))
          (string_matches-buffer test) (strings c event)
      ∙ sym (any-map (λ s. buffer c s test.cased) (Pattern.matches test.pattern) (strings c event))
