-- ===== src/Rule/FieldPath.antt =====
-- crates/goliath-rule/src/path.rs: dotted paths into an event.
pub mod Segments
use goliath_siem.Base.{
  ℕ, ◌+◌, Option, none, some, List, [], ◌∷◌, ◌++◌, ◌==◌, if◌then◌else◌, Text, text_eq,
}
use goliath_siem.Json.{
  Value, Items, Fields, null, bool, number, string, array, object, nil, cons, end, field,
}

pub record FieldPath : Type 0 where
  pub text : Text
  pub segments : List Text

pub data PathError : Type 0 where
  empty : PathError
  empty_segment : Text → ℕ → PathError

pub data ParseResult : Type 0 where
  ok : FieldPath → ParseResult
  err : PathError → ParseResult

-- `text.split(separator)`, with what stands before the next separator.
unfoldable pub split : ℕ → Text → Text → List Text
split separator segment [] = segment ∷ []
split separator segment (c ∷ s) =
    let after = split separator [] s in
    let longer = split separator (segment ++ c ∷ []) s in
    if c == separator then segment ∷ after else longer

-- The position of the first empty segment.
unfoldable pub first_empty : ℕ → List Text → Option ℕ
first_empty position [] = none
first_empty position ([] ∷ segments) = some position
first_empty position ((c ∷ s) ∷ segments) = first_empty (position + 1) segments

unfoldable pub parse : Text → ParseResult
unfolding split first_empty
parse [] = err empty
parse (c ∷ s) =
    let segments = split b'.' [] (c ∷ s) in
    elim (first_empty 0 segments) [
      | some position ↦ err (empty_segment (c ∷ s) position)
      | none ↦ ok (record { text = c ∷ s; segments = segments })
    ]

-- `walk` gathers the values that it calls its visitor with, in the order of the calls. Of an object
-- the member with the name of the first segment is walked, if there is one.
unfoldable mutual
  pub walk : {N : Type 0} → Value N → List Text → List (Value N)
  walk (array items) segments = walk_items items segments
  walk (object fields) [] = object fields ∷ []
  walk (object fields) (head ∷ rest) = walk_member fields head rest
  walk null [] = null ∷ []
  walk (bool b) [] = bool b ∷ []
  walk (number n) [] = number n ∷ []
  walk (string s) [] = string s ∷ []
  walk _ (head ∷ rest) = []

  pub walk_items : {N : Type 0} → Items N → List Text → List (Value N)
  walk_items nil segments = []
  walk_items (cons item items) segments = walk item segments ++ walk_items items segments

  pub walk_member : {N : Type 0} → Fields N → Text → List Text → List (Value N)
  walk_member end head rest = []
  walk_member (field name value fields) head rest =
      if text_eq name head then walk value rest else walk_member fields head rest

-- `FieldPath::lookup`, and what `FieldPath::visit` visits.
unfoldable pub lookup : {N : Type 0} → FieldPath → Value N → List (Value N)
unfolding walk
lookup path root = walk root path.segments
