-- ===== src/Match/Semantics.antt =====
-- crates/goliath-match/src/semantics.rs: the value semantics that both evaluators share.
use goliath_siem.Base.{
  Ordering, Bool, true, false, not, ◌&&◌, ◌||◌, Option, none, some, List, [], ◌∷◌, ◌++◌, map,
  if◌then◌else◌, any, keep, Text, text, text_eq,
}
use goliath_siem.Base.Int.{ℤ, int_compare, int_eq}
use goliath_siem.Base.Std.{trim, parse_i64}
use goliath_siem.Json
use goliath_siem.Json.{Value, Items, Fields}
use goliath_siem.Rule.FieldPath.{FieldPath, lookup}
use goliath_siem.Rule.Fold.{fold, to_ascii_lowercase}
use goliath_siem.Rule.Resolved
use goliath_siem.Rule.Resolved.{
  Number, integer, float, Comparison, less, less_or_equal, greater, greater_or_equal, contains,
  StringTest, Test, ClassValue,
}
use goliath_siem.Sigma.Pattern.{matches}
use goliath_siem.Crates.{Crates}

unfoldable pub is_eq : Ordering → Bool
is_eq Ordering.eq = true
is_eq _ = false

unfoldable pub satisfies : Comparison → Ordering → Bool
satisfies less Ordering.lt = true
satisfies less _ = false
satisfies less_or_equal Ordering.gt = false
satisfies less_or_equal _ = true
satisfies greater Ordering.gt = true
satisfies greater _ = false
satisfies greater_or_equal Ordering.lt = false
satisfies greater_or_equal _ = true

unfoldable pub bool_text : Bool → Text
bool_text true = text "true"
bool_text false = text "false"

unfoldable pub bool_eq : Bool → Bool → Bool
bool_eq true b = b
bool_eq false b = not b

abbrev pub is_some_and {ℓ} : {A : Type ℓ} → Option A → (A → Bool) → Bool
is_some_and none p = false
is_some_and (some a) p = p a

module _ (c : Crates) where
  open c use {
    Float, float_of, float_compare, float_parse, JsonNumber, number_text, number_int, number_float,
    number_eq, address_parse, simple_fold,
  }

  abbrev pub Event : Type 0
  Event = Value JsonNumber

  unfoldable pub non_null : Event → Bool
  non_null Json.null = false
  non_null _ = true

  unfoldable pub pool : Event → List FieldPath → List Event
  unfolding lookup non_null
  pool event [] = []
  pool event (path ∷ paths) = keep non_null (lookup path event) ++ pool event paths

  -- `value.as_i64() == Some(*expected)` or `value.as_str() == Some(expected)`
  unfoldable pub is_class_value : ClassValue → Event → Bool
  is_class_value (Resolved.ClassValue.integer expected) (Json.number n) =
      is_some_and (number_int n) (λ actual. int_eq actual expected)
  is_class_value (Resolved.ClassValue.string expected) (Json.string actual) =
      text_eq actual expected
  is_class_value _ _ = false

  unfoldable pub has_class_value : Event → FieldPath → ClassValue → Bool
  unfolding lookup is_class_value
  has_class_value event path expected = any (is_class_value expected) (lookup path event)

  unfoldable pub string_matches : StringTest → Text → Bool
  unfolding matches fold
  string_matches test candidate =
      if test.cased
      then matches test.pattern candidate
      else matches test.pattern (fold simple_fold candidate)

  unfoldable pub text_of : Event → Option Text
  unfolding bool_text
  text_of (Json.string s) = some s
  text_of (Json.number n) = some (number_text n)
  text_of (Json.bool flag) = some (bool_text flag)
  text_of _ = none

  unfoldable pub float_number : Option Float → Option (Number Float)
  float_number none = none
  float_number (some f) = some (float f)

  -- An integer if there is one, and otherwise a floating point number.
  unfoldable pub integer_or : Option ℤ → Option Float → Option (Number Float)
  unfolding float_number
  integer_or (some n) f = some (integer n)
  integer_or none f = float_number f

  unfoldable pub number_of : Event → Option (Number Float)
  unfolding integer_or trim parse_i64
  number_of (Json.number n) = integer_or (number_int n) (number_float n)
  number_of (Json.string s) = integer_or (parse_i64 (trim s)) (float_parse (trim s))
  number_of _ = none

  unfoldable pub compare_numbers : Number Float → Number Float → Option Ordering
  unfolding int_compare
  compare_numbers (integer left) (integer right) = some (int_compare left right)
  compare_numbers (integer left) (float right) = float_compare (float_of left) right
  compare_numbers (float left) (integer right) = float_compare left (float_of right)
  compare_numbers (float left) (float right) = float_compare left right

  -- `PartialEq` of serde_json's values.
  unfoldable mutual
    pub value_eq : Event → Event → Bool
    value_eq Json.null Json.null = true
    value_eq (Json.bool a) (Json.bool b) = bool_eq a b
    value_eq (Json.number a) (Json.number b) = number_eq a b
    value_eq (Json.string a) (Json.string b) = text_eq a b
    value_eq (Json.array xs) (Json.array ys) = items_eq xs ys
    value_eq (Json.object fs) (Json.object gs) = fields_eq fs gs
    value_eq _ _ = false

    pub items_eq : Items JsonNumber → Items JsonNumber → Bool
    items_eq Json.nil Json.nil = true
    items_eq (Json.cons x xs) (Json.cons y ys) = value_eq x y && items_eq xs ys
    items_eq _ _ = false

    pub fields_eq : Fields JsonNumber → Fields JsonNumber → Bool
    fields_eq Json.end Json.end = true
    fields_eq (Json.field k v fs) (Json.field j w gs) =
        text_eq k j && value_eq v w && fields_eq fs gs
    fields_eq _ _ = false

  -- `same_value`, on the texts of the two values.
  unfoldable pub same_text : Option Text → Option Text → Bool → Bool → Bool
  unfolding fold
  same_text (some left) (some right) cased equal =
      if cased then text_eq left right else text_eq (fold simple_fold left) (fold simple_fold right)
  same_text _ _ cased equal = equal

  unfoldable pub same_value : Event → Event → Bool → Bool
  unfolding same_text text_of value_eq
  same_value left right cased = same_text (text_of left) (text_of right) cased (value_eq left right)

  unfoldable pub is_boolean : Bool → Event → Bool
  unfolding bool_eq bool_text
  is_boolean expected (Json.bool actual) = bool_eq actual expected
  is_boolean expected (Json.string written) =
      text_eq (map to_ascii_lowercase written) (map to_ascii_lowercase (bool_text expected))
  is_boolean expected _ = false

  unfoldable pub is_address_in : Resolved.Network → Event → Bool
  unfolding contains trim
  is_address_in network (Json.string s) = is_some_and (address_parse (trim s)) (contains network)
  is_address_in network _ = false

  unfoldable pub is_empty : List Event → Bool
  is_empty [] = true
  is_empty (v ∷ values) = false

  unfoldable pub test_values : Test Float → List Event → Event → Bool
  unfolding string_matches is_address_in is_empty number_of compare_numbers is_eq is_boolean
      satisfies pool same_value bool_eq
  test_values (Test.string test) values event =
      any (λ value. is_some_and (text_of value) (string_matches test)) values
  test_values (Test.cidr network) values event = any (is_address_in network) values
  test_values (Test.exists expected) values event = not (bool_eq (is_empty values) expected)
  test_values Test.null values event = is_empty values
  test_values (Test.equals expected) values event =
      any
        (λ value.
          is_some_and (number_of value)
            (λ actual. is_some_and (compare_numbers actual expected) is_eq))
        values
  test_values (Test.boolean expected) values event = any (is_boolean expected) values
  test_values (Test.compare op bound) values event =
      any
        (λ value.
          is_some_and (number_of value)
            (λ actual. is_some_and (compare_numbers actual bound) (satisfies op)))
        values
  test_values (Test.field_ref paths cased) values event =
      let others = pool event paths in
      any (λ value. any (λ other. same_value value other cased) others) values
  test_values (Test.regex p flags) values event = false

  -- Whether the test holds of some string anywhere in the value.
  unfoldable mutual
    pub any_string : (Text → Bool) → Event → Bool
    any_string visit (Json.string s) = visit s
    any_string visit (Json.array items) = any_string_item visit items
    any_string visit (Json.object fields) = any_string_member visit fields
    any_string visit _ = false

    pub any_string_item : (Text → Bool) → Items JsonNumber → Bool
    any_string_item visit Json.nil = false
    any_string_item visit (Json.cons item items) =
        any_string visit item || any_string_item visit items

    pub any_string_member : (Text → Bool) → Fields JsonNumber → Bool
    any_string_member visit Json.end = false
    any_string_member visit (Json.field name value fields) =
        any_string visit value || any_string_member visit fields
