-- ===== src/Json.antt =====
-- JSON values, the events that rules are asked about. `N` is the type of JSON numbers, which
-- serde_json keeps to itself.
use goliath_siem.Base.{Bool, Text}

mutual
  pub data Value (N : Type 0) : Type 0 where
    null : Value N
    bool : Bool → Value N
    number : N → Value N
    string : Text → Value N
    array : Items N → Value N
    object : Fields N → Value N

  pub data Items (N : Type 0) : Type 0 where
    nil : Items N
    cons : Value N → Items N → Items N

  -- The members of an object, in the order of its map.
  pub data Fields (N : Type 0) : Type 0 where
    end : Fields N
    field : Text → Value N → Fields N → Fields N
