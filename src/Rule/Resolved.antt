-- ===== src/Rule/Resolved.antt =====
-- crates/goliath-rule/src/resolved.rs: the resolved form of a rule. `F` is the type of floating
-- point numbers, a parameter.
use goliath_siem.Base.{ℕ, ◌-◌, ◌/◌, ◌^◌, Bool, false, Option, List, Text, ◌==◌, ltb, if◌then◌else◌}
use goliath_siem.Base.Int.{ℤ}
use goliath_siem.Sigma.Pattern.{Pattern}
use goliath_siem.Rule.FieldPath.{FieldPath}

pub data Number (F : Type 0) : Type 0 where
  integer : ℤ → Number F
  float : F → Number F

pub data Comparison : Type 0 where
  less less_or_equal greater greater_or_equal : Comparison

pub data IpAddr : Type 0 where
  v4 : ℕ → IpAddr
  v6 : ℕ → IpAddr

pub record Network : Type 0 where
  pub address : IpAddr
  pub prefix : ℕ

unfoldable pub max_prefix : IpAddr → ℕ
max_prefix (v4 a) = 32
max_prefix (v6 a) = 128

-- `bits.checked_shr(host_bits).unwrap_or(0)` on a `u128`.
unfoldable pub shift : ℕ → ℕ → ℕ
shift host_bits bits = if ltb host_bits 128 then bits / 2 ^ host_bits else 0

-- `Network::contains`, with the two addresses apart.
unfoldable pub contains_bits : IpAddr → IpAddr → ℕ → Bool
unfolding shift
contains_bits (v4 network) (v4 candidate) host_bits =
    shift host_bits network == shift host_bits candidate
contains_bits (v6 network) (v6 candidate) host_bits =
    shift host_bits network == shift host_bits candidate
contains_bits _ _ host_bits = false

unfoldable pub contains : Network → IpAddr → Bool
unfolding contains_bits max_prefix
contains network candidate =
    contains_bits network.address candidate (max_prefix network.address - network.prefix)

pub record StringTest : Type 0 where
  pub pattern : Pattern
  pub cased : Bool

pub record RegexFlags : Type 0 where
  pub case_insensitive : Bool
  pub multiline : Bool
  pub dot_all : Bool

pub data Test (F : Type 0) : Type 0 where
  string : StringTest → Test F
  regex : Text → RegexFlags → Test F
  cidr : Network → Test F
  exists : Bool → Test F
  null : Test F
  equals : Number F → Test F
  boolean : Bool → Test F
  compare : Comparison → Number F → Test F
  field_ref : List FieldPath → Bool → Test F

pub record Predicate (F : Type 0) : Type 0 where
  pub paths : List FieldPath
  pub test : Test F

mutual
  pub data Expr (F : Type 0) : Type 0 where
    and : Exprs F → Expr F
    or : Exprs F → Expr F
    not : Expr F → Expr F
    field : Predicate F → Expr F
    keyword : StringTest → Expr F

  pub data Exprs (F : Type 0) : Type 0 where
    nil : Exprs F
    cons : Expr F → Exprs F → Exprs F

pub data ClassValue : Type 0 where
  integer : ℤ → ClassValue
  string : Text → ClassValue

pub record MappingVersion : Type 0 where
  pub name : Text
  pub version : ℕ

pub record ResolvedRule (F : Type 0) : Type 0 where
  pub title : Text
  pub id : Option Text
  pub mapping : MappingVersion
  pub class : List (FieldPath × ClassValue)
  pub condition : Expr F

abbrev pub append_exprs : {F : Type 0} → Exprs F → Exprs F → Exprs F
append_exprs nil ys = ys
append_exprs (cons x xs) ys = cons x (append_exprs xs ys)

-- A vector of one operand is that operand.
unfoldable pub unwrap_single : {F : Type 0} → (Exprs F → Expr F) → Exprs F → Expr F
unwrap_single wrap (cons operand nil) = operand
unwrap_single wrap flat = wrap flat

-- The splicing loop of `Expr::all`.
unfoldable pub splice_and : {F : Type 0} → Exprs F → Exprs F
splice_and nil = nil
splice_and (cons (and nested) operands) = append_exprs nested (splice_and operands)
splice_and (cons other operands) = cons other (splice_and operands)

unfoldable pub all_of : {F : Type 0} → Exprs F → Expr F
unfolding splice_and unwrap_single
all_of operands = unwrap_single and (splice_and operands)

-- The splicing loop of `Expr::any`.
unfoldable pub splice_or : {F : Type 0} → Exprs F → Exprs F
splice_or nil = nil
splice_or (cons (or nested) operands) = append_exprs nested (splice_or operands)
splice_or (cons other operands) = cons other (splice_or operands)

unfoldable pub any_of : {F : Type 0} → Exprs F → Expr F
unfolding splice_or unwrap_single
any_of operands = unwrap_single or (splice_or operands)
