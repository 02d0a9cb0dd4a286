-- ===== src/Base/Std.antt =====
-- The functions of Rust's standard library on texts that the program calls.
use goliath_siem.Base.Tests.{ltb, leb, ◌==◌, if◌then◌else◌}
use goliath_siem.Base.Lists.{all}
use goliath_siem.Base.Int.{ℤ, pos, negsuc}
use goliath_siem.Base.Texts.{Text}
use Prim.Native.Nat.{ℕ, ◌+◌, ◌-◌, ◌*◌, ◌^◌}
use mathlib.Core.Bool.{Bool, ◌&&◌, ◌||◌}
use mathlib.Core.List.{[], ◌∷◌, reverse}
use mathlib.Core.Option.{Option, none, some}

-- `char::is_whitespace`
unfoldable pub is_whitespace : ℕ → Bool
is_whitespace c =
    (leb 9 c && leb c 13)
    || c == 32
    || c == 0x85
    || c == 0xa0
    || c == 0x1680
    || (leb 0x2000 c && leb c 0x200a)
    || c == 0x2028
    || c == 0x2029
    || c == 0x202f
    || c == 0x205f
    || c == 0x3000

unfoldable pub trim_start : Text → Text
unfolding is_whitespace
trim_start [] = []
trim_start (c ∷ s) = if is_whitespace c then trim_start s else c ∷ s

-- `str::trim`
unfoldable pub trim : Text → Text
unfolding trim_start
trim s = reverse (trim_start (reverse (trim_start s)))

unfoldable pub is_digit : ℕ → Bool
is_digit c = leb b'0' c && leb c b'9'

-- The value of decimal digits behind those that are read.
unfoldable pub digits : ℕ → Text → ℕ
digits value [] = value
digits value (c ∷ s) = digits (value * 10 + (c - b'0')) s

-- The value of a text of at least one digit and nothing else.
unfoldable pub decimal : Text → Option ℕ
unfolding is_digit digits
decimal [] = none
decimal (c ∷ s) = if all is_digit (c ∷ s) then some (digits 0 (c ∷ s)) else none

unfoldable pub bounded : ℕ → Option ℕ → Option ℕ
bounded limit none = none
bounded limit (some n) = if ltb n limit then some n else none

-- `str::parse::<u64>`, `str::parse::<u8>` and so on: an optional `+` and a decimal below the limit.
unfoldable pub parse_unsigned : ℕ → Text → Option ℕ
unfolding decimal bounded
parse_unsigned limit [] = none
parse_unsigned limit (c ∷ s) =
    if c == b'+' then bounded limit (decimal s) else bounded limit (decimal (c ∷ s))

unfoldable pub negate : Option ℕ → Option ℤ
negate none = none
negate (some n) = if n == 0 then some (pos 0) else some (negsuc (n - 1))

unfoldable pub non_negative : Option ℕ → Option ℤ
non_negative none = none
non_negative (some n) = some (pos n)

-- `str::parse::<i64>`
unfoldable pub parse_i64 : Text → Option ℤ
unfolding decimal bounded negate non_negative
parse_i64 [] = none
parse_i64 (c ∷ s) =
    if c == b'-'
    then negate (bounded (2 ^ 63 + 1) (decimal s))
    else if c == b'+'
    then non_negative (bounded (2 ^ 63) (decimal s))
    else non_negative (bounded (2 ^ 63) (decimal (c ∷ s)))
