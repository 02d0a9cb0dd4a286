-- ===== src/Base/Texts.antt =====
-- A text is the list of its characters, each by its code point. A position in a text is the rest
-- of the text from there on.
use mathlib.Core.Path.{◌≡◌, refl, ap, sym, ◌∙◌}
use mathlib.Core.Logic.{◌↔◌}
use mathlib.Core.Bool.{Bool, true, false, ◌&&◌}
use mathlib.Core.List.{List, [], ◌∷◌, ◌++◌, append_assoc}
use mathlib.Core.Option.{Option, none, some}
use Prim.Native.Nat.{ℕ, ◌≤◌, ◌+◌}
use Prim.Native.Char.{code}
use Prim.Native.String.{String}
use native.Mathlib.Omega.{arith}
use goliath_siem.Base.Tests.{ltb, ◌==◌, if◌then◌else◌}
use goliath_siem.Base.Lists.{length, length-append}

abbrev pub Text : Type 0
Text = List ℕ

abbrev pub text : String → Text
text String.[] = []
text (String.◌∷◌ c s) = code c ∷ text s

unfoldable pub text_eq : Text → Text → Bool
text_eq [] [] = true
text_eq (x ∷ xs) (y ∷ ys) = x == y && text_eq xs ys
text_eq _ _ = false

text_eq-eq : (s t : Text) → text_eq s t ≡ true → s ≡ t
unfolding text_eq
text_eq-eq [] [] h = refl
text_eq-eq [] (y ∷ ys) h = cc
text_eq-eq (x ∷ xs) [] h = cc
text_eq-eq (x ∷ xs) (y ∷ ys) h = ground (arith, text_eq-eq xs ys)

text_eq_refl : (s : Text) → text_eq s s ≡ true
unfolding text_eq
text_eq_refl [] = refl
text_eq_refl (x ∷ xs) = ground (arith, text_eq_refl xs)

pub text_eq_iff : (s t : Text) → (text_eq s t ≡ true) ↔ (s ≡ t)
text_eq_iff s t = (text_eq-eq s t, λ e. rw e (text_eq_refl t))

-- The order of texts, that of their UTF-8 bytes.
unfoldable pub text_lt : Text → Text → Bool
text_lt s [] = false
text_lt [] (y ∷ ys) = true
text_lt (x ∷ xs) (y ∷ ys) = if x == y then text_lt xs ys else ltb x y

unfoldable pub len_utf8 : ℕ → ℕ
len_utf8 c = if ltb c 0x80 then 1 else if ltb c 0x800 then 2 else if ltb c 0x10000 then 3 else 4

-- `text.len()`, in bytes.
unfoldable pub byte_length : Text → ℕ
unfolding len_utf8
byte_length [] = 0
byte_length (c ∷ s) = len_utf8 c + byte_length s

-- `text.strip_prefix(prefix)`: what follows the prefix, if the text starts with it.
unfoldable pub strip_prefix : Text → Text → Option Text
strip_prefix [] s = some s
strip_prefix (x ∷ t) [] = none
strip_prefix (x ∷ t) (y ∷ s) = if x == y then strip_prefix t s else none

pub strip_prefix-eq : (t s r : Text) → strip_prefix t s ≡ some r → s ≡ t ++ r
unfolding strip_prefix
strip_prefix-eq [] s r h = cc
strip_prefix-eq (x ∷ t) [] r h = cc
strip_prefix-eq (x ∷ t) (y ∷ s) r h = ground (arith, strip_prefix-eq t s r)

pub strip_prefix-append : (t r : Text) → strip_prefix t (t ++ r) ≡ some r
unfolding strip_prefix
strip_prefix-append [] r = refl
strip_prefix-append (x ∷ t) r = ground (arith, strip_prefix-append t r)

-- Of two ends of one text the shorter is an end of the longer.
pub shorter_end :
    (a r b v : Text) → a ++ r ≡ b ++ v → length v ≤ length r → (w : Text) × (r ≡ w ++ v)
shorter_end [] r b v e h = (b, e)
shorter_end (x ∷ a) r [] v e h =
    absurd (omega (arith, ap length {x = x ∷ a ++ r} {y = v} e, length-append a r))
shorter_end (x ∷ a) r (y ∷ b) v e h = shorter_end a r b v (cc) h

-- A part of one width, taken from the front or from further on, leaves ends of one another.
pub later_end :
    (a b u r w : Text) → length a ≡ length b → a ++ r ≡ u ++ (b ++ w) → (y : Text) × (r ≡ y ++ w)
later_end a b u r w same e =
    shorter_end a r (u ++ b) w (e ∙ sym (append_assoc u b w))
      (omega (arith, ap length e, length-append a r, length-append u (b ++ w), length-append b w))
