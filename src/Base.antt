-- ===== src/Base.antt =====
-- What the components share: the libraries' names, passed on, and tests and lists over the
-- native numbers.
mod Tests
mod Lists
mod Texts
pub mod Elems
pub mod Int
pub mod Std
pub mod Dict
pub use Tests.*
pub use Lists.*
pub use Texts.{
  Text, text, text_eq_iff, strip_prefix-eq, strip_prefix-append, shorter_end, later_end,
}
unfoldable pub use Texts.{text_eq, strip_prefix, text_lt, len_utf8, byte_length}
pub use Prim.Native.Nat.{Ordering, compare, ℕ, zero, suc, ◌+◌, ◌-◌, ◌*◌, ◌/◌, ◌%◌, ◌^◌, ◌≤◌, ◌<◌}
pub use mathlib.Core.Path.{◌≡◌, refl, sym, ap, ap₂, subst, ◌∙◌}
pub use mathlib.Core.Logic.{◌≢◌, ◌↔◌, ◌⊎◌, inl, inr}
pub use mathlib.Core.Bool.{Bool, true, false, not, ◌&&◌, ◌||◌, false≢true}
pub use mathlib.Core.Option.{Option, none, some}
pub use mathlib.Core.List.{List, [], ◌∷◌, ◌++◌, map, append_assoc, append-nil}
pub use native.Mathlib.Omega.{arith}
