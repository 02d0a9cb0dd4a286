-- ===== src/Graph.antt =====
-- Entities from the identifiers that events show, crates/goliath-graph/src: what an identifier is,
-- identifier.rs. The children model resolve.rs, which decides which identifiers are one entity.
pub mod Ranks
pub mod Groups
pub mod Resolve
mod Samples
use goliath_siem.Base.{
  ℕ, ◌+◌, ◌*◌, ◌≡◌, ◌↔◌, refl, Bool, true, false, ◌&&◌, Option, List, [], ◌∷◌, Text, text, text_eq,
  text_eq_iff, if◌then◌else◌, ◌==◌, arith, Bool-cases,
}
use goliath_siem.Base.Int.{ℤ}

pub data Kind : Type 0 where
  user host address domain file : Kind

pub data Form : Type 0 where
  sid uid email name local mac ip hash : Form

-- Whether an identifier names one thing.
pub data Strength : Type 0 where
  strong weak : Strength

pub record Identifier : Type 0 where
  pub kind : Kind
  pub form : Form
  pub value : Text

-- The order of the variants, by which kinds and forms are compared.
abbrev pub kind_order : Kind → ℕ
kind_order user = 0
kind_order host = 1
kind_order address = 2
kind_order domain = 3
kind_order file = 4

abbrev pub form_order : Form → ℕ
form_order sid = 0
form_order uid = 1
form_order email = 2
form_order name = 3
form_order local = 4
form_order mac = 5
form_order ip = 6
form_order hash = 7

unfoldable pub same_identifier : Identifier → Identifier → Bool
unfolding text_eq
same_identifier a b =
    kind_order a.kind == kind_order b.kind
    && form_order a.form == form_order b.form
    && text_eq a.value b.value

kind_order-eq : (a b : Kind) → kind_order a ≡ kind_order b → a ≡ b
kind_order-eq user b h = ground arith
kind_order-eq host b h = ground arith
kind_order-eq address b h = ground arith
kind_order-eq domain b h = ground arith
kind_order-eq file b h = ground arith

pub form_order-eq : (a b : Form) → form_order a ≡ form_order b → a ≡ b
form_order-eq sid b h = ground arith
form_order-eq uid b h = ground arith
form_order-eq email b h = ground arith
form_order-eq name b h = ground arith
form_order-eq local b h = ground arith
form_order-eq mac b h = ground arith
form_order-eq ip b h = ground arith
form_order-eq hash b h = ground arith

pub same_identifier_iff : (a b : Identifier) → (same_identifier a b ≡ true) ↔ (a ≡ b)
unfolding same_identifier
same_identifier_iff a b = (
  λ h.
      let k = kind_order-eq a.kind b.kind (ground arith) in
      let f = form_order-eq a.form b.form (ground arith) in
      let v = (text_eq_iff a.value b.value).0 (ground arith) in ground arith,
  λ e. rw e (let v = (text_eq_iff b.value b.value).1 refl in ground arith),
)
