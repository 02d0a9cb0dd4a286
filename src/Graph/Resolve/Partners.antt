-- ===== src/Graph/Resolve/Partners.antt =====
-- The strong identifiers that were claimed with an identifier, in which
-- `shared` of crates/goliath-graph/src/resolve.rs counts.
use goliath_siem.Base.{
  ◌≡◌, ◌↔◌, refl, sym, ap, subst, ◌∙◌, ◌⊎◌, inl, inr, Bool, true, false, not, ◌&&◌, List, [], ◌∷◌,
  ◌==◌, In, any-In, In-any, arith, Bool-cases, ==_iff,
}
use goliath_siem.Graph.{
  Form, Strength, strong, weak, Identifier, same_identifier, same_identifier_iff, form_order,
  form_order-eq,
}
use goliath_siem.Graph.Ranks.{strength, is_weak}
use goliath_siem.Graph.Resolve.{Evidence, is_one_of, add_one, partner, partners}

-- An event showed the two identifiers as one thing, in either order.
abbrev pub AreClaimed : List Evidence → Identifier → Identifier → Type 0
AreClaimed evidence x y =
    (c : Evidence) × In c evidence × (((c.one ≡ x) × (c.other ≡ y)) ⊎ ((c.other ≡ x) × (c.one ≡ y)))

abbrev pub AreDistinct : List Identifier → Type 0
AreDistinct [] = Unit {0}
AreDistinct (x ∷ xs) = (¬ In x xs) × AreDistinct xs

is_one_of_iff : (xs : List Identifier) (x : Identifier) → (is_one_of xs x ≡ true) ↔ In x xs
unfolding is_one_of
is_one_of_iff xs x = (
  λ h.
      let (y, i, e) = any-In (λ z. same_identifier z x) xs h in
      subst (λ z. In z xs) ((same_identifier_iff y x).0 e) i,
  λ i. In-any (λ z. same_identifier z x) xs i ((same_identifier_iff x x).1 refl),
)

add_one_iff :
    (x : Identifier) (xs : List Identifier) (y : Identifier)
    → In y (add_one x xs) ↔ ((y ≡ x) ⊎ In y xs)
unfolding add_one
add_one_iff x xs y = elim (Bool-cases (is_one_of xs x)) [
  | inl t ↦ rw t (
    λ i. inr i,
    λ h. elim h [ inl e ↦ subst (λ z. In z xs) (sym e) ((is_one_of_iff xs x).0 t) | inr i ↦ i ],
  )
  | inr t ↦ rw t (λ i. i, λ h. h)
]

add_one-AreDistinct :
    (x : Identifier) (xs : List Identifier) → AreDistinct xs → AreDistinct (add_one x xs)
unfolding add_one
add_one-AreDistinct x xs d = elim (Bool-cases (is_one_of xs x)) [
  | inl t ↦ rw t d
  | inr t ↦ rw t (λ i. let q = (is_one_of_iff xs x).1 i in cc, d)
]

pub is_weak_iff : (s : Strength) → (is_weak s ≡ false) ↔ (s ≡ strong)
is_weak_iff strong = (λ h. refl, λ h. refl)
is_weak_iff weak = (λ h. cc, λ h. cc)

all_three : (a b c : Bool) → ((not a && b && c) ≡ true) ↔ ((a ≡ false) × (b ≡ true) × (c ≡ true))
all_three a b c = (λ h. (ground arith, ground arith, ground arith), λ h. ground arith)

-- The test of one side of a claim.
abbrev is_partner : Identifier → Form → Identifier → Identifier → Bool
is_partner x f this that =
    not (is_weak (strength that)) && same_identifier this x && form_order that.form == form_order f

abbrev IsPartner : Identifier → Form → Identifier → Identifier → Type 0
IsPartner x f this that = (this ≡ x) × (that.form ≡ f) × (strength that ≡ strong)

is_partner_iff :
    (x : Identifier) (f : Form) (this that : Identifier)
    → (is_partner x f this that ≡ true) ↔ IsPartner x f this that
is_partner_iff x f this that =
    let three =
      all_three (is_weak (strength that)) (same_identifier this x)
        (form_order that.form == form_order f) in
    (
      λ h.
          let (a, b, c) = three.0 h in
          (
            (same_identifier_iff this x).0 b,
            form_order-eq that.form f ((==_iff _ _).0 c),
            (is_weak_iff (strength that)).0 a,
          ),
      λ h.
          let (a, b, c) = h in
          three.1 (
            (is_weak_iff (strength that)).1 c,
            (same_identifier_iff this x).1 a,
            (==_iff _ _).1 (ap (λ (k : Form). form_order k) b),
          ),
    )

partner_iff :
    (x : Identifier) (f : Form) (this that : Identifier) (found : List Identifier) (y : Identifier)
    → In y (partner x f this that found) ↔ (((y ≡ that) × IsPartner x f this that) ⊎ In y found)
unfolding partner
partner_iff x f this that found y = elim (Bool-cases (is_partner x f this that)) [
  | inl t ↦ rw t (
    λ i. elim ((add_one_iff that found y).0 i) [
      | inl e ↦ inl (e, (is_partner_iff x f this that).0 t)
      | inr j ↦ inr j
    ],
    λ h. (add_one_iff that found y).1 (elim h [ inl a ↦ inl a.0 | inr j ↦ inr j ]),
  )
  | inr t ↦ rw t (
    λ i. inr i,
    λ h. elim h [
      | inl (e, a) ↦ let q = (is_partner_iff x f this that).1 a in absurd cc
      | inr j ↦ j
    ],
  )
]

partner-AreDistinct :
    (x : Identifier) (f : Form) (this that : Identifier) (found : List Identifier)
    → AreDistinct found
    → AreDistinct (partner x f this that found)
unfolding partner
partner-AreDistinct x f this that found d =
    let added = add_one-AreDistinct that found d in
    elim (Bool-cases (is_partner x f this that)) [ inl t ↦ rw t added | inr t ↦ rw t d ]

pub partners-AreDistinct :
    (x : Identifier) (f : Form) (evidence : List Evidence) → AreDistinct (partners x f evidence)
unfolding partners
partners-AreDistinct x f [] = tt
partners-AreDistinct x f (c ∷ evidence) =
    partner-AreDistinct x f c.one c.other _
      (partner-AreDistinct x f c.other c.one _ (partners-AreDistinct x f evidence))

from_partner :
    (x : Identifier) (f : Form) (this that y : Identifier)
    → y ≡ that
    → IsPartner x f this that
    → (y.form ≡ f) × (strength y ≡ strong) × (this ≡ x) × (that ≡ y)
from_partner x f this that y e (a, b, s) =
    (ap (λ (z : Identifier). z.form) e ∙ b, ap strength e ∙ s, a, sym e)

to_partner :
    (x : Identifier) (f : Form) (this that y : Identifier)
    → y.form ≡ f
    → strength y ≡ strong
    → this ≡ x
    → that ≡ y
    → (y ≡ that) × IsPartner x f this that
to_partner x f this that y b s a e =
    (sym e, (a, ap (λ (z : Identifier). z.form) e ∙ b, ap strength e ∙ s))

abbrev AreOf : Evidence → Identifier → Identifier → Type 0
AreOf c x y = ((c.one ≡ x) × (c.other ≡ y)) ⊎ ((c.other ≡ x) × (c.one ≡ y))

-- The strong identifiers of the form that were claimed with the identifier.
pub partners_iff :
    (x : Identifier) (f : Form) (evidence : List Evidence) (y : Identifier)
    → In y (partners x f evidence)
      ↔ ((y.form ≡ f) × (strength y ≡ strong) × AreClaimed evidence x y)
unfolding partners
partners_iff x f [] y = (λ i. absurd i.lower, λ h. absurd (h.2.1.lower))
partners_iff x f (c ∷ evidence) y =
    let rest = partners x f evidence in
    let first = partner_iff x f c.one c.other (partner x f c.other c.one rest) y in
    let second = partner_iff x f c.other c.one rest y in
    let third = partners_iff x f evidence y in
    (
      λ i. elim (first.0 i) [
        | inl (e, w) ↦
            let (b, s, o, p) = from_partner x f c.one c.other y e w in
            (b, s, (c, inl refl, inl (o, p)))
        | inr j ↦ elim (second.0 j) [
          | inl (e, w) ↦
              let (b, s, o, p) = from_partner x f c.other c.one y e w in
              (b, s, (c, inl refl, inr (o, p)))
          | inr k ↦ let (b, s, (d, m, w)) = third.0 k in (b, s, (d, inr m, w))
        ]
      ],
      λ (b, s, (d, m, w)). elim m [
        | inl q ↦ elim (subst (λ (z : Evidence). AreOf z x y) q w) [
          | inl (o, p) ↦ first.1 (inl (to_partner x f c.one c.other y b s o p))
          | inr (o, p) ↦ first.1 (inr (second.1 (inl (to_partner x f c.other c.one y b s o p))))
        ]
        | inr k ↦ first.1 (inr (second.1 (inr (third.1 (b, s, (d, k, w))))))
      ],
    )
