-- ===== src/Graph/Resolve/Sharing.antt =====
-- Which identifiers are shared, `shared` of crates/goliath-graph/src/resolve.rs, against a
-- description without the maps that it counts in.
use goliath_siem.Base.{
  ℕ, suc, ◌≤◌, ◌<◌, ◌≡◌, ◌≢◌, ◌↔◌, refl, sym, ap, subst, ◌∙◌, inl, inr, Bool, true, false, not,
  ◌&&◌, List, [], ◌∷◌, ltb, length, In, any-In, In-any, arith, false_of_not,
}
use goliath_siem.Graph.{Form, strong, Identifier, sid, uid, email, name, local, mac, ip, hash}
use goliath_siem.Graph.Ranks.{strength, is_weak}
use goliath_siem.Graph.Resolve.Partners.{
  AreClaimed, AreDistinct, is_weak_iff, partners-AreDistinct, partners_iff,
}
use goliath_siem.Graph.Resolve.{Evidence, partners, all_forms, is_shared, joins}

-- More than so many strong identifiers of one form were claimed with the identifier.
pub record IsShared (evidence : List Evidence) (over : ℕ) (x : Identifier) : Type 0 where
  pub form : Form
  pub others : List Identifier
  pub distinct : AreDistinct others
  pub many : over < length others
  pub claimed :
      (y : Identifier)
      → In y others
      → (y.form ≡ form) × (strength y ≡ strong) × AreClaimed evidence x y

-- What is left of a list when one of its identifiers is taken out.
taken_out :
    (x : Identifier) (ys : List Identifier)
    → In x ys
    → (rest : List Identifier) × (length ys ≡ suc (length rest))
      × ((z : Identifier) → z ≢ x → In z ys → In z rest)
taken_out x [] i = absurd i.lower
taken_out x (y ∷ ys) (inl e) =
    (ys, refl, λ z n i. elim i [ inl q ↦ absurd (n (q ∙ sym e)) | inr j ↦ j ])
taken_out x (y ∷ ys) (inr i) =
    let (rest, l, keeps) = taken_out x ys i in
    (y ∷ rest, ap suc l, λ z n k. elim k [ inl q ↦ inl q | inr j ↦ inr (keeps z n j) ])

distinct-length :
    (xs ys : List Identifier)
    → AreDistinct xs
    → ((z : Identifier) → In z xs → In z ys)
    → length xs ≤ length ys
distinct-length [] ys d h = omega arith
distinct-length (x ∷ xs) ys (n, d) h =
    let (rest, l, keeps) = taken_out x ys (h x (inl refl)) in
    let w =
      distinct-length xs rest d
        (λ z i. keeps z (λ e. n (subst (λ k. In k xs) e i)) (h z (inr i))) in
    omega (arith, l, w)

all_forms_all : (f : Form) → In f all_forms
all_forms_all sid = inl refl
all_forms_all uid = inr (inl refl)
all_forms_all email = inr (inr (inl refl))
all_forms_all name = inr (inr (inr (inl refl)))
all_forms_all local = inr (inr (inr (inr (inl refl))))
all_forms_all mac = inr (inr (inr (inr (inr (inl refl)))))
all_forms_all ip = inr (inr (inr (inr (inr (inr (inl refl))))))
all_forms_all hash = inr (inr (inr (inr (inr (inr (inr (inl refl)))))))

-- An identifier is set aside exactly where it is shared.
pub is_shared_iff :
    (evidence : List Evidence) (over : ℕ) (x : Identifier)
    → (is_shared evidence over x ≡ true) ↔ IsShared evidence over x
unfolding is_shared
is_shared_iff evidence over x = (
  λ h.
      let (f, i, m) = any-In (λ g. ltb over (length (partners x g evidence))) all_forms h in
      record {
        form = f;
        others = partners x f evidence;
        distinct = partners-AreDistinct x f evidence;
        many = ground arith;
        claimed = λ y j. (partners_iff x f evidence y).0 j;
      },
  λ s.
      let l =
        distinct-length s.others (partners x s.form evidence) s.distinct
          (λ y i. (partners_iff x s.form evidence y).1 (s.claimed y i)) in
      let m = s.many in
      In-any (λ g. ltb over (length (partners x g evidence))) all_forms (all_forms_all s.form)
        (ground arith),
)

neither : (a b : Bool) → ((not a && not b) ≡ true) ↔ ((a ≡ false) × (b ≡ false))
neither a b = (λ h. (ground arith, ground arith), λ h. ground arith)

-- An identifier joins exactly where it is strong and not shared.
pub joins_iff :
    (evidence : List Evidence) (over : ℕ) (x : Identifier)
    → (joins evidence over x ≡ true) ↔ ((strength x ≡ strong) × (¬ IsShared evidence over x))
unfolding joins
joins_iff evidence over x =
    let as_strong = is_weak_iff (strength x) in
    let as_shared = is_shared_iff evidence over x in
    let both = neither (is_weak (strength x)) (is_shared evidence over x) in
    (
      λ h. let (a, b) = both.0 h in (as_strong.0 a, λ s. let q = as_shared.1 s in cc),
      λ (a, n). both.1 (as_strong.1 a, false_of_not _ (λ t. n (as_shared.0 t))),
    )
