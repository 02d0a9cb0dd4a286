-- ===== src/Base/Elems.antt =====
-- Reading and writing lists by index.
use Prim.Native.Nat.{ℕ, zero, suc, ◌<◌}
use mathlib.Core.Path.{◌≡◌, refl, sym, ap, subst, ◌∙◌}
use mathlib.Core.Logic.{◌≢◌, ◌⊎◌, inl, inr}
use mathlib.Core.List.{List, [], ◌∷◌, ◌++◌, map}
use mathlib.Core.Option.{none, some}
use native.Mathlib.Omega.{arith}
use goliath_siem.Base.Tests.{if◌then◌else◌, Bool-cases}
use mathlib.Core.Bool.{Bool, true}
use goliath_siem.Base.Lists.{keep, In, length, get_elem?, get_or, set, replicate}

module _ {ℓ} {A : Type ℓ} where
  pub get_elem?-append_left :
      (xs ys : List A) (i : ℕ) (x : A) → get_elem? xs i ≡ some x → get_elem? (xs ++ ys) i ≡ some x
  get_elem?-append_left [] ys i x h = cc
  get_elem?-append_left (y ∷ xs) ys zero x h = h
  get_elem?-append_left (y ∷ xs) ys (suc i) x h = get_elem?-append_left xs ys i x h

  pub get_elem?-append_length :
      (xs : List A) (y : A) → get_elem? (xs ++ y ∷ []) (length xs) ≡ some y
  get_elem?-append_length [] y = refl
  get_elem?-append_length (x ∷ xs) y = get_elem?-append_length xs y

  -- One more element at the end: an index reaches an old element, or the new one.
  pub get_elem?-append_one :
      (xs : List A) (y : A) (i : ℕ) (x : A)
      → get_elem? (xs ++ y ∷ []) i ≡ some x
      → (get_elem? xs i ≡ some x) ⊎ ((i ≡ length xs) × (y ≡ x))
  get_elem?-append_one [] y zero x h = inr (refl, cc)
  get_elem?-append_one [] y (suc i) x h = cc
  get_elem?-append_one (z ∷ xs) y zero x h = inl h
  get_elem?-append_one (z ∷ xs) y (suc i) x h = elim (get_elem?-append_one xs y i x h) [
    | inl e ↦ inl e
    | inr (e, e') ↦ inr (ap suc e, e')
  ]

  pub get_elem?-lt : (xs : List A) (i : ℕ) (x : A) → get_elem? xs i ≡ some x → i < length xs
  get_elem?-lt [] i x h = cc
  get_elem?-lt (y ∷ xs) zero x h = omega arith
  get_elem?-lt (y ∷ xs) (suc i) x h = omega (arith, get_elem?-lt xs i x h)

  pub lt-get_elem? : (xs : List A) (i : ℕ) → i < length xs → (x : A) × (get_elem? xs i ≡ some x)
  lt-get_elem? [] i h = elim h [ ]
  lt-get_elem? (y ∷ xs) zero h = (y, refl)
  lt-get_elem? (y ∷ xs) (suc i) h = lt-get_elem? xs i (omega arith)

  pub get_or-get_elem? :
      (xs : List A) (i : ℕ) (d x : A) → get_elem? xs i ≡ some x → get_or xs i d ≡ x
  get_or-get_elem? [] i d x h = cc
  get_or-get_elem? (y ∷ xs) zero d x h = cc
  get_or-get_elem? (y ∷ xs) (suc i) d x h = get_or-get_elem? xs i d x h

  pub get_or_default : (xs : List A) (i : ℕ) (d : A) → get_elem? xs i ≡ none → get_or xs i d ≡ d
  get_or_default [] i d h = refl
  get_or_default (y ∷ xs) zero d h = cc
  get_or_default (y ∷ xs) (suc i) d h = get_or_default xs i d h

  pub get_or-append_left :
      (xs ys : List A) (i : ℕ) (d : A) → i < length xs → get_or (xs ++ ys) i d ≡ get_or xs i d
  get_or-append_left [] ys i d h = elim h [ ]
  get_or-append_left (x ∷ xs) ys zero d h = refl
  get_or-append_left (x ∷ xs) ys (suc i) d h = get_or-append_left xs ys i d (omega arith)

  pub length-set : (xs : List A) (i : ℕ) (v : A) → length (set xs i v) ≡ length xs
  length-set [] i v = refl
  length-set (x ∷ xs) zero v = refl
  length-set (x ∷ xs) (suc i) v = ap suc (length-set xs i v)

  pub get_or-set_self :
      (xs : List A) (i : ℕ) (v d : A) → i < length xs → get_or (set xs i v) i d ≡ v
  get_or-set_self [] i v d h = elim h [ ]
  get_or-set_self (x ∷ xs) zero v d h = refl
  get_or-set_self (x ∷ xs) (suc i) v d h = get_or-set_self xs i v d (omega arith)

  pub get_or-set_ne :
      (xs : List A) (i j : ℕ) (v d : A) → i ≢ j → get_or (set xs i v) j d ≡ get_or xs j d
  get_or-set_ne [] i j v d h = refl
  get_or-set_ne (x ∷ xs) zero zero v d h = absurd (h refl)
  get_or-set_ne (x ∷ xs) zero (suc j) v d h = refl
  get_or-set_ne (x ∷ xs) (suc i) zero v d h = refl
  get_or-set_ne (x ∷ xs) (suc i) (suc j) v d h = get_or-set_ne xs i j v d (λ e. h (ap suc e))

  pub get_or-replicate : (n i : ℕ) (d : A) → get_or (replicate n d) i d ≡ d
  get_or-replicate zero i d = refl
  get_or-replicate (suc n) zero d = refl
  get_or-replicate (suc n) (suc i) d = get_or-replicate n i d

  pub length-replicate : (n : ℕ) (a : A) → length (replicate n a) ≡ n
  length-replicate zero a = refl
  length-replicate (suc n) a = ap suc (length-replicate n a)

-- What is not the default stands inside.
pub inside-get_or : (xs : List ℕ) (i : ℕ) → 0 < get_or xs i 0 → i < length xs
inside-get_or [] i h = omega arith
inside-get_or (x ∷ xs) zero h = omega arith
inside-get_or (x ∷ xs) (suc i) h = omega (arith, inside-get_or xs i h)

-- After a write, an index reads what was written, or what was there.
pub get_or-set_cases {ℓ} :
    {A : Type ℓ} (xs : List A) (i j : ℕ) (v d : A)
    → ((j ≡ i) × (get_or (set xs i v) j d ≡ v)) ⊎ (get_or (set xs i v) j d ≡ get_or xs j d)
get_or-set_cases [] i j v d = inr refl
get_or-set_cases (x ∷ xs) zero zero v d = inl (refl, refl)
get_or-set_cases (x ∷ xs) zero (suc j) v d = inr refl
get_or-set_cases (x ∷ xs) (suc i) zero v d = inr refl
get_or-set_cases (x ∷ xs) (suc i) (suc j) v d = elim (get_or-set_cases xs i j v d) [
  | inl (e, h) ↦ inl (ap suc e, h)
  | inr h ↦ inr h
]

pub get_or-set_default {ℓ} :
    {A : Type ℓ} (xs : List A) (i : ℕ) (d : A) → get_or (set xs i d) i d ≡ d
get_or-set_default [] i d = refl
get_or-set_default (x ∷ xs) zero d = refl
get_or-set_default (x ∷ xs) (suc i) d = get_or-set_default xs i d

pub In-get_elem? {ℓ} :
    {A : Type ℓ} (x : A) (xs : List A) → In x xs → (i : ℕ) × (get_elem? xs i ≡ some x)
In-get_elem? x [] i = absurd i.lower
In-get_elem? x (y ∷ xs) (inl e) = (zero, ap some (sym e))
In-get_elem? x (y ∷ xs) (inr i) = let (k, e) = In-get_elem? x xs i in (suc k, e)

pub get_elem?-In {ℓ} :
    {A : Type ℓ} (x : A) (xs : List A) (i : ℕ) → get_elem? xs i ≡ some x → In x xs
get_elem?-In x [] i h = cc
get_elem?-In x (y ∷ xs) zero h = inl cc
get_elem?-In x (y ∷ xs) (suc i) h = inr (get_elem?-In x xs i h)

pub get_or-append_length {ℓ} :
    {A : Type ℓ} (xs : List A) (y d : A) → get_or (xs ++ y ∷ []) (length xs) d ≡ y
get_or-append_length [] y d = refl
get_or-append_length (x ∷ xs) y d = get_or-append_length xs y d

pub get_or-append_beyond {ℓ} :
    {A : Type ℓ} (xs : List A) (y d : A) (i : ℕ) → length xs < i → get_or (xs ++ y ∷ []) i d ≡ d
get_or-append_beyond [] y d zero h = absurd (omega arith)
get_or-append_beyond [] y d (suc i) h = refl
get_or-append_beyond (x ∷ xs) y d zero h = absurd (omega arith)
get_or-append_beyond (x ∷ xs) y d (suc i) h = get_or-append_beyond xs y d i (omega arith)

pub In-of_eq {ℓ} : {A : Type ℓ} (x : A) (xs ys : List A) → xs ≡ ys → In x xs → In x ys
In-of_eq x xs ys e i = subst (λ l. In x l) e i

module _ {ℓ κ} {A : Type ℓ} {B : Type κ} (f : A → B) where
  pub map-In : (xs : List A) (y : B) → In y (map f xs) → (x : A) × In x xs × (y ≡ f x)
  map-In [] y i = absurd i.lower
  map-In (x ∷ xs) y (inl e) = (x, inl refl, e)
  map-In (x ∷ xs) y (inr i) = let (z, j, e) = map-In xs y i in (z, inr j, e)

  pub In-map : (xs : List A) (x : A) → In x xs → In (f x) (map f xs)
  In-map [] x i = absurd i.lower
  In-map (y ∷ xs) x (inl e) = inl (ap f e)
  In-map (y ∷ xs) x (inr i) = inr (In-map xs x i)

module _ {ℓ} {A : Type ℓ} (p : A → Bool) where
  pub keep-In : (xs : List A) (x : A) → In x (keep p xs) → In x xs × (p x ≡ true)
  keep-In [] x i = absurd i.lower
  keep-In (y ∷ xs) x i = elim (Bool-cases (p y)) [
    | inl t ↦
        elim (let i' : In x (y ∷ keep p xs) =
            subst (λ b. In x (if b then y ∷ keep p xs else keep p xs)) t i in
          i') [ inl e ↦ (inl e, ap p e ∙ t) | inr j ↦ let (k, h) = keep-In xs x j in (inr k, h) ]
    | inr t ↦
        let i' : In x (keep p xs) =
          subst (λ b. In x (if b then y ∷ keep p xs else keep p xs)) t i in
        let (k, h) = keep-In xs x i' in (inr k, h)
  ]

  pub In-keep : (xs : List A) (x : A) → In x xs → p x ≡ true → In x (keep p xs)
  In-keep [] x i h = i
  In-keep (y ∷ xs) x (inl e) h = let t : p y ≡ true = ap p (sym e) ∙ h in rw t (inl e)
  In-keep (y ∷ xs) x (inr i) h = elim (Bool-cases (p y)) [
    | inl t ↦ rw t (inr (In-keep xs x i h))
    | inr t ↦ rw t (In-keep xs x i h)
  ]
