-- ===== src/Base/Dict.antt =====
-- Ordered maps and sets keyed by texts, as association lists: what `BTreeMap` and `BTreeSet` are
-- used for where the order of their keys is never observed.
use mathlib.Core.Path.{◌≡◌, refl}
use mathlib.Core.Logic.{inl, inr}
use mathlib.Core.Bool.{Bool, false, ◌||◌}
use mathlib.Core.List.{List, [], ◌∷◌}
use mathlib.Core.Option.{Option, none, some}
use native.Mathlib.Omega.{arith}
use goliath_siem.Base.Tests.{if◌then◌else◌, Bool-cases}
use goliath_siem.Base.Lists.{In}
use goliath_siem.Base.Texts.{Text, text_eq, text_eq_iff}

-- `BTreeSet::contains`, `insert` and `remove`.
unfoldable pub contains : List Text → Text → Bool
unfolding text_eq
contains [] k = false
contains (j ∷ s) k = text_eq j k || contains s k

unfoldable pub add : Text → List Text → List Text
unfolding contains
add k s = if contains s k then s else k ∷ s

unfoldable pub discard : Text → List Text → List Text
unfolding text_eq
discard k [] = []
discard k (j ∷ s) = let rest = discard k s in if text_eq j k then rest else j ∷ rest

module _ {ℓ} {V : Type ℓ} where
  -- `BTreeMap::get`, `insert` and `remove`.
  unfoldable pub find : Text → List (Text × V) → Option V
  unfolding text_eq
  find k [] = none
  find k ((j, v) ∷ m) = if text_eq j k then some v else find k m

  unfoldable pub put : Text → V → List (Text × V) → List (Text × V)
  unfolding text_eq
  put k v [] = (k, v) ∷ []
  put k v ((j, w) ∷ m) = if text_eq j k then (j, v) ∷ m else (j, w) ∷ put k v m

  unfoldable pub erase : Text → List (Text × V) → List (Text × V)
  unfolding text_eq
  erase k [] = []
  erase k ((j, v) ∷ m) = let rest = erase k m in if text_eq j k then rest else (j, v) ∷ rest

  pub find-put :
      (k j : Text) (v : V) (m : List (Text × V))
      → find j (put k v m) ≡ (if text_eq k j then some v else find j m)
  unfolding find put
  find-put k j v [] = refl
  find-put k j v ((i, w) ∷ m) =
      ground (arith, text_eq_iff k j, text_eq_iff i k, text_eq_iff i j, find-put k j v m)

  pub find-erase :
      (k j : Text) (m : List (Text × V))
      → find j (erase k m) ≡ (if text_eq k j then none else find j m)
  unfolding find erase
  find-erase k j [] = ground arith
  find-erase k j ((i, w) ∷ m) =
      ground (arith, text_eq_iff k j, text_eq_iff i k, text_eq_iff i j, find-erase k j m)

  -- What a key is found under is one of the map's pairs.
  pub find-In : (k : Text) (m : List (Text × V)) {v : V} → find k m ≡ some v → In (k, v) m
  unfolding find
  find-In k [] h = cc
  find-In k ((j, w) ∷ m) h = elim (Bool-cases (text_eq j k)) [
    | inl e ↦ inl (let p = (text_eq_iff j k).0 e in ground arith)
    | inr e ↦ inr (find-In k m (ground arith))
  ]

pub contains-discard :
    (k j : Text) (s : List Text)
    → contains (discard k s) j ≡ (if text_eq k j then false else contains s j)
unfolding contains discard
contains-discard k j [] = ground arith
contains-discard k j (i ∷ s) =
    ground (arith, text_eq_iff k j, text_eq_iff i k, text_eq_iff i j, contains-discard k j s)

pub contains-add :
    (k j : Text) (s : List Text) → contains (add k s) j ≡ (text_eq k j || contains s j)
unfolding add contains
contains-add k j s = elim (Bool-cases (contains s k)) [
  | inl e ↦ rw e (elim (Bool-cases (text_eq k j)) [
    | inl p ↦ rw p (let q = (text_eq_iff k j).0 p in ground arith)
    | inr p ↦ rw p refl
  ])
  | inr e ↦ rw e refl
]
