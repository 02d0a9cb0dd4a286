-- ===== src/Match/Engine/BoolFree.antt =====
-- Events without booleans: no path reaches one.
use goliath_siem.Base.{
  inl, inr, sym, subst, Bool, true, false, Bool-cases, if◌then◌else◌, List, [], ◌∷◌, keep, Text,
  text_eq, In, append-In,
}
use goliath_siem.Json.{
  Value, Items, Fields, null, number, string, array, object, nil, cons, end, field,
}
use goliath_siem.Rule.FieldPath.{walk, walk_items, walk_member, lookup}
use goliath_siem.Crates.{Crates}
use goliath_siem.Match.Semantics.{Event, pool, non_null}
use goliath_siem.Match.Engine.Equivalence.{IsPlain, HasNoBool}

mutual
  pub data IsBoolFree {N : Type 0} : Value N → Type 0 where
    free_null : IsBoolFree null
    free_number : (n : N) → IsBoolFree (number n)
    free_string : (s : Text) → IsBoolFree (string s)
    free_array : {items : Items N} → AreBoolFree items → IsBoolFree (array items)
    free_object : {fields : Fields N} → HaveBoolFree fields → IsBoolFree (object fields)

  pub data AreBoolFree {N : Type 0} : Items N → Type 0 where
    free_nil : AreBoolFree nil
    free_cons :
        {item : Value N} {items : Items N}
        → IsBoolFree item
        → AreBoolFree items
        → AreBoolFree (cons item items)

  pub data HaveBoolFree {N : Type 0} : Fields N → Type 0 where
    free_end : HaveBoolFree end
    free_field :
        {name : Text} {value : Value N} {fields : Fields N}
        → IsBoolFree value
        → HaveBoolFree fields
        → HaveBoolFree (field name value fields)

keep-In {ℓ} : {A : Type ℓ} (p : A → Bool) (xs : List A) (x : A) → In x (keep p xs) → In x xs
keep-In p [] x i = i
keep-In p (y ∷ xs) x i = go (p y) (keep-In p xs x) i
  where
    go :
        (b : Bool)
        → (In x (keep p xs) → In x xs)
        → In x (if b then y ∷ keep p xs else keep p xs)
        → In x (y ∷ xs)
    go true again (inl e) = inl e
    go true again (inr j) = inr (again j)
    go false again j = inr (again j)

module _ (c : Crates) where
  abbrev Plain : List (Event c) → Type 0
  Plain values = (v : Event c) → In v values → IsPlain c v

  one-Plain : (v : Event c) → IsPlain c v → Plain (v ∷ [])
  one-Plain v h w (inl e) = subst (IsPlain c) (sym e) h
  one-Plain v h w (inr i) = absurd i.lower

  none-Plain : Plain []
  none-Plain w i = absurd i.lower

  mutual
    unfolding walk

    walk-Plain : {v : Event c} → IsBoolFree v → (segments : List Text) → Plain (walk v segments)
    walk-Plain free_null [] = one-Plain null tt
    walk-Plain free_null (s ∷ segments) = none-Plain
    walk-Plain (free_number n) [] = one-Plain (number n) tt
    walk-Plain (free_number n) (s ∷ segments) = none-Plain
    walk-Plain (free_string s) [] = one-Plain (string s) tt
    walk-Plain (free_string t) (s ∷ segments) = none-Plain
    walk-Plain (free_array free) segments = walk_items-Plain free segments
    walk-Plain (free_object {fields = fields} free) [] = one-Plain (object fields) tt
    walk-Plain (free_object free) (head ∷ rest) = walk_member-Plain free head rest

    walk_items-Plain :
        {items : Items c.JsonNumber}
        → AreBoolFree items
        → (segments : List Text) → Plain (walk_items items segments)
    walk_items-Plain free_nil segments = none-Plain
    walk_items-Plain (free_cons {item = item} free frees) segments =
        let first = walk-Plain free segments in
        let rest = walk_items-Plain frees segments in
        λ w i. elim (append-In w (walk item segments) _ i) [ inl j ↦ first w j | inr j ↦ rest w j ]

    walk_member-Plain :
        {fields : Fields c.JsonNumber}
        → HaveBoolFree fields
        → (head : Text) (rest : List Text) → Plain (walk_member fields head rest)
    walk_member-Plain free_end head rest = none-Plain
    walk_member-Plain (free_field {name = name} free frees) head rest =
        let here = walk-Plain free rest in
        let later = walk_member-Plain frees head rest in
        elim (Bool-cases (text_eq name head)) [ inl e ↦ rw e here | inr e ↦ rw e later ]

  -- An event in which no boolean stands has no field that is one.
  pub BoolFree-HasNoBool : (event : Event c) → IsBoolFree event → HasNoBool c event
  unfolding pool lookup
  BoolFree-HasNoBool event free [] v i = absurd i.lower
  BoolFree-HasNoBool event free (p ∷ ps) v i =
      elim (append-In v (keep (non_null c) (lookup p event)) _ i) [
        | inl j ↦ walk-Plain free p.segments v (keep-In (non_null c) (lookup p event) v j)
        | inr j ↦ BoolFree-HasNoBool event free ps v j
      ]
