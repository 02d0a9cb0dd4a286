-- ===== src/Match/Engine/Grouping.antt =====
-- `Engine::new`: the rules are grouped by their class conditions. Each rule is a member of one group, with
-- its index and its condition, and each member is a rule.
use goliath_siem.Base.{
  ℕ, zero, suc, ◌+◌, ◌≡◌, inl, inr, refl, sym, subst, ap, Bool-cases, Option, some, List, [], ◌∷◌,
  ◌++◌, Text, text_eq, text_eq_iff, text_lt, get_elem?, In, In-append_left, In-append_right, arith,
}
use goliath_siem.Rule.FieldPath.{FieldPath}
use goliath_siem.Rule.Resolved.{Expr, RegexFlags, ResolvedRule, ClassValue}
use goliath_siem.Crates.{Crates}
use goliath_siem.Match.Engine.Compile.{ByClass, insert_class, group_rules}
use goliath_siem.Match.Engine.Grow.{All}

module _ (c : Crates) (required_literals : Text → RegexFlags → Option (List Text)) where
  open c use {Float, class_json}

  abbrev pub Class : Type 0
  Class = List (FieldPath × ClassValue)

  abbrev pub Entry : Type 0
  Entry = Text × Class × List (ℕ × Expr Float)

  abbrev pub Entries : Type 0
  Entries = ByClass c required_literals

  -- Among the entries is one for the key with the member.
  pub record HasMember (entries : Entries) (key : Text) (member : ℕ × Expr Float) : Type 0 where
    pub class : Class
    pub members : List (ℕ × Expr Float)
    pub entry : In (key, class, members) entries
    pub is_member : In member members

  later_member :
      (e : Entry) (entries : Entries) (key : Text) (m : ℕ × Expr Float)
      → HasMember entries key m
      → HasMember (e ∷ entries) key m
  later_member e entries key m h = record {
    class = h.class;
    members = h.members;
    entry = inr h.entry;
    is_member = h.is_member;
  }

  first_member :
      (class : Class) (members : List (ℕ × Expr Float)) (entries : Entries) (key : Text)
      (m : ℕ × Expr Float)
      → In m members
      → HasMember ((key, class, members) ∷ entries) key m
  first_member class members entries key m i = record {
    class = class;
    members = members;
    entry = inl refl;
    is_member = i;
  }

  -- A rule that is inserted is a member of the entry for its key.
  insert_class-new :
      (key : Text) (index : ℕ) (rule : ResolvedRule Float) (entries : Entries)
      → HasMember
          (insert_class c required_literals key index rule entries)
          key
          (index, rule.condition)
  unfolding insert_class
  insert_class-new key index rule [] = first_member rule.class _ [] key _ (inl refl)
  insert_class-new key index rule ((k, class, members) ∷ entries) =
      elim (Bool-cases (text_eq k key)) [
        | inl same ↦
            let e : k ≡ key = (text_eq_iff k key).0 same in
            rw same (
              subst
                (λ (x : Text).
                  HasMember ((x, class, members ++ (index, rule.condition) ∷ []) ∷ entries) key
                    (index, rule.condition))
                (sym e)
                (first_member class _ entries key _ (In-append_right _ members _ (inl refl))))
        | inr differ ↦ elim (Bool-cases (text_lt key k)) [
          | inl before ↦
              rw (differ, before)
                (first_member rule.class _ ((k, class, members) ∷ entries) key _ (inl refl))
          | inr after ↦
              rw (differ, after)
                (later_member (k, class, members) _ key _ (insert_class-new key index rule entries))
        ]
      ]

  -- What is a member stays one.
  insert_class-keeps :
      (key : Text) (index : ℕ) (rule : ResolvedRule Float) (entries : Entries) (k : Text)
      (m : ℕ × Expr Float)
      → HasMember entries k m
      → HasMember (insert_class c required_literals key index rule entries) k m
  unfolding insert_class
  insert_class-keeps key index rule [] k m h = absurd (h.entry).lower
  insert_class-keeps key index rule ((k', class, members) ∷ entries) k m h =
      elim (Bool-cases (text_eq k' key)) [
        | inl same ↦ rw same (extended h.entry)
        | inr differ ↦ elim (Bool-cases (text_lt key k')) [
          | inl before ↦ rw (differ, before) (later_member _ ((k', class, members) ∷ entries) k m h)
          | inr after ↦
              rw (differ, after) (kept (insert_class-keeps key index rule entries k m) h.entry)
        ]
      ]
    where
      extended :
          In (k, h.class, h.members) ((k', class, members) ∷ entries)
          → HasMember ((k', class, members ++ (index, rule.condition) ∷ []) ∷ entries) k m
      extended (inl e) =
          subst
            (λ (x : Text).
              HasMember ((x, class, members ++ (index, rule.condition) ∷ []) ∷ entries) k m)
            (ap (λ (x : Entry). x.0) e)
            (first_member class _ entries k m (
              In-append_left m members _
                (subst (λ ms. In m ms) (ap (λ (x : Entry). x.2) e) h.is_member)))
      extended (inr i) = record {
        class = h.class;
        members = h.members;
        entry = inr i;
        is_member = h.is_member;
      }

      kept :
          (HasMember entries k m
            → HasMember (insert_class c required_literals key index rule entries) k m)
          → In (k, h.class, h.members) ((k', class, members) ∷ entries)
          → HasMember
              ((k', class, members) ∷ insert_class c required_literals key index rule entries)
              k
              m
      kept again (inl e) = record {
        class = h.class;
        members = h.members;
        entry = inl e;
        is_member = h.is_member;
      }
      kept again (inr i) =
          later_member (k', class, members) _ k m
            (again
              (record { class = h.class; members = h.members; entry = i; is_member = h.is_member }))

  group_rules-keeps :
      (first : ℕ) (rules : List (ResolvedRule Float)) (entries : Entries) (k : Text)
      (m : ℕ × Expr Float)
      → HasMember entries k m
      → HasMember (group_rules c required_literals first rules entries) k m
  unfolding group_rules
  group_rules-keeps first [] entries k m h = h
  group_rules-keeps first (rule ∷ rules) entries k m h =
      group_rules-keeps (first + 1) rules _ k m
        (insert_class-keeps (class_json rule.class) first rule entries k m h)

  -- Every rule is a member of the group of its class.
  pub group_rules-member :
      (first : ℕ) (rules : List (ResolvedRule Float)) (entries : Entries) (position : ℕ)
      (rule : ResolvedRule Float)
      → get_elem? rules position ≡ some rule
      → HasMember
          (group_rules c required_literals first rules entries)
          (class_json rule.class)
          (first + position, rule.condition)
  unfolding group_rules
  group_rules-member first [] entries position rule h = cc
  group_rules-member first (r ∷ rules) entries zero rule h =
      let e : r ≡ rule = cc in
      let same : first ≡ first + 0 = omega arith in
      subst
        (λ (n : ℕ).
          HasMember (group_rules c required_literals first (r ∷ rules) entries)
            (class_json rule.class) (n, rule.condition))
        same
        (subst
          (λ (x : ResolvedRule Float).
            HasMember (group_rules c required_literals first (r ∷ rules) entries)
              (class_json x.class) (first, x.condition))
          e
          (group_rules-keeps (first + 1) rules _ _ _
            (insert_class-new (class_json r.class) first r entries)))
  group_rules-member first (r ∷ rules) entries (suc position) rule h =
      let same : first + 1 + position ≡ first + suc position = omega arith in
      subst
        (λ (n : ℕ).
          HasMember (group_rules c required_literals first (r ∷ rules) entries)
            (class_json rule.class) (n, rule.condition))
        same (group_rules-member (first + 1) rules _ position rule h)

  module _ (IsRule : ℕ → ResolvedRule Float → Type 0) where
    -- The member is a rule with the key.
    abbrev pub IsFrom : Text → ℕ × Expr Float → Type 0
    IsFrom key (index, e) =
        (rule : ResolvedRule Float) × IsRule index rule
        × (class_json rule.class ≡ key)
        × (rule.condition ≡ e)

    -- The class of an entry is that of one of its rules, and all its members are rules.
    abbrev pub IsFair : Entry → Type 0
    IsFair (key, class, members) =
        ((index : ℕ) × (rule : ResolvedRule Float) × IsRule index rule
          × (class_json rule.class ≡ key)
          × (rule.class ≡ class))
        × All (IsFrom key) members

    All-append_one :
        (P : ℕ × Expr Float → Type 0) (members : List (ℕ × Expr Float)) (m : ℕ × Expr Float)
        → All P members
        → P m
        → All P (members ++ m ∷ [])
    All-append_one P [] m ps p = (p, tt)
    All-append_one P (x ∷ members) m (p', ps) p = (p', All-append_one P members m ps p)

    insert_class-IsFair :
        (index : ℕ) (rule : ResolvedRule Float) (entries : Entries)
        → IsRule index rule
        → All IsFair entries
        → All IsFair (insert_class c required_literals (class_json rule.class) index rule entries)
    unfolding insert_class
    insert_class-IsFair index rule [] is fair =
        (((index, rule, is, refl, refl), ((rule, is, refl, refl), tt)), tt)
    insert_class-IsFair index rule ((k, class, members) ∷ entries) is ((first, all), fair) =
        elim (Bool-cases (text_eq k (class_json rule.class))) [
          | inl same ↦
              let e : k ≡ class_json rule.class = (text_eq_iff k (class_json rule.class)).0 same in
              rw same (
                (
                  first,
                  All-append_one (IsFrom k) members (index, rule.condition) all
                      (rule, is, sym e, refl),
                ),
                fair,
              )
          | inr differ ↦ elim (Bool-cases (text_lt (class_json rule.class) k)) [
            | inl before ↦
                rw (differ, before)
                  (
                    ((index, rule, is, refl, refl), ((rule, is, refl, refl), tt)),
                    ((first, all), fair),
                  )
            | inr after ↦
                rw (differ, after) ((first, all), insert_class-IsFair index rule entries is fair)
          ]
        ]

    pub group_rules-IsFair :
        (first : ℕ) (rules : List (ResolvedRule Float)) (entries : Entries)
        → ((position : ℕ) (rule : ResolvedRule Float)
            → get_elem? rules position ≡ some rule
            → IsRule (first + position) rule)
        → All IsFair entries
        → All IsFair (group_rules c required_literals first rules entries)
    unfolding group_rules
    group_rules-IsFair first [] entries is fair = fair
    group_rules-IsFair first (r ∷ rules) entries is fair =
        let same : first + 0 ≡ first = omega arith in
        group_rules-IsFair (first + 1) rules _
          (λ position rule h.
            let next : first + suc position ≡ first + 1 + position = omega arith in
            subst (λ n. IsRule n rule) next (is (suc position) rule h))
          (insert_class-IsFair first r entries (subst (λ n. IsRule n r) same (is 0 r refl)) fair)
