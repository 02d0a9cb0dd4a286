-- ===== src/Match/Engine/Correct.antt =====
-- `Engine::matches_into`: the rules that an engine finds for an event are the rules whose class and
-- condition hold, whatever events its working memory has seen before.
use goliath_siem.Base.{
  ℕ, ◌≡◌, ◌↔◌, ◌⊎◌, inl, inr, sym, subst, ap, ◌∙◌, true, false, Bool-cases, if◌then◌else◌, leb,
  Option, List, [], ◌∷◌, Text, length, In,
}
use goliath_siem.Base.Elems.{In-get_elem?, get_elem?-In}
use goliath_siem.Rule.Resolved.{Expr, RegexFlags}
use goliath_siem.Crates.{Crates}
use goliath_siem.Match.Laws.{Laws}
use goliath_siem.Match.Semantics.{Event}
use goliath_siem.Match.Reference.{ok, >>=-eq-ok, has_class}
use goliath_siem.Match.Engine.{Node}
use goliath_siem.Match.Engine.Builder.{B, empty_builder}
use goliath_siem.Match.Engine.Compile.{AGroup, build_group, build_groups}
use goliath_siem.Match.Engine.Evaluate
use goliath_siem.Match.Engine.Evaluate.{
  GroupScratch, group_scratch, fits, evaluate_groups, matches_into, scratch, insert_index,
  sort_indices, Scratch,
}
use goliath_siem.Match.Engine.Grow.{All}
use goliath_siem.Match.Engine.Right.{leaf_holds}
use goliath_siem.Match.Engine.RegexLeaf.{RequiresSound}
use goliath_siem.Match.Engine.Sound.{HasLeaves, AreApart, IsSound, IsSound-empty}
use goliath_siem.Match.Engine.Scratch.{IsReady}
use goliath_siem.Match.Engine.Marks.{true-false}
use goliath_siem.Match.Engine.Members.{AreCompiled, compile_members_lem}
use goliath_siem.Match.Engine.Evaluation.{IsBuilt, finish_lem}
use goliath_siem.Match.Engine.Selection.{evaluate_iff}
use goliath_siem.Match.Engine.Grouping.{Class, Entry, Entries}

module _ (c : Crates) where
  insert_index-In :
      (i j : ℕ) (indices : List ℕ) → In j (insert_index c i indices) ↔ ((j ≡ i) ⊎ In j indices)
  unfolding insert_index
  insert_index-In i j [] = ((λ h. h), (λ h. h))
  insert_index-In i j (k ∷ indices) = elim (Bool-cases (leb i k)) [
    | inl e ↦ rw e ((λ h. h), (λ h. h))
    | inr e ↦
        let (f, g) = insert_index-In i j indices in
        rw e (
          (λ h. elim h [
            | inl same ↦ inr (inl same)
            | inr h' ↦ elim (f h') [ inl same ↦ inl same | inr further ↦ inr (inr further) ]
          ]),
          (λ h. elim h [
            | inl same ↦ inr (g (inl same))
            | inr (inl same) ↦ inl same
            | inr (inr further) ↦ inr (g (inr further))
          ]),
        )
  ]

  pub sort_indices-In : (j : ℕ) (indices : List ℕ) → In j (sort_indices c indices) ↔ In j indices
  unfolding sort_indices
  sort_indices-In j [] = ((λ h. h), (λ h. h))
  sort_indices-In j (i ∷ indices) =
      let (f, g) = insert_index-In i j (sort_indices c indices) in
      let (f', g') = sort_indices-In j indices in
      (
        (λ h. elim (f h) [ inl same ↦ inl same | inr h' ↦ inr (f' h') ]),
        (λ h. elim h [ inl same ↦ g (inl same) | inr h' ↦ g (inr (g' h')) ]),
      )

module _ (c : Crates) (required_literals : Text → RegexFlags → Option (List Text))
    (Known : Expr c.Float → Type 0) where
  -- The group was made of the entry.
  pub record IsGroupOf (entry : Entry c required_literals) (group : AGroup c required_literals)
      : Type 0 where
    pub builder : B c required_literals
    pub rules : List (ℕ × Node)
    pub sound : IsSound c required_literals Known builder
    pub compiled : AreCompiled c required_literals builder entry.2 rules
    pub built : IsBuilt c required_literals builder rules group
    pub class : group.class ≡ entry.1

  abbrev pub AreGroupsOf : Entries c required_literals → List (AGroup c required_literals) → Type 0
  AreGroupsOf [] [] = Unit
  AreGroupsOf (entry ∷ entries) (group ∷ groups) =
      IsGroupOf entry group × AreGroupsOf entries groups
  AreGroupsOf _ _ = ⊥

  abbrev pub AreKnown : Entry c required_literals → Type 0
  AreKnown entry = All (λ (index, e). HasLeaves Known e) entry.2

  module _ (laws : Laws c) (requires : RequiresSound c required_literals)
      (apart : AreApart c required_literals Known) where
    build_group_lem :
        (key : Text) (class : Class c required_literals) (members : List (ℕ × Expr c.Float))
        (group : AGroup c required_literals)
        → AreKnown (key, class, members)
        → build_group c required_literals class members ≡ ok group
        → IsGroupOf (key, class, members) group
    unfolding build_group
    build_group_lem key class members group known h =
        let (r, e₁, e₂) = >>=-eq-ok _ _ h in
        let (advances, compiled) =
          compile_members_lem c required_literals Known laws requires apart empty_builder members
            known (IsSound-empty c required_literals Known) r e₁ in
        let (built, same) =
          finish_lem c required_literals class r.0 r.1 group advances.sound.tidy.lengths e₂ in
        record {
          builder = r.0;
          rules = r.1;
          sound = advances.sound;
          compiled = compiled;
          built = built;
          class = same;
        }

    pub build_groups_lem :
        (entries : Entries c required_literals) (groups : List (AGroup c required_literals))
        → All AreKnown entries
        → build_groups c required_literals entries ≡ ok groups
        → AreGroupsOf entries groups
    unfolding build_groups
    build_groups_lem [] groups known h = let e : [] ≡ groups = cc in subst (AreGroupsOf []) e tt
    build_groups_lem ((key, class, members) ∷ entries) groups (known, knowns) h =
        let (group, e₁, e₂) = >>=-eq-ok _ _ h in
        let (rest, e₃, e₄) = >>=-eq-ok _ _ e₂ in
        let e : group ∷ rest ≡ groups = cc in
        let made = build_group_lem key class members group known e₁ in
        let tail = build_groups_lem entries rest knowns e₃ in
        subst (AreGroupsOf ((key, class, members) ∷ entries)) e (made, tail)

  module _ (event : Event c) where
    -- The entry's class holds, and so does the condition of the entry's member.
    pub record IsMemberMatch (entry : Entry c required_literals) (index : ℕ) : Type 0 where
      pub class : has_class c entry.1 event ≡ true
      pub condition : Expr c.Float
      pub member : In (index, condition) entry.2
      pub holds : leaf_holds c condition event ≡ true

    -- Working memory that is ready, for each group.
    abbrev pub AreFit : List (AGroup c required_literals) → Scratch c → Type 0
    AreFit [] [] = Unit
    AreFit (group ∷ groups) (work ∷ works) =
        IsReady work × (length work.hits ≡ group.literals) × AreFit groups works
    AreFit _ _ = ⊥

    abbrev pub evaluate_one :
        AGroup c required_literals → GroupScratch → List ℕ → GroupScratch × List ℕ
    evaluate_one group work matched =
        if has_class c group.class event
        then Evaluate.evaluate c group event work matched
        else (work, matched)

    module _ (laws : Laws c) where
      pub evaluate_one_iff :
          (entry : Entry c required_literals) (group : AGroup c required_literals)
          (work : GroupScratch) (matched : List ℕ) (index : ℕ)
          → IsGroupOf entry group
          → IsReady work
          → length work.hits ≡ group.literals
          → In index (evaluate_one group work matched).1
            ↔ (In index matched ⊎ IsMemberMatch entry index)
      evaluate_one_iff entry group work matched index is ready size =
          elim (Bool-cases (has_class c group.class event)) [
            | inl holds ↦
                let (f, g) =
                  evaluate_iff c required_literals laws Known entry.2 is.builder is.rules group
                    is.sound is.compiled is.built event work ready size matched index in
                let class : has_class c entry.1 event ≡ true =
                  ap (λ cl. has_class c cl event) (sym is.class) ∙ holds in
                subst
                  (λ b.
                    In index
                      (if b
                        then Evaluate.evaluate c group event work matched
                        else (work, matched)).1
                    ↔ (In index matched ⊎ IsMemberMatch entry index))
                  (sym holds)
                  (
                    (λ i. elim (f i) [
                      | inl old ↦ inl old
                      | inr sel ↦ inr (record {
                        class = class;
                        condition = sel.condition;
                        member = get_elem?-In (index, sel.condition) entry.2 sel.place sel.member;
                        holds = sel.holds;
                      })
                    ]),
                    (λ t. elim t [
                      | inl old ↦ g (inl old)
                      | inr m ↦
                          let (place, here) = In-get_elem? (index, m.condition) entry.2 m.member in
                          g (
                            inr (record {
                              place = place;
                              condition = m.condition;
                              member = here;
                              holds = m.holds;
                            }))
                    ]),
                  )
            | inr fails ↦
                let no_class : has_class c entry.1 event ≡ false =
                  ap (λ cl. has_class c cl event) (sym is.class) ∙ fails in
                subst
                  (λ b.
                    In index
                      (if b
                        then Evaluate.evaluate c group event work matched
                        else (work, matched)).1
                    ↔ (In index matched ⊎ IsMemberMatch entry index))
                  (sym fails)
                  (
                    (λ i. inl i),
                    (λ t. elim t [
                      | inl old ↦ old
                      | inr m ↦ absurd (true-false (sym m.class ∙ no_class))
                    ]),
                  )
          ]
