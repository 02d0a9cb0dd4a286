-- ===== src/Match/Engine/Result.antt =====
-- `Engine::matches_into` and `Engine::matches`: the rules that an engine finds for an event are the
-- rules whose class and condition hold, whatever events its working memory has seen before.
use goliath_siem.Base.{
  ℕ, ◌≡◌, ◌↔◌, ◌⊎◌, inl, inr, refl, sym, subst, true, Bool-cases, if◌then◌else◌, ==_iff, Option,
  some, List, [], ◌∷◌, map, Text, length, get_elem?, In, arith,
}
use goliath_siem.Base.Elems.{length-replicate}
use goliath_siem.Rule.Resolved.{Expr, RegexFlags, ResolvedRule}
use goliath_siem.Crates.{Crates}
use goliath_siem.Match.Laws.{Laws}
use goliath_siem.Match.Semantics.{Event}
use goliath_siem.Match.Reference.{has_class}
use goliath_siem.Match.Engine.Compile.{AGroup, Engine}
use goliath_siem.Match.Engine.Hits.{no_hit}
use goliath_siem.Match.Engine.Evaluate.{group_scratch, fits, evaluate_groups, scratch, Scratch}
use goliath_siem.Match.Engine.Grow.{All}
use goliath_siem.Match.Engine.Right.{leaf_holds}
use goliath_siem.Match.Engine.Scratch.{IsReady}
use goliath_siem.Match.Engine.Reuse.{group_scratch-IsReady, evaluate-IsReady}
use goliath_siem.Match.Engine.Grouping.{Entry, Entries}
use goliath_siem.Match.Engine.Correct.{
  AreGroupsOf, AreFit, evaluate_one, evaluate_one_iff, IsMemberMatch,
}

module _ (c : Crates) (required_literals : Text → RegexFlags → Option (List Text))
    (Known : Expr c.Float → Type 0) (laws : Laws c) where
  module _ (event : Event c) where
    abbrev pub AnyMatch : Entries c required_literals → ℕ → Type 0
    AnyMatch [] index = ⊥
    AnyMatch (entry ∷ entries) index =
        IsMemberMatch c required_literals Known event entry index ⊎ AnyMatch entries index

    abbrev Groups : Type 0
    Groups = List (AGroup c required_literals)

    pub evaluate_groups_iff :
        (entries : Entries c required_literals) (groups : Groups) (works : Scratch c)
        (matched : List ℕ) (index : ℕ)
        → AreGroupsOf c required_literals Known entries groups
        → AreFit c required_literals Known event groups works
        → In index (evaluate_groups c groups event works matched).1
          ↔ (In index matched ⊎ AnyMatch entries index)
    unfolding evaluate_groups
    evaluate_groups_iff [] [] [] matched index are fit =
        ((λ i. inl i), (λ t. elim t [ inl i ↦ i | inr never ↦ absurd never ]))
    evaluate_groups_iff [] [] (w ∷ works) matched index are fit = absurd fit
    evaluate_groups_iff [] (g ∷ groups) works matched index are fit = absurd are
    evaluate_groups_iff (e ∷ entries) [] works matched index are fit = absurd are
    evaluate_groups_iff (e ∷ entries) (g ∷ groups) [] matched index are fit = absurd fit
    evaluate_groups_iff (entry ∷ entries) (group ∷ groups) (work ∷ works) matched index (is, are)
          (ready, size, fit) =
        let (f, g) =
          evaluate_one_iff c required_literals Known event laws entry group work matched index is
            ready size in
        let (f', g') =
          evaluate_groups_iff entries groups works
            (evaluate_one c required_literals Known event group work matched).1 index are fit in
        (
          (λ i. elim (f' i) [
            | inl j ↦ elim (f j) [ inl old ↦ inl old | inr m ↦ inr (inl m) ]
            | inr later ↦ inr (inr later)
          ]),
          (λ t. elim t [
            | inl old ↦ g' (inl (g (inl old)))
            | inr (inl m) ↦ g' (inl (g (inr m)))
            | inr (inr later) ↦ g' (inr later)
          ]),
        )

    pub evaluate_groups-AreReady :
        (groups : Groups) (works : Scratch c) (matched : List ℕ)
        → All IsReady works
        → All IsReady (evaluate_groups c groups event works matched).0
    unfolding evaluate_groups
    evaluate_groups-AreReady [] works matched ready = ready
    evaluate_groups-AreReady (g ∷ groups) [] matched ready = ready
    evaluate_groups-AreReady (group ∷ groups) (work ∷ works) matched (ready, readies) =
        elim (Bool-cases (has_class c group.class event)) [
          | inl e ↦ rw e (
            evaluate-IsReady c group event work ready matched,
            evaluate_groups-AreReady groups works _ readies,
          )
          | inr e ↦ rw e (ready, evaluate_groups-AreReady groups works matched readies)
        ]

    fits-AreFit :
        (works : Scratch c) (groups : Groups)
        → fits c works groups ≡ true
        → All IsReady works
        → AreFit c required_literals Known event groups works
    unfolding fits
    fits-AreFit [] [] h ready = tt
    fits-AreFit [] (g ∷ groups) h ready = cc
    fits-AreFit (w ∷ works) [] h ready = cc
    fits-AreFit (w ∷ works) (g ∷ groups) h (r, ready) =
        let size : length w.hits ≡ g.literals =
          (==_iff (length w.hits) g.literals).0 (ground arith) in
        let rest : fits c works groups ≡ true = ground arith in
        (r, size, fits-AreFit works groups rest ready)

    scratch-AreFit :
        (groups : Groups)
        → AreFit c required_literals Known event groups (map (group_scratch c) groups)
    scratch-AreFit [] = tt
    scratch-AreFit (g ∷ groups) =
        (group_scratch-IsReady c g, length-replicate g.literals no_hit, scratch-AreFit groups)

    pub scratch-AreReady : (groups : Groups) → All IsReady (map (group_scratch c) groups)
    scratch-AreReady [] = tt
    scratch-AreReady (g ∷ groups) = (group_scratch-IsReady c g, scratch-AreReady groups)

    -- The working memory that an event is evaluated with.
    abbrev pub fitting : Engine c required_literals → Scratch c → Scratch c
    fitting engine work =
        if fits c work engine.groups then work else scratch c required_literals engine

    pub fitting-AreFit :
        (engine : Engine c required_literals) (work : Scratch c)
        → All IsReady work
        → AreFit c required_literals Known event engine.groups (fitting engine work)
    unfolding scratch
    fitting-AreFit engine work ready = elim (Bool-cases (fits c work engine.groups)) [
      | inl e ↦ rw e (fits-AreFit work engine.groups e ready)
      | inr e ↦ rw e (scratch-AreFit engine.groups)
    ]

    pub fitting-AreReady :
        (engine : Engine c required_literals) (work : Scratch c)
        → All IsReady work
        → All IsReady (fitting engine work)
    unfolding scratch
    fitting-AreReady engine work ready = elim (Bool-cases (fits c work engine.groups)) [
      | inl e ↦ rw e ready
      | inr e ↦ rw e (scratch-AreReady engine.groups)
    ]

    pub AnyMatch-In :
        (entries : Entries c required_literals) (index : ℕ)
        → AnyMatch entries index
        → (entry : Entry c required_literals) × In entry entries
          × IsMemberMatch c required_literals Known event entry index
    AnyMatch-In [] index m = absurd m
    AnyMatch-In (entry ∷ entries) index (inl m) = (entry, inl refl, m)
    AnyMatch-In (entry ∷ entries) index (inr later) =
        let (e, i, m) = AnyMatch-In entries index later in (e, inr i, m)

    pub In-AnyMatch :
        (entries : Entries c required_literals) (index : ℕ) (entry : Entry c required_literals)
        → In entry entries
        → IsMemberMatch c required_literals Known event entry index
        → AnyMatch entries index
    In-AnyMatch [] index entry i m = absurd i.lower
    In-AnyMatch (e ∷ entries) index entry (inl same) m =
        inl (subst (λ x. IsMemberMatch c required_literals Known event x index) same m)
    In-AnyMatch (e ∷ entries) index entry (inr i) m = inr (In-AnyMatch entries index entry i m)

  pub In-All {ℓ} : {A : Type 0} (P : A → Type ℓ) (xs : List A) (x : A) → In x xs → All P xs → P x
  In-All P [] x i ps = absurd i.lower
  In-All P (y ∷ xs) x (inl e) (p, ps) = subst P (sym e) p
  In-All P (y ∷ xs) x (inr i) (p, ps) = In-All P xs x i ps

  -- The rule with the index has a class and a condition that hold.
  pub record IsMatchingRule (rules : List (ResolvedRule c.Float)) (event : Event c) (index : ℕ)
      : Type 0 where
    pub rule : ResolvedRule c.Float
    pub is_rule : get_elem? rules index ≡ some rule
    pub class : has_class c rule.class event ≡ true
    pub condition : leaf_holds c rule.condition event ≡ true
