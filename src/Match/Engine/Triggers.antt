-- ===== src/Match/Engine/Triggers.antt =====
-- `GroupBuilder::trigger`: a rule is woken by what its trigger names. Where a compiled condition
-- holds, one of the literals of its trigger is found.
use goliath_siem.Base.{
  ℕ, ◌≡◌, inl, inr, refl, sym, ap, ◌∙◌, Bool, true, ◌||◌, Bool-cases, or_left, or_right, or_second,
  and_left, and_right, Option, none, some, List, [], ◌∷◌, ◌++◌, any, any-append, ltb, ==_iff, Text,
  get_elem?, get_or, arith,
}
use goliath_siem.Base.Elems.{get_or-get_elem?}
use goliath_siem.Rule.Resolved.{Expr, Exprs, RegexFlags}
use goliath_siem.Crates.{Crates}
use goliath_siem.Match.Semantics.{Event}
use goliath_siem.Match.Engine.{Ref, Pred, Node, Nodes}
use goliath_siem.Match.Engine.Builder.{B}
use goliath_siem.Match.Engine.Compile.{
  wake_cost, rarer, ref_leb, ref_eq, insert_ref, sort_refs, dedup_refs, tidy, both, trigger, rarest,
  all_triggers,
}
use goliath_siem.Match.Engine.Denotation.{
  Store, pred_holds, ref_holds, node_holds, all_nodes, any_node,
}
use goliath_siem.Match.Engine.Grow.{All}
use goliath_siem.Match.Engine.Additions.{store}
use goliath_siem.Match.Engine.Right.{IsWoken}
use goliath_siem.Match.Engine.Conditions.{
  IsEntry, Computes, ComputesAll, computes_and, computes_or, computes_not, computes_leaf,
  computes_nil, computes_cons,
}

ref_eq-eq : (r q : Ref) → ref_eq r q ≡ true → r ≡ q
unfolding ref_eq
ref_eq-eq (s, i) (t, j) h = ground (arith, ==_iff s t, ==_iff i j)

module _ (f : Ref → Bool) where
  any-insert : (r : Ref) (refs : List Ref) → any f (insert_ref r refs) ≡ f r || any f refs
  unfolding insert_ref
  any-insert r [] = refl
  any-insert r (q ∷ refs) = ground (arith, any-insert r refs)

  any-sort : (refs : List Ref) → any f (sort_refs refs) ≡ any f refs
  unfolding sort_refs
  any-sort [] = refl
  any-sort (r ∷ refs) = any-insert r (sort_refs refs) ∙ ap (λ b. f r || b) (any-sort refs)

  any-dedup : (refs : List Ref) → any f (dedup_refs refs) ≡ any f refs
  unfolding dedup_refs
  any-dedup [] = refl
  any-dedup (r ∷ []) = refl
  any-dedup (r ∷ q ∷ refs) = elim (Bool-cases (ref_eq r q)) [
    | inl same ↦
        let e : f r ≡ f q = ap f (ref_eq-eq r q same) in
        let rest = any-dedup (q ∷ refs) in rw same (ground (arith, rest, e))
    | inr differ ↦ let rest = any-dedup (q ∷ refs) in rw differ (ap (λ b. f r || b) rest)
  ]

module _ (P : Ref → Type 0) where
  All-insert : (r : Ref) (refs : List Ref) → P r → All P refs → All P (insert_ref r refs)
  unfolding insert_ref
  All-insert r [] p ps = (p, tt)
  All-insert r (q ∷ refs) p (p', ps) = elim (Bool-cases (ref_leb r q)) [
    | inl e ↦ rw e (p, (p', ps))
    | inr e ↦ rw e (p', All-insert r refs p ps)
  ]

  All-sort : (refs : List Ref) → All P refs → All P (sort_refs refs)
  unfolding sort_refs
  All-sort [] ps = tt
  All-sort (r ∷ refs) (p, ps) = All-insert r (sort_refs refs) p (All-sort refs ps)

  All-dedup : (refs : List Ref) → All P refs → All P (dedup_refs refs)
  unfolding dedup_refs
  All-dedup [] ps = tt
  All-dedup (r ∷ []) ps = ps
  All-dedup (r ∷ q ∷ refs) (p, ps) = elim (Bool-cases (ref_eq r q)) [
    | inl e ↦ rw e (All-dedup (q ∷ refs) ps)
    | inr e ↦ rw e (p, All-dedup (q ∷ refs) ps)
  ]

  All-append : (rs qs : List Ref) → All P rs → All P qs → All P (rs ++ qs)
  All-append [] qs ps ps' = ps'
  All-append (r ∷ rs) qs (p, ps) ps' = (p, All-append rs qs ps ps')

module _ (c : Crates) (event : Event c) (st : Store) where
  abbrev Woken : Option (List Ref) → Type 0
  Woken atom = IsWoken c event st atom

  Woken-rarer :
      (literals : List (List Text)) (best atom : Option (List Ref))
      → Woken best
      → Woken atom
      → Woken (rarer literals best atom)
  unfolding rarer
  Woken-rarer literals none atom w w' = w'
  Woken-rarer literals (some best) none w w' = w
  Woken-rarer literals (some best) (some refs) w w' =
      elim (Bool-cases (ltb (wake_cost literals refs) (wake_cost literals best))) [
        | inl e ↦ rw e w'
        | inr e ↦ rw e w
      ]

  Woken-tidy : (atom : Option (List Ref)) → Woken atom → Woken (tidy atom)
  Woken-tidy none w = tt
  Woken-tidy (some refs) w =
      any-dedup (ref_holds c event st) (sort_refs refs) ∙ any-sort (ref_holds c event st) refs ∙ w

  Woken-both_left : (atom all : Option (List Ref)) → Woken atom → Woken (both atom all)
  Woken-both_left none all w = tt
  Woken-both_left (some refs) none w = tt
  Woken-both_left (some refs) (some all) w =
      any-append (ref_holds c event st) refs all ∙ or_left _ _ w

  Woken-both_right : (atom all : Option (List Ref)) → Woken all → Woken (both atom all)
  Woken-both_right none all w = tt
  Woken-both_right (some refs) none w = tt
  Woken-both_right (some refs) (some all) w =
      any-append (ref_holds c event st) refs all ∙ or_right (any (ref_holds c event st) refs) _ w

module _ (c : Crates) (required_literals : Text → RegexFlags → Option (List Text)) (event : Event c)
    (value : ℕ → Bool) (b : B c required_literals)
    (values : (id : ℕ) (p : Pred c.Float c.Regex)
      → get_elem? b.predicates id ≡ some p
      → value id ≡ pred_holds c event (store b) p) where
  leaf_wakes :
      (id : ℕ) (leaf : Expr c.Float)
      → IsEntry c required_literals b id leaf
      → value id ≡ true
      → IsWoken c event (store b) (get_or b.atoms id none)
  leaf_wakes id leaf e h =
      rw (get_or-get_elem? b.atoms id none e.atom e.atom_here)
        (e.right.wakes event (sym (values id e.predicate e.here) ∙ h))

  mutual
    unfolding node_holds trigger

    -- A condition that holds has woken its trigger, if it has one.
    pub trigger-holds :
        {e : Expr c.Float} {n : Node}
        → Computes c required_literals b e n
        → node_holds c event value n ≡ true
        → IsWoken c event (store b) (trigger b.literals b.atoms n)
    trigger-holds (computes_and h) holds = rarest-holds none h tt holds
    trigger-holds (computes_or h) holds =
        Woken-tidy c event (store b) _ (all_triggers-holds h holds)
    trigger-holds (computes_not h) holds = tt
    trigger-holds (computes_leaf {leaf = leaf} {id = id} h) holds = leaf_wakes id leaf h holds

    rarest-holds :
        (best : Option (List Ref)) {es : Exprs c.Float} {ns : Nodes}
        → ComputesAll c required_literals b es ns
        → IsWoken c event (store b) best
        → all_nodes c event value ns ≡ true
        → IsWoken c event (store b) (rarest b.literals b.atoms best ns)
    rarest-holds best computes_nil w holds = w
    rarest-holds best (computes_cons {n = n} {ns = ns} h hs) w holds =
        rarest-holds _ hs
          (Woken-rarer c event (store b) b.literals best _ w (trigger-holds h (and_left _ _ holds)))
          (and_right (node_holds c event value n) (all_nodes c event value ns) holds)

    all_triggers-holds :
        {es : Exprs c.Float} {ns : Nodes}
        → ComputesAll c required_literals b es ns
        → any_node c event value ns ≡ true
        → IsWoken c event (store b) (all_triggers b.literals b.atoms ns)
    all_triggers-holds computes_nil holds = cc
    all_triggers-holds (computes_cons {n = n} {ns = ns} h hs) holds =
        elim (Bool-cases (node_holds c event value n)) [
          | inl e ↦
              Woken-both_left c event (store b) (trigger b.literals b.atoms n) _ (trigger-holds h e)
          | inr e ↦
              Woken-both_right c event (store b) (trigger b.literals b.atoms n) _
                (all_triggers-holds hs (or_second _ _ holds e))
        ]
