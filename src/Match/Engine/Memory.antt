-- ===== src/Match/Engine/Memory.antt =====
-- `Context::node` and the memory of predicates: whatever was computed before in this generation, a
-- node has the value of its condition over the predicates, and the memory stays right.
use goliath_siem.Base.{
  ℕ, ◌≡◌, ◌↔◌, ◌<◌, ◌⊎◌, inl, inr, refl, sym, subst, ap, ◌∙◌, Bool, true, false, not, ◌&&◌, ◌||◌,
  Bool-cases, List, [], ◌∷◌, ◌++◌, ◌==◌, ==_iff, if◌then◌else◌, get_or, set, length, arith, In,
  In-append_left, In-append_right, append-In,
}
use goliath_siem.Base.Elems.{get_or-set_self, get_or-set_ne, length-set, inside-get_or}
use native.Mathlib.Decide.{ℕ_discrete}
use goliath_siem.Crates.{Crates}
use goliath_siem.Match.Engine.{Node, Nodes, and, or, not_node, pred, nil, cons}
use goliath_siem.Match.Engine.Evaluate.{
  Context, Memo, predicate, default_pred, pred_value, node_value, all_values, any_values,
  run_candidates, default_rule,
}
use goliath_siem.Match.Engine.Denotation.{node_holds, all_nodes, any_node}

module _ (c : Crates) (x : Context c) where
  -- The value of a predicate by its identifier, as if it were computed now.
  abbrev pub value_of : ℕ → Bool
  value_of id = predicate c x (get_or x.group.predicates id (default_pred c))

  abbrev pub holds : Node → Bool
  holds node = node_holds c x.event value_of node

  -- What is marked with the generation has the value of the predicate.
  pub record IsRemembered (m : Memo) : Type 0 where
    pub lengths : length m.memo_value ≡ length m.memo
    pub right :
        (id : ℕ) → get_or m.memo id 0 ≡ x.generation → get_or m.memo_value id false ≡ value_of id

  -- The memory of a generation that is not 0, after one more predicate.
  IsRemembered-set :
      (m : Memo) (id : ℕ)
      → 0 < x.generation
      → IsRemembered m
      → IsRemembered (record {
        memo = set m.memo id x.generation;
        memo_value = set m.memo_value id (value_of id);
      })
  IsRemembered-set m id positive r = record {
    lengths =
        length-set m.memo_value id (value_of id)
        ∙ r.lengths
        ∙ sym (length-set m.memo id x.generation);
    right = λ j marked. elim (ℕ_discrete id j) [
      | no differ ↦
          get_or-set_ne m.memo_value id j (value_of id) false differ
          ∙ r.right j (sym (get_or-set_ne m.memo id j x.generation 0 differ) ∙ marked)
      | yes same ↦
          subst
            (λ k.
              get_or (set m.memo id x.generation) k 0 ≡ x.generation
              → get_or (set m.memo_value id (value_of id)) k false ≡ value_of k)
            same
            (λ marked'. get_or-set_self m.memo_value id (value_of id) false (
              subst (λ n. id < n) (length-set m.memo id x.generation ∙ sym r.lengths)
                (inside-get_or (set m.memo id x.generation) id (omega (arith, marked', positive)))))
            marked
    ];
  }

  pred_value_lem :
      (id : ℕ) (m : Memo)
      → 0 < x.generation
      → IsRemembered m
      → ((pred_value c x id m).0 ≡ value_of id) × IsRemembered (pred_value c x id m).1
  unfolding pred_value
  pred_value_lem id m positive r = elim (Bool-cases (get_or m.memo id 0 == x.generation)) [
    | inl e ↦ rw e (r.right id ((==_iff _ _).0 e), r)
    | inr e ↦ rw e (refl, IsRemembered-set m id positive r)
  ]

  mutual
    unfolding node_value node_holds

    -- The operands of a connective are asked until one decides it.
    pub node_value_lem :
        (node : Node) (m : Memo)
        → 0 < x.generation
        → IsRemembered m
        → ((node_value c x node m).0 ≡ holds node) × IsRemembered (node_value c x node m).1
    node_value_lem (and nodes) m positive r = all_values_lem nodes m positive r
    node_value_lem (or nodes) m positive r = any_values_lem nodes m positive r
    node_value_lem (not_node node) m positive r =
        let (e, r') = node_value_lem node m positive r in (ap not e, r')
    node_value_lem (pred id) m positive r = pred_value_lem id m positive r

    all_values_lem :
        (nodes : Nodes) (m : Memo)
        → 0 < x.generation
        → IsRemembered m
        → ((all_values c x nodes m).0 ≡ all_nodes c x.event value_of nodes)
          × IsRemembered (all_values c x nodes m).1
    all_values_lem nil m positive r = (refl, r)
    all_values_lem (cons node nodes) m positive r =
        let (e, r') = node_value_lem node m positive r in
        let m' = (node_value c x node m).1 in
        let (e', r'') = all_values_lem nodes m' positive r' in
        elim (Bool-cases (node_value c x node m).0) [
          | inl h ↦ rw h (e' ∙ ap (λ b. b && all_nodes c x.event value_of nodes) (sym h ∙ e), r'')
          | inr h ↦ rw h (ap (λ b. b && all_nodes c x.event value_of nodes) (sym h ∙ e), r')
        ]

    any_values_lem :
        (nodes : Nodes) (m : Memo)
        → 0 < x.generation
        → IsRemembered m
        → ((any_values c x nodes m).0 ≡ any_node c x.event value_of nodes)
          × IsRemembered (any_values c x nodes m).1
    any_values_lem nil m positive r = (refl, r)
    any_values_lem (cons node nodes) m positive r =
        let (e, r') = node_value_lem node m positive r in
        let m' = (node_value c x node m).1 in
        let (e', r'') = any_values_lem nodes m' positive r' in
        elim (Bool-cases (node_value c x node m).0) [
          | inl h ↦ rw h (ap (λ b. b || any_node c x.event value_of nodes) (sym h ∙ e), r')
          | inr h ↦ rw h (e' ∙ ap (λ b. b || any_node c x.event value_of nodes) (sym h ∙ e), r'')
        ]

  -- A rule of the group with a condition that holds.
  pub record IsMatch (positions : List ℕ) (index : ℕ) : Type 0 where
    pub position : ℕ
    pub candidate : In position positions
    pub is_rule : (get_or x.group.rules position (default_rule c)).0 ≡ index
    pub matches : holds (get_or x.group.rules position (default_rule c)).1 ≡ true

  abbrev rule_at : ℕ → ℕ × Node
  rule_at position = get_or x.group.rules position (default_rule c)

  later-IsMatch :
      (position : ℕ) (positions : List ℕ) (index : ℕ)
      → IsMatch positions index
      → IsMatch (position ∷ positions) index
  later-IsMatch position positions index m = record {
    position = m.position;
    candidate = inr m.candidate;
    is_rule = m.is_rule;
    matches = m.matches;
  }

  first-IsMatch :
      (position : ℕ) (positions : List ℕ)
      → holds (rule_at position).1 ≡ true
      → IsMatch (position ∷ positions) (rule_at position).0
  first-IsMatch position positions h = record {
    position = position;
    candidate = inl refl;
    is_rule = refl;
    matches = h;
  }

  IsMatch-cases :
      (position : ℕ) (positions : List ℕ) (index : ℕ)
      → IsMatch (position ∷ positions) index
      → (((rule_at position).0 ≡ index) × (holds (rule_at position).1 ≡ true))
        ⊎ IsMatch positions index
  IsMatch-cases position positions index m = go m.candidate
    where
      go :
          In m.position (position ∷ positions)
          → (((rule_at position).0 ≡ index) × (holds (rule_at position).1 ≡ true))
            ⊎ IsMatch positions index
      go (inl e) = inl (
        ap (λ p. (rule_at p).0) (sym e) ∙ m.is_rule,
        ap (λ p. holds (rule_at p).1) (sym e) ∙ m.matches,
      )
      go (inr i) = inr (record {
        position = m.position;
        candidate = i;
        is_rule = m.is_rule;
        matches = m.matches;
      })

  after_first :
      (position : ℕ) (positions matched : List ℕ) (index : ℕ)
      → holds (rule_at position).1 ≡ true
      → (In index (matched ++ (rule_at position).0 ∷ []) ⊎ IsMatch positions index)
        ↔ (In index matched ⊎ IsMatch (position ∷ positions) index)
  after_first position positions matched index h = (to, from)
    where
      first : In index ((rule_at position).0 ∷ []) → IsMatch (position ∷ positions) index
      first (inl e) =
          subst (λ i. IsMatch (position ∷ positions) i) (sym e) (first-IsMatch position positions h)
      first (inr never) = absurd never.lower

      to :
          In index (matched ++ (rule_at position).0 ∷ []) ⊎ IsMatch positions index
          → In index matched ⊎ IsMatch (position ∷ positions) index
      to (inl i) = elim (append-In index matched _ i) [
        | inl old ↦ inl old
        | inr new ↦ inr (first new)
      ]
      to (inr m) = inr (later-IsMatch position positions index m)

      from :
          In index matched ⊎ IsMatch (position ∷ positions) index
          → In index (matched ++ (rule_at position).0 ∷ []) ⊎ IsMatch positions index
      from (inl old) = inl (In-append_left index matched _ old)
      from (inr m) = elim (IsMatch-cases position positions index m) [
        | inl (e, h') ↦ inl (In-append_right index matched _ (inl (sym e)))
        | inr m' ↦ inr m'
      ]

  after_other :
      (position : ℕ) (positions matched : List ℕ) (index : ℕ)
      → holds (rule_at position).1 ≡ false
      → (In index matched ⊎ IsMatch positions index)
        ↔ (In index matched ⊎ IsMatch (position ∷ positions) index)
  after_other position positions matched index h = (to, from)
    where
      to :
          In index matched ⊎ IsMatch positions index
          → In index matched ⊎ IsMatch (position ∷ positions) index
      to (inl old) = inl old
      to (inr m) = inr (later-IsMatch position positions index m)

      from :
          In index matched ⊎ IsMatch (position ∷ positions) index
          → In index matched ⊎ IsMatch positions index
      from (inl old) = inl old
      from (inr m) = elim (IsMatch-cases position positions index m) [
        | inl (e, h') ↦ cc
        | inr m' ↦ inr m'
      ]

  -- The loop over the candidates adds the rules whose conditions hold, and nothing else.
  pub run_candidates_iff :
      (positions : List ℕ) (m : Memo) (matched : List ℕ) (index : ℕ)
      → 0 < x.generation
      → IsRemembered m
      → In index (run_candidates c x positions m matched).1
        ↔ (In index matched ⊎ IsMatch positions index)
  unfolding run_candidates
  run_candidates_iff [] m matched index positive r =
      ((λ i. inl i), (λ s. elim s [ inl i ↦ i | inr found ↦ absurd (found.candidate).lower ]))
  run_candidates_iff (position ∷ positions) m matched index positive r =
      let (e, r') = node_value_lem (rule_at position).1 m positive r in
      let m' = (node_value c x (rule_at position).1 m).1 in
      let after = λ (value : Bool).
        In index
          (run_candidates c x positions m'
            (if value then matched ++ (rule_at position).0 ∷ [] else matched)).1
        ↔ (In index matched ⊎ IsMatch (position ∷ positions) index) in
      elim (Bool-cases (node_value c x (rule_at position).1 m).0) [
        | inl h ↦
            let (f, g) =
              run_candidates_iff positions m' (matched ++ (rule_at position).0 ∷ []) index positive
                r' in
            let (f', g') = after_first position positions matched index (sym e ∙ h) in
            subst after (sym h) ((λ i. f' (f i)), (λ i. g (g' i)))
        | inr h ↦
            let (f, g) = run_candidates_iff positions m' matched index positive r' in
            let (f', g') = after_other position positions matched index (sym e ∙ h) in
            subst after (sym h) ((λ i. f' (f i)), (λ i. g (g' i)))
      ]
