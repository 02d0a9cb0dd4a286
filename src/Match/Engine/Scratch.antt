-- ===== src/Match/Engine/Scratch.antt =====
-- `GroupScratch`: what one evaluation leaves for the next, with the 32 bit generation that wraps.
use goliath_siem.Base.{
  ℕ, ◌+◌, ◌%◌, ◌^◌, ◌≡◌, ◌↔◌, ◌<◌, ◌≤◌, ◌⊎◌, inl, inr, refl, sym, subst, ◌∙◌, true, false,
  Bool-cases, List, [], ◌∷◌, ◌++◌, ◌==◌, ==_iff, if◌then◌else◌, get_or, set, length, arith, In,
  In-append_left, In-append_right, append-In,
}
use goliath_siem.Base.Elems.{
  get_or-set_cases, get_or-set_default, length-set, length-replicate, get_or-replicate,
}
use native.Mathlib.Decide.{ℕ_discrete}
use goliath_siem.Match.Engine.Hits.{Hit, no_hit, reset_hits}
use goliath_siem.Match.Engine.Evaluate.{GroupScratch, next_generation, add_candidates}

-- No mark is beyond the bound.
abbrev pub IsBounded : ℕ → List ℕ → Type 0
IsBounded bound marks = (i : ℕ) → get_or marks i 0 ≤ bound

pub IsBounded-set :
    (bound : ℕ) (marks : List ℕ) (i : ℕ)
    → IsBounded bound marks
    → IsBounded bound (set marks i bound)
IsBounded-set bound marks i h j = elim (get_or-set_cases marks i j bound 0) [
  | inl (e, written) ↦ omega (arith, written)
  | inr kept ↦ omega (arith, kept, h j)
]

next : (n : ℕ) → n < 2 ^ 32 → ((n + 1) % 2 ^ 32 ≡ n + 1) ⊎ ((n + 1) % 2 ^ 32 ≡ 0)
next n h = elim (ℕ_discrete (n + 1) (2 ^ 32)) [
  | yes e ↦ inr (omega arith)
  | no differ ↦ inl (omega arith)
]

module _ (generation : ℕ) (positive : 0 < generation) where
  -- What is marked is a candidate already.
  abbrev pub AreListed : List ℕ × List ℕ → Type 0
  AreListed marked = (p : ℕ) → get_or marked.0 p 0 ≡ generation → In p marked.1

  abbrev add_one : ℕ → List ℕ × List ℕ → List ℕ × List ℕ
  add_one position (candidate, candidates) =
      if get_or candidate position 0 == generation
      then (candidate, candidates)
      else (set candidate position generation, candidates ++ position ∷ [])

  AreListed-add_one :
      (position : ℕ) (marked : List ℕ × List ℕ)
      → AreListed marked
      → AreListed (add_one position marked)
  AreListed-add_one position (candidate, candidates) listed p =
      elim (Bool-cases (get_or candidate position 0 == generation)) [
        | inl e ↦ rw e (listed p)
        | inr e ↦ rw e (λ h. elim (get_or-set_cases candidate position p generation 0) [
          | inl (same, written) ↦ In-append_right p candidates _ (inl same)
          | inr kept ↦ In-append_left p candidates _ (listed p (sym kept ∙ h))
        ])
      ]

  In-add_one :
      (position : ℕ) (marked : List ℕ × List ℕ) (p : ℕ)
      → AreListed marked
      → In p (add_one position marked).1 ↔ (In p marked.1 ⊎ (p ≡ position))
  In-add_one position (candidate, candidates) p listed =
      elim (Bool-cases (get_or candidate position 0 == generation)) [
        | inl e ↦
            let here : In position candidates = listed position ((==_iff _ _).0 e) in
            rw e (
              (λ i. inl i),
              (λ s. elim s [ inl i ↦ i | inr same ↦ subst (λ q. In q candidates) (sym same) here ]),
            )
        | inr e ↦ rw e (
          (λ i. elim (append-In p candidates _ i) [
            | inl old ↦ inl old
            | inr (inl same) ↦ inr same
            | inr (inr never) ↦ absurd never.lower
          ]),
          (λ s. elim s [
            | inl i ↦ In-append_left p candidates _ i
            | inr same ↦ In-append_right p candidates _ (inl same)
          ]),
        )
      ]

  -- The candidates are the positions asked for, whatever the marks of earlier generations are.
  pub add_candidates_iff :
      (positions : List ℕ) (marked : List ℕ × List ℕ) (p : ℕ)
      → AreListed marked
      → In p (add_candidates generation positions marked).1 ↔ (In p marked.1 ⊎ In p positions)
  unfolding add_candidates
  add_candidates_iff [] marked p listed =
      ((λ i. inl i), (λ s. elim s [ inl i ↦ i | inr never ↦ absurd never.lower ]))
  add_candidates_iff (position ∷ positions) marked p listed =
      let (f, g) =
        add_candidates_iff positions (add_one position marked) p
          (AreListed-add_one position marked listed) in
      let (f', g') = In-add_one position marked p listed in
      (
        (λ i. elim (f i) [
          | inl j ↦ elim (f' j) [ inl old ↦ inl old | inr e ↦ inr (inl e) ]
          | inr j ↦ inr (inr j)
        ]),
        (λ s. elim s [
          | inl old ↦ g (inl (g' (inl old)))
          | inr (inl e) ↦ g (inl (g' (inr e)))
          | inr (inr j) ↦ g (inr j)
        ]),
      )

  -- The marks are bounded by the generation afterwards if they were before.
  pub add_candidates-IsBounded :
      (positions : List ℕ) (marked : List ℕ × List ℕ)
      → IsBounded generation marked.0
      → IsBounded generation (add_candidates generation positions marked).0
  unfolding add_candidates
  add_candidates-IsBounded [] marked bounded = bounded
  add_candidates-IsBounded (position ∷ positions) (candidate, candidates) bounded =
      add_candidates-IsBounded positions (add_one position (candidate, candidates))
        (elim (Bool-cases (get_or candidate position 0 == generation)) [
          | inl e ↦ rw e bounded
          | inr e ↦ rw e (IsBounded-set generation candidate position bounded)
        ])

-- What an evaluation finds: no hit, and no mark beyond the generation.
pub record IsReady (s : GroupScratch) : Type 0 where
  pub hits : (i : ℕ) → get_or s.hits i no_hit ≡ no_hit
  pub found : s.found ≡ []
  pub candidate : IsBounded s.generation s.candidate
  pub memo : IsBounded s.generation s.memo
  pub memo_value : length s.memo_value ≡ length s.memo
  pub generation : s.generation < 2 ^ 32

-- What the next generation gives: its number is not 0, and nothing is marked with it.
pub record IsFresh (s : GroupScratch) : Type 0 where
  pub positive : 0 < s.generation
  pub bound : s.generation < 2 ^ 32
  pub candidate : (i : ℕ) → get_or s.candidate i 0 < s.generation
  pub memo : (i : ℕ) → get_or s.memo i 0 < s.generation
  pub memo_value : length s.memo_value ≡ length s.memo

-- After working memory that is ready, the next generation is not 0 and below 2 ^ 32, and no rule and
-- no predicate is marked with it, also where the counter wraps to 0.
pub next_generation-IsFresh : (s : GroupScratch) → IsReady s → IsFresh (next_generation s)
unfolding next_generation
next_generation-IsFresh s ready = elim (next s.generation ready.generation) [
  | inl e ↦
      let test : ((s.generation + 1) % 2 ^ 32 == 0) ≡ false = ground arith in
      rw test (record {
        positive = omega (arith, e);
        bound = omega arith;
        candidate = λ i. omega (arith, e, ready.candidate i);
        memo = λ i. omega (arith, e, ready.memo i);
        memo_value = ready.memo_value;
      })
  | inr e ↦
      let test : ((s.generation + 1) % 2 ^ 32 == 0) ≡ true = ground arith in
      rw test (record {
        positive = omega arith;
        bound = omega arith;
        candidate = λ i. omega (arith, get_or-replicate {A = ℕ} (length s.candidate) i 0);
        memo = λ i. omega (arith, get_or-replicate {A = ℕ} (length s.memo) i 0);
        memo_value = ready.memo_value ∙ sym (length-replicate {A = ℕ} (length s.memo) 0);
      })
]

-- The hits and the length of them are as before.
pub next_generation-hits :
    (s : GroupScratch) → ((next_generation s).hits ≡ s.hits) × ((next_generation s).found ≡ s.found)
unfolding next_generation
next_generation-hits s = elim (Bool-cases ((s.generation + 1) % 2 ^ 32 == 0)) [
  | inl e ↦ rw e (refl, refl)
  | inr e ↦ rw e (refl, refl)
]

-- Every hit is on the list of what was found.
abbrev pub AreFound : List Hit → List ℕ → Type 0
AreFound hits found = (i : ℕ) → (get_or hits i no_hit ≡ no_hit) ⊎ In i found

-- Resetting what was found leaves no hit.
pub reset_hits_lem :
    (hits : List Hit) (found : List ℕ)
    → AreFound hits found
    → (i : ℕ) → get_or (reset_hits hits found) i no_hit ≡ no_hit
unfolding reset_hits
reset_hits_lem hits [] are i = elim (are i) [ inl e ↦ e | inr never ↦ absurd never.lower ]
reset_hits_lem hits (g ∷ found) are i = reset_hits_lem (set hits g no_hit) found rest i
  where
    rest : AreFound (set hits g no_hit) found
    rest j = elim (get_or-set_cases hits g j no_hit no_hit) [
      | inl (same, written) ↦ inl written
      | inr kept ↦ elim (are j) [
        | inl e ↦ inl (kept ∙ e)
        | inr (inl same) ↦ inl (
            subst (λ k. get_or (set hits g no_hit) k no_hit ≡ no_hit) (sym same)
              (get_or-set_default hits g no_hit))
        | inr (inr i) ↦ inr i
      ]
    ]

pub length-reset_hits :
    (hits : List Hit) (found : List ℕ) → length (reset_hits hits found) ≡ length hits
unfolding reset_hits
length-reset_hits hits [] = refl
length-reset_hits hits (g ∷ found) =
    length-reset_hits (set hits g no_hit) found ∙ length-set hits g no_hit
