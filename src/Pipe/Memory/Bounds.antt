-- ===== src/Pipe/Memory/Bounds.antt =====
-- How many records a topic keeps, crates/goliath-pipe/src/memory.rs.
use goliath_siem.Base.{
  ℕ, ◌+◌, ◌≤◌, ◌≡◌, ◌≢◌, refl, ◌⊎◌, inl, inr, true, false, some, List, [], ◌∷◌, ltb, length,
  length-append, arith, Bool-cases, Option-cases,
}
use goliath_siem.Pipe.{Payload}
use goliath_siem.Pipe.Memory.{
  State, end, floor, held, max, minimum, positions, is_holding, is_empty, release, send,
}
use goliath_siem.Pipe.Memory.Release.{release-Releases}
use goliath_siem.Pipe.Memory.Groups.{floor-le-end}
use goliath_siem.Pipe.Memory.Rounds.{extended, send-cases}
use goliath_siem.Pipe.Memory.History.{IsConsistent}

-- New records move the floor only where observers alone read the topic, and then to the end.
floor-extended :
    (s : State) (ps : List Payload)
    → (floor (extended s ps) ≡ floor s) ⊎ (floor (extended s ps) ≡ end (extended s ps))
unfolding extended floor
floor-extended s ps = elim (Option-cases (minimum (positions (is_holding s) s.groups))) [
  | inr (m, q) ↦ inl (rw (q, floor) refl)
  | inl q ↦ elim (Bool-cases (is_empty s.observers)) [
    | inl e ↦ inl (rw (q, floor) (rw e refl))
    | inr e ↦ inr (rw (q, floor) (rw e refl))
  ]
]

pub empty_le {ℓ} : {A : Type ℓ} (xs : List A) (n : ℕ) → is_empty xs ≡ true → length xs ≤ n
empty_le [] n e = omega arith
empty_le (x ∷ xs) n e = cc

pub full {ℓ} : {A : Type ℓ} (xs : List A) → is_empty xs ≡ false → xs ≢ []
full [] e h = cc
full (x ∷ xs) e h = cc

-- What is left once everything below the floor is gone.
past_floor :
    (s : State) (ps : List Payload)
    → floor s ≤ end s
    → floor (extended s ps) ≤ (release (extended s ps)).0.base
    → length (release (extended s ps)).0.records ≤ held s + length ps
unfolding end held extended
past_floor s ps le past =
    let x = release-Releases (extended s ps) in
    let g = length-append s.records ps in
    let same = x.end_same in
    let forward = x.base_forward in
    elim (floor-extended s ps) [ inl f ↦ ground arith | inr f ↦ ground arith ]

-- A round of send that does not wait leaves at most as many records as the capacity allows, or
-- as the largest batch has, where a batch larger than the capacity was accepted.
pub send-bounded :
    (sent : List Payload) (s : State) (ps : List Payload) {t : State} (largest : ℕ)
    → IsConsistent sent s
    → send s ps ≡ some t
    → length ps ≤ largest
    → length s.records ≤ max s.capacity largest
    → length t.records ≤ max s.capacity largest
send-bounded sent s ps {t} largest h e l b = elim (send-cases s ps e) [
  | inl (_, q) ↦ rw q b
  | inr (q, c) ↦
      let x = release-Releases (extended s ps) in
      let stopped = x.stopped in
      rw q (elim (Bool-cases (ltb (release (extended s ps)).0.base (floor (extended s ps)))) [
        | inl below ↦ elim (Bool-cases (is_empty (release (extended s ps)).0.records)) [
          | inl z ↦ empty_le _ _ z
          | inr z ↦
              let k = (stopped (ground arith) (full _ z)).1 in
              let k' : length (release (extended s ps)).0.records ≤ s.capacity =
                unfold extended in k in
              ground arith
        ]
        | inr past ↦ let k = past_floor s ps (floor-le-end s h.below) (ground arith) in ground arith
      ])
]
