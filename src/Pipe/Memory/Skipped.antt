-- ===== src/Pipe/Memory/Skipped.antt =====
-- What an observer's receiver counts as skipped, crates/goliath-pipe/src/memory.rs, by two rounds of
-- `receive`.
use goliath_siem.Base.{ℕ, ◌+◌, ◌-◌, ◌≤◌, ◌≡◌, refl, ap, ◌∙◌, ◌⊎◌, inl, inr, true, some, List, arith}
use goliath_siem.Base.Dict.{find, contains}
use goliath_siem.Pipe.{Delivery}
use goliath_siem.Pipe.Memory.{State, MemoryReceiver, Received, ready, waiting, receive, max}
use goliath_siem.Pipe.Memory.Rounds.{receive-cases, moved_past}

-- A round counts what lies between the next offset and the base, if the group observes.
receive-skipped :
    (s : State) (r : MemoryReceiver) (limit p : ℕ)
    → find r.group s.groups ≡ some p
    → (receive s r limit).0.skipped ≡ moved_past s r
receive-skipped s r limit p f = elim (receive-cases s r limit) [
  | inl (n, _) ↦ absurd cc
  | inr (inl (_, _, _, e)) ↦ rw e refl
  | inr (inr (_, _, _, _, e)) ↦ rw e refl
]

observer_counts :
    (s : State) (r : MemoryReceiver)
    → contains s.observers r.group ≡ true
    → moved_past s r ≡ r.skipped + (s.base - r.next)
unfolding moved_past
observer_counts s r o = rw o (ground arith)

receive_group : (s : State) (r : MemoryReceiver) (limit : ℕ) → (receive s r limit).0.group ≡ r.group
receive_group s r limit = elim (receive-cases s r limit) [
  | inl (_, e) ↦ rw e refl
  | inr (inl (_, _, _, e)) ↦ rw e refl
  | inr (inr (_, _, _, _, e)) ↦ rw e refl
]

-- Two rounds of receive by a receiver of an observing group, with the topic unchanged between them.
-- Where the first gives a batch, the second counts nothing more as skipped. Where the first waits,
-- the second counts again all that the first counted.
pub receive-recounts :
    (s : State) (r : MemoryReceiver) (limit limit' p : ℕ)
    → find r.group s.groups ≡ some p
    → contains s.observers r.group ≡ true
    → let one = receive s r limit in
      let two = receive s one.0 limit' in
      (one.0.skipped ≡ r.skipped + (s.base - r.next))
      × (((ds : List Delivery) × (one.1 ≡ ready ds) × (two.0.skipped ≡ one.0.skipped))
          ⊎ ((one.1 ≡ waiting) × (two.0.skipped ≡ one.0.skipped + (s.base - r.next))))
receive-recounts s r limit limit' p f o =
    let one : MemoryReceiver = (receive s r limit).0 in
    let g = receive_group s r limit in
    let f' : find one.group s.groups ≡ some p = ap (λ k. find k s.groups) g ∙ f in
    let o' : contains s.observers one.group ≡ true = ap (contains s.observers) g ∙ o in
    let first = receive-skipped s r limit p f ∙ observer_counts s r o in
    let second = receive-skipped s one limit' p f' ∙ observer_counts s one o' in
    (
      first,
      elim (receive-cases s r limit) [
        | inl (n, _) ↦ absurd cc
        | inr (inl (_, _, _, e)) ↦
            let n = ap (λ (x : MemoryReceiver × Received). x.0.next) e in
            let m : s.base ≤ max r.next s.base = ground arith in
            inl (_, ap (λ (x : MemoryReceiver × Received). x.1) e, second ∙ omega arith)
        | inr (inr (_, _, _, _, e)) ↦
            let n = ap (λ (x : MemoryReceiver × Received). x.0.next) e in
            inr (ap (λ (x : MemoryReceiver × Received). x.1) e, second ∙ omega arith)
      ],
    )
