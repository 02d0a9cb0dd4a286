-- ===== src/Pipe/Memory/Rounds.antt =====
-- The branches of the operations of a topic, crates/goliath-pipe/src/memory.rs, each with what
-- leads to it.
use goliath_siem.Base.{
  ℕ, ◌+◌, ◌-◌, ◌≤◌, ◌<◌, ◌≡◌, ◌≢◌, refl, ◌⊎◌, inl, inr, false, none, some, List, [], ◌∷◌, ◌++◌,
  Text, if◌then◌else◌, leb, ltb, ◌==◌, ◌||◌, length, drop, take, arith, Bool-cases, Option-cases,
}
use goliath_siem.Base.Dict.{contains, find, put}
use goliath_siem.Pipe.{Payload, not_received, unsubscribed}
use goliath_siem.Pipe.Memory.{
  State, MemoryReceiver, refused, ready, waiting, end, held, release, receiver, send, acknowledge,
  receive, deliveries, max,
}

-- A group as `receiver` leaves it.
unfoldable pub entered : State → Text → State
entered s g = record s { groups = put g (end s) s.groups }

pub receiver-cases :
    (s : State) (g : Text)
    → ((p : ℕ) × (find g s.groups ≡ some p)
        × (receiver s g ≡ (s, record { group = g; next = p; skipped = 0 })))
      ⊎ ((find g s.groups ≡ none)
          × (receiver s g ≡ (entered s g, record { group = g; next = end s; skipped = 0 })))
unfolding receiver entered
receiver-cases s g = elim (Option-cases (find g s.groups)) [
  | inl q ↦ inr (q, rw (q, receiver) refl)
  | inr (p, q) ↦ inl (p, q, rw (q, receiver) refl)
]

-- What a batch that is accepted is appended to, before anything is released.
unfoldable pub extended : State → List Payload → State
extended s ps = record s { records = s.records ++ ps }

pub send-cases :
    (s : State) (ps : List Payload) {t : State}
    → send s ps ≡ some t
    → ((ps ≡ []) × (t ≡ s))
      ⊎ ((t ≡ (release (extended s ps)).0) × ((held s ≡ 0) ⊎ (held s + length ps ≤ s.capacity)))
unfolding send extended
send-cases s [] h = inl (refl, cc)
send-cases s (p ∷ ps) {t} h =
    elim (Bool-cases (held s == 0 || leb (held s + length (p ∷ ps)) s.capacity)) [
      | inl e ↦ inr (let q = (rw e at h) in ground arith, ground arith)
      | inr e ↦ absurd (let q = (rw e at h) in cc)
    ]

-- The state in which an acknowledgement has set the group's position.
unfoldable pub acknowledged : State → Text → ℕ → ℕ → State
acknowledged s g p offset = record s { groups = put g (max p (offset + 1)) s.groups }

pub acknowledge-cases :
    (s : State) (r : MemoryReceiver) (offset : ℕ)
    → ((r.next ≤ offset) × (acknowledge s r offset ≡ (s, some (not_received offset r.next), false)))
      ⊎ (((offset < r.next)
            × (find r.group s.groups ≡ none)
            × (acknowledge s r offset ≡ (s, some (unsubscribed r.group), false)))
          ⊎ ((p : ℕ) × (offset < r.next)
              × (find r.group s.groups ≡ some p)
              × (acknowledge s r offset ≡ (
                (release (acknowledged s r.group p offset)).0,
                none,
                (release (acknowledged s r.group p offset)).1,
              ))))
unfolding acknowledge acknowledged
acknowledge-cases s r offset = elim (Bool-cases (leb r.next offset)) [
  | inl e ↦ inl (ground arith, rw (e, acknowledge) refl)
  | inr e ↦ elim (Option-cases (find r.group s.groups)) [
    | inl q ↦ inr (inl (ground arith, q, rw (e, q, acknowledge) refl))
    | inr (p, q) ↦ inr (inr (p, ground arith, q, rw (e, q, acknowledge) refl))
  ]
]

-- What a round of `receive` counts as skipped.
unfoldable pub moved_past : State → MemoryReceiver → ℕ
moved_past s r =
    if contains s.observers r.group then r.skipped + (max r.next s.base - r.next) else r.skipped

unfoldable pub batch_at : State → ℕ → ℕ → List Payload
batch_at s from limit = take limit (drop (from - s.base) s.records)

pub receive-cases :
    (s : State) (r : MemoryReceiver) (limit : ℕ)
    → let from = max r.next s.base in
      ((find r.group s.groups ≡ none) × (receive s r limit ≡ (r, refused (unsubscribed r.group))))
      ⊎ (((p : ℕ) × (find r.group s.groups ≡ some p)
            × ((from < end s) ⊎ (limit ≡ 0))
            × (receive s r limit ≡ (
              record r {
                next = from + length (deliveries from (batch_at s from limit));
                skipped = moved_past s r;
              },
              ready (deliveries from (batch_at s from limit)),
            )))
          ⊎ ((p : ℕ) × (find r.group s.groups ≡ some p)
              × (end s ≤ from)
              × (limit ≢ 0)
              × (receive s r limit ≡ (record r { skipped = moved_past s r }, waiting))))
unfolding receive moved_past batch_at
receive-cases s r limit = elim (Option-cases (find r.group s.groups)) [
  | inl q ↦ inl (q, rw (q, receive) refl)
  | inr (p, q) ↦ elim (Bool-cases (ltb (max r.next s.base) (end s) || limit == 0)) [
    | inl e ↦ inr (inl (p, q, ground arith, rw (q, receive) (rw e refl)))
    | inr e ↦ inr (inr (p, q, ground arith, λ z. ground arith, rw (q, receive) (rw e refl)))
  ]
]
