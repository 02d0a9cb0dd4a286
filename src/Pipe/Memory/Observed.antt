-- ===== src/Pipe/Memory/Observed.antt =====
-- Where an observer keeps records back, crates/goliath-pipe/src/memory.rs: `release` reports nothing
-- released, and no sender is woken.
use goliath_siem.Base.{
  ℕ, ◌+◌, ◌≤◌, ◌<◌, ◌≡◌, refl, ap, ◌∙◌, inl, inr, Bool, false, none, some, List, [], ◌∷◌, Text,
  length, arith, Bool-cases, text_eq, text_eq_iff,
}
use goliath_siem.Base.Dict.{contains, put}
use goliath_siem.Pipe.{Payload}
use goliath_siem.Pipe.Memory.{
  State, MemoryReceiver, floor, held, max, minimum, positions, observed, release, release_loop,
  send, acknowledge, u64_max,
}
use goliath_siem.Pipe.Memory.Groups.{Holds}
use goliath_siem.Pipe.Memory.Rounds.{extended, acknowledged, acknowledge-cases}

-- A topic of which nothing is held accepts every batch.
accepts : (s : State) (ps : List Payload) → held s ≡ 0 → (t : State) × (send s ps ≡ some t)
unfolding send extended
accepts s [] h = (s, refl)
accepts s (p ∷ ps) h = ((release (extended s (p ∷ ps))).0, rw h refl)

-- An observer that has not acknowledged the first record keeps what fits from being released.
loop_kept :
    (f o c b : ℕ) (rs : List Payload)
    → o ≤ b
    → length rs ≤ c
    → release_loop f o c b rs false ≡ (b, rs, false)
unfolding release_loop
loop_kept f o c b [] l k = refl
loop_kept f o c b (r ∷ rs) l k = ground arith

kept_back :
    (t : State) → observed t ≤ t.base → length t.records ≤ t.capacity → release t ≡ (t, false)
unfolding release
kept_back t o c =
    ap (λ (x : ℕ × List Payload × Bool). (record t { base = x.0; records = x.1 }, x.2))
      (loop_kept (floor t) (observed t) t.capacity t.base t.records o c)

positions-put :
    (p : Text → Bool) (g : Text) (v : ℕ) (gs : List (Text × ℕ))
    → p g ≡ false
    → positions p (put g v gs) ≡ positions p gs
unfolding positions put
positions-put p g v [] e = rw e refl
positions-put p g v ((j, w) ∷ gs) e = elim (Bool-cases (text_eq j g)) [
  | inl t ↦ let q : p j ≡ false = ap p ((text_eq_iff j g).0 t) ∙ e in rw (t, q) refl
  | inr t ↦ rw (t, positions-put p g v gs e) refl
]

-- Where an observer has not acknowledged the first record and the records fit the capacity, an
-- acknowledgement by a group that holds the topic, after which nothing is held any more, wakes no
-- sender, although every batch is accepted from then on: a sender that waits for room stays
-- asleep.
pub acknowledge-observed_asleep :
    (s : State) (r : MemoryReceiver) (offset p : ℕ)
    → offset < r.next
    → Holds s r.group p
    → observed s ≤ s.base
    → length s.records ≤ s.capacity
    → held (acknowledge s r offset).0 ≡ 0
    → ((acknowledge s r offset).2 ≡ false)
      × ((ps : List Payload) → (t : State) × (send (acknowledge s r offset).0 ps ≡ some t))
unfolding acknowledged observed
acknowledge-observed_asleep s r offset p l h o c free = elim (acknowledge-cases s r offset) [
  | inl (w, _) ↦ absurd (omega arith)
  | inr (inl (_, n, _)) ↦ absurd (let h' = h.0 in cc)
  | inr (inr (p', _, f, e)) ↦
      let same : observed (acknowledged s r.group p' offset) ≡ observed s =
        ap (λ (xs : List ℕ). elim (minimum xs) as (λ x. ℕ) [ some m ↦ m | none ↦ u64_max ])
          (positions-put (contains s.observers) r.group (max p' (offset + 1)) s.groups h.1) in
      (
        rw e (
            ap (λ (x : State × Bool). x.1)
              (kept_back (acknowledged s r.group p' offset) (omega arith) c)),
        λ ps. accepts _ ps free,
      )
]
