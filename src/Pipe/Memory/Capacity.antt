-- ===== src/Pipe/Memory/Capacity.antt =====
-- The bound of a topic over all its runs, crates/goliath-pipe/src/memory.rs.
use goliath_siem.Base.{ℕ, ◌≤◌, ◌≡◌, refl, ap, ◌∙◌, inl, inr, some, List, Text, length, arith}
use goliath_siem.Pipe.{Payload}
use goliath_siem.Pipe.Memory.{
  State, MemoryReceiver, end, max, new, release, receiver, subscribe, observe, unsubscribe, send,
  acknowledge,
}
use goliath_siem.Pipe.Memory.Release.{release-Releases}
use goliath_siem.Pipe.Memory.Rounds.{
  entered, receiver-cases, extended, send-cases, acknowledged, acknowledge-cases,
}
use goliath_siem.Pipe.Memory.Bounds.{send-bounded}
use goliath_siem.Pipe.Memory.Steps.{
  System, start, Step, subscribing, observing, unsubscribing, sending, receiving, acknowledging,
  asking_skipped, Reach, at_start, then_step, IsSound,
}
use goliath_siem.Pipe.Memory.Runs.{Reach-IsSound}

-- An operation that sends nothing leaves the capacity, and at most the records there were.
record Shrinks (s t : State) : Type 0 where
  capacity_same : t.capacity ≡ s.capacity
  fewer : length t.records ≤ length s.records

release-Shrinks :
    (s t : State) → t.capacity ≡ s.capacity → t.records ≡ s.records → Shrinks s (release t).0
unfolding end
release-Shrinks s t c r =
    let x = release-Releases t in
    record {
      capacity_same = x.capacity_same ∙ c;
      fewer =
          let e = x.end_same in
          let f = x.base_forward in let l = ap (λ (rs : List Payload). length rs) r in ground arith;
    }

receiver-Shrinks :
    (s : State) (o : List Text) (g : Text) → Shrinks s (receiver (record s { observers = o }) g).0
unfolding entered
receiver-Shrinks s o g = elim (receiver-cases (record s { observers = o }) g) [
  | inl (_, _, e) ↦ rw e (record { capacity_same = refl; fewer = omega arith })
  | inr (_, e) ↦ rw e (record { capacity_same = refl; fewer = omega arith })
]

acknowledge-Shrinks :
    (s : State) (r : MemoryReceiver) (offset : ℕ) → Shrinks s (acknowledge s r offset).0
unfolding acknowledged
acknowledge-Shrinks s r offset = elim (acknowledge-cases s r offset) [
  | inl (_, e) ↦ rw e (record { capacity_same = refl; fewer = omega arith })
  | inr (inl (_, _, e)) ↦ rw e (record { capacity_same = refl; fewer = omega arith })
  | inr (inr (p, _, _, e)) ↦ rw e (release-Shrinks s (acknowledged s r.group p offset) refl refl)
]

send_capacity :
    (s : State) (ps : List Payload) {t : State} → send s ps ≡ some t → t.capacity ≡ s.capacity
unfolding extended
send_capacity s ps e = elim (send-cases s ps e) [
  | inl (_, q) ↦ ap (λ (x : State). x.capacity) q
  | inr (q, _) ↦ ap (λ (x : State). x.capacity) q ∙ (release-Releases (extended s ps)).capacity_same
]

-- The size of the largest batch that a run accepted.
step_batch : {x y : System} → Step x y → ℕ
step_batch (subscribing g e) = 0
step_batch (observing g e) = 0
step_batch (unsubscribing g e) = 0
step_batch (sending ps t s e) = length ps
step_batch (receiving i limit r g e) = 0
step_batch (acknowledging i offset r g e) = 0
step_batch (asking_skipped i r g e) = 0

unfoldable pub largest_batch : {capacity : ℕ} {x : System} → Reach capacity x → ℕ
unfolding step_batch
largest_batch at_start = 0
largest_batch (then_step r st) = max (step_batch st) (largest_batch r)

record Fits (capacity largest : ℕ) (s : State) : Type 0 where
  cap : s.capacity ≡ capacity
  records_le : length s.records ≤ max capacity largest

Shrinks-Fits : {c l : ℕ} {s t : State} (k : ℕ) → Shrinks s t → Fits c l s → Fits c (max k l) t
Shrinks-Fits {c} {l} k w h = record {
  cap = w.capacity_same ∙ h.cap;
  records_le = let a = w.fewer in let b = h.records_le in ground arith;
}

same_records : (s : State) → Shrinks s s
same_records s = record { capacity_same = refl; fewer = omega arith }

Step-Fits :
    {x y : System} (c l : ℕ) (st : Step x y)
    → IsSound x
    → Fits c l x.topic
    → Fits c (max (step_batch st) l) y.topic
unfolding step_batch subscribe observe unsubscribe
Step-Fits {x} c l (subscribing g e) h f = rw e (Shrinks-Fits 0 (receiver-Shrinks x.topic _ g) f)
Step-Fits {x} c l (observing g e) h f = rw e (Shrinks-Fits 0 (receiver-Shrinks x.topic _ g) f)
Step-Fits {x} c l (unsubscribing g e) h f =
    rw e (Shrinks-Fits 0 (release-Shrinks x.topic _ refl refl) f)
Step-Fits {x} c l (sending ps t s e) h f = rw e (record {
  cap = send_capacity x.topic ps s ∙ f.cap;
  records_le =
      let b = f.records_le in
      let q = f.cap in
      let r =
        send-bounded x.sent x.topic ps (max (length ps) l) h.consistent s (ground arith)
          (ground arith) in
      ground arith;
})
Step-Fits {x} c l (receiving i limit r g e) h f = rw e (Shrinks-Fits 0 (same_records x.topic) f)
Step-Fits {x} c l (acknowledging i offset r g e) h f =
    rw e (Shrinks-Fits 0 (acknowledge-Shrinks x.topic r offset) f)
Step-Fits {x} c l (asking_skipped i r g e) h f = rw e (Shrinks-Fits 0 (same_records x.topic) f)

Reach-Fits :
    {capacity : ℕ} {x : System} (r : Reach capacity x) → Fits capacity (largest_batch r) x.topic
unfolding largest_batch start new
Reach-Fits {capacity} at_start = record { cap = refl; records_le = omega arith }
Reach-Fits {capacity} (then_step r st) =
    Step-Fits capacity (largest_batch r) st (Reach-IsSound r) (Reach-Fits r)

-- In every state that a topic reaches, it holds at most as many records as its capacity, or as the
-- largest batch accepted so far has, whichever is more.
pub Reach-bounded :
    {capacity : ℕ} {x : System} (r : Reach capacity x)
    → length x.topic.records ≤ max capacity (largest_batch r)
Reach-bounded r = (Reach-Fits r).records_le
