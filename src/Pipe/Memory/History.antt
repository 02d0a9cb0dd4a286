-- ===== src/Pipe/Memory/History.antt =====
-- The topic against everything that was ever sent to it, crates/goliath-pipe/src/memory.rs: the
-- records it holds are the history from its base on, and no group stands past its end.
use goliath_siem.Base.{
  ℕ, zero, suc, ◌+◌, ◌≤◌, ◌≡◌, refl, ap, ◌∙◌, inl, inr, some, List, [], ◌∷◌, ◌++◌, Text, length,
  drop, append-nil, arith,
}
use goliath_siem.Base.{length-append}
use goliath_siem.Base.Dict.{add, discard}
use goliath_siem.Pipe.{Payload}
use goliath_siem.Pipe.Memory.{
  State, MemoryReceiver, end, release, new, receiver, subscribe, observe, unsubscribe, send,
  acknowledge, max,
}
use goliath_siem.Pipe.Memory.Release.{release-Releases}
use goliath_siem.Pipe.Memory.Rounds.{
  entered, receiver-cases, extended, send-cases, acknowledged, acknowledge-cases,
}
use goliath_siem.Pipe.Memory.Groups.{
  AllBelow, AllBelow-weaken, AllBelow-put, AllBelow-erase, find-le,
}

pub record IsConsistent (sent : List Payload) (s : State) : Type 0 where
  pub ends : end s ≡ length sent
  pub content : drop s.base sent ≡ s.records
  pub below : AllBelow (end s) s.groups

pub new-IsConsistent : (capacity : ℕ) → IsConsistent [] (new capacity)
unfolding new end
new-IsConsistent capacity = record { ends = omega arith; content = refl; below = tt }

pub release-IsConsistent :
    (sent : List Payload) (s : State) → IsConsistent sent s → IsConsistent sent (release s).0
release-IsConsistent sent s h =
    let q = release-Releases s in
    record {
      ends = q.end_same ∙ h.ends;
      content = q.records_kept sent h.content;
      below = rw (q.end_same, q.groups_same) h.below;
    }

module _ (sent : List Payload) (s : State) (g : Text) (h : IsConsistent sent s) where
  -- Who observes has no part in it.
  receiver-IsConsistent :
      (o : List Text) → IsConsistent sent (receiver (record s { observers = o }) g).0
  receiver-IsConsistent o = elim (receiver-cases (record s { observers = o }) g) [
    | inl (p, _, e) ↦
        rw e (unfold end in record { ends = h.ends; content = h.content; below = h.below })
    | inr (_, e) ↦ rw e (
        unfold end entered in
        record {
          ends = h.ends;
          content = h.content;
          below = AllBelow-put _ g _ s.groups (omega arith) h.below;
        })
  ]

  pub subscribe-IsConsistent : IsConsistent sent (subscribe s g).0
  unfolding subscribe
  subscribe-IsConsistent = receiver-IsConsistent (discard g s.observers)

  pub observe-IsConsistent : IsConsistent sent (observe s g).0
  unfolding observe
  observe-IsConsistent = receiver-IsConsistent (add g s.observers)

  pub unsubscribe-IsConsistent : IsConsistent sent (unsubscribe s g).0
  unfolding unsubscribe
  unsubscribe-IsConsistent = release-IsConsistent sent _ (
      unfold end in
      record { ends = h.ends; content = h.content; below = AllBelow-erase _ g s.groups h.below })

-- Appending after the dropped part.
pub drop-append {ℓ} :
    {A : Type ℓ} (n : ℕ) (xs ys : List A) → n ≤ length xs → drop n (xs ++ ys) ≡ drop n xs ++ ys
drop-append zero xs ys l = refl
drop-append (suc n) [] ys l = absurd (omega arith)
drop-append (suc n) (x ∷ xs) ys l = drop-append n xs ys (omega arith)

pub base-le : {sent : List Payload} {s : State} → IsConsistent sent s → s.base ≤ length sent
unfolding end
base-le h = omega (arith, h.ends)

pub extended-IsConsistent :
    (sent : List Payload) (s : State) (ps : List Payload)
    → IsConsistent sent s
    → IsConsistent (sent ++ ps) (extended s ps)
unfolding extended end
extended-IsConsistent sent s ps h = record {
  ends = omega (arith, length-append sent ps, length-append s.records ps, h.ends);
  content = drop-append s.base sent ps (base-le h) ∙ ap (λ xs. xs ++ ps) h.content;
  below = AllBelow-weaken _ _ s.groups (omega (arith, length-append s.records ps)) h.below;
}

pub send-IsConsistent :
    (sent : List Payload) (s : State) (ps : List Payload) {t : State}
    → IsConsistent sent s
    → send s ps ≡ some t
    → IsConsistent (sent ++ ps) t
send-IsConsistent sent s ps {t} h e = elim (send-cases s ps e) [
  | inl (p, q) ↦ rw (p, q, append-nil) h
  | inr (q, _) ↦ rw q (release-IsConsistent _ _ (extended-IsConsistent sent s ps h))
]

pub acknowledge-IsConsistent :
    (sent : List Payload) (s : State) (r : MemoryReceiver) (offset : ℕ)
    → IsConsistent sent s
    → r.next ≤ end s
    → IsConsistent sent (acknowledge s r offset).0
acknowledge-IsConsistent sent s r offset h l = elim (acknowledge-cases s r offset) [
  | inl (_, e) ↦ rw e h
  | inr (inl (_, _, e)) ↦ rw e h
  | inr (inr (p, lt, q, e)) ↦ rw e (
      release-IsConsistent sent _ (
        let k = find-le _ r.group s.groups h.below q in
        let m : max p (offset + 1) ≤ end s = ground arith in
        unfold end acknowledged in
        record {
          ends = h.ends;
          content = h.content;
          below = AllBelow-put _ r.group _ s.groups m h.below;
        }))
]
