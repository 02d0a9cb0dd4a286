-- ===== src/Pipe/Memory/Runs.antt =====
-- What holds of a topic in every state it reaches, crates/goliath-pipe/src/memory.rs.
use goliath_siem.Base.{
  ℕ, zero, suc, ◌-◌, ◌≤◌, ◌≡◌, refl, sym, ap, ◌∙◌, List, [], ◌∷◌, Text, length, get_elem?, drop,
  length-append, arith, inl, inr,
}
use goliath_siem.Pipe.{Payload}
use goliath_siem.Pipe.Memory.{
  State, MemoryReceiver, Received, refused, ready, waiting, end, subscribe, observe, receiver,
  receive, take_skipped,
}
use goliath_siem.Pipe.Memory.Groups.{Holds, find-le}
use goliath_siem.Pipe.Memory.Steps.{
  System, start, Step, subscribing, observing, unsubscribing, sending, receiving, acknowledging,
  asking_skipped, Reach, at_start, then_step, IsSound, NoneBeyond-weaken, NoneBeyond-set,
  NoneBeyond-get,
}
use goliath_siem.Pipe.Memory.Rounds.{receiver-cases}
use goliath_siem.Pipe.Memory.History.{
  IsConsistent, new-IsConsistent, subscribe-IsConsistent, observe-IsConsistent,
  unsubscribe-IsConsistent, send-IsConsistent, acknowledge-IsConsistent,
}
use goliath_siem.Pipe.Memory.Safety.{
  Keeps, subscribe-Keeps, observe-Keeps, unsubscribe-Keeps, send-Keeps, acknowledge-Keeps,
}
use goliath_siem.Pipe.Memory.Batches.{Delivers, receive-Delivers}

start-IsSound : (capacity : ℕ) → IsSound (start capacity)
unfolding start
start-IsSound capacity = record { consistent = new-IsConsistent capacity; reading = tt }

-- A receiver that is made starts at the end, or at its group's position.
receiver-reads :
    (sent : List Payload) (s : State) (g : Text) (o : List Text)
    → IsConsistent sent s
    → (receiver (record s { observers = o }) g).1.next ≤ length sent
unfolding end
receiver-reads sent s g o h =
    let e' = h.ends in
    elim (receiver-cases (record s { observers = o }) g) [
      | inl (p, q, e) ↦ rw e (let l = find-le _ g s.groups h.below q in omega arith)
      | inr (_, e) ↦ rw e (omega arith)
    ]

Delivers-reads :
    (sent : List Payload) (s : State) (r : MemoryReceiver) (limit : ℕ)
    (out : MemoryReceiver × Received)
    → Delivers sent s r limit out
    → r.next ≤ length sent
    → out.0.next ≤ length sent
Delivers-reads sent s r limit (r', refused x) d l = rw (d.0) l
Delivers-reads sent s r limit (r', ready ds) d l = d.3
Delivers-reads sent s r limit (r', waiting) d l = omega (arith, d.0)

received :
    (x : System) (r : MemoryReceiver) (limit : ℕ)
    → IsSound x
    → r.next ≤ length x.sent
    → (receive x.topic r limit).0.next ≤ length x.sent
received x r limit h l =
    Delivers-reads x.sent x.topic r limit (receive x.topic r limit)
      (receive-Delivers x.sent x.topic r limit h.consistent l) l

pub Step-IsSound : {x y : System} → Step x y → IsSound x → IsSound y
unfolding subscribe observe take_skipped
Step-IsSound {x} (subscribing g e) h = rw e (record {
  consistent = subscribe-IsConsistent x.sent x.topic g h.consistent;
  reading = (receiver-reads x.sent x.topic g _ h.consistent, h.reading);
})
Step-IsSound {x} (observing g e) h = rw e (record {
  consistent = observe-IsConsistent x.sent x.topic g h.consistent;
  reading = (receiver-reads x.sent x.topic g _ h.consistent, h.reading);
})
Step-IsSound {x} (unsubscribing g e) h = rw e (record {
  consistent = unsubscribe-IsConsistent x.sent x.topic g h.consistent;
  reading = h.reading;
})
Step-IsSound {x} (sending ps t s e) h = rw e (record {
  consistent = send-IsConsistent x.sent x.topic ps h.consistent s;
  reading = NoneBeyond-weaken _ _ x.receivers (omega (arith, length-append x.sent ps)) h.reading;
})
Step-IsSound {x} (receiving i limit r g e) h = rw e (record {
  consistent = h.consistent;
  reading =
      NoneBeyond-set _ i x.receivers _
        (received x r limit h (NoneBeyond-get _ i x.receivers h.reading g)) h.reading;
})
Step-IsSound {x} (acknowledging i offset r g e) h = rw e (record {
  consistent =
      acknowledge-IsConsistent x.sent x.topic r offset h.consistent
        (rw h.consistent.ends (NoneBeyond-get _ i x.receivers h.reading g));
  reading = h.reading;
})
Step-IsSound {x} (asking_skipped i r g e) h = rw e (record {
  consistent = h.consistent;
  reading = NoneBeyond-set _ i x.receivers _ (NoneBeyond-get _ i x.receivers h.reading g) h.reading;
})

-- In every state that a topic reaches, by any operations of any receivers and senders in any
-- order, the records are the end of everything that was accepted, and neither a group nor a
-- receiver stands past it.
pub Reach-IsSound : {capacity : ℕ} {x : System} → Reach capacity x → IsSound x
Reach-IsSound {capacity} at_start = start-IsSound capacity
Reach-IsSound (then_step r st) = Step-IsSound st (Reach-IsSound r)

unmoved : (g : Text) (s : State) → Keeps g s s
unmoved g s n m h k l = let e : n ≡ m = let h' = h.0 in let k' = k.0 in ground arith in omega arith

Step-Keeps : (g : Text) {x y : System} → Step x y → Keeps g x.topic y.topic
Step-Keeps g {x} (subscribing j e) = rw e (subscribe-Keeps g j x.topic)
Step-Keeps g {x} (observing j e) = rw e (observe-Keeps g j x.topic)
Step-Keeps g {x} (unsubscribing j e) = rw e (unsubscribe-Keeps g j x.topic)
Step-Keeps g (sending ps t s e) = rw e (send-Keeps g _ ps s)
Step-Keeps g {x} (receiving i limit r _ e) = rw e (unmoved g x.topic)
Step-Keeps g {x} (acknowledging i offset r _ e) = rw e (acknowledge-Keeps g x.topic r offset)
Step-Keeps g {x} (asking_skipped i r _ e) = rw e (unmoved g x.topic)

get_elem?-drop {ℓ} :
    {A : Type ℓ} (n i : ℕ) (xs : List A) → n ≤ i → get_elem? (drop n xs) (i - n) ≡ get_elem? xs i
get_elem?-drop zero i xs l = ap (get_elem? xs) (omega arith)
get_elem?-drop (suc n) i [] l = refl
get_elem?-drop (suc n) zero (x ∷ xs) l = absurd (omega arith)
get_elem?-drop (suc n) (suc i) (x ∷ xs) l =
    ap (get_elem? (drop n xs)) (omega arith) ∙ get_elem?-drop n i xs (omega arith)

-- In every state that a topic reaches, whatever operation comes next: a group that holds the topic
-- before and after it is not set back, and every record from its position on, if it was there
-- before, is there after it, at its offset and as it was sent.
pub Reach-Step_retains :
    {capacity : ℕ} {x y : System} (g : Text) (n m : ℕ)
    → Reach capacity x
    → Step x y
    → Holds x.topic g n
    → x.topic.base ≤ n
    → Holds y.topic g m
    → (n ≤ m)
      × (y.topic.base ≤ m)
      × ((o : ℕ) → m ≤ o → get_elem? y.topic.records (o - y.topic.base) ≡ get_elem? y.sent o)
Reach-Step_retains {x = x} {y} g n m r st h l k =
    let kept = Step-Keeps g st n m h k l in
    let sound = Step-IsSound st (Reach-IsSound r) in
    (
      kept.1,
      kept.0,
      λ o q.
          ap (λ (rs : List Payload). get_elem? rs (o - y.topic.base)) (sym sound.consistent.content)
          ∙ get_elem?-drop y.topic.base o y.sent (omega arith),
    )
