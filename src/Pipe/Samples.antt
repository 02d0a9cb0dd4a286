-- ===== src/Pipe/Samples.antt =====
-- Runs of a topic in memory, and the pipe's theorems at concrete states.
use goliath_siem.Base.{
  In, ap, ℕ, ◌+◌, ◌-◌, ◌≤◌, ◌<◌, ◌≡◌, ◌⊎◌, refl, inr, true, false, none, some, List, [], ◌∷◌, Text,
  text, length, get_elem?, arith,
}
use goliath_siem.Base.Dict.{find, contains}
use goliath_siem.Pipe.{Payload, Delivery, unsubscribed, not_received}
use goliath_siem.Pipe.Memory.{
  State, MemoryReceiver, Received, ready, waiting, refused, new, end, held, observed, max,
  subscribe, unsubscribe, send, receive, acknowledge, lag,
}
use goliath_siem.Pipe.Memory.Batches.{Delivers, receive-Delivers}
use goliath_siem.Pipe.Memory.Steps.{
  System, start, Step, Reach, IsSound, at_start, then_step, subscribing, sending, receiving,
  acknowledging,
}
use goliath_siem.Pipe.Memory.Runs.{Reach-IsSound, Reach-Step_retains}
use goliath_siem.Pipe.Memory.Capacity.{largest_batch, Reach-bounded}
use goliath_siem.Pipe.Memory.Waking.{refused-wakes}
use goliath_siem.Pipe.Memory.Observed.{acknowledge-observed_asleep}
use goliath_siem.Pipe.Memory.Errors.{acknowledge-receive, unsubscribe-fails, acknowledge-subscribe}
use goliath_siem.Pipe.Memory.Skipped.{receive-recounts}

abbrev alpha : Text
alpha = text "alpha"

abbrev bench : Text
bench = text "bench"

abbrev two_records : List Payload
two_records = (1 ∷ []) ∷ (2 ∷ []) ∷ []

-- A topic for two records, read by one group, with two records sent.
abbrev full_topic : State
full_topic = record {
  base = 0;
  records = two_records;
  capacity = 2;
  groups = (alpha, 0) ∷ [];
  observers = [];
}

abbrev reader : ℕ → MemoryReceiver
reader n = record { group = alpha; next = n; skipped = 0 }

abbrev subscribed : System
subscribed = record { topic = (subscribe (new 2) alpha).0; receivers = reader 0 ∷ []; sent = [] }

abbrev filled : System
filled = record { topic = full_topic; receivers = reader 0 ∷ []; sent = two_records }

abbrev read : System
read = record { topic = full_topic; receivers = reader 2 ∷ []; sent = two_records }

subscribed_run : Reach 2 subscribed
unfolding start subscribe new
subscribed_run = then_step at_start (subscribing alpha refl)

filled_run : Reach 2 filled
unfolding start subscribe new send
filled_run = then_step subscribed_run (sending two_records full_topic refl refl)

read_run : Reach 2 read
unfolding receive
read_run = then_step filled_run (receiving 0 5 (reader 0) refl refl)

abbrev handled : System
handled = record {
  topic = (acknowledge full_topic (reader 2) 0).0;
  receivers = reader 2 ∷ [];
  sent = two_records;
}

handling : Step read handled
handling = acknowledging 0 0 (reader 2) refl refl

Reach-IsSound_example : IsSound read
Reach-IsSound_example = Reach-IsSound read_run

Reach-Step_retains_example :
    ((let n : ℕ = 0 in n) ≤ 1)
    × (handled.topic.base ≤ 1)
    × ((o : ℕ)
        → 1 ≤ o
        → get_elem? handled.topic.records (o - handled.topic.base) ≡ get_elem? two_records o)
unfolding acknowledge
Reach-Step_retains_example =
    Reach-Step_retains alpha 0 1 read_run handling (refl, refl) (omega arith) (refl, refl)

Reach-bounded_example : length full_topic.records ≤ max 2 (largest_batch read_run)
Reach-bounded_example = Reach-bounded read_run

receive-Delivers_example :
    Delivers two_records full_topic (reader 1) 5 (receive full_topic (reader 1) 5)
unfolding end
receive-Delivers_example =
    receive-Delivers two_records full_topic (reader 1) 5
      (record { ends = refl; content = refl; below = (omega arith, tt) }) (omega arith)

receives_last :
    receive full_topic (reader 1) 5
    ≡ (reader 2, ready (record { offset = 1; payload = 2 ∷ [] } ∷ []))
unfolding receive
receives_last = refl

full_refuses : send full_topic ((3 ∷ []) ∷ []) ≡ none
unfolding send
full_refuses = refl

refused-wakes_example :
    ((r : MemoryReceiver) (offset : ℕ) (u : State)
      → send (acknowledge full_topic r offset).0 ((3 ∷ []) ∷ []) ≡ some u
      → (acknowledge full_topic r offset).2 ≡ true)
    × ((g : Text) (u : State)
        → send (unsubscribe full_topic g).0 ((3 ∷ []) ∷ []) ≡ some u
        → (unsubscribe full_topic g).1 ≡ true)
unfolding end
refused-wakes_example = refused-wakes full_topic ((3 ∷ []) ∷ []) refl (omega arith) full_refuses

-- The same with an observer that has acknowledged nothing.
abbrev observed_topic : State
observed_topic = record full_topic { groups = (alpha, 0) ∷ (bench, 0) ∷ []; observers = bench ∷ [] }

observed_refuses : send observed_topic ((3 ∷ []) ∷ []) ≡ none
unfolding send
observed_refuses = refl

acknowledge-observed_asleep_example :
    ((acknowledge observed_topic (reader 2) 1).2 ≡ false)
    × ((ps : List Payload)
        → (t : State) × (send (acknowledge observed_topic (reader 2) 1).0 ps ≡ some t))
unfolding acknowledge held observed
acknowledge-observed_asleep_example =
    acknowledge-observed_asleep observed_topic (reader 2) 1 0 (omega arith) (refl, refl)
      (omega arith) (omega arith) refl

abbrev second_record : List Delivery
second_record = record { offset = 1; payload = 2 ∷ [] } ∷ []

-- Since the receiver was given the second record, another has acknowledged the first.
acknowledge-receive_example :
    let after = (receive full_topic (reader 1) 5).0 in
    let t = handled.topic in
    ((d : Delivery) → In d second_record → (acknowledge t after d.offset).1 ≡ none)
    × ((offset : ℕ)
        → ((d : Delivery) → In d second_record → d.offset < offset)
        → 1 ≤ offset
        → acknowledge t after offset ≡ (t, some (not_received offset 2), false))
unfolding find acknowledge
acknowledge-receive_example =
    acknowledge-receive full_topic (reader 1) 5 second_record
      (ap (λ (x : MemoryReceiver × Received). x.1) receives_last) handled.topic 1 refl

unsubscribe-fails_example :
    let t = (unsubscribe full_topic alpha).0 in
    ((limit : ℕ) → receive t (reader 2) limit ≡ (reader 2, refused (unsubscribed alpha)))
    × (lag t (reader 2) ≡ inr (unsubscribed alpha))
    × ((offset : ℕ)
        → offset < 2
        → acknowledge t (reader 2) offset ≡ (t, some (unsubscribed alpha), false))
unsubscribe-fails_example = unsubscribe-fails full_topic (reader 2)

acknowledge-subscribe_example : (subscribe (acknowledge full_topic (reader 2) 0).0 alpha).1.next ≡ 1
unfolding find
acknowledge-subscribe_example = acknowledge-subscribe full_topic (reader 2) 0 0 (omega arith) refl

-- Two records were sent and acknowledged by the other receiver of the observing group.
abbrev passed_topic : State
passed_topic = record {
  base = 2;
  records = [];
  capacity = 2;
  groups = (bench, 2) ∷ [];
  observers = bench ∷ [];
}

abbrev behind : MemoryReceiver
behind = record { group = bench; next = 0; skipped = 0 }

receive-recounts_example :
    let one = receive passed_topic behind 5 in
    let two = receive passed_topic one.0 5 in
    (one.0.skipped ≡ 2)
    × (((ds : List Delivery) × (one.1 ≡ ready ds) × (two.0.skipped ≡ one.0.skipped))
        ⊎ ((one.1 ≡ waiting) × (two.0.skipped ≡ one.0.skipped + 2)))
unfolding find contains
receive-recounts_example = receive-recounts passed_topic behind 5 5 2 refl refl

counts_twice : (receive passed_topic (receive passed_topic behind 5).0 5).0.skipped ≡ 4
unfolding receive
counts_twice = refl
