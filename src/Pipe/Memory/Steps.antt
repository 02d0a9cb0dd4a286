-- ===== src/Pipe/Memory/Steps.antt =====
-- A topic with its senders and receivers, crates/goliath-pipe/src/memory.rs, as a step relation:
-- each step is one operation under the lock, and any receiver may act next.
use goliath_siem.Base.{
  ℕ, zero, suc, ◌≤◌, ◌≡◌, some, List, [], ◌∷◌, ◌++◌, Text, length, get_elem?, set, arith,
}
use goliath_siem.Pipe.{Payload}
use goliath_siem.Pipe.Memory.{
  State, MemoryReceiver, new, subscribe, observe, unsubscribe, send, receive, acknowledge,
  take_skipped,
}
use goliath_siem.Pipe.Memory.History.{IsConsistent}

-- `sent` is everything that was accepted, in its order.
pub record System : Type 0 where
  pub topic : State
  pub receivers : List MemoryReceiver
  pub sent : List Payload

unfoldable pub start : ℕ → System
start capacity = record { topic = new capacity; receivers = []; sent = [] }

-- What an operation of a receiver returns takes the receiver's place.
pub data Step (x y : System) : Type 0 where
  subscribing :
      (g : Text)
      → y ≡ record x {
        topic = (subscribe x.topic g).0;
        receivers = (subscribe x.topic g).1 ∷ x.receivers;
      }
      → Step x y
  observing :
      (g : Text)
      → y ≡ record x {
        topic = (observe x.topic g).0;
        receivers = (observe x.topic g).1 ∷ x.receivers;
      }
      → Step x y
  unsubscribing : (g : Text) → y ≡ record x { topic = (unsubscribe x.topic g).0 } → Step x y
  sending :
      (ps : List Payload) (t : State)
      → send x.topic ps ≡ some t
      → y ≡ record x { topic = t; sent = x.sent ++ ps }
      → Step x y
  receiving :
      (i limit : ℕ) (r : MemoryReceiver)
      → get_elem? x.receivers i ≡ some r
      → y ≡ record x { receivers = set x.receivers i (receive x.topic r limit).0 }
      → Step x y
  acknowledging :
      (i offset : ℕ) (r : MemoryReceiver)
      → get_elem? x.receivers i ≡ some r
      → y ≡ record x { topic = (acknowledge x.topic r offset).0 }
      → Step x y
  asking_skipped :
      (i : ℕ) (r : MemoryReceiver)
      → get_elem? x.receivers i ≡ some r
      → y ≡ record x { receivers = set x.receivers i (take_skipped r).0 }
      → Step x y

pub data Reach (capacity : ℕ) : System → Type 0 where
  at_start : Reach capacity (start capacity)
  then_step : {x y : System} → Reach capacity x → Step x y → Reach capacity y

-- No receiver is past a bound.
abbrev pub NoneBeyond : ℕ → List MemoryReceiver → Type 0
NoneBeyond n [] = Unit {0}
NoneBeyond n (r ∷ rs) = (r.next ≤ n) × NoneBeyond n rs

pub record IsSound (x : System) : Type 0 where
  pub consistent : IsConsistent x.sent x.topic
  pub reading : NoneBeyond (length x.sent) x.receivers

pub NoneBeyond-weaken :
    (n m : ℕ) (rs : List MemoryReceiver) → n ≤ m → NoneBeyond n rs → NoneBeyond m rs
NoneBeyond-weaken n m [] l h = tt
NoneBeyond-weaken n m (r ∷ rs) l h = (omega (arith, h.0), NoneBeyond-weaken n m rs l h.1)

pub NoneBeyond-set :
    (n i : ℕ) (rs : List MemoryReceiver) (r : MemoryReceiver)
    → r.next ≤ n
    → NoneBeyond n rs
    → NoneBeyond n (set rs i r)
NoneBeyond-set n i [] r l h = tt
NoneBeyond-set n zero (q ∷ rs) r l h = (l, h.1)
NoneBeyond-set n (suc i) (q ∷ rs) r l h = (h.0, NoneBeyond-set n i rs r l h.1)

pub NoneBeyond-get :
    (n i : ℕ) (rs : List MemoryReceiver) {r : MemoryReceiver}
    → NoneBeyond n rs
    → get_elem? rs i ≡ some r
    → r.next ≤ n
NoneBeyond-get n i [] h e = cc
NoneBeyond-get n zero (q ∷ rs) {r} h e = let e' : q ≡ r = cc in rw (← e') h.0
NoneBeyond-get n (suc i) (q ∷ rs) h e = NoneBeyond-get n i rs h.1 e
