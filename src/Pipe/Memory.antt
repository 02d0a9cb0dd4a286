-- ===== src/Pipe/Memory.antt =====
-- A topic in memory, crates/goliath-pipe/src/memory.rs. A method that locks the state is a
-- function from the state to the state it leaves; the loops of `send` and `receive`, which check
-- the state and wait to be woken, are given by one round. A method that may call
-- `released.notify_waiters` also returns whether it did. Offsets are counted without wrapping:
-- they are exact while fewer than 2^64 records have been sent.
pub mod Release
pub mod Rounds
pub mod Groups
pub mod History
pub mod Safety
pub mod Batches
pub mod Bounds
pub mod Steps
pub mod Runs
pub mod Waking
pub mod Observed
pub mod Errors
pub mod Skipped
pub mod Capacity
use goliath_siem.Base.{
  ℕ, suc, ◌+◌, ◌-◌, Bool, true, false, not, ◌&&◌, ◌||◌, Option, none, some, List, [], ◌∷◌, ◌++◌,
  Text, inl, inr, ◌⊎◌, if◌then◌else◌, ltb, leb, ◌==◌, length, keep, map, drop, take,
}
use goliath_siem.Base.Dict.{contains, add, discard, find, put, erase}
use goliath_siem.Pipe.{Payload, Delivery, PipeError, not_received, unsubscribed}

-- `base` is the offset of the first record, a group's position its first unacknowledged offset.
pub record State : Type 0 where
  pub base : ℕ
  pub records : List Payload
  pub capacity : ℕ
  pub groups : List (Text × ℕ)
  pub observers : List Text

pub record MemoryReceiver : Type 0 where
  pub group : Text
  pub next : ℕ
  pub skipped : ℕ

abbrev pub u64_max : ℕ
u64_max = 18446744073709551615

abbrev pub max : ℕ → ℕ → ℕ
max a b = if leb a b then b else a

unfoldable pub minimum : List ℕ → Option ℕ
minimum [] = none
minimum (x ∷ xs) = elim (minimum xs) [ none ↦ some x | some m ↦ some (if leb x m then x else m) ]

-- The positions of the groups that pass the test.
unfoldable pub positions : (Text → Bool) → List (Text × ℕ) → List ℕ
positions p [] = []
positions p ((g, n) ∷ gs) = let rest = positions p gs in if p g then n ∷ rest else rest

-- The offset the next record will get.
unfoldable pub end : State → ℕ
end s = s.base + length s.records

abbrev pub is_holding : State → Text → Bool
is_holding s g = not (contains s.observers g)

abbrev pub is_empty {ℓ} : {A : Type ℓ} → List A → Bool
is_empty [] = true
is_empty (x ∷ xs) = false

unfoldable pub floor : State → ℕ
unfolding end minimum positions contains
floor s = elim (minimum (positions (is_holding s) s.groups)) [
  | some m ↦ m
  | none ↦ if is_empty s.observers then s.base else end s
]

-- The records that senders wait for.
unfoldable pub held : State → ℕ
unfolding end floor
held s = end s - max (floor s) s.base

unfoldable pub observed : State → ℕ
unfolding minimum positions contains
observed s = elim (minimum (positions (contains s.observers) s.groups)) [
  | some m ↦ m
  | none ↦ u64_max
]

-- The loop of `release`: the base, the records, and whether any were released.
unfoldable pub release_loop :
    (floor observed capacity base : ℕ) → List Payload → Bool → ℕ × List Payload × Bool
release_loop f o c base [] released = (base, [], released)
release_loop f o c base (r ∷ rs) released =
    let rest = release_loop f o c (base + 1) rs true in
    if ltb base f && (ltb base o || ltb c (length (r ∷ rs))) then rest else (base, r ∷ rs, released)

unfoldable pub release : State → State × Bool
unfolding release_loop floor observed
release s =
    let (base, records, released) =
      release_loop (floor s) (observed s) s.capacity s.base s.records false in
    (record s { base = base; records = records }, released)

-- `MemoryTopic::new`; the capacity is at least 1.
unfoldable pub new : ℕ → State
new capacity = record { base = 0; records = []; capacity = capacity; groups = []; observers = [] }

-- `receiver`: an unknown group starts at the end of the topic.
unfoldable pub receiver : State → Text → State × MemoryReceiver
unfolding end find put
receiver s g = elim (find g s.groups) [
  | some p ↦ (s, record { group = g; next = p; skipped = 0 })
  | none ↦ (
    record s { groups = put g (end s) s.groups },
    record { group = g; next = end s; skipped = 0 },
  )
]

unfoldable pub subscribe : State → Text → State × MemoryReceiver
unfolding receiver discard
subscribe s g = receiver (record s { observers = discard g s.observers }) g

unfoldable pub observe : State → Text → State × MemoryReceiver
unfolding receiver add contains
observe s g = receiver (record s { observers = add g s.observers }) g

unfoldable pub unsubscribe : State → Text → State × Bool
unfolding release erase discard
unsubscribe s g =
    release (record s { groups = erase g s.groups; observers = discard g s.observers })

-- What a round of `send` leaves, or `none` where it waits to be woken.
unfoldable pub send : State → List Payload → Option State
unfolding held release
send s [] = some s
send s (p ∷ ps) =
    if held s == 0 || leb (held s + length (p ∷ ps)) s.capacity
    then some (release (record s { records = s.records ++ (p ∷ ps) })).0
    else none

-- Pairs each payload with its offset, `zip(from..)`.
unfoldable pub deliveries : ℕ → List Payload → List Delivery
deliveries n [] = []
deliveries n (p ∷ ps) = record { offset = n; payload = p } ∷ deliveries (n + 1) ps

pub data Received : Type 0 where
  refused : PipeError → Received
  ready : List Delivery → Received
  -- Nothing to deliver yet: `receive` waits, and returns an empty batch at its deadline.
  waiting : Received

-- A round of `receive`, with the receiver as it leaves it.
unfoldable pub receive : State → MemoryReceiver → ℕ → MemoryReceiver × Received
unfolding end deliveries find contains
receive s r limit = elim (find r.group s.groups) [
  | none ↦ (r, refused (unsubscribed r.group))
  | some p ↦
      let from = max r.next s.base in
      let moved : ℕ =
        if contains s.observers r.group then r.skipped + (from - r.next) else r.skipped in
      let batch = deliveries from (take limit (drop (from - s.base) s.records)) in
      if ltb from (end s) || limit == 0
      then (record r { next = from + length batch; skipped = moved }, ready batch)
      else (record r { skipped = moved }, waiting)
]

-- `acknowledge_now`.
unfoldable pub acknowledge : State → MemoryReceiver → ℕ → State × Option PipeError × Bool
unfolding release find put
acknowledge s r offset = elim (leb r.next offset) [
  | true ↦ (s, some (not_received offset r.next), false)
  | false ↦ elim (find r.group s.groups) [
    | none ↦ (s, some (unsubscribed r.group), false)
    | some p ↦
        let (t, released) =
          release (record s { groups = put r.group (max p (offset + 1)) s.groups }) in
        (t, none, released)
  ]
]

unfoldable pub lag : State → MemoryReceiver → ℕ ⊎ PipeError
unfolding end find
lag s r = elim (find r.group s.groups) [
  | some p ↦ inl (end s - p)
  | none ↦ inr (unsubscribed r.group)
]

-- `skipped` takes the count and leaves none.
unfoldable pub take_skipped : MemoryReceiver → MemoryReceiver × ℕ
take_skipped r = (record r { skipped = 0 }, r.skipped)
