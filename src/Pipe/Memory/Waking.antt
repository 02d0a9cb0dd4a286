-- ===== src/Pipe/Memory/Waking.antt =====
-- Whether a sender that waits is woken when its batch would be accepted,
-- crates/goliath-pipe/src/memory.rs: `send` waits for `released`, which is notified only by an
-- operation that released a record.
use goliath_siem.Base.{
  ℕ, ◌+◌, ◌≤◌, ◌<◌, ◌≡◌, ◌≢◌, refl, ap, ◌∙◌, inl, inr, true, false, not, none, some, List, [], ◌∷◌,
  Text, if◌then◌else◌, leb, ltb, ◌==◌, ◌||◌, length, arith, Bool-cases, Option-cases,
}
use goliath_siem.Base.Dict.{contains, discard}
use goliath_siem.Pipe.{Payload}
use goliath_siem.Pipe.Memory.{
  State, MemoryReceiver, end, floor, held, max, minimum, positions, is_empty, observed, release,
  send, acknowledge, unsubscribe, u64_max,
}
use goliath_siem.Pipe.Memory.Release.{release-Releases}
use goliath_siem.Pipe.Memory.Bounds.{empty_le, full}
use goliath_siem.Pipe.Memory.Rounds.{send-cases, acknowledged, acknowledge-cases}

floor_value : List (Text × ℕ) → List Text → ℕ → ℕ → ℕ
floor_value gs o b e = elim (minimum (positions (λ g. not (contains o g)) gs)) [
  | some m ↦ m
  | none ↦ if is_empty o then b else e
]

-- A base between the old one and the floor leaves the floor.
floor_value_settles :
    (gs : List (Text × ℕ)) (o : List Text) (b b' e : ℕ)
    → b ≤ b'
    → b' ≤ max (floor_value gs o b e) b
    → floor_value gs o b' e ≡ floor_value gs o b e
unfolding floor_value
floor_value_settles gs o b b' e l k =
    elim (Option-cases (minimum (positions (λ g. not (contains o g)) gs))) [
      | inr (m, q) ↦ rw (q, floor_value) refl
      | inl q ↦ elim (Bool-cases (is_empty o)) [
        | inl t ↦
            let v : floor_value gs o b e ≡ b = rw (q, floor_value) (rw t refl) in
            let same : b' ≡ b = ground arith in ap (λ (n : ℕ). floor_value gs o n e) same
        | inr t ↦ rw (q, floor_value) (rw t refl)
      ]
    ]

-- Releasing records does not move the floor.
pub floor-release : (s : State) → floor (release s).0 ≡ floor s
unfolding floor floor_value
floor-release s =
    let x = release-Releases s in
    let same : floor (release s).0 ≡ floor_value s.groups s.observers (release s).0.base (end s) =
      λ i. floor_value (x.groups_same i) (x.observers_same i) (release s).0.base (x.end_same i) in
    same ∙ floor_value_settles s.groups s.observers s.base _ (end s) x.base_forward x.base_bounded

-- The only ways to refuse a batch.
pub send-refused :
    (s : State) (ps : List Payload)
    → send s ps ≡ none
    → (held s ≢ 0) × (s.capacity < held s + length ps)
unfolding send
send-refused s [] h = cc
send-refused s (p ∷ ps) h =
    elim (Bool-cases (held s == 0 || leb (held s + length (p ∷ ps)) s.capacity)) [
      | inl e ↦ absurd (let q = (rw e at h) in cc)
      | inr e ↦ (λ z. ground arith, ground arith)
    ]

nonempty : (s : State) (ps : List Payload) → send s ps ≡ none → ps ≢ []
unfolding send
nonempty s [] h z = cc
nonempty s (p ∷ ps) h z = cc

no_positions : (gs : List (Text × ℕ)) → positions (λ g. false) gs ≡ []
unfolding positions
no_positions [] = refl
no_positions ((g, n) ∷ gs) = no_positions gs

observed_none : (s : State) → s.observers ≡ [] → observed s ≡ u64_max
unfolding observed contains minimum
observed_none s e =
    let q : positions (contains s.observers) s.groups ≡ [] =
      ap (λ (o : List Text). positions (contains o) s.groups) e ∙ no_positions s.groups in
    rw (q, observed) refl

-- With no observers, a change of the groups that lets a refused batch in releases a record.
module _ (s t : State) (b : t.base ≡ s.base) (r : t.records ≡ s.records)
    (c : t.capacity ≡ s.capacity) where
  asleep :
      t.observers ≡ []
      → end s < u64_max
      → held s ≢ 0
      → (release t).1 ≡ false
      → held s ≤ held (release t).0
  unfolding held end
  asleep o l pending quiet =
      let x = release-Releases t in
      let f = floor-release t in
      let ob = observed_none t o in
      let told = x.told in
      let forward = x.base_forward in
      let same = x.end_same in
      let len = ap (λ (xs : List Payload). length xs) r in
      let base : (release t).0.base ≡ s.base = ground arith in
      elim (Bool-cases (ltb (release t).0.base (floor t))) [
        | inl below ↦ elim (Bool-cases (is_empty (release t).0.records)) [
          | inl z ↦ let n = empty_le _ 0 z in absurd (pending (ground arith))
          | inr z ↦ let k = (x.stopped (ground arith) (full _ z)).0 in absurd (ground arith)
        ]
        | inr past ↦ ground arith
      ]

  pub release_wakes :
      (ps : List Payload) {u : State}
      → t.observers ≡ []
      → end s < u64_max
      → send s ps ≡ none
      → send (release t).0 ps ≡ some u
      → (release t).1 ≡ true
  release_wakes ps {u} o l refused accepted =
      let k = send-refused s ps refused in
      let cap = (release-Releases t).capacity_same in
      elim (Bool-cases (release t).1) [
        | inl e ↦ e
        | inr e ↦ absurd (
            let h = asleep o l k.0 e in
            elim (send-cases (release t).0 ps accepted) [
              | inl (z, _) ↦ nonempty s ps refused z
              | inr (_, a) ↦ ground arith
            ])
      ]

acknowledge_wakes :
    (s : State) (r : MemoryReceiver) (offset : ℕ) (ps : List Payload) {u : State}
    → s.observers ≡ []
    → end s < u64_max
    → send s ps ≡ none
    → send (acknowledge s r offset).0 ps ≡ some u
    → (acknowledge s r offset).2 ≡ true
unfolding acknowledged
acknowledge_wakes s r offset ps {u} o l refused accepted = elim (acknowledge-cases s r offset) [
  | inl (_, e) ↦ absurd (let q = (rw e at accepted) in cc)
  | inr (inl (_, _, e)) ↦ absurd (let q = (rw e at accepted) in cc)
  | inr (inr (p, _, f, e)) ↦
      let q = (rw e at accepted) in
      rw e
        (release_wakes s (acknowledged s r.group p offset) refl refl refl ps {u = u} o l refused q)
]

unsubscribe_wakes :
    (s : State) (g : Text) (ps : List Payload) {u : State}
    → s.observers ≡ []
    → end s < u64_max
    → send s ps ≡ none
    → send (unsubscribe s g).0 ps ≡ some u
    → (unsubscribe s g).1 ≡ true
unfolding unsubscribe discard
unsubscribe_wakes s g ps {u} o l refused accepted =
    let o' : discard g s.observers ≡ [] = ap (discard g) o in
    release_wakes s _ refl refl refl ps {u = u} o' l refused accepted

-- With no observers, no wake-up is lost: where a sender waits with a batch, and an acknowledgement
-- or the removal of a group makes the topic accept that batch, then that operation wakes the
-- senders that wait.
pub refused-wakes :
    (s : State) (ps : List Payload)
    → s.observers ≡ []
    → end s < u64_max
    → send s ps ≡ none
    → ((r : MemoryReceiver) (offset : ℕ) (u : State)
        → send (acknowledge s r offset).0 ps ≡ some u
        → (acknowledge s r offset).2 ≡ true)
      × ((g : Text) (u : State) → send (unsubscribe s g).0 ps ≡ some u → (unsubscribe s g).1 ≡ true)
refused-wakes s ps o l refused = (
  λ r offset u accepted. acknowledge_wakes s r offset ps {u = u} o l refused accepted,
  λ g u accepted. unsubscribe_wakes s g ps {u = u} o l refused accepted,
)
