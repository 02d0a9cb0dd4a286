-- ===== src/Pipe/Memory/Safety.antt =====
-- Nothing a group has not acknowledged is released while the group holds the topic,
-- crates/goliath-pipe/src/memory.rs.
use goliath_siem.Base.{
  ℕ, ◌+◌, ◌≤◌, ◌≡◌, refl, sym, ◌∙◌, ap, inl, inr, Option, none, some, List, Text, arith, Bool-cases,
  text_eq, text_eq_iff,
}
use goliath_siem.Base.Dict.{contains, find, put, erase, add, discard, find-put, find-erase}
use goliath_siem.Pipe.{Payload}
use goliath_siem.Pipe.Memory.{
  State, MemoryReceiver, max, release, receiver, subscribe, observe, unsubscribe, send, acknowledge,
}
use goliath_siem.Pipe.Memory.Release.{release-Releases}
use goliath_siem.Pipe.Memory.Groups.{Holds, floor-le}
use goliath_siem.Pipe.Memory.Rounds.{
  entered, receiver-cases, extended, send-cases, acknowledged, acknowledge-cases,
}

-- A group that holds both topics is not behind where it was, and the second holds all that it has
-- not acknowledged if the first did.
abbrev pub Keeps : Text → State → State → Type 0
Keeps g s t = (n m : ℕ) → Holds s g n → Holds t g m → s.base ≤ n → (t.base ≤ m) × (n ≤ m)

-- The groups alone change, and none falls back.
record Advances (g : Text) (s t : State) : Type 0 where
  base_same : t.base ≡ s.base
  advance : (n m : ℕ) → Holds s g n → Holds t g m → n ≤ m

Advances-Keeps : {g : Text} {s t : State} → Advances g s t → Keeps g s t
Advances-Keeps a n m h k l = omega (arith, a.base_same, a.advance n m h k)

-- `release` after such a change.
Advances-release-Keeps : {g : Text} {s t : State} → Advances g s t → Keeps g s (release t).0
Advances-release-Keeps {g} {s} {t} a n m h k l =
    let q = release-Releases t in
    let k' : Holds t g m = (
      ap (find g) (sym q.groups_same) ∙ k.0,
      ap (λ (o : List Text). contains o g) (sym q.observers_same) ∙ k.1,
    ) in
    let f = floor-le t g m k' in
    let w = a.advance n m h k' in let b = q.base_bounded in let c = a.base_same in (ground arith, w)

some_eq : {n m : ℕ} {o : Option ℕ} → o ≡ some n → o ≡ some m → n ≡ m
some_eq h k = ground arith

-- Who observes changes, and nobody's position.
same_positions :
    (g : Text) (s t : State) → t.base ≡ s.base → find g t.groups ≡ find g s.groups → Advances g s t
same_positions g s t b e = record {
  base_same = b;
  advance = λ n m h k. let q = some_eq h.0 (sym e ∙ k.0) in omega arith;
}

-- A position that is set is not set back.
put_forward :
    (j g : Text) (v : ℕ) (gs : List (Text × ℕ))
    → ((p : ℕ) → find j gs ≡ some p → p ≤ v)
    → (n m : ℕ) → find g gs ≡ some n
    → find g (put j v gs) ≡ some m
    → n ≤ m
put_forward j g v gs f n m h k =
    let c = find-put j g v gs in
    elim (Bool-cases (text_eq j g)) [
      | inl t ↦
          let q = (text_eq_iff j g).0 t in
          let h' : find j gs ≡ some n = ap (λ (x : Text). find x gs) q ∙ h in
          let w = f n h' in let v' : m ≡ v = ground arith in omega arith
      | inr t ↦ let e : n ≡ m = ground arith in omega arith
    ]

erase_same :
    (j g : Text) (gs : List (Text × ℕ)) (n m : ℕ)
    → find g gs ≡ some n
    → find g (erase j gs) ≡ some m
    → n ≡ m
erase_same j g gs n m h k = ground (arith, find-erase j g gs)

-- A group that enters did not hold the topic before.
receiver-Advances :
    (g j : Text) (s : State) (o : List Text)
    → Advances g s (receiver (record s { observers = o }) j).0
unfolding entered
receiver-Advances g j s o = elim (receiver-cases (record s { observers = o }) j) [
  | inl (p, _, e) ↦ rw e (same_positions g s _ refl refl)
  | inr (f, e) ↦ rw e (record {
    base_same = refl;
    advance = λ n m h k.
        put_forward j g _ s.groups (λ p q. absurd (let f' : find j s.groups ≡ none = f in cc)) n m
          h.0 k.0;
  })
]

pub subscribe-Keeps : (g j : Text) (s : State) → Keeps g s (subscribe s j).0
unfolding subscribe
subscribe-Keeps g j s = Advances-Keeps (receiver-Advances g j s (discard j s.observers))

pub observe-Keeps : (g j : Text) (s : State) → Keeps g s (observe s j).0
unfolding observe
observe-Keeps g j s = Advances-Keeps (receiver-Advances g j s (add j s.observers))

pub unsubscribe-Keeps : (g j : Text) (s : State) → Keeps g s (unsubscribe s j).0
unfolding unsubscribe
unsubscribe-Keeps g j s = Advances-release-Keeps {s = s} (record {
  base_same = refl;
  advance = λ n m h k. let e = erase_same j g s.groups n m h.0 k.0 in omega arith;
})

pub send-Keeps :
    (g : Text) (s : State) (ps : List Payload) {t : State} → send s ps ≡ some t → Keeps g s t
unfolding extended
send-Keeps g s ps {t} e = elim (send-cases s ps e) [
  | inl (_, q) ↦ rw q (Advances-Keeps (same_positions g s s refl refl))
  | inr (q, _) ↦ rw q (Advances-release-Keeps (same_positions g s (extended s ps) refl refl))
]

pub acknowledge-Keeps :
    (g : Text) (s : State) (r : MemoryReceiver) (offset : ℕ) → Keeps g s (acknowledge s r offset).0
unfolding acknowledged
acknowledge-Keeps g s r offset = elim (acknowledge-cases s r offset) [
  | inl (_, e) ↦ rw e (Advances-Keeps (same_positions g s s refl refl))
  | inr (inl (_, _, e)) ↦ rw e (Advances-Keeps (same_positions g s s refl refl))
  | inr (inr (p, _, f, e)) ↦ rw e (
      Advances-release-Keeps {s = s} (record {
        base_same = refl;
        advance = λ n m h k.
            put_forward r.group g _ s.groups
              (λ p' f'.
                let q : p' ≡ p = some_eq f' f in
                let l : p ≤ max p (offset + 1) = ground arith in omega arith)
              n m h.0 k.0;
      }))
]
