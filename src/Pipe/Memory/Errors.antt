-- ===== src/Pipe/Memory/Errors.antt =====
-- How the operations of a receiver fail, and where a group resumes,
-- crates/goliath-pipe/src/memory.rs.
use goliath_siem.Base.{
  List, [], ◌∷◌, In, length, ℕ, ◌+◌, ◌≤◌, ◌<◌, ◌≡◌, refl, ap, ◌∙◌, inl, inr, false, none, some,
  Text, arith, text_eq_iff,
}
use goliath_siem.Base.Dict.{discard, find, erase, find-put, find-erase}
use goliath_siem.Pipe.{Payload, Delivery, not_received, unsubscribed}
use goliath_siem.Pipe.Memory.{
  State, MemoryReceiver, refused, ready, deliveries, max, subscribe, unsubscribe, receive,
  acknowledge, lag,
}
use goliath_siem.Pipe.Memory.Release.{release-Releases}
use goliath_siem.Pipe.Memory.Rounds.{
  batch_at, moved_past, receiver-cases, receive-cases, acknowledged, acknowledge-cases,
}

acknowledges :
    (t : State) (r : MemoryReceiver) (offset p : ℕ)
    → offset < r.next
    → find r.group t.groups ≡ some p
    → (acknowledge t r offset).1 ≡ none
acknowledges t r offset p l f = elim (acknowledge-cases t r offset) [
  | inl (n, _) ↦ absurd (omega arith)
  | inr (inl (_, n, _)) ↦ absurd cc
  | inr (inr (_, _, _, q)) ↦ rw q refl
]

refuses :
    (t : State) (r : MemoryReceiver) (offset : ℕ)
    → r.next ≤ offset
    → acknowledge t r offset ≡ (t, some (not_received offset r.next), false)
refuses t r offset l = elim (acknowledge-cases t r offset) [
  | inl (_, q) ↦ q
  | inr (inl (n, _, _)) ↦ absurd (omega arith)
  | inr (inr (_, n, _, _)) ↦ absurd (omega arith)
]

offset-deliveries :
    (n : ℕ) (ps : List Payload) (d : Delivery)
    → In d (deliveries n ps)
    → d.offset < n + length (deliveries n ps)
unfolding deliveries
offset-deliveries n [] d i = absurd i.lower
offset-deliveries n (p ∷ ps) d (inl e) = let o = ap (λ (x : Delivery). x.offset) e in omega arith
offset-deliveries n (p ∷ ps) d (inr i) = omega (arith, offset-deliveries (n + 1) ps d i)

past-deliveries :
    (n : ℕ) (ps : List Payload) (offset : ℕ)
    → ((d : Delivery) → In d (deliveries n ps) → d.offset < offset)
    → n ≤ offset
    → n + length (deliveries n ps) ≤ offset
unfolding deliveries
past-deliveries n [] offset h l = omega arith
past-deliveries n (p ∷ ps) offset h l =
    let first = h (record { offset = n; payload = p }) (inl refl) in
    omega (arith, past-deliveries (n + 1) ps offset (λ d i. h d (inr i)) (omega arith))

-- After a round of receive that gives a batch, and whatever the topic has become since, as long as
-- the receiver's group reads it: the receiver can acknowledge every record of the batch. An offset
-- behind all of the batch, and not below where the round began, cannot be acknowledged: that fails
-- with the first offset not yet received, changes nothing and wakes nobody.
pub acknowledge-receive :
    (s : State) (r : MemoryReceiver) (limit : ℕ) (ds : List Delivery)
    → let out = receive s r limit in
      out.1 ≡ ready ds
      → (t : State) (p : ℕ) → find r.group t.groups ≡ some p
      → ((d : Delivery) → In d ds → (acknowledge t out.0 d.offset).1 ≡ none)
        × ((offset : ℕ)
            → ((d : Delivery) → In d ds → d.offset < offset)
            → max r.next s.base ≤ offset
            → acknowledge t out.0 offset
              ≡ (t, some (not_received offset (max r.next s.base + length ds)), false))
acknowledge-receive s r limit ds h t p f = elim (receive-cases s r limit) [
  | inl (_, e) ↦ absurd cc
  | inr (inr (_, _, _, _, e)) ↦ absurd cc
  | inr (inl (_, _, _, e)) ↦
      let from : ℕ = max r.next s.base in
      let ps = batch_at s from limit in
      let same : deliveries from ps ≡ ds = cc in
      let after : MemoryReceiver = record r {
        next = from + length (deliveries from ps);
        skipped = moved_past s r;
      } in
      rw (← same, e)
        (
          λ d i. acknowledges t after d.offset p (offset-deliveries from ps d i) f,
          λ offset above low. refuses t after offset (past-deliveries from ps offset above low),
        )
]

groups-unsubscribe : (s : State) (g : Text) → find g (unsubscribe s g).0.groups ≡ none
unfolding unsubscribe
groups-unsubscribe s g =
    ap (find g) (
      (release-Releases
        (record s { groups = erase g s.groups; observers = discard g s.observers })).groups_same)
    ∙ (let c = find-erase g g s.groups in let t = (text_eq_iff g g).1 refl in ground arith)

-- Once its group is removed, every operation of a receiver fails: receive and lag always, and an
-- acknowledgement of anything it was given.
pub unsubscribe-fails :
    (s : State) (r : MemoryReceiver)
    → let t = (unsubscribe s r.group).0 in
      ((limit : ℕ) → receive t r limit ≡ (r, refused (unsubscribed r.group)))
      × (lag t r ≡ inr (unsubscribed r.group))
      × ((offset : ℕ)
          → offset < r.next
          → acknowledge t r offset ≡ (t, some (unsubscribed r.group), false))
unfolding lag
unsubscribe-fails s r =
    let t = (unsubscribe s r.group).0 in
    let gone = groups-unsubscribe s r.group in
    (
      λ limit. elim (receive-cases t r limit) [
        | inl (_, e) ↦ e
        | inr (inl (p, f, _, _)) ↦ absurd (let q = gone in cc)
        | inr (inr (p, f, _, _, _)) ↦ absurd (let q = gone in cc)
      ],
      rw (gone, lag) refl,
      λ offset l. elim (acknowledge-cases t r offset) [
        | inl (w, _) ↦ absurd (omega arith)
        | inr (inl (_, _, e)) ↦ e
        | inr (inr (p, _, f, _)) ↦ absurd (let q = gone in cc)
      ],
    )

subscribe_known :
    (s : State) (g : Text) (p : ℕ) → find g s.groups ≡ some p → (subscribe s g).1.next ≡ p
unfolding subscribe
subscribe_known s g p f = elim (receiver-cases (record s { observers = discard g s.observers }) g) [
  | inl (p', f', e) ↦ rw e (let q : find g s.groups ≡ some p' = f' in ground arith)
  | inr (f', e) ↦ absurd (let q : find g s.groups ≡ none = f' in cc)
]

-- After an acknowledgement, a new receiver of the group resumes behind the offset acknowledged, or
-- where the group stood if that is later.
pub acknowledge-subscribe :
    (s : State) (r : MemoryReceiver) (offset p : ℕ)
    → offset < r.next
    → find r.group s.groups ≡ some p
    → (subscribe (acknowledge s r offset).0 r.group).1.next ≡ max p (offset + 1)
unfolding acknowledged
acknowledge-subscribe s r offset p l f = elim (acknowledge-cases s r offset) [
  | inl (w, _) ↦ absurd (omega arith)
  | inr (inl (_, n, _)) ↦ absurd cc
  | inr (inr (p', _, f', e)) ↦
      let same : p' ≡ p = ground arith in
      let c = find-put r.group r.group (max p' (offset + 1)) s.groups in
      let t = (text_eq_iff r.group r.group).1 refl in
      rw e (
        subscribe_known _ r.group _ (
          ap (find r.group) ((release-Releases (acknowledged s r.group p' offset)).groups_same)
          ∙ ground arith))
]
