-- ===== src/Pipe/Memory/Batches.antt =====
-- What `receive` delivers, crates/goliath-pipe/src/memory.rs, against the history of the topic.
use goliath_siem.Base.{
  ℕ, zero, suc, ◌+◌, ◌-◌, ◌≤◌, ◌<◌, ◌≡◌, ◌≢◌, refl, sym, ◌∙◌, ap, ◌⊎◌, inl, inr, none, List, [],
  ◌∷◌, some, subst, get_elem?, length, drop, take, arith, drop-nil, length-drop,
}
use goliath_siem.Base.Dict.{find}
use goliath_siem.Pipe.{Payload, Delivery}
use goliath_siem.Pipe.Memory.{
  State, MemoryReceiver, Received, refused, ready, waiting, receive, deliveries, max,
}
use goliath_siem.Pipe.Memory.Rounds.{batch_at, receive-cases}
use goliath_siem.Pipe.Memory.History.{IsConsistent, base-le}

pub drop-drop {ℓ} : {A : Type ℓ} (n m : ℕ) (xs : List A) → drop n (drop m xs) ≡ drop (m + n) xs
drop-drop n zero xs = ap (λ (k : ℕ). drop k xs) (omega arith)
drop-drop n (suc m) [] =
    drop-nil n
    ∙ ap (λ (k : ℕ). drop k (let e : List _ = [] in e))
        (let e : suc (m + n) ≡ suc m + n = omega arith in e)
drop-drop n (suc m) (x ∷ xs) =
    drop-drop n m xs
    ∙ ap (λ (k : ℕ). drop k (x ∷ xs)) (let e : suc (m + n) ≡ suc m + n = omega arith in e)

pub length-deliveries : (n : ℕ) (ps : List Payload) → length (deliveries n ps) ≡ length ps
unfolding deliveries
length-deliveries n [] = refl
length-deliveries n (p ∷ ps) = ap suc (length-deliveries (n + 1) ps)

pub length-take-le {ℓ} :
    {A : Type ℓ} (n : ℕ) (xs : List A) → (length (take n xs) ≤ n) × (length (take n xs) ≤ length xs)
length-take-le zero xs = omega arith
length-take-le (suc n) [] = omega arith
length-take-le (suc n) (x ∷ xs) = omega (arith, length-take-le n xs)

-- The delivery at each place of a batch has the offset and the payload that stand there.
deliveries-get :
    (n : ℕ) (ps : List Payload) (i : ℕ) (d : Delivery)
    → get_elem? (deliveries n ps) i ≡ some d
    → (d.offset ≡ n + i) × (get_elem? ps i ≡ some d.payload)
unfolding deliveries
deliveries-get n [] i d h = cc
deliveries-get n (p ∷ ps) zero d h = (
  let e : record { offset = n; payload = p } ≡ d = cc in
      let o = ap (λ (x : Delivery). x.offset) e in omega arith,
  let e : record { offset = n; payload = p } ≡ d = cc in ap (λ (x : Delivery). some x.payload) e,
)
deliveries-get n (p ∷ ps) (suc i) d h =
    let (o, e) = deliveries-get (n + 1) ps i d h in (omega arith, e)

get-take {ℓ} :
    {A : Type ℓ} (n : ℕ) (xs : List A) (i : ℕ) (x : A)
    → get_elem? (take n xs) i ≡ some x
    → get_elem? xs i ≡ some x
get-take zero xs i x h = cc
get-take (suc n) [] i x h = cc
get-take (suc n) (y ∷ xs) zero x h = h
get-take (suc n) (y ∷ xs) (suc i) x h = get-take n xs i x h

get-drop {ℓ} :
    {A : Type ℓ} (n : ℕ) (xs : List A) (i : ℕ) → get_elem? (drop n xs) i ≡ get_elem? xs (n + i)
get-drop zero xs i = ap (get_elem? xs) (omega arith)
get-drop (suc n) [] i = refl
get-drop (suc n) (y ∷ xs) i =
    get-drop n xs i ∙ ap (get_elem? (y ∷ xs)) (let e : suc (n + i) ≡ suc n + i = omega arith in e)

length-take {ℓ} :
    {A : Type ℓ} (n : ℕ) (xs : List A) → (length (take n xs) ≡ n) ⊎ (length (take n xs) ≡ length xs)
length-take zero xs = inl refl
length-take (suc n) [] = inr refl
length-take (suc n) (x ∷ xs) = elim (length-take n xs) [
  | inl e ↦ inl (ap suc e)
  | inr e ↦ inr (ap suc e)
]

-- The batch that follows an offset of a history: at every place the record that was sent there, with
-- its offset, and as many as asked or as there are.
pub record IsBatch (sent : List Payload) (from limit : ℕ) (ds : List Delivery) : Type 0 where
  pub in_order :
      (i : ℕ) (d : Delivery)
      → get_elem? ds i ≡ some d
      → (d.offset ≡ from + i) × (get_elem? sent (from + i) ≡ some d.payload)
  pub at_most : length ds ≤ limit
  pub complete : (length ds ≡ limit) ⊎ (length sent ≤ from + length ds)

deliveries-IsBatch :
    (sent : List Payload) (from limit : ℕ)
    → IsBatch sent from limit (deliveries from (take limit (drop from sent)))
deliveries-IsBatch sent from limit =
    let ps = take limit (drop from sent) in
    let n = length-deliveries from ps in
    let m = length-take-le limit (drop from sent) in
    let d = length-drop from sent in
    record {
      in_order = λ i x h.
          let (o, e) = deliveries-get from ps i x h in
          (o, sym (get-drop from sent i) ∙ get-take limit (drop from sent) i x.payload e);
      at_most = omega (arith, m.0);
      complete = elim (length-take limit (drop from sent)) [
        | inl e ↦ inl (n ∙ e)
        | inr e ↦ inr (omega arith)
      ];
    }

pub batch_at_lem :
    (sent : List Payload) (s : State) (from limit : ℕ)
    → IsConsistent sent s
    → s.base ≤ from
    → batch_at s from limit ≡ take limit (drop from sent)
unfolding batch_at
batch_at_lem sent s from limit h l = ap (take limit) (
    ap (drop (from - s.base)) (sym h.content)
    ∙ drop-drop (from - s.base) s.base sent
    ∙ ap (λ (k : ℕ). drop k sent) (omega arith))

-- What a round of `receive` promises, by its result.
abbrev pub Delivers : List Payload → State → MemoryReceiver → ℕ → MemoryReceiver × Received → Type 0
Delivers sent s r limit (r', refused e) = (r' ≡ r) × (find r.group s.groups ≡ none)
Delivers sent s r limit (r', ready ds) =
    let from = max r.next s.base in
    ((from < length sent) ⊎ (limit ≡ 0))
    × IsBatch sent from limit ds
    × (r'.next ≡ from + length ds)
    × (r'.next ≤ length sent)
Delivers sent s r limit (r', waiting) =
    (r'.next ≡ r.next) × (length sent ≤ max r.next s.base) × (limit ≢ 0)

-- Over the history that a topic ends: a round of receive delivers the records that were sent from
-- the receiver's next offset on, or from the base where that has passed it, each with its offset, in
-- order and without gaps, as many as asked or all that there are, and the receiver goes on behind
-- them; it waits only when nothing is left to deliver and fails only for a group that does not read
-- the topic.
pub receive-Delivers :
    (sent : List Payload) (s : State) (r : MemoryReceiver) (limit : ℕ)
    → IsConsistent sent s
    → r.next ≤ length sent
    → Delivers sent s r limit (receive s r limit)
receive-Delivers sent s r limit h l = elim (receive-cases s r limit) [
  | inl (q, e) ↦ rw e (refl, q)
  | inr (inl (p, q, c, e)) ↦
      let from : ℕ = max r.next s.base in
      let b : s.base ≤ from = ground arith in
      let w = batch_at_lem sent s from limit h b in
      let n = length-deliveries from (batch_at s from limit) in
      let m = length-take-le limit (drop from sent) in
      let d = length-drop from sent in
      let k = base-le h in
      let len : length (batch_at s from limit) ≡ length (take limit (drop from sent)) =
        ap (λ (xs : List Payload). length xs) w in
      let c' : (from < length sent) ⊎ (limit ≡ 0) = let x = h.ends in ground arith in
      rw e (
        c',
        subst (λ ps. IsBatch sent from limit (deliveries from ps)) (sym w)
            (deliveries-IsBatch sent from limit),
        refl,
        ground arith,
      )
  | inr (inr (p, q, b, z, e)) ↦ rw e (refl, let x = h.ends in omega arith, z)
]
