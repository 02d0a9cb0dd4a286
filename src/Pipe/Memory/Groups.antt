-- ===== src/Pipe/Memory/Groups.antt =====
-- The positions of the groups, crates/goliath-pipe/src/memory.rs: the floor is at or below the
-- position of every group that holds the topic, and is one of them where there is one.
use goliath_siem.Base.{
  ℕ, ◌≤◌, ◌≡◌, refl, inl, inr, Bool, true, false, some, List, [], ◌∷◌, Text, if◌then◌else◌, leb, In,
  arith, Bool-cases, Option-cases, text_eq, text_eq_iff,
}
use goliath_siem.Base.Dict.{contains, find, put, erase}
use goliath_siem.Pipe.Memory.{State, minimum, positions, end, is_holding, floor}

pub minimum-some : (xs : List ℕ) (n : ℕ) → In n xs → (m : ℕ) × (minimum xs ≡ some m) × (m ≤ n)
unfolding minimum
minimum-some [] n i = absurd i.lower
minimum-some (x ∷ xs) n (inl e) = elim (Option-cases (minimum xs)) [
  | inl q ↦ (x, rw q refl, omega arith)
  | inr (m, q) ↦ (if leb x m then x else m, rw q refl, ground arith)
]
minimum-some (x ∷ xs) n (inr i) =
    let (m, q, l) = minimum-some xs n i in (if leb x m then x else m, rw q refl, ground arith)

pub minimum-In : (xs : List ℕ) {m : ℕ} → minimum xs ≡ some m → In m xs
unfolding minimum
minimum-In [] h = cc
minimum-In (x ∷ xs) h = elim (Option-cases (minimum xs)) [
  | inl q ↦ inl (ground arith)
  | inr (m', q) ↦ elim (Bool-cases (leb x m')) [
    | inl t ↦ inl (ground arith)
    | inr t ↦ inr (minimum-In xs (ground arith))
  ]
]

pub find-positions :
    (p : Text → Bool) (g : Text) (gs : List (Text × ℕ)) {n : ℕ}
    → find g gs ≡ some n
    → p g ≡ true
    → In n (positions p gs)
unfolding find positions
find-positions p g [] h t = cc
find-positions p g ((j, w) ∷ gs) {n} h t = elim (Bool-cases (text_eq j g)) [
  | inl e ↦
      let q : j ≡ g = (text_eq_iff j g).0 e in
      let t' : p j ≡ true = rw q t in rw t' (inl (ground arith))
  | inr e ↦
      let ih = find-positions p g gs {n = n} (ground arith) t in
      elim (Bool-cases (p j)) [ inl u ↦ rw u (inr ih) | inr u ↦ rw u ih ]
]

-- Every position of the map is at most a bound.
abbrev pub AllBelow : ℕ → List (Text × ℕ) → Type 0
AllBelow b [] = Unit {0}
AllBelow b ((g, n) ∷ gs) = (n ≤ b) × AllBelow b gs

pub positions-le :
    (p : Text → Bool) (b : ℕ) (gs : List (Text × ℕ)) {n : ℕ}
    → AllBelow b gs
    → In n (positions p gs)
    → n ≤ b
unfolding positions
positions-le p b [] h i = absurd i.lower
positions-le p b ((g, m) ∷ gs) h i = elim (Bool-cases (p g)) [
  | inl t ↦ elim (let i' = i in rw t at i') [
    | inl e ↦ omega arith
    | inr r ↦ positions-le p b gs h.1 r
  ]
  | inr t ↦ positions-le p b gs h.1 (let i' = i in rw t at i')
]

pub AllBelow-weaken : (b c : ℕ) (gs : List (Text × ℕ)) → b ≤ c → AllBelow b gs → AllBelow c gs
AllBelow-weaken b c [] l h = tt
AllBelow-weaken b c ((g, n) ∷ gs) l h = (omega (arith, h.0), AllBelow-weaken b c gs l h.1)

pub AllBelow-put :
    (b : ℕ) (g : Text) (n : ℕ) (gs : List (Text × ℕ))
    → n ≤ b
    → AllBelow b gs
    → AllBelow b (put g n gs)
unfolding put
AllBelow-put b g n [] l h = (l, tt)
AllBelow-put b g n ((j, w) ∷ gs) l h = elim (Bool-cases (text_eq j g)) [
  | inl e ↦ rw e (l, h.1)
  | inr e ↦ rw e (h.0, AllBelow-put b g n gs l h.1)
]

pub AllBelow-erase :
    (b : ℕ) (g : Text) (gs : List (Text × ℕ)) → AllBelow b gs → AllBelow b (erase g gs)
unfolding erase
AllBelow-erase b g [] h = tt
AllBelow-erase b g ((j, w) ∷ gs) h = elim (Bool-cases (text_eq j g)) [
  | inl e ↦ rw e (AllBelow-erase b g gs h.1)
  | inr e ↦ rw e (h.0, AllBelow-erase b g gs h.1)
]

pub find-le :
    (b : ℕ) (g : Text) (gs : List (Text × ℕ)) {n : ℕ} → AllBelow b gs → find g gs ≡ some n → n ≤ b
unfolding find
find-le b g [] h e = cc
find-le b g ((j, w) ∷ gs) {n} h e = elim (Bool-cases (text_eq j g)) [
  | inl t ↦ omega (arith, h.0, let q : w ≡ n = ground arith in q)
  | inr t ↦ find-le b g gs h.1 (ground arith)
]

-- A group holds the topic at a position: senders wait for its acknowledgement.
abbrev pub Holds : State → Text → ℕ → Type 0
Holds s g n = (find g s.groups ≡ some n) × (contains s.observers g ≡ false)

pub floor-le : (s : State) (g : Text) (n : ℕ) → Holds s g n → floor s ≤ n
unfolding floor
floor-le s g n h =
    let t : is_holding s g ≡ true = rw h.1 refl in
    let (m, q, l) = minimum-some _ n (find-positions (is_holding s) g s.groups h.0 t) in
    rw (q, floor) l

pub floor-le-end : (s : State) → AllBelow (end s) s.groups → floor s ≤ end s
unfolding floor
floor-le-end s h = elim (Option-cases (minimum (positions (is_holding s) s.groups))) [
  | inl q ↦ rw (q, floor) (unfold end in ground arith)
  | inr (m, q) ↦ rw (q, floor) (positions-le _ _ s.groups h (minimum-In _ q))
]
