-- ===== src/Pipe/Memory/Release.antt =====
-- What `release` changes, crates/goliath-pipe/src/memory.rs: it moves the base forward, to the
-- floor at most, and drops the records that it passes.
use goliath_siem.Base.{
  ℕ, zero, suc, ◌+◌, ◌≤◌, ◌<◌, ◌≡◌, ◌≢◌, refl, inl, inr, Bool, true, false, ◌&&◌, ◌||◌, List, [],
  ◌∷◌, ltb, length, drop, arith, Bool-cases,
}
use goliath_siem.Pipe.{Payload}
use goliath_siem.Pipe.Memory.{State, max, floor, observed, end, release_loop, release}

pub drop-suc {ℓ} :
    {A : Type ℓ} (n : ℕ) (h : List A) {x : A} {xs : List A}
    → drop n h ≡ x ∷ xs
    → drop (n + 1) h ≡ xs
drop-suc zero [] e = cc
drop-suc zero (y ∷ h) e = cc
drop-suc (suc n) [] e = cc
drop-suc (suc n) (y ∷ h) e = let ih = drop-suc n h e in ground arith

module _ (f o c : ℕ) where
  pub record Outcome (b : ℕ) (rs : List Payload) (was : Bool) (out : ℕ × List Payload × Bool)
      : Type 0 where
    pub forward : b ≤ out.0
    pub bounded : out.0 ≤ max f b
    pub same_end : out.0 + length out.1 ≡ b + length rs
    pub told : out.2 ≡ (was || ltb b out.0)
    pub stopped : out.0 < f → out.1 ≢ [] → (o ≤ out.0) × (length out.1 ≤ c)
    pub kept : (h : List Payload) → drop b h ≡ rs → drop out.0 h ≡ out.1

  pub release_loop-Outcome :
      (b : ℕ) (rs : List Payload) (was : Bool) → Outcome b rs was (release_loop f o c b rs was)
  unfolding release_loop
  release_loop-Outcome b [] was = record {
    forward = omega arith;
    bounded = ground arith;
    same_end = refl;
    told = ground arith;
    stopped = λ _ h. absurd (h refl);
    kept = λ h e. e;
  }
  release_loop-Outcome b (r ∷ rs) was =
      let ih = release_loop-Outcome (b + 1) rs true in
      elim (Bool-cases (ltb b f && (ltb b o || ltb c (length (r ∷ rs))))) [
        | inl t ↦ rw t (record {
          forward = omega (arith, ih.forward);
          bounded = let q = ih.bounded in ground arith;
          same_end = omega (arith, ih.same_end);
          told = let q = ih.told in let l = ih.forward in ground arith;
          stopped = ih.stopped;
          kept = λ h e. ih.kept h (drop-suc b h e);
        })
        | inr t ↦ rw t (record {
          forward = omega arith;
          bounded = ground arith;
          same_end = refl;
          told = ground arith;
          stopped = λ l _. (ground arith, ground arith);
          kept = λ h e. e;
        })
      ]

-- The same, of the state.
pub record Releases (s : State) (out : State × Bool) : Type 0 where
  pub groups_same : out.0.groups ≡ s.groups
  pub observers_same : out.0.observers ≡ s.observers
  pub capacity_same : out.0.capacity ≡ s.capacity
  pub base_forward : s.base ≤ out.0.base
  pub base_bounded : out.0.base ≤ max (floor s) s.base
  pub end_same : end out.0 ≡ end s
  pub told : out.1 ≡ ltb s.base out.0.base
  pub stopped :
      out.0.base < floor s
      → out.0.records ≢ []
      → (observed s ≤ out.0.base) × (length out.0.records ≤ s.capacity)
  pub records_kept :
      (h : List Payload) → drop s.base h ≡ s.records → drop out.0.base h ≡ out.0.records

pub release-Releases : (s : State) → Releases s (release s)
unfolding release end
release-Releases s =
    let q = release_loop-Outcome (floor s) (observed s) s.capacity s.base s.records false in
    record {
      groups_same = refl;
      observers_same = refl;
      capacity_same = refl;
      base_forward = q.forward;
      base_bounded = q.bounded;
      end_same = q.same_end;
      told = q.told;
      stopped = q.stopped;
      records_kept = q.kept;
    }
