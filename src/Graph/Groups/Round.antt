-- ===== src/Graph/Groups/Round.antt =====
-- What a round of following the claims comes to, `resolve` of
-- crates/goliath-graph/src/resolve.rs: who is together, and why.
use goliath_siem.Base.{
  ℕ, ◌≡◌, ◌≢◌, ap, ◌⊎◌, inl, inr, true, false, List, [], ◌==◌, get_or, In, Bool-cases, ==_iff,
  subst,
}
use goliath_siem.Base.Elems.{In-of_eq}
use goliath_siem.Graph.{Identifier}
use goliath_siem.Graph.Groups.{Edge, Groups, Followed, group_of, apart, join, follow_one}
use goliath_siem.Graph.Groups.Together.{Together, IsSound, IsTop, group_of-Placed}
use goliath_siem.Graph.Groups.Joining.{apart-Across, Across-apart, join-Joined}

-- Claims lead from the one identifier to the other.
pub data Connected (all : List Edge) : Identifier → Identifier → Type 0 where
  itself : (x : Identifier) → Connected all x x
  claimed : (e : Edge) → In e all → Connected all e.one e.other
  back : (x y : Identifier) → Connected all x y → Connected all y x
  through : (x y z : Identifier) → Connected all x y → Connected all y z → Connected all x z

-- A pair that a person said is different is across the groups of the two.
pub record Divides (g : Groups) (x y : Identifier) (p : Identifier × Identifier) : Type 0 where
  pub divides : (Together g x p.0 × Together g y p.1) ⊎ (Together g x p.1 × Together g y p.0)

-- Where a claim of two identifiers stands once it has been looked at.
abbrev pub Settled : List (Identifier × Identifier) → Groups → Edge → Type 0
Settled different g e =
    Together g e.one e.other
    ⊎ ((p : Identifier × Identifier) × In p different × Divides g e.one e.other p)

module _ (all : List Edge) (different : List (Identifier × Identifier)) where
  pub record IsResolved (g : Groups) : Type 0 where
    pub sound : IsSound g
    pub because : (x y : Identifier) → Together g x y → Connected all x y
    pub held_apart :
        (p : Identifier × Identifier) → In p different → p.0 ≢ p.1 → ¬ Together g p.0 p.1

  -- What a round leads to: what was together stays so.
  pub record Round (g g' : Groups) (e : Edge) : Type 0 where
    pub resolved : IsResolved g'
    pub grows : (x y : Identifier) → Together g x y → Together g' x y
    pub settled : Settled different g' e

  -- Both ends of a claim in groups, and nobody else together who was not.
  record Ready (g : Groups) (e : Edge) (g' : Groups) (one other : ℕ) : Type 0 where
    sound : IsSound g'
    has_one : In e.one (get_or g'.members one [])
    has_other : In e.other (get_or g'.members other [])
    top_one : IsTop g' one
    top_other : IsTop g' other
    kept : (y z : Identifier) → Together g y z → Together g' y z
    before : (y z : Identifier) → Together g' y z → (y ≡ z) ⊎ Together g y z

  ready :
      (g : Groups) (e : Edge)
      → IsSound g
      → let a = group_of g e.one in let b = group_of a.0 e.other in Ready g e b.0 a.1 b.1
  ready g e s =
      let a = group_of-Placed g e.one s in
      let b = group_of-Placed (group_of g e.one).0 e.other a.sound in
      record {
        sound = b.sound;
        has_one = b.kept _ e.one a.here;
        has_other = b.here;
        top_one = b.tops_kept _ a.top;
        top_other = b.top;
        kept = λ y z h. (h.0, b.kept h.0 y (a.kept h.0 y h.1), b.kept h.0 z (a.kept h.0 z h.2));
        before = λ y z h. elim (b.before y z h) [ inl q ↦ inl q | inr h' ↦ a.before y z h' ];
      }

  -- The groups before and after the ends of a claim have groups.
  Ready-IsResolved :
      {g g' : Groups} {e : Edge} {one other : ℕ}
      → IsResolved g
      → Ready g e g' one other
      → IsResolved g'
  Ready-IsResolved h r = record {
    sound = r.sound;
    because = λ x y t. elim (r.before x y t) [
      | inl q ↦ subst (Connected all x) q (itself x)
      | inr t' ↦ h.because x y t'
    ];
    held_apart =
        λ p i n t. elim (r.before p.0 p.1 t) [ inl q ↦ n q | inr t' ↦ h.held_apart p i n t' ];
  }

  module _ {g : Groups} (e : Edge) (one other : ℕ) (h : IsResolved g) (i : In e all)
      (has_one : In e.one (get_or g.members one []))
      (has_other : In e.other (get_or g.members other [])) (top_one : IsTop g one)
      (top_other : IsTop g other) where
    linked :
        (y z : Identifier)
        → In y (get_or g.members one [])
        → In z (get_or g.members other [])
        → Connected all y z
    linked y z a b =
        through y e.one z (h.because y e.one (one, a, has_one))
          (through e.one e.other z (claimed e i) (h.because e.other z (other, has_other, b)))

    join-Round : one ≢ other → apart g one other different ≡ false → Round g (join g one other) e
    join-Round n f =
        let j = join-Joined g one other h.sound top_one top_other n in
        record {
          resolved = record {
            sound = j.sound;
            because = λ x y t. elim (j.before x y t) [
              | inl t' ↦ h.because x y t'
              | inr (inl (a, b)) ↦ linked x y a b
              | inr (inr (a, b)) ↦ back y x (linked y x a b)
            ];
            held_apart = λ p k d t. elim (j.before p.0 p.1 t) [
              | inl t' ↦ h.held_apart p k d t'
              | inr c ↦ let q = Across-apart g one other different p k c in cc
            ];
          };
          grows = j.kept;
          settled = inl (j.across e.one e.other has_one has_other);
        }

    apart-Settled : apart g one other different ≡ true → Settled different g e
    apart-Settled f =
        let (p, k, c) = apart-Across g one other different f in
        inr (
          p,
          k,
          record {
            divides = elim c [
              | inl (a, b) ↦ inl ((one, has_one, a), (other, has_other, b))
              | inr (a, b) ↦ inr ((one, has_one, a), (other, has_other, b))
            ];
          },
        )

  pub follow_one-Round :
      (s : Followed) (e : Edge)
      → IsResolved s.groups
      → In e all
      → Round s.groups (follow_one different e s).groups e
  unfolding follow_one
  follow_one-Round s e h i =
      let a = group_of s.groups e.one in
      let b = group_of a.0 e.other in
      let r = ready s.groups e h.sound in
      let h' = Ready-IsResolved h r in
      elim (Bool-cases (a.1 == b.1)) [
        | inl t ↦ rw t (record {
          resolved = h';
          grows = r.kept;
          settled = inl (
            b.1,
            In-of_eq e.one _ _ (ap (λ (k : ℕ). get_or b.0.members k []) ((==_iff a.1 b.1).0 t))
                r.has_one,
            r.has_other,
          );
        })
        | inr t ↦
            let n : a.1 ≢ b.1 = λ q. let z = (==_iff a.1 b.1).1 q in cc in
            elim (Bool-cases (apart b.0 a.1 b.1 different)) [
              | inl f ↦
                  rw (t, f)
                    (record {
                      resolved = h';
                      grows = r.kept;
                      settled =
                          apart-Settled e a.1 b.1 h' i r.has_one r.has_other r.top_one r.top_other
                            f;
                    })
              | inr f ↦
                  let j =
                    join-Round e a.1 b.1 h' i r.has_one r.has_other r.top_one r.top_other n f in
                  rw (t, f)
                    (record {
                      resolved = j.resolved;
                      grows = λ x y q. j.grows x y (r.kept x y q);
                      settled = j.settled;
                    })
            ]
      ]
