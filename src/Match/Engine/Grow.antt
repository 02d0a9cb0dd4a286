-- ===== src/Match/Engine/Grow.antt =====
-- A builder only grows: what refers to its sources and literals keeps its meaning.
use goliath_siem.Base.{
  ℕ, zero, suc, ◌≡◌, refl, sym, ap, ap₂, ◌∙◌, Bool, true, false, ◌||◌, Option, none, some, List, [],
  ◌∷◌, any, Text, text_eq_iff, get_elem?, get_or, length, arith,
}
use goliath_siem.Rule.FieldPath.{FieldPath}
use goliath_siem.Crates.{Crates}
use goliath_siem.Match.Semantics.{Event}
use goliath_siem.Match.Engine.{
  Origin, paths, any_string, Shape, contains, Ref, Pred, literal, general, other, origin_eq,
  field_paths_eq, field_path_eq, texts_eq,
}
use goliath_siem.Match.Engine.Builder.{Builder, bool_eq, source_position, literal_id}
use goliath_siem.Match.Engine.Denotation.{
  Store, lit, texts_of, texts_at, occurs_in, literal_holds, required_holds, any_required_holds,
  pred_holds, ref_holds,
}

pub record Extends (st st' : Store) : Type 0 where
  pub sources :
      (s : ℕ) (x : Origin × Bool)
      → get_elem? st.sources s ≡ some x
      → get_elem? st'.sources s ≡ some x
  pub literals : (s i : ℕ) (l : Text) → lit st s i ≡ some l → lit st' s i ≡ some l

pub Extends-refl : (st : Store) → Extends st st
Extends-refl st = record { sources = λ s x h. h; literals = λ s i l h. h }

pub Extends-trans : (a b c : Store) → Extends a b → Extends b c → Extends a c
Extends-trans a b c f g = record {
  sources = λ s x h. g.sources s x (f.sources s x h);
  literals = λ s i l h. g.literals s i l (f.literals s i l h);
}

abbrev pub IsSource : Store → ℕ → Type 0
IsSource st s = (x : Origin × Bool) × (get_elem? st.sources s ≡ some x)

abbrev pub IsRef : Store → ℕ → ℕ → Type 0
IsRef st s i = IsSource st s × ((l : Text) × (lit st s i ≡ some l))

abbrev pub All {ℓ κ} : {A : Type ℓ} → (A → Type κ) → List A → Type κ
All P [] = Unit
All P (x ∷ xs) = P x × All P xs

abbrev pub IsRequired : Store → ℕ → Option ℕ → Type 0
IsRequired st s none = Unit
IsRequired st s (some i) = IsRef st s i

abbrev pub AreRequired : Store → Option (ℕ × List ℕ) → Type 0
AreRequired st none = Unit
AreRequired st (some (s, indices)) = All (IsRef st s) indices

-- Every source and literal that a predicate names is there.
abbrev pub IsPred : {F R : Type 0} → Store → Pred F R → Type 0
IsPred st (literal s i shape) = IsRef st s i
IsPred st (general s required p) = IsSource st s × IsRequired st s required
IsPred st (other ps check required) = AreRequired st required

module _ {st st' : Store} (grown : Extends st st') where
  pub IsSource-Extends : (s : ℕ) → IsSource st s → IsSource st' s
  IsSource-Extends s (x, h) = (x, grown.sources s x h)

  pub IsRef-Extends : (s i : ℕ) → IsRef st s i → IsRef st' s i
  IsRef-Extends s i (source, (l, h)) = (IsSource-Extends s source, (l, grown.literals s i l h))

  pub All-Extends :
      (s : ℕ) (indices : List ℕ) → All (IsRef st s) indices → All (IsRef st' s) indices
  All-Extends s [] h = tt
  All-Extends s (i ∷ indices) (r, h) = (IsRef-Extends s i r, All-Extends s indices h)

  pub IsPred-Extends : {F R : Type 0} (p : Pred F R) → IsPred st p → IsPred st' p
  IsPred-Extends (literal s i shape) h = IsRef-Extends s i h
  IsPred-Extends (general s none p) (h, r) = (IsSource-Extends s h, tt)
  IsPred-Extends (general s (some i) p) (h, r) = (IsSource-Extends s h, IsRef-Extends s i r)
  IsPred-Extends (other ps check none) h = tt
  IsPred-Extends (other ps check (some (s, indices))) h = All-Extends s indices h

  module _ (c : Crates) (event : Event c) where
    texts_at-Extends : (s : ℕ) → IsSource st s → texts_at c event st' s ≡ texts_at c event st s
    unfolding texts_at
    texts_at-Extends s (x, h) = ap (texts_of c event) (grown.sources s x h ∙ sym h)

    pub literal_holds-Extends :
        (shape : Shape) (s i : ℕ)
        → IsRef st s i
        → literal_holds c event st' shape s i ≡ literal_holds c event st shape s i
    unfolding literal_holds
    literal_holds-Extends shape s i (source, (l, h)) =
        ap₂ (occurs_in c event shape) (grown.literals s i l h ∙ sym h) (texts_at-Extends s source)

    any-Extends :
        (s : ℕ) (indices : List ℕ)
        → All (IsRef st s) indices
        → any (literal_holds c event st' contains s) indices
          ≡ any (literal_holds c event st contains s) indices
    any-Extends s [] h = refl
    any-Extends s (i ∷ indices) (r, h) =
        ap₂ ◌||◌ (literal_holds-Extends contains s i r) (any-Extends s indices h)

    -- A predicate keeps its meaning when the builder grows.
    pub pred_holds-Extends :
        (p : Pred c.Float c.Regex)
        → IsPred st p
        → pred_holds c event st' p ≡ pred_holds c event st p
    unfolding pred_holds required_holds any_required_holds
    pred_holds-Extends (literal s i shape) h = literal_holds-Extends shape s i h
    pred_holds-Extends (general s none p) (h, r) = rw (texts_at-Extends s h)
    pred_holds-Extends (general s (some i) p) (h, r) =
        rw (texts_at-Extends s h, literal_holds-Extends contains s i r)
    pred_holds-Extends (other ps check none) h = refl
    pred_holds-Extends (other ps check (some (s, indices))) h = rw (any-Extends s indices h)

    pub any_ref-Extends :
        (refs : List Ref)
        → All (λ (s, i). IsRef st s i) refs
        → any (ref_holds c event st') refs ≡ any (ref_holds c event st) refs
    unfolding ref_holds
    any_ref-Extends [] h = refl
    any_ref-Extends ((s, i) ∷ refs) (r, h) =
        ap₂ ◌||◌ (literal_holds-Extends contains s i r) (any_ref-Extends refs h)

  pub All-ref-Extends :
      (refs : List Ref) → All (λ (s, i). IsRef st s i) refs → All (λ (s, i). IsRef st' s i) refs
  All-ref-Extends [] h = tt
  All-ref-Extends ((s, i) ∷ refs) (r, h) = (IsRef-Extends s i r, All-ref-Extends refs h)

texts_eq-eq : (ss ts : List Text) → texts_eq ss ts ≡ true → ss ≡ ts
unfolding texts_eq
texts_eq-eq [] [] h = refl
texts_eq-eq [] (t ∷ ts) h = cc
texts_eq-eq (s ∷ ss) [] h = cc
texts_eq-eq (s ∷ ss) (t ∷ ts) h = ground (arith, texts_eq-eq ss ts, text_eq_iff s t)

field_path_eq-eq : (p q : FieldPath) → field_path_eq p q ≡ true → p ≡ q
unfolding field_path_eq
field_path_eq-eq p q h =
    ground (arith, texts_eq-eq p.segments q.segments, text_eq_iff p.text q.text)

field_paths_eq-eq : (ps qs : List FieldPath) → field_paths_eq ps qs ≡ true → ps ≡ qs
unfolding field_paths_eq
field_paths_eq-eq [] [] h = refl
field_paths_eq-eq [] (q ∷ qs) h = cc
field_paths_eq-eq (p ∷ ps) [] h = cc
field_paths_eq-eq (p ∷ ps) (q ∷ qs) h =
    ground (arith, field_paths_eq-eq ps qs, field_path_eq-eq p q)

origin_eq-eq : (o p : Origin) → origin_eq o p ≡ true → o ≡ p
unfolding origin_eq
origin_eq-eq (paths ps) (paths qs) h = ap paths (field_paths_eq-eq ps qs h)
origin_eq-eq (paths ps) any_string h = cc
origin_eq-eq any_string (paths qs) h = cc
origin_eq-eq any_string any_string h = refl

bool_eq-eq : (a b : Bool) → bool_eq a b ≡ true → a ≡ b
bool_eq-eq true true h = refl
bool_eq-eq false false h = refl
bool_eq-eq true false h = cc
bool_eq-eq false true h = cc

pub source_position-get_elem? :
    (o : Origin) (cased : Bool) (sources : List (Origin × Bool)) (i : ℕ)
    → source_position o cased sources ≡ some i
    → get_elem? sources i ≡ some (o, cased)
unfolding source_position
source_position-get_elem? o cased [] i h = cc
source_position-get_elem? o cased ((o', cased') ∷ sources) zero h =
    ground (arith, origin_eq-eq o' o, bool_eq-eq cased' cased)
source_position-get_elem? o cased ((o', cased') ∷ sources) (suc i) h =
    ground (arith, source_position-get_elem? o cased sources i)

-- What the sources and literals of a builder are kept to: a list of literals for each source, and
-- identifiers that name the literals that they stand for.
pub record IsTidy {F R : Type 0} (b : Builder F R) : Type 0 where
  pub lengths : length b.literals ≡ length b.sources
  pub ids :
      (s : ℕ) (t : Text) (i : ℕ)
      → literal_id s t b.literal_ids ≡ some i
      → get_elem? (get_or b.literals s []) i ≡ some t

-- The indices name the texts, one by one.
abbrev pub Names : Store → ℕ → List ℕ → List Text → Type 0
Names st s [] [] = Unit
Names st s (i ∷ indices) (t ∷ texts) = (lit st s i ≡ some t) × Names st s indices texts
Names st s _ _ = ⊥

pub Names-All :
    (st : Store) (s : ℕ) (indices : List ℕ) (texts : List Text)
    → IsSource st s
    → Names st s indices texts
    → All (IsRef st s) indices
Names-All st s [] [] h n = tt
Names-All st s [] (t ∷ texts) h n = absurd n
Names-All st s (i ∷ indices) [] h n = absurd n
Names-All st s (i ∷ indices) (t ∷ texts) h (e, n) = ((h, (t, e)), Names-All st s indices texts h n)

-- What is required of a pattern, if anything, is there afterwards.
abbrev pub IsNamed : Store → ℕ → Option ℕ → Option Text → Type 0
IsNamed st s none none = Unit
IsNamed st s (some i) (some t) = lit st s i ≡ some t
IsNamed st s _ _ = ⊥
