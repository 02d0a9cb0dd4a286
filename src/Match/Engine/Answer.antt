-- ===== src/Match/Engine/Answer.antt =====
-- `Context::predicate`: with the hits and the texts of an event, a predicate has its meaning.
use goliath_siem.Base.{
  ℕ, ◌≡◌, refl, ap, ap₂, ◌∙◌, Bool, true, false, ◌&&◌, ◌||◌, if◌then◌else◌, Option, none, some,
  List, [], ◌∷◌, any, get_or,
}
use goliath_siem.Sigma.Pattern
use goliath_siem.Crates.{Crates}
use goliath_siem.Match.Semantics.{pool}
use goliath_siem.Match.Engine.{Shape, contains, Pred, literal, general, other}
use goliath_siem.Match.Engine.Hits.{wanted}
use goliath_siem.Match.Engine.Evaluate.{
  Context, hit_at, is_found, any_found, predicate, holds_check,
}
use goliath_siem.Match.Engine.Denotation.{
  Store, texts_at, literal_holds, required_holds, any_required_holds, pred_holds,
}
use goliath_siem.Match.Engine.Grow.{IsRef, IsPred, IsRequired, AreRequired, All}

module _ (c : Crates) (x : Context c) (st : Store) where
  -- The hits and texts of a context are those of the store's literals and sources.
  pub record IsScanned : Type 0 where
    pub hits :
        (shape : Shape) (s i : ℕ)
        → IsRef st s i
        → wanted shape (hit_at c x s i) ≡ literal_holds c x.event st shape s i
    pub texts : (s : ℕ) → get_or x.texts s [] ≡ texts_at c x.event st s

  module _ (scanned : IsScanned) where
    found_one :
        (s : ℕ) (required : Option ℕ)
        → IsRequired st s required
        → is_found c x s required ≡ required_holds c x.event st s required
    unfolding is_found required_holds wanted
    found_one s none h = refl
    found_one s (some i) h = scanned.hits contains s i h

    found_any :
        (s : ℕ) (indices : List ℕ)
        → All (IsRef st s) indices
        → any (λ index. (hit_at c x s index).any) indices
          ≡ any (literal_holds c x.event st contains s) indices
    unfolding wanted
    found_any s [] h = refl
    found_any s (i ∷ indices) (r, h) =
        ap₂ ◌||◌ (scanned.hits contains s i r) (found_any s indices h)

    found_required :
        (required : Option (ℕ × List ℕ))
        → AreRequired st required
        → any_found c x required ≡ any_required_holds c x.event st required
    unfolding any_found any_required_holds
    found_required none h = refl
    found_required (some (s, indices)) h = found_any s indices h

    only_if : (a b : Bool) → (if a then b else false) ≡ (a && b)
    only_if true b = refl
    only_if false b = refl

    pub predicate_lem :
        (p : Pred c.Float c.Regex) → IsPred st p → predicate c x p ≡ pred_holds c x.event st p
    unfolding predicate pred_holds
    predicate_lem (literal s i shape) h = scanned.hits shape s i h
    predicate_lem (general s required p) (h, r) =
        ap₂ ◌&&◌ (found_one s required r) (ap (any (Pattern.matches p)) (scanned.texts s))
    predicate_lem (other ps check required) h =
        only_if (any_found c x required) _
        ∙ ap (λ b. b && holds_check c check (pool c x.event ps) x.event) (found_required required h)
