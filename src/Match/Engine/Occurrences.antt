-- ===== src/Match/Engine/Occurrences.antt =====
-- What an automaton reports of a text, and the flags that an occurrence gives: a literal is marked
-- for a shape exactly when it occurs so.
use goliath_siem.Base.{
  ℕ, ◌+◌, ◌≡◌, refl, sym, subst, ap, ◌∙◌, Bool, true, ◌&&◌, Bool-ext, and_left, and_right,
  and_intro, some, List, [], ◌∷◌, ◌++◌, any, any-In, In-any, append-nil, length-append, ◌==◌,
  ==_iff, Text, length, get_elem?, arith,
}
use goliath_siem.Crates.{Crates, Found}
use goliath_siem.Match.Laws.{Laws}
use goliath_siem.Match.Engine.{Shape, equals, contains, starts_with, ends_with}
use goliath_siem.Match.Engine.Hits.{flags_of, wanted}
use goliath_siem.Match.Engine.Shapes.{Occurs, occurs, occurs_iff}

nil-length : (t : Text) → length t ≡ 0 → t ≡ []
nil-length [] h = refl
nil-length (c ∷ t) h = absurd (omega (arith, h))

-- An occurrence as an automaton reports it.
abbrev pub place_of : ℕ → Text → Text → Found
place_of i l u = record { pattern = i; start = length u; end = length u + length l }

sizes : (l u v : Text) → length (u ++ (l ++ v)) ≡ length u + (length l + length v)
sizes l u v = length-append u (l ++ v) ∙ ap (λ n. length u + n) (length-append l v)

wanted→Occurs :
    (shape : Shape) (found : Found) (l u v : Text)
    → found.start ≡ length u
    → found.end ≡ length u + length l
    → wanted shape (flags_of found (length (u ++ (l ++ v)))) ≡ true
    → Occurs shape l (u ++ (l ++ v))
unfolding wanted flags_of
wanted→Occurs equals found l u v start end h =
    let first : u ≡ [] = nil-length u (ground arith) in
    let last : v ≡ [] = nil-length v (ground (arith, sizes l u v)) in
    rw (first, last, append-nil l) refl
wanted→Occurs contains found l u v start end h = (u, v, refl)
wanted→Occurs starts_with found l u v start end h =
    let first : u ≡ [] = nil-length u (ground arith) in rw first (v, refl)
wanted→Occurs ends_with found l u v start end h =
    let last : v ≡ [] = nil-length v (ground (arith, sizes l u v)) in
    rw (last, append-nil l) (u, refl)

module _ (c : Crates) (laws : Laws c) (literals : List Text) (a : c.Automaton)
    (built : c.automaton_build literals ≡ some a) (i : ℕ) (l : Text)
    (here : get_elem? literals i ≡ some l) where
  abbrev pub is_mark : Shape → ℕ → Found → Bool
  is_mark shape size found = (found.pattern == i) && wanted shape (flags_of found size)

  marked :
      (shape : Shape) (u v : Text)
      → wanted shape (flags_of (place_of i l u) (length (u ++ (l ++ v)))) ≡ true
      → any (is_mark shape (length (u ++ (l ++ v)))) (c.find_overlapping a (u ++ (l ++ v))) ≡ true
  marked shape u v h =
      In-any (is_mark shape (length (u ++ (l ++ v)))) _ (laws.reports literals a i l u v built here)
        (and_intro _ _ ((==_iff i i).1 refl) h)

  Occurs→marked :
      (shape : Shape) (t : Text)
      → Occurs shape l t
      → any (is_mark shape (length t)) (c.find_overlapping a t) ≡ true
  Occurs→marked equals t e =
      subst (λ s. any (is_mark equals (length s)) (c.find_overlapping a s) ≡ true)
        (append-nil l ∙ sym e)
        (marked equals [] [] (unfold wanted flags_of in ground (arith, sizes l [] [])))
  Occurs→marked contains t (u, v, e) =
      subst (λ s. any (is_mark contains (length s)) (c.find_overlapping a s) ≡ true) (sym e)
        (marked contains u v (unfold wanted flags_of in refl))
  Occurs→marked starts_with t (v, e) =
      subst (λ s. any (is_mark starts_with (length s)) (c.find_overlapping a s) ≡ true) (sym e)
        (marked starts_with [] v (unfold wanted flags_of in refl))
  Occurs→marked ends_with t (u, e) =
      subst (λ s. any (is_mark ends_with (length s)) (c.find_overlapping a s) ≡ true)
        (ap (λ s. u ++ s) (append-nil l) ∙ sym e)
        (marked ends_with u [] (unfold wanted flags_of in ground (arith, sizes l u [])))

  marked→Occurs :
      (shape : Shape) (t : Text)
      → any (is_mark shape (length t)) (c.find_overlapping a t) ≡ true
      → Occurs shape l t
  marked→Occurs shape t h =
      let (found, reported, e) = any-In (is_mark shape (length t)) _ h in
      let (l', u, v, at, whole, start, end) = laws.reported literals a t found built reported in
      let same : get_elem? literals i ≡ some l' =
        subst (λ k. get_elem? literals k ≡ some l') ((==_iff found.pattern i).0 (and_left _ _ e))
          at in
      let e' : l' ≡ l = cc in
      let whole' : t ≡ u ++ (l ++ v) = whole ∙ ap (λ s. u ++ (s ++ v)) e' in
      let wanted' : wanted shape (flags_of found (length t)) ≡ true =
        and_right (found.pattern == i) _ e in
      subst (λ s. Occurs shape l s) (sym whole')
        (wanted→Occurs shape found l u v start (end ∙ ap (λ s. length u + length s) e')
          (subst (λ s. wanted shape (flags_of found (length s)) ≡ true) whole' wanted'))

  -- A literal is marked for a shape exactly when it occurs in the text so.
  pub marked_lem :
      (shape : Shape) (t : Text)
      → any (is_mark shape (length t)) (c.find_overlapping a t) ≡ occurs shape l t
  marked_lem shape t =
      Bool-ext _ _ (λ h. (occurs_iff shape l t).1 (marked→Occurs shape t h))
        (λ h. Occurs→marked shape t ((occurs_iff shape l t).0 h))
