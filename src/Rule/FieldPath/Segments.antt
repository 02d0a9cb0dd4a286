-- ===== src/Rule/FieldPath/Segments.antt =====
-- `FieldPath::parse`: what the segments of a path are.
use goliath_siem.Base.{
  ℕ, ◌+◌, ◌≡◌, ◌≢◌, inl, inr, refl, sym, subst, ap, ◌∙◌, Bool, true, false, Bool-cases, Option,
  none, some, List, [], ◌∷◌, ◌++◌, append_assoc, append-nil, append-In, ◌==◌, ==_iff, if◌then◌else◌,
  Text, In,
}
use goliath_siem.Rule.FieldPath
use goliath_siem.Rule.FieldPath.{
  FieldPath, ParseResult, PathError, ok, err, split, first_empty, parse,
}

-- The segments with the separator between them.
abbrev pub join : ℕ → List Text → Text
join separator [] = []
join separator (s ∷ []) = s
join separator (s ∷ t ∷ segments) = s ++ separator ∷ join separator (t ∷ segments)

abbrev pub AllTexts : (Text → Type 0) → List Text → Type 0
AllTexts P [] = Unit
AllTexts P (s ∷ segments) = P s × AllTexts P segments

split_some :
    (separator : ℕ) (segment s : Text)
    → (x : Text) × (xs : List Text) × (split separator segment s ≡ x ∷ xs)
unfolding split
split_some separator segment [] = (segment, [], refl)
split_some separator segment (c ∷ s) = elim (Bool-cases (c == separator)) [
  | inl e ↦ (segment, split separator [] s, rw e refl)
  | inr e ↦ let (x, xs, same) = split_some separator (segment ++ c ∷ []) s in (x, xs, rw e same)
]

join_cons :
    (separator : ℕ) (s : Text) (segments : List Text) (x : Text) (xs : List Text)
    → segments ≡ x ∷ xs
    → join separator (s ∷ segments) ≡ s ++ separator ∷ join separator segments
join_cons separator s [] x xs e = cc
join_cons separator s (y ∷ segments) x xs e = refl

-- Splitting loses nothing.
join-split :
    (separator : ℕ) (segment s : Text) → join separator (split separator segment s) ≡ segment ++ s
unfolding split
join-split separator segment [] = sym (append-nil segment)
join-split separator segment (c ∷ s) = elim (Bool-cases (c == separator)) [
  | inl e ↦
      let same : c ≡ separator = (==_iff c separator).0 e in
      let (x, xs, some_segment) = split_some separator [] s in
      subst
        (λ b.
          join separator
            (if b then segment ∷ split separator [] s else split separator (segment ++ c ∷ []) s)
          ≡ segment ++ c ∷ s)
        (sym e)
        (join_cons separator segment (split separator [] s) x xs some_segment
          ∙ ap (λ t. segment ++ separator ∷ t) (join-split separator [] s)
          ∙ ap (λ d. segment ++ d ∷ s) (sym same))
  | inr e ↦
      subst
        (λ b.
          join separator
            (if b then segment ∷ split separator [] s else split separator (segment ++ c ∷ []) s)
          ≡ segment ++ c ∷ s)
        (sym e) (join-split separator (segment ++ c ∷ []) s ∙ append_assoc segment (c ∷ []) s)
]

HasNone-one :
    (separator c : ℕ) (segment : Text)
    → ¬ In separator segment
    → (c == separator) ≡ false
    → ¬ In separator (segment ++ c ∷ [])
HasNone-one separator c segment free e i = elim (append-In separator segment (c ∷ []) i) [
  | inl old ↦ free old
  | inr (inl same) ↦ absurd (differs ((==_iff c separator).1 (sym same)) e)
  | inr (inr never) ↦ never.lower
]
  where
    differs : {b : Bool} → b ≡ true → b ≡ false → ⊥
    differs h h' = cc

-- No segment has the separator in it.
split-HasNone :
    (separator : ℕ) (segment s : Text)
    → ¬ In separator segment
    → AllTexts (λ t. ¬ In separator t) (split separator segment s)
unfolding split
split-HasNone separator segment [] free = (free, tt)
split-HasNone separator segment (c ∷ s) free = elim (Bool-cases (c == separator)) [
  | inl e ↦ rw e (free, split-HasNone separator [] s (λ i. i.lower))
  | inr e ↦
      rw e (split-HasNone separator (segment ++ c ∷ []) s (HasNone-one separator c segment free e))
]

first_empty-none :
    (position : ℕ) (segments : List Text)
    → first_empty position segments ≡ none
    → AllTexts (λ s. s ≢ []) segments
unfolding first_empty
first_empty-none position [] h = tt
first_empty-none position ([] ∷ segments) h = cc
first_empty-none position ((c ∷ s) ∷ segments) h =
    ((λ e. cc), first_empty-none (position + 1) segments h)

-- A path that parses.
pub record IsPathOf (t : Text) (p : FieldPath) : Type 0 where
  pub written : p.text ≡ t
  pub joined : join b'.' p.segments ≡ t
  pub nonempty : AllTexts (λ s. s ≢ []) p.segments
  pub free : AllTexts (λ s. ¬ In b'.' s) p.segments

parse-cons :
    (c : ℕ) (s : Text) (o : Option ℕ)
    → first_empty 0 (split b'.' [] (c ∷ s)) ≡ o
    → (p : FieldPath)
    → elim o as (λ x. ParseResult) [
      | some position ↦ err (FieldPath.empty_segment (c ∷ s) position)
      | none ↦ ok (record { text = c ∷ s; segments = split b'.' [] (c ∷ s) })
    ]
      ≡ ok p
    → IsPathOf (c ∷ s) p
parse-cons c s (some position) e p h = cc
parse-cons c s none e p h =
    let same : record { text = c ∷ s; segments = split b'.' [] (c ∷ s) } ≡ p = cc in
    subst (IsPathOf (c ∷ s)) same (record {
      written = refl;
      joined = join-split b'.' [] (c ∷ s);
      nonempty = first_empty-none 0 _ e;
      free = split-HasNone b'.' [] (c ∷ s) (λ i. i.lower);
    })

-- The segments of a path that parses are its text with the dots taken out: joined by dots they give
-- the text back, none is empty, and none has a dot in it.
pub parse-IsPathOf : (t : Text) (p : FieldPath) → parse t ≡ ok p → IsPathOf t p
unfolding parse
parse-IsPathOf [] p h = cc
parse-IsPathOf (c ∷ s) p h = parse-cons c s _ refl p h
