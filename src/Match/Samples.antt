-- ===== src/Match/Samples.antt =====
-- A concrete instance of what the program takes from its crates, for the tests of the engine:
-- an automaton that looks for every literal at every offset, and an expression that matches its own text.
use goliath_siem.Base.{
  ℕ, zero, suc, ◌+◌, ◌≡◌, ◌⊎◌, inl, inr, refl, sym, subst, ap, ap₂, ◌∙◌, Ordering, true, Option,
  none, some, List, [], ◌∷◌, ◌++◌, any, append-nil, Text, text, text_eq, text_eq_iff, strip_prefix,
  strip_prefix-eq, strip_prefix-append, length, get_elem?, In, In-append_left, In-append_right,
  append-In, arith,
}
use goliath_siem.Base.Int.{pos}
use goliath_siem.Rule.FieldPath.{FieldPath}
use goliath_siem.Rule.Fold.{fold}
use goliath_siem.Rule.Resolved
use goliath_siem.Rule.Resolved.{Expr, Exprs, RegexFlags, ResolvedRule, ClassValue, StringTest}
use goliath_siem.Crates.{Crates, Found}
use goliath_siem.Match.Laws.{Laws}
use goliath_siem.Match.Engine.{contains}
use goliath_siem.Match.Engine.RegexLeaf.{RequiresSound}
use goliath_siem.Match.Engine.Shapes.{occurs, occurs_iff}

abbrev add_if : Option Text → Found → List Found → List Found
add_if none found rest = rest
add_if (some v) found rest = found ∷ rest

add_if-later :
    (o : Option Text) (f g : Found) (rest : List Found) → In g rest → In g (add_if o f rest)
add_if-later none f g rest i = i
add_if-later (some v) f g rest i = inr i

add_if-first :
    (o : Option Text) (v : Text) (f g : Found) (rest : List Found)
    → o ≡ some v
    → g ≡ f
    → In g (add_if o f rest)
add_if-first none v f g rest e same = cc
add_if-first (some u) v f g rest e same = inl same

add_if-cases :
    (o : Option Text) (f g : Found) (rest : List Found)
    → In g (add_if o f rest)
    → ((v : Text) × (o ≡ some v) × (g ≡ f)) ⊎ In g rest
add_if-cases none f g rest i = inr i
add_if-cases (some v) f g rest (inl e) = inl (v, refl, e)
add_if-cases (some v) f g rest (inr i) = inr i

abbrev found_at : ℕ → ℕ → Text → Found
found_at i offset l = record { pattern = i; start = offset; end = offset + length l }

-- The occurrences of literals, numbered from an index, at the start of a text at an offset.
abbrev starting : ℕ → ℕ → List Text → Text → List Found
starting offset first [] t = []
starting offset first (l ∷ literals) t =
    add_if (strip_prefix l t) (found_at first offset l) (starting offset (first + 1) literals t)

abbrev every : ℕ → List Text → Text → List Found
every offset literals [] = starting offset 0 literals []
every offset literals (x ∷ t) = starting offset 0 literals (x ∷ t) ++ every (offset + 1) literals t

starting-In :
    (offset first i : ℕ) (literals : List Text) (l v : Text)
    → get_elem? literals i ≡ some l
    → In (found_at (first + i) offset l) (starting offset first literals (l ++ v))
starting-In offset first i [] l v h = cc
starting-In offset first zero (k ∷ literals) l v h =
    let e : k ≡ l = cc in
    let same : first + 0 ≡ first = omega arith in
    let starts : strip_prefix k (l ++ v) ≡ some v =
      ap (λ x. strip_prefix x (l ++ v)) e ∙ strip_prefix-append l v in
    add_if-first (strip_prefix k (l ++ v)) v (found_at first offset k)
      (found_at (first + 0) offset l) _ starts (ap₂ (λ n x. found_at n offset x) same (sym e))
starting-In offset first (suc i) (k ∷ literals) l v h =
    let same : first + 1 + i ≡ first + suc i = omega arith in
    add_if-later (strip_prefix k (l ++ v)) (found_at first offset k) _ _ (
      subst (λ n. In (found_at n offset l) (starting offset (first + 1) literals (l ++ v))) same
        (starting-In offset (first + 1) i literals l v h))

In-starting :
    (offset first : ℕ) (literals : List Text) (t : Text) (found : Found)
    → In found (starting offset first literals t)
    → (i : ℕ) × (l : Text) × (v : Text) × (get_elem? literals i ≡ some l)
      × (t ≡ l ++ v)
      × (found ≡ found_at (first + i) offset l)
In-starting offset first [] t found i = absurd i.lower
In-starting offset first (k ∷ literals) t found i =
    elim (add_if-cases (strip_prefix k t) (found_at first offset k) found _ i) [
      | inl (v, e, same) ↦
          let shifted : first ≡ first + 0 = omega arith in
          (0, k, v, refl, strip_prefix-eq k t v e, same ∙ ap (λ n. found_at n offset k) shifted)
      | inr j ↦
          let (i', l, v, at, e, same) = In-starting offset (first + 1) literals t found j in
          let shifted : first + 1 + i' ≡ first + suc i' = omega arith in
          (suc i', l, v, at, e, same ∙ ap (λ n. found_at n offset l) shifted)
    ]

every-first :
    (offset : ℕ) (literals : List Text) (t : Text) (found : Found)
    → In found (starting offset 0 literals t)
    → In found (every offset literals t)
every-first offset literals [] found i = i
every-first offset literals (x ∷ t) found i =
    In-append_left found (starting offset 0 literals (x ∷ t)) _ i

every-In :
    (offset : ℕ) (literals : List Text) (i : ℕ) (l u v : Text)
    → get_elem? literals i ≡ some l
    → In (found_at i (offset + length u) l) (every offset literals (u ++ (l ++ v)))
every-In offset literals i l [] v h =
    let same : 0 + i ≡ i = omega arith in
    let here : offset ≡ offset + 0 = omega arith in
    every-first offset literals (l ++ v) _ (
      subst (λ n. In (found_at i n l) (starting offset 0 literals (l ++ v))) here
        (subst (λ n. In (found_at n offset l) (starting offset 0 literals (l ++ v))) same
          (starting-In offset 0 i literals l v h)))
every-In offset literals i l (x ∷ u) v h =
    let same : offset + 1 + length u ≡ offset + (suc (length u)) = omega arith in
    In-append_right _ (starting offset 0 literals (x ∷ u ++ (l ++ v))) _ (
      subst (λ n. In (found_at i n l) (every (offset + 1) literals (u ++ (l ++ v)))) same
        (every-In (offset + 1) literals i l u v h))

-- Where a literal was found.
abbrev Reported : ℕ → List Text → Text → Found → Type 0
Reported offset literals t found =
    (l : Text) × (u : Text) × (v : Text) × (get_elem? literals found.pattern ≡ some l)
    × (t ≡ u ++ (l ++ v))
    × (found ≡ found_at found.pattern (offset + length u) l)

starting-Reported :
    (offset : ℕ) (literals : List Text) (t : Text) (found : Found)
    → In found (starting offset 0 literals t)
    → Reported offset literals t found
starting-Reported offset literals t found i =
    let (k, l, v, at, e, same) = In-starting offset 0 literals t found i in
    let number : found.pattern ≡ k = ground (arith, ap (λ (f : Found). f.pattern) same) in
    let here : offset ≡ offset + 0 = omega arith in
    let zeroed : 0 + k ≡ found.pattern = omega (arith, number) in
    (
      l,
      [],
      v,
      subst (λ n. get_elem? literals n ≡ some l) (sym number) at,
      e,
      same ∙ ap₂ (λ n m. found_at n m l) zeroed here,
    )

In-every :
    (offset : ℕ) (literals : List Text) (t : Text) (found : Found)
    → In found (every offset literals t)
    → Reported offset literals t found
In-every offset literals [] found i = starting-Reported offset literals [] found i
In-every offset literals (x ∷ t) found i =
    elim (append-In found (starting offset 0 literals (x ∷ t)) _ i) [
      | inl j ↦ starting-Reported offset literals (x ∷ t) found j
      | inr j ↦
          let (l, u, v, at, e, same) = In-every (offset + 1) literals t found j in
          let next : offset + 1 + length u ≡ offset + suc (length u) = omega arith in
          (l, x ∷ u, v, at, ap (λ s. x ∷ s) e, same ∙ ap (λ n. found_at found.pattern n l) next)
    ]

-- A leaf, told apart by its first character.
abbrev pub sample_expr_json : Expr Unit → Text
sample_expr_json (Resolved.keyword test) = 107 ∷ test.pattern.source
sample_expr_json (Resolved.field predicate) = elim predicate.test [
  | Resolved.Test.string test ↦ 115 ∷ []
  | _ ↦ 114 ∷ []
]
sample_expr_json _ = []

abbrev pub sample_class_json : List (FieldPath × ClassValue) → Text
sample_class_json [] = []
sample_class_json (_ ∷ _) = 49 ∷ []

abbrev pub sample_crates : Crates
sample_crates = record {
  Float = Unit;
  float_of = λ n. tt;
  float_compare = λ a b. some Ordering.eq;
  float_parse = λ t. none;
  JsonNumber = Unit;
  number_text = λ n. text "1";
  number_int = λ n. some (pos 1);
  number_float = λ n. some tt;
  number_eq = λ a b. true;
  expr_json = sample_expr_json;
  class_json = sample_class_json;
  address_parse = λ t. none;
  simple_fold = λ ch. ch;
  Regex = Text;
  regex_build = λ p flags. some p;
  is_match = λ re t. text_eq t re;
  Automaton = List Text;
  automaton_build = λ literals. some literals;
  find_overlapping = λ literals t. every 0 literals t;
}

sample_reports :
    (literals a : List Text) (i : ℕ) (l u v : Text)
    → some literals ≡ some a
    → get_elem? literals i ≡ some l
    → In (found_at i (length u) l) (every 0 a (u ++ (l ++ v)))
sample_reports literals a i l u v built here =
    let same : literals ≡ a = cc in
    let offset : 0 + length u ≡ length u = omega arith in
    subst (λ ls. In (found_at i (length u) l) (every 0 ls (u ++ (l ++ v)))) same
      (subst (λ n. In (found_at i n l) (every 0 literals (u ++ (l ++ v)))) offset
        (every-In 0 literals i l u v here))

sample_reported :
    (literals a : List Text) (t : Text) (found : Found)
    → some literals ≡ some a
    → In found (every 0 a t)
    → (l : Text) × (u : Text) × (v : Text) × (get_elem? literals found.pattern ≡ some l)
      × (t ≡ u ++ (l ++ v))
      × (found.start ≡ length u)
      × (found.end ≡ length u + length l)
sample_reported literals a t found built i =
    let same : a ≡ literals = cc in
    let (l, u, v, at, e, is) =
      In-every 0 literals t found (subst (λ ls. In found (every 0 ls t)) same i) in
    (
      l,
      u,
      v,
      at,
      e,
      ground (arith, ap (λ (f : Found). f.start) is),
      ground (arith, ap (λ (f : Found). f.end) is),
    )

pub sample_laws : Laws sample_crates
unfolding fold
sample_laws = record {
  number_folded = λ n. refl;
  reports = sample_reports;
  reported = sample_reported;
}

-- An expression requires its own text, folded, unless it is empty.
abbrev pub sample_required : Text → RegexFlags → Option (List Text)
sample_required [] flags = none
sample_required (x ∷ p) flags = some (fold (λ ch. ch) (x ∷ p) ∷ [])

pub sample_requires : RequiresSound sample_crates sample_required
sample_requires = record { contained = required }
  where
    whole : (t : Text) → any (λ l. occurs contains l t) (t ∷ []) ≡ true
    whole t = let here = (occurs_iff contains t t).1 ([], [], sym (append-nil t)) in rw here

    required :
        (p : Text) (flags : RegexFlags) (re : Text) (literals : List Text) (t : Text)
        → some p ≡ some re
        → sample_required p flags ≡ some literals
        → text_eq t re ≡ true
        → any (λ l. occurs contains l (fold (λ ch. ch) t)) literals ≡ true
    required [] flags re literals t built req m = cc
    required (x ∷ p) flags re literals t built req m =
        let same : t ≡ x ∷ p = (text_eq_iff t re).0 m ∙ sym (cc) in
        let lits : fold (λ ch. ch) (x ∷ p) ∷ [] ≡ literals = cc in
        subst (λ ls. any (λ l. occurs contains l (fold (λ ch. ch) t)) ls ≡ true) lits
          (subst
            (λ s. any (λ l. occurs contains l (fold (λ ch. ch) t)) (fold (λ ch. ch) s ∷ []) ≡ true)
            same (whole (fold (λ ch. ch) t)))
