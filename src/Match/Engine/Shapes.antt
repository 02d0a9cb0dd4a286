-- ===== src/Match/Engine/Shapes.antt =====
-- Where a literal occurs in a text, and the patterns that one literal decides.
use goliath_siem.Base.{
  ◌≡◌, ◌↔◌, ◌⊎◌, inl, inr, ◌∙◌, sym, ap, refl, Bool, true, false, ◌||◌, Bool-ext, Bool-cases, none,
  some, List, [], ◌∷◌, ◌++◌, append-nil, append_assoc, Text, text_eq, text_eq_iff, strip_prefix,
  strip_prefix-eq, strip_prefix-append, In, arith,
}
use goliath_siem.Sigma.Pattern
use goliath_siem.Sigma.Pattern.{Pattern, PatternPart, any_sequence, any_char, matches}
use goliath_siem.Sigma.Pattern.Meaning.{
  Matches, done, part_literal, literal_inv, char_inv, star_split, star_join,
}
use goliath_siem.Sigma.Pattern.Decide.{matches_iff}
use goliath_siem.Match.Engine.{Shape, equals, contains, starts_with, ends_with}
use goliath_siem.Match.Engine.Builder.{shaped, literal_texts, longest}

-- A literal occurs in a text as the shape says.
abbrev pub Occurs : Shape → Text → Text → Type 0
Occurs equals l t = t ≡ l
Occurs contains l t = (u : Text) × (v : Text) × (t ≡ u ++ (l ++ v))
Occurs starts_with l t = (v : Text) × (t ≡ l ++ v)
Occurs ends_with l t = (u : Text) × (t ≡ u ++ l)

unfoldable pub is_prefix : Text → Text → Bool
is_prefix l t = elim (strip_prefix l t) [ some r ↦ true | none ↦ false ]

unfoldable pub is_within : Text → Text → Bool
unfolding is_prefix
is_within l [] = is_prefix l []
is_within l (c ∷ t) = is_prefix l (c ∷ t) || is_within l t

unfoldable pub is_suffix : Text → Text → Bool
is_suffix l [] = text_eq [] l
is_suffix l (c ∷ t) = text_eq (c ∷ t) l || is_suffix l t

unfoldable pub occurs : Shape → Text → Text → Bool
unfolding is_within is_suffix is_prefix
occurs equals l t = text_eq t l
occurs contains l t = is_within l t
occurs starts_with l t = is_prefix l t
occurs ends_with l t = is_suffix l t

is_prefix-some : (l t : Text) (v : Text) → strip_prefix l t ≡ some v → is_prefix l t ≡ true
unfolding is_prefix
is_prefix-some l t v e = ground arith

some-is_prefix : (l t : Text) → is_prefix l t ≡ true → (v : Text) × (strip_prefix l t ≡ some v)
unfolding is_prefix
some-is_prefix l t h = ground arith

is_prefix_iff : (l t : Text) → (is_prefix l t ≡ true) ↔ ((v : Text) × (t ≡ l ++ v))
is_prefix_iff l t = (
  λ h. let (v, e) = some-is_prefix l t h in (v, strip_prefix-eq l t v e),
  λ (v, e). is_prefix-some l t v (ap (strip_prefix l) e ∙ strip_prefix-append l v),
)

is_within→Occurs : (l t : Text) → is_within l t ≡ true → Occurs contains l t
unfolding is_within
is_within→Occurs l [] h = let (v, e) = (is_prefix_iff l []).0 h in ([], v, e)
is_within→Occurs l (c ∷ t) h = elim (Bool-cases (is_prefix l (c ∷ t))) [
  | inl here ↦ let (v, e) = (is_prefix_iff l (c ∷ t)).0 here in ([], v, e)
  | inr further ↦
      let (u, v, e) = is_within→Occurs l t (ground arith) in (c ∷ u, v, ap (λ s. c ∷ s) e)
]

Occurs→is_within : (l u v : Text) → is_within l (u ++ (l ++ v)) ≡ true
unfolding is_within
Occurs→is_within l [] v = starts (l ++ v) ((is_prefix_iff l (l ++ v)).1 (v, refl))
  where
    starts : (t : Text) → is_prefix l t ≡ true → is_within l t ≡ true
    starts [] h = h
    starts (c ∷ t) h = ground arith
Occurs→is_within l (c ∷ u) v = ground (arith, Occurs→is_within l u v)

is_suffix→Occurs : (l t : Text) → is_suffix l t ≡ true → Occurs ends_with l t
unfolding is_suffix
is_suffix→Occurs l [] h = ([], (text_eq_iff [] l).0 h)
is_suffix→Occurs l (c ∷ t) h = elim (Bool-cases (text_eq (c ∷ t) l)) [
  | inl here ↦ ([], (text_eq_iff (c ∷ t) l).0 here)
  | inr further ↦ let (u, e) = is_suffix→Occurs l t (ground arith) in (c ∷ u, ap (λ s. c ∷ s) e)
]

Occurs→is_suffix : (l u : Text) → is_suffix l (u ++ l) ≡ true
unfolding is_suffix
Occurs→is_suffix [] [] = (text_eq_iff [] []).1 refl
Occurs→is_suffix (c ∷ l) [] = ground (arith, (text_eq_iff (c ∷ l) (c ∷ l)).1 refl)
Occurs→is_suffix l (c ∷ u) = ground (arith, Occurs→is_suffix l u)

pub occurs_iff : (shape : Shape) (l t : Text) → (occurs shape l t ≡ true) ↔ Occurs shape l t
unfolding occurs
occurs_iff equals l t = text_eq_iff t l
occurs_iff contains l t = (is_within→Occurs l t, λ (u, v, e). rw e (Occurs→is_within l u v))
occurs_iff starts_with l t = is_prefix_iff l t
occurs_iff ends_with l t = (is_suffix→Occurs l t, λ (u, e). rw e (Occurs→is_suffix l u))

done_inv : {s : Text} → Matches [] s → s ≡ []
done_inv done = refl

only_literal : (l s : Text) → Matches (Pattern.literal l ∷ []) s ↔ (s ≡ l)
only_literal l s = (
  λ d. let (r, e, m) = literal_inv d in e ∙ ap (λ (x : Text). l ++ x) (done_inv m) ∙ append-nil l,
  λ e. part_literal {r = []} (e ∙ sym (append-nil l)) done,
)

lone_star : (s : Text) → Matches (any_sequence ∷ []) s
lone_star s = let e : s ++ [] ≡ s = append-nil s in rw e at (star_join s done)

abbrev parts_for : Shape → Text → List PatternPart
parts_for equals l = Pattern.literal l ∷ []
parts_for contains l = any_sequence ∷ Pattern.literal l ∷ any_sequence ∷ []
parts_for starts_with l = Pattern.literal l ∷ any_sequence ∷ []
parts_for ends_with l = any_sequence ∷ Pattern.literal l ∷ []

shaped-eq-some :
    (ps : List PatternPart) (l : Text) (shape : Shape)
    → shaped ps ≡ some (l, shape)
    → ps ≡ parts_for shape l
unfolding shaped
shaped-eq-some ps l shape h = ground arith

Matches-parts_for : (shape : Shape) (l s : Text) → Matches (parts_for shape l) s ↔ Occurs shape l s
Matches-parts_for equals l s = only_literal l s
Matches-parts_for contains l s = (
  λ d.
      let (u, r, e, m) = star_split d in
      let (v, e', _) = literal_inv m in (u, v, e ∙ ap (λ (x : Text). u ++ x) e'),
  λ (u, v, e). rw e (star_join u (part_literal refl (lone_star v))),
)
Matches-parts_for starts_with l s =
    (λ d. let (v, e, _) = literal_inv d in (v, e), λ (v, e). part_literal e (lone_star v))
Matches-parts_for ends_with l s = (
  λ d.
      let (u, r, e, m) = star_split d in
      (u, e ∙ ap (λ (x : Text). u ++ x) ((only_literal l r).0 m)),
  λ (u, e). rw e (star_join u ((only_literal l l).1 refl)),
)

-- A pattern of one of the four shapes is decided by where its literal occurs.
pub matches-shaped :
    (p : Pattern) (l : Text) (shape : Shape)
    → shaped p.parts ≡ some (l, shape)
    → (t : Text) → matches p t ≡ occurs shape l t
matches-shaped p l shape h t =
    let e = shaped-eq-some p.parts l shape h in
    let (_, right) = matches_iff p t in
    let same : Matches p.parts t ↔ Occurs shape l t = rw e (Matches-parts_for shape l t) in
    Bool-ext (matches p t) (occurs shape l t) (λ m. (occurs_iff shape l t).1 (same.0 (right.0 m)))
      (λ m. right.1 (same.1 ((occurs_iff shape l t).0 m)))

literal_texts-In :
    (part : PatternPart) (ps : List PatternPart) (l : Text)
    → In l (literal_texts (part ∷ ps))
    → (part ≡ Pattern.literal l) ⊎ In l (literal_texts ps)
unfolding literal_texts
literal_texts-In (Pattern.literal []) ps l i = inr i
literal_texts-In (Pattern.literal (c ∷ t)) ps l (inl e) = inl (ap Pattern.literal (sym e))
literal_texts-In (Pattern.literal (c ∷ t)) ps l (inr i) = inr i
literal_texts-In any_sequence ps l i = inr i
literal_texts-In any_char ps l i = inr i

-- What a part leaves of a text stands at its end.
Matches-rest :
    (part : PatternPart) (ps : List PatternPart) (t : Text)
    → Matches (part ∷ ps) t
    → (u : Text) × (r : Text) × (t ≡ u ++ r) × Matches ps r
Matches-rest (Pattern.literal l) ps t d = let (r, e, m) = literal_inv d in (l, r, e, m)
Matches-rest any_sequence ps t d = star_split d
Matches-rest any_char ps t d = let (c, r, e, m) = char_inv d in (c ∷ [], r, e, m)

literal_texts-Occurs :
    (ps : List PatternPart) (l t : Text)
    → In l (literal_texts ps)
    → Matches ps t
    → Occurs contains l t
literal_texts-Occurs [] l t i d = absurd (unfold literal_texts in i.lower)
literal_texts-Occurs (part ∷ ps) l t i d = elim (literal_texts-In part ps l i) [
  | inl e ↦
      let d' : Matches (Pattern.literal l ∷ ps) t = rw e at d in
      let (v, e', _) = literal_inv d' in ([], v, e')
  | inr j ↦
      let (u, r, e, m) = Matches-rest part ps t d in
      let (u', v, e') = literal_texts-Occurs ps l r j m in
      (u ++ u', v, e ∙ ap (λ (x : Text). u ++ x) e' ∙ sym (append_assoc u u' (l ++ v)))
]

-- A text that matches a pattern contains every literal of it.
pub matches-required :
    (p : Pattern) (l : Text)
    → In l (literal_texts p.parts)
    → (t : Text) → matches p t ≡ true
    → occurs contains l t ≡ true
matches-required p l i t h =
    (occurs_iff contains l t).1 (literal_texts-Occurs p.parts l t i ((matches_iff p t).1.0 h))

longest_cases :
    (t : Text) (ts : List Text) (l : Text)
    → longest (t ∷ ts) ≡ some l
    → (l ≡ t) ⊎ (longest ts ≡ some l)
unfolding longest
longest_cases t ts l h = ground arith

pub longest-In : (ts : List Text) (l : Text) → longest ts ≡ some l → In l ts
longest-In [] l h = unfold longest in cc
longest-In (t ∷ ts) l h = elim (longest_cases t ts l h) [
  | inl e ↦ inl e
  | inr e ↦ inr (longest-In ts l e)
]
