-- ===== src/Sigma/Pattern/Normal.antt =====
-- `Pattern::from_parts` changes the parts and not what they match, and leaves none of the parts
-- that it normalizes away.
use goliath_siem.Base.{◌↔◌, List, [], ◌∷◌, ◌++◌, ◌∙◌, sym, ap, refl, Text, append_assoc, append-nil}
use goliath_siem.Sigma.Pattern.{
  PatternPart, literal, any_sequence, any_char, push_part, normalize, from_parts,
}
use goliath_siem.Sigma.Pattern.Meaning.{
  Matches, part_literal, star_end, literal_inv, two_stars, Matches-cons,
}

abbrev pub SameMeaning : List PatternPart → List PatternPart → Type 0
SameMeaning ps qs = (s : Text) → Matches ps s ↔ Matches qs s

empty_literal : (ps : List PatternPart) → SameMeaning ps (literal [] ∷ ps)
empty_literal ps s = (λ d. part_literal refl d, λ d. let (r, e, m) = literal_inv d in rw e m)

two_literals :
    (a t : Text) (ps : List PatternPart)
    → SameMeaning (literal (a ++ t) ∷ ps) (literal a ∷ literal t ∷ ps)
two_literals a t ps s = (
  λ d. let (r, e, m) = literal_inv d in part_literal (e ∙ append_assoc a t r) (part_literal refl m),
  λ d.
      let (r, e, m) = literal_inv d in
      let (r', e', m') = literal_inv m in
      part_literal (e ∙ ap (λ (x : Text). a ++ x) e' ∙ sym (append_assoc a t r')) m',
)

repeated_star :
    (ps : List PatternPart) → SameMeaning (any_sequence ∷ ps) (any_sequence ∷ any_sequence ∷ ps)
repeated_star ps s = (star_end, two_stars)

same : (ps : List PatternPart) → SameMeaning ps ps
same ps s = (λ d. d, λ d. d)

-- With the parts that follow: adding one part to the normalized ones means what the part means.
push_part-SameMeaning :
    (ns : List PatternPart) (part : PatternPart) (rest : List PatternPart)
    → SameMeaning (push_part ns part ++ rest) (ns ++ part ∷ rest)
unfolding push_part
push_part-SameMeaning [] (literal []) rest = empty_literal rest
push_part-SameMeaning [] (literal (c ∷ t)) rest = same _
push_part-SameMeaning [] any_sequence rest = same _
push_part-SameMeaning [] any_char rest = same _
push_part-SameMeaning (n ∷ []) (literal []) rest = Matches-cons n (empty_literal rest)
push_part-SameMeaning (literal a ∷ []) (literal (c ∷ t)) rest = two_literals a (c ∷ t) rest
push_part-SameMeaning (any_sequence ∷ []) any_sequence rest = repeated_star rest
push_part-SameMeaning (any_sequence ∷ []) (literal (c ∷ t)) rest = same _
push_part-SameMeaning (any_sequence ∷ []) any_char rest = same _
push_part-SameMeaning (any_char ∷ []) (literal (c ∷ t)) rest = same _
push_part-SameMeaning (any_char ∷ []) any_sequence rest = same _
push_part-SameMeaning (any_char ∷ []) any_char rest = same _
push_part-SameMeaning (literal a ∷ []) any_sequence rest = same _
push_part-SameMeaning (literal a ∷ []) any_char rest = same _
push_part-SameMeaning (p ∷ q ∷ ns) (literal []) rest =
    Matches-cons p (push_part-SameMeaning (q ∷ ns) (literal []) rest)
push_part-SameMeaning (p ∷ q ∷ ns) (literal (c ∷ t)) rest =
    Matches-cons p (push_part-SameMeaning (q ∷ ns) (literal (c ∷ t)) rest)
push_part-SameMeaning (p ∷ q ∷ ns) any_sequence rest =
    Matches-cons p (push_part-SameMeaning (q ∷ ns) any_sequence rest)
push_part-SameMeaning (p ∷ q ∷ ns) any_char rest =
    Matches-cons p (push_part-SameMeaning (q ∷ ns) any_char rest)

normalize-SameMeaning : (ns ps : List PatternPart) → SameMeaning (normalize ns ps) (ns ++ ps)
unfolding normalize
normalize-SameMeaning ns [] s = rw append-nil (same ns s)
normalize-SameMeaning ns (part ∷ ps) s =
    let after = normalize-SameMeaning (push_part ns part) ps s in
    let before = push_part-SameMeaning ns part ps s in
    (λ d. before.0 (after.0 d), λ d. after.1 (before.1 d))

-- The normalized parts match the same texts as the parts that were given.
pub from_parts-SameMeaning : (ps : List PatternPart) → SameMeaning (from_parts ps).parts ps
unfolding from_parts
from_parts-SameMeaning ps = normalize-SameMeaning [] ps

abbrev pub NoLiteralFirst : List PatternPart → Type 0
NoLiteralFirst (literal t ∷ ps) = ⊥
NoLiteralFirst _ = Unit

abbrev NoStarFirst : List PatternPart → Type 0
NoStarFirst (any_sequence ∷ ps) = ⊥
NoStarFirst _ = Unit

abbrev pub HasText : Text → Type 0
HasText [] = ⊥
HasText (c ∷ t) = Unit

-- No empty literal, no two literals and no two stars side by side.
abbrev pub IsNormal : List PatternPart → Type 0
IsNormal [] = Unit
IsNormal (literal t ∷ ps) = HasText t × NoLiteralFirst ps × IsNormal ps
IsNormal (any_sequence ∷ ps) = NoStarFirst ps × IsNormal ps
IsNormal (any_char ∷ ps) = IsNormal ps

HasText-append : (a t : Text) → HasText a → HasText (a ++ t)
HasText-append (c ∷ a) t h = tt
HasText-append [] t h = absurd h

-- The first part keeps its kind.
push_part-first :
    (q : PatternPart) (ns : List PatternPart) (part : PatternPart)
    → (NoLiteralFirst (q ∷ ns) → NoLiteralFirst (push_part (q ∷ ns) part))
      × (NoStarFirst (q ∷ ns) → NoStarFirst (push_part (q ∷ ns) part))
unfolding push_part
push_part-first q (q' ∷ ns) (literal []) = (λ h. h, λ h. h)
push_part-first q [] (literal []) = (λ h. h, λ h. h)
push_part-first (literal a) [] (literal (c ∷ t)) = (λ h. h, λ h. h)
push_part-first (literal a) [] any_sequence = (λ h. h, λ h. h)
push_part-first (literal a) [] any_char = (λ h. h, λ h. h)
push_part-first any_sequence [] (literal (c ∷ t)) = (λ h. h, λ h. h)
push_part-first any_sequence [] any_sequence = (λ h. h, λ h. h)
push_part-first any_sequence [] any_char = (λ h. h, λ h. h)
push_part-first any_char [] (literal (c ∷ t)) = (λ h. h, λ h. h)
push_part-first any_char [] any_sequence = (λ h. h, λ h. h)
push_part-first any_char [] any_char = (λ h. h, λ h. h)
push_part-first (literal a) (q' ∷ ns) (literal (c ∷ t)) = (λ h. h, λ h. h)
push_part-first any_sequence (q' ∷ ns) (literal (c ∷ t)) = (λ h. h, λ h. h)
push_part-first any_char (q' ∷ ns) (literal (c ∷ t)) = (λ h. h, λ h. h)
push_part-first (literal a) (q' ∷ ns) any_sequence = (λ h. h, λ h. h)
push_part-first any_sequence (q' ∷ ns) any_sequence = (λ h. h, λ h. h)
push_part-first any_char (q' ∷ ns) any_sequence = (λ h. h, λ h. h)
push_part-first (literal a) (q' ∷ ns) any_char = (λ h. h, λ h. h)
push_part-first any_sequence (q' ∷ ns) any_char = (λ h. h, λ h. h)
push_part-first any_char (q' ∷ ns) any_char = (λ h. h, λ h. h)

IsNormal-tail : (p : PatternPart) (ps : List PatternPart) → IsNormal (p ∷ ps) → IsNormal ps
IsNormal-tail (literal t) ps h = h.2
IsNormal-tail any_sequence ps h = h.1
IsNormal-tail any_char ps h = h

-- A first part may be put before other parts that begin alike.
IsNormal-cons :
    (p : PatternPart) (ps qs : List PatternPart)
    → (NoLiteralFirst ps → NoLiteralFirst qs) × (NoStarFirst ps → NoStarFirst qs)
    → IsNormal (p ∷ ps)
    → IsNormal qs
    → IsNormal (p ∷ qs)
IsNormal-cons (literal t) ps qs (f, g) h n = (h.0, f h.1, n)
IsNormal-cons any_sequence ps qs (f, g) h n = (g h.0, n)
IsNormal-cons any_char ps qs (f, g) h n = n

push_part-IsNormal :
    (ns : List PatternPart) (part : PatternPart) → IsNormal ns → IsNormal (push_part ns part)
unfolding push_part
push_part-IsNormal [] (literal []) h = tt
push_part-IsNormal [] (literal (c ∷ t)) h = (tt, tt, tt)
push_part-IsNormal [] any_sequence h = (tt, tt)
push_part-IsNormal [] any_char h = tt
push_part-IsNormal (p ∷ []) (literal []) h = h
push_part-IsNormal (literal a ∷ []) (literal (c ∷ t)) h = (HasText-append a (c ∷ t) h.0, tt, tt)
push_part-IsNormal (literal a ∷ []) any_sequence h = (h.0, tt, (tt, tt))
push_part-IsNormal (literal a ∷ []) any_char h = (h.0, tt, tt)
push_part-IsNormal (any_sequence ∷ []) (literal (c ∷ t)) h = (tt, (tt, tt, tt))
push_part-IsNormal (any_sequence ∷ []) any_sequence h = (tt, tt)
push_part-IsNormal (any_sequence ∷ []) any_char h = (tt, tt)
push_part-IsNormal (any_char ∷ []) (literal (c ∷ t)) h = (tt, tt, tt)
push_part-IsNormal (any_char ∷ []) any_sequence h = (tt, tt)
push_part-IsNormal (any_char ∷ []) any_char h = tt
push_part-IsNormal (p ∷ q ∷ ns) (literal []) h = h
push_part-IsNormal (p ∷ q ∷ ns) (literal (c ∷ t)) h =
    IsNormal-cons p (q ∷ ns) _ (push_part-first q ns (literal (c ∷ t))) h
      (push_part-IsNormal (q ∷ ns) (literal (c ∷ t)) (IsNormal-tail p (q ∷ ns) h))
push_part-IsNormal (p ∷ q ∷ ns) any_sequence h =
    IsNormal-cons p (q ∷ ns) _ (push_part-first q ns any_sequence) h
      (push_part-IsNormal (q ∷ ns) any_sequence (IsNormal-tail p (q ∷ ns) h))
push_part-IsNormal (p ∷ q ∷ ns) any_char h =
    IsNormal-cons p (q ∷ ns) _ (push_part-first q ns any_char) h
      (push_part-IsNormal (q ∷ ns) any_char (IsNormal-tail p (q ∷ ns) h))

normalize-IsNormal : (ns ps : List PatternPart) → IsNormal ns → IsNormal (normalize ns ps)
unfolding normalize
normalize-IsNormal ns [] h = h
normalize-IsNormal ns (part ∷ ps) h =
    normalize-IsNormal (push_part ns part) ps (push_part-IsNormal ns part h)

pub from_parts-IsNormal : (ps : List PatternPart) → IsNormal (from_parts ps).parts
unfolding from_parts
from_parts-IsNormal ps = normalize-IsNormal [] ps tt
