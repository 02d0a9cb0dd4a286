-- ===== src/Match/Engine/Right.antt =====
-- What makes a compiled predicate right for a leaf of a condition: it names what is there, holds
-- where the leaf holds, and holds only where one of its atom's literals is found.
use mathlib.Core.Path.{fun_ext}
use goliath_siem.Base.{◌≡◌, refl, sym, ◌∙◌, Bool, true, Option, none, some, List, any}
use goliath_siem.Rule.Resolved.{Expr}
use goliath_siem.Crates.{Crates}
use goliath_siem.Json
use goliath_siem.Match.Semantics.{Event, text_of}
use goliath_siem.Match.Meaning.{expr_holds, asks_text, asks_but_booleans}
use goliath_siem.Match.Engine.{Ref, Pred}
use goliath_siem.Match.Engine.Evaluate.{regex_matches_value}
use goliath_siem.Match.Engine.Denotation.{Store, pred_holds, ref_holds}
use goliath_siem.Match.Engine.Grow.{
  Extends, IsRef, IsPred, All, IsPred-Extends, pred_holds-Extends, any_ref-Extends, All-ref-Extends,
}

abbrev pub IsAtom : Store → Option (List Ref) → Type 0
IsAtom st none = Unit
IsAtom st (some refs) = All (λ (s, i). IsRef st s i) refs

module _ (c : Crates) where
  open c use {Float, Regex}

  abbrev pub IsWoken : Event c → Store → Option (List Ref) → Type 0
  IsWoken event st none = Unit
  IsWoken event st (some refs) = any (ref_holds c event st) refs ≡ true

  -- A condition holds, where a regular expression is asked of every text but a boolean's.
  abbrev pub leaf_holds : Expr Float → Event c → Bool
  leaf_holds leaf event = expr_holds c (asks_but_booleans c) leaf event

  asks_lem :
      (re : Regex) (value : Event c) → regex_matches_value c re value ≡ asks_but_booleans c re value
  unfolding regex_matches_value asks_but_booleans asks_text text_of
  asks_lem re Json.null = refl
  asks_lem re (Json.bool flag) = refl
  asks_lem re (Json.number n) = refl
  asks_lem re (Json.string s) = refl
  asks_lem re (Json.array items) = refl
  asks_lem re (Json.object fields) = refl

  -- The engine asks a regular expression so.
  pub engine_asks : regex_matches_value c ≡ asks_but_booleans c
  engine_asks = fun_ext λ re. fun_ext λ value. asks_lem re value

  pub record IsRight (st : Store) (leaf : Expr Float) (p : Pred Float Regex)
      (atom : Option (List Ref)) : Type 0 where
    pub names : IsPred st p
    pub means : (event : Event c) → pred_holds c event st p ≡ leaf_holds leaf event
    pub atom_names : IsAtom st atom
    pub wakes : (event : Event c) → pred_holds c event st p ≡ true → IsWoken event st atom

  IsAtom-Extends :
      (st st' : Store)
      → Extends st st'
      → (atom : Option (List Ref)) → IsAtom st atom
      → IsAtom st' atom
  IsAtom-Extends st st' grown none h = tt
  IsAtom-Extends st st' grown (some refs) h = All-ref-Extends grown refs h

  IsWoken-Extends :
      (st st' : Store)
      → Extends st st'
      → (event : Event c) (atom : Option (List Ref)) → IsAtom st atom
      → IsWoken event st atom
      → IsWoken event st' atom
  IsWoken-Extends st st' grown event none h w = tt
  IsWoken-Extends st st' grown event (some refs) h w = any_ref-Extends grown c event refs h ∙ w

  -- A predicate stays right while its builder grows.
  pub IsRight-Extends :
      (st st' : Store) (leaf : Expr Float) (p : Pred Float Regex) (atom : Option (List Ref))
      → Extends st st'
      → IsRight st leaf p atom
      → IsRight st' leaf p atom
  IsRight-Extends st st' leaf p atom grown right = record {
    names = IsPred-Extends grown p right.names;
    means = λ event. pred_holds-Extends grown c event p right.names ∙ right.means event;
    atom_names = IsAtom-Extends st st' grown atom right.atom_names;
    wakes = λ event h.
        IsWoken-Extends st st' grown event atom right.atom_names
          (right.wakes event (sym (pred_holds-Extends grown c event p right.names) ∙ h));
  }
