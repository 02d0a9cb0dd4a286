-- ===== src/Match/Engine/Members.antt =====
-- `GroupBuilder::build`, first part: the members of a group are compiled in order, over one builder.
use goliath_siem.Base.{ℕ, zero, suc, ◌≡◌, subst, Option, some, List, [], ◌∷◌, Text, get_elem?}
use goliath_siem.Rule.Resolved.{Expr, RegexFlags}
use goliath_siem.Crates.{Crates}
use goliath_siem.Match.Laws.{Laws}
use goliath_siem.Match.Reference.{ok, >>=-eq-ok}
use goliath_siem.Match.Engine.{Node}
use goliath_siem.Match.Engine.Builder.{B}
use goliath_siem.Match.Engine.Compile.{compile_members}
use goliath_siem.Match.Engine.Grow.{All}
use goliath_siem.Match.Engine.RegexLeaf.{RequiresSound}
use goliath_siem.Match.Engine.Conditions.{Follows-refl, Follows-trans, Computes, Computes-Follows}
use goliath_siem.Match.Engine.Sound.{HasLeaves, AreApart, IsSound, Advances}
use goliath_siem.Match.Engine.Compiling.{add_node_lem}

module _ (c : Crates) (required_literals : Text → RegexFlags → Option (List Text)) where
  open c use {Float}

  -- The compiled rules are the members, in order, each with a node that computes its condition.
  pub data AreCompiled (b : B c required_literals)
      : List (ℕ × Expr Float) → List (ℕ × Node) → Type 0 where
    compiled_nil : AreCompiled b [] []
    compiled_cons :
        {index : ℕ} {e : Expr Float} {n : Node} {members : List (ℕ × Expr Float)}
        {rules : List (ℕ × Node)}
        → Computes c required_literals b e n
        → AreCompiled b members rules
        → AreCompiled b ((index, e) ∷ members) ((index, n) ∷ rules)

  -- Each member has a rule at its place.
  pub AreCompiled-rule :
      {b : B c required_literals} {members : List (ℕ × Expr Float)} {rules : List (ℕ × Node)}
      → AreCompiled b members rules
      → (k index : ℕ) (e : Expr Float) → get_elem? members k ≡ some (index, e)
      → (n : Node) × (get_elem? rules k ≡ some (index, n)) × Computes c required_literals b e n
  AreCompiled-rule compiled_nil k index e h = cc
  AreCompiled-rule {b} (compiled_cons {e = e'} {n = n} computes compiled) zero index e h =
      let same : e' ≡ e = cc in
      (n, cc, subst (λ x. Computes c required_literals b x n) same computes)
  AreCompiled-rule (compiled_cons computes compiled) (suc k) index e h =
      AreCompiled-rule compiled k index e h

  -- Each rule has a member at its place.
  pub AreCompiled-member :
      {b : B c required_literals} {members : List (ℕ × Expr Float)} {rules : List (ℕ × Node)}
      → AreCompiled b members rules
      → (k index : ℕ) (n : Node) → get_elem? rules k ≡ some (index, n)
      → (e : Expr Float) × (get_elem? members k ≡ some (index, e))
        × Computes c required_literals b e n
  AreCompiled-member compiled_nil k index n h = cc
  AreCompiled-member {b} (compiled_cons {e = e} {n = n'} computes compiled) zero index n h =
      let same : n' ≡ n = cc in
      (e, cc, subst (λ x. Computes c required_literals b e x) same computes)
  AreCompiled-member (compiled_cons computes compiled) (suc k) index n h =
      AreCompiled-member compiled k index n h

  module _ (Known : Expr Float → Type 0) (laws : Laws c)
      (requires : RequiresSound c required_literals)
      (apart : AreApart c required_literals Known) where
    pub compile_members_lem :
        (b : B c required_literals) (members : List (ℕ × Expr Float))
        → All (λ (index, e). HasLeaves Known e) members
        → IsSound c required_literals Known b
        → (r : B c required_literals × List (ℕ × Node))
        → compile_members c required_literals b members ≡ ok r
        → Advances c required_literals Known b r.0 × AreCompiled r.0 members r.1
    unfolding compile_members
    compile_members_lem b [] known sound r h =
        let same : (b, []) ≡ r = cc in
        rw (← same)
          (record { follows = Follows-refl c required_literals b; sound = sound }, compiled_nil)
    compile_members_lem b ((index, e) ∷ members) (known, knowns) sound r h =
        let (x, e₁, e₂) = >>=-eq-ok _ _ h in
        let (y, e₃, e₄) = >>=-eq-ok _ _ e₂ in
        let (advances, computes) =
          add_node_lem c required_literals Known laws requires apart b known sound x e₁ in
        let (advances', compiled) = compile_members_lem x.0 members knowns advances.sound y e₃ in
        let same : (y.0, (index, x.1) ∷ y.1) ≡ r = cc in
        rw (← same) (
          record {
            follows =
                Follows-trans c required_literals b x.0 y.0 advances.follows advances'.follows;
            sound = advances'.sound;
          },
          compiled_cons (Computes-Follows c required_literals x.0 y.0 advances'.follows computes)
              compiled,
        )
