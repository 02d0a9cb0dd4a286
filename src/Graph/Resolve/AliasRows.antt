-- ===== src/Graph/Resolve/AliasRows.antt =====
-- The aliases that a resolution adds are listed as aliases, `aliases` of
-- crates/goliath-graph/src/resolve.rs.
use goliath_siem.Base.{
  ◌≡◌, refl, ap, ◌∙◌, inl, inr, Bool, not, ◌&&◌, ◌||◌, List, [], ◌∷◌, In, Bool-cases,
}
use goliath_siem.Graph.{Identifier, same_identifier}
use goliath_siem.Graph.Ranks.{strength, is_weak}
use goliath_siem.Graph.Groups.{Groups}
use goliath_siem.Graph.Resolve.{Evidence, Resolved, alias}
use goliath_siem.Graph.Resolve.Rows.{add_alias, alias_of, aliases}

-- Rows of aliases only.
abbrev pub AreAliases : List Resolved → Type 0
AreAliases rows = (r : Resolved) → In r rows → r.standing ≡ alias

add_alias-AreAliases :
    (weak strong entity : Identifier) (claim : Evidence) (rows : List Resolved)
    → AreAliases rows
    → AreAliases (add_alias weak strong entity claim rows)
unfolding add_alias
add_alias-AreAliases weak strong entity claim [] h =
    λ r i. elim i [ inl e ↦ ap (λ (q : Resolved). q.standing) e | inr j ↦ absurd j.lower ]
add_alias-AreAliases weak strong entity claim (q ∷ rows) h =
    let rest = add_alias-AreAliases weak strong entity claim rows (λ r i. h r (inr i)) in
    elim (Bool-cases (same_identifier q.identifier weak && same_identifier q.entity entity)) [
      | inl t ↦ rw t (λ r i. elim i [
        | inl e ↦ ap (λ (p : Resolved). p.standing) e ∙ h q (inl refl)
        | inr j ↦ h r (inr j)
      ])
      | inr t ↦ rw t (λ r i. elim i [
        | inl e ↦ ap (λ (p : Resolved). p.standing) e ∙ h q (inl refl)
        | inr j ↦ rest r j
      ])
    ]

alias_of-AreAliases :
    (joining : Identifier → Bool) (claim : Evidence) (weak strong : Identifier)
    (s : Groups × List Resolved)
    → AreAliases s.1
    → AreAliases (alias_of joining claim weak strong s).1
unfolding alias_of
alias_of-AreAliases joining claim weak strong (g, rows) h =
    elim (Bool-cases (not (is_weak (strength weak)) || not (joining strong))) [
      | inl t ↦ rw t h
      | inr t ↦ rw t (add_alias-AreAliases weak strong _ claim rows h)
    ]

pub aliases-AreAliases :
    (joining : Identifier → Bool) (evidence : List Evidence) (s : Groups × List Resolved)
    → AreAliases s.1
    → AreAliases (aliases joining evidence s).1
unfolding aliases
aliases-AreAliases joining [] s h = h
aliases-AreAliases joining (claim ∷ evidence) s h = aliases-AreAliases joining evidence _ (
    alias_of-AreAliases joining claim claim.other claim.one _
      (alias_of-AreAliases joining claim claim.one claim.other s h))
