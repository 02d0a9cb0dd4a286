-- ===== src/Graph/Samples.antt =====
-- Claims followed to groups, and the theorems on groups at concrete claims.
use goliath_siem.Base.{
  ℕ, ◌≡◌, ◌≢◌, refl, inl, inr, none, some, Option, ◌⊎◌, ◌↔◌, ◌≤◌, ◌++◌, true, List, [], ◌∷◌, Text,
  text, get_or, In, arith,
}
use goliath_siem.Base.Int.{pos}
use goliath_siem.Graph.Ranks.{rank}
use goliath_siem.Graph.Resolve.{Evidence, Said, Resolved, member, joins, edges}
use goliath_siem.Graph.Resolve.Rows.{resolve}
use goliath_siem.Graph.Resolve.Sorting.{IsMostSeenFirst, AreSaid, IsOf, edges_lem}
use goliath_siem.Graph.Resolve.Claims.{IsClaim, AreLinked}
use goliath_siem.Graph.Resolve.Outcome.{AreOne, AreHeldApart, Lists, resolve_lem, resolve_names}
use goliath_siem.Graph.{Identifier, user, sid, name, email}
use goliath_siem.Graph.Groups.{Edge, Groups, root, follow, nothing_followed, no_groups, group_of}
use goliath_siem.Graph.Groups.Together.{Together, IsSound, IsTop, root-IsTop, group_of-Placed}
use goliath_siem.Graph.Groups.Well.{no_groups-IsWell}
use goliath_siem.Graph.Groups.Round.{Connected, Settled}
use goliath_siem.Graph.Groups.Following.{follow_lem}

abbrev adam_sid : Identifier
adam_sid = record { kind = user; form = sid; value = text "s-1-5-21-1" }

abbrev adam_name : Identifier
adam_name = record { kind = user; form = name; value = text "corp\\adam" }

abbrev desk : Identifier
desk = record { kind = user; form = email; value = text "helpdesk@corp" }

abbrev claim_of : Identifier → Identifier → Edge
claim_of a b = record {
  one = a;
  other = b;
  rule = text "user";
  by = none;
  events = 2;
  first_seen = pos 1;
  last_seen = pos 2;
}

abbrev claims : List Edge
claims = claim_of adam_sid adam_name ∷ claim_of adam_name desk ∷ []

abbrev apart_pairs : List (Identifier × Identifier)
apart_pairs = (adam_sid, desk) ∷ []

-- The second claim is held apart from what the first one joined.
followed : (follow apart_pairs claims nothing_followed).held_apart ≡ 1
unfolding follow nothing_followed
followed = refl

followed_members :
    (follow apart_pairs claims nothing_followed).groups.members
    ≡ (adam_sid ∷ adam_name ∷ []) ∷ [] ∷ (desk ∷ []) ∷ []
unfolding follow nothing_followed
followed_members = refl

follow_lem_example :
    let g = (follow apart_pairs claims nothing_followed).groups in
    ((x : Identifier) (r r' : ℕ)
      → In x (get_or g.members r [])
      → In x (get_or g.members r' [])
      → r ≡ r')
    × ((x y : Identifier) → Together g x y → Connected claims x y)
    × ((p : Identifier × Identifier) → In p apart_pairs → p.0 ≢ p.1 → ¬ Together g p.0 p.1)
    × ((e : Edge) → In e claims → Settled apart_pairs g e)
follow_lem_example = follow_lem apart_pairs claims

abbrev one_group_of : Groups
one_group_of = (group_of no_groups adam_sid).0

root-IsTop_example :
    IsTop (root one_group_of 0).0 (root one_group_of 0).1
    × IsSound (root one_group_of 0).0
    × ((root one_group_of 0).0.members ≡ one_group_of.members)
    × ((root one_group_of 0).0.index ≡ one_group_of.index)
unfolding group_of no_groups
root-IsTop_example =
    root-IsTop one_group_of 0 (group_of-Placed no_groups adam_sid (_, _, no_groups-IsWell)).sound
      (omega arith)

abbrev seen : Identifier → Identifier → ℕ → Evidence
seen a b n = record {
  one = a;
  other = b;
  rule = text "user";
  events = n;
  first_seen = pos 1;
  last_seen = pos 2;
}

abbrev domain_sid : Identifier
domain_sid = record { kind = user; form = sid; value = text "s-1-5-21-1" }

abbrev evidence : List Evidence
evidence = seen adam_name desk 2 ∷ seen domain_sid adam_name 40 ∷ []

abbrev said : Said
said = record { same = []; different = (domain_sid, desk) ∷ [] }

-- The account's name and its SID are one entity, named by the SID; the mailbox is held apart.
abbrev row_of : Identifier → Option Identifier → Text → ℕ → ℕ → ℕ → Resolved
row_of x through rule events first last = record {
  identifier = x;
  entity = domain_sid;
  standing = member;
  seen_with = through;
  rule = rule;
  by = none;
  events = events;
  first_seen = pos first;
  last_seen = pos last;
}

resolved_rows :
    (resolve evidence said 3).resolved
    ≡ row_of domain_sid none [] 0 0 0 ∷ row_of adam_name (some domain_sid) (text "user") 40 1 2 ∷ []
unfolding resolve edges joins
resolved_rows = refl

abbrev to_follow : List Edge
to_follow = edges evidence said (joins evidence 3)

resolve_lem_example :
    let res = resolve evidence said 3 in
    ((x y : Identifier) → AreOne res x y → AreLinked evidence said 3 x y)
    × ((p : Identifier × Identifier) → In p said.different → p.0 ≢ p.1 → ¬ AreOne res p.0 p.1)
    × ((a b : Identifier)
        → IsClaim evidence said 3 a b
        → AreOne res a b ⊎ AreHeldApart said res a b)
resolve_lem_example = resolve_lem evidence said 3

name_listed : Lists (resolve evidence said 3) adam_name domain_sid
unfolding resolve edges joins
name_listed =
    (row_of adam_name (some domain_sid) (text "user") 40 1 2, inr (inl refl), refl, refl, refl)

resolve_names_example :
    let res = resolve evidence said 3 in
    AreOne res adam_name domain_sid
    × ((entity' : Identifier) → Lists res adam_name entity' → entity' ≡ domain_sid)
    × ((y : Identifier) → AreOne res adam_name y → rank domain_sid ≤ rank y)
resolve_names_example = resolve_names evidence said 3 adam_name domain_sid name_listed

-- A person said that the account and the mailbox are one.
abbrev said_one : Said
said_one = record { same = (adam_name, desk, text "ann") ∷ []; different = [] }

edges_lem_example :
    (decided : List Edge) × (claims' : List Edge) × (edges evidence said_one (joins evidence 3)
      ≡ decided ++ claims')
    × AreSaid said_one.same decided
    × IsMostSeenFirst claims'
    × ((e : Edge)
        → In e claims' ↔ (
            (c : Evidence) × In c evidence
            × IsOf c e
            × (c.one ≢ c.other)
            × (joins evidence 3 c.one ≡ true)
            × (joins evidence 3 c.other ≡ true)))
edges_lem_example = edges_lem evidence said_one (joins evidence 3)
