-- ===== src/Graph/Ranks.antt =====
-- Whether an identifier names one thing without doubt, and its place among the identifiers of one
-- thing: `strength`, `rank` and the text of an identifier, crates/goliath-graph/src/identifier.rs.
use goliath_siem.Base.{
  ℕ, ◌+◌, ◌*◌, Bool, true, false, not, ◌&&◌, ◌||◌, Option, none, some, List, [], ◌∷◌, ◌++◌, Text,
  text, text_eq, strip_prefix, if◌then◌else◌, ◌==◌, any,
}
use goliath_siem.Graph.{
  Kind, Form, Strength, Identifier, user, host, address, domain, file, sid, uid, email, name, local,
  mac, ip, hash, strong, weak,
}

abbrev pub authorities : List Text
authorities =
    text "nt authority"
    ∷ text "nt service"
    ∷ text "builtin"
    ∷ text "window manager"
    ∷ text "font driver host"
    ∷ text "iis apppool"
    ∷ text "workgroup"
    ∷ text "."
    ∷ []

-- `str::split_once` at a character.
unfoldable pub split_once : ℕ → Text → Option (Text × Text)
split_once c [] = none
split_once c (x ∷ s) =
    let rest : Option (Text × Text) = elim (split_once c s) [
      | none ↦ none
      | some (a, b) ↦ some (x ∷ a, b)
    ] in
    if x == c then some ([], s) else rest

unfoldable pub starts_with : Text → Text → Bool
unfolding strip_prefix
starts_with s prefix = elim (strip_prefix prefix s) [ some r ↦ true | none ↦ false ]

abbrev pub is_empty : Text → Bool
is_empty [] = true
is_empty (c ∷ s) = false

-- A name of an account: with its domain before a backslash, or behind an `@`.
unfoldable pub strong_name : Text → Bool
unfolding split_once text_eq
strong_name value = elim (split_once b'\\' value) [
  | some (of_domain, account) ↦
      not (is_empty account) && not (any (λ a. text_eq a of_domain) authorities)
  | none ↦ elim (split_once b'@' value) [
    | some (account, of_domain) ↦ not (is_empty account) && not (is_empty of_domain)
    | none ↦ false
  ]
]

unfoldable pub is_strong : Kind → Form → Text → Bool
unfolding strong_name starts_with
is_strong user sid value =
    starts_with value (text "s-1-5-21-") || starts_with value (text "s-1-12-1-")
is_strong user name value = strong_name value
is_strong host name value = any (λ c. c == b'.') value
is_strong host mac value = false
is_strong _ _ value = true

unfoldable pub strength : Identifier → Strength
unfolding is_strong
strength x = if is_strong x.kind x.form x.value then strong else weak

abbrev pub is_weak : Strength → Bool
is_weak weak = true
is_weak strong = false

unfoldable pub form_rank : Form → ℕ
form_rank sid = 0
form_rank uid = 1
form_rank email = 2
form_rank name = 3
form_rank local = 4
form_rank mac = 5
form_rank ip = 6
form_rank hash = 6

unfoldable pub rank : Identifier → ℕ
unfolding strength form_rank
rank x = (if is_weak (strength x) then 1 else 0) * 10 + form_rank x.form

unfoldable pub kind_text : Kind → Text
kind_text user = text "user"
kind_text host = text "host"
kind_text address = text "address"
kind_text domain = text "domain"
kind_text file = text "file"

unfoldable pub form_text : Form → Text
form_text sid = text "sid"
form_text uid = text "uid"
form_text email = text "email"
form_text name = text "name"
form_text local = text "local"
form_text mac = text "mac"
form_text ip = text "ip"
form_text hash = text "hash"

-- `kind:form:value`.
unfoldable pub to_text : Identifier → Text
unfolding kind_text form_text
to_text x = kind_text x.kind ++ (b':' ∷ (form_text x.form ++ (b':' ∷ x.value)))
