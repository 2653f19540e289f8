-- ===== src/PeerAllowList.antt =====
-- src/infrastructure/mesh/peer_allow_list.ts: which methods of the mesh a peer may call. The text that
-- sums the list up for the log is left out.
pub mod Grants
use kinetix_identity_service.Prelude.{
  ℕ, Bool, true, false, ◌||◌, Option, none, some, List, [], ◌∷◌, ◌==◌, if◌then◌else◌,
}
use kinetix_identity_service.Prelude.Tables.{any_where}
use kinetix_identity_service.Prelude.Text.{Text, codes, text_eq, trim, split_on}

-- `PeerAllowList`: the scopes of a peer, or none where it may call everything. A later entry of a peer
-- is found first.
abbrev pub PeerAllowList : Type 0
PeerAllowList = List (Text × Option (List Text))

abbrev pub is_text : Text → Text → Bool
is_text s t = text_eq t s

abbrev pub schema_services : List Text
schema_services =
    codes "grpc.reflection.v1.ServerReflection"
    ∷ codes "grpc.reflection.v1alpha.ServerReflection"
    ∷ []

-- `grants.get(peer)`
unfoldable pub get_scopes : Text → PeerAllowList → Option (Option (List Text))
get_scopes peer [] = none
get_scopes peer (grant ∷ grants) =
    let rest = get_scopes peer grants in if text_eq grant.0 peer then some grant.1 else rest

-- `s.replace(/^\/+/, "")`
unfoldable pub drop_slashes : Text → Text
drop_slashes [] = []
drop_slashes (c ∷ s) = let rest = drop_slashes s in if c == b'/' then rest else c ∷ s

abbrev pub after_first : ℕ → Option (Text × Text) → Option (Text × Text)
after_first c none = none
after_first c (some (before, after)) = some (c ∷ before, after)

-- What stands before and after the first `mark`, if there is one.
unfoldable pub cut_at : ℕ → Text → Option (Text × Text)
cut_at mark [] = none
cut_at mark (c ∷ s) =
    let rest = cut_at mark s in if c == mark then some ([], s) else after_first c rest

-- An entry of the list: a peer, a peer and a scope, or one that is refused.
pub data Entry : Type 0 where
  whole : Text → Entry
  scoped : Text → Text → Entry
  refused_entry : Entry

unfoldable pub entry_named : Text → Text → Entry
entry_named [] scope = refused_entry
entry_named (c ∷ peer) [] = refused_entry
entry_named (c ∷ peer) (d ∷ scope) = scoped (c ∷ peer) (d ∷ scope)

unfoldable pub entry_of : Text → Entry
entry_of text = elim (cut_at b'@' text) [
  | none ↦ whole text
  | some parts ↦ entry_named parts.0 (drop_slashes parts.1)
]

abbrev pub with_scope : Text → Option (Option (List Text)) → Option (List Text)
with_scope scope none = some (scope ∷ [])
with_scope scope (some none) = none
with_scope scope (some (some scopes)) = some (scope ∷ scopes)

unfoldable pub add_entry : Entry → PeerAllowList → Option PeerAllowList
add_entry (whole peer) grants = some ((peer, none) ∷ grants)
add_entry (scoped peer scope) grants =
    some ((peer, with_scope scope (get_scopes peer grants)) ∷ grants)
add_entry refused_entry grants = none

unfoldable pub add_entries : List Text → Option PeerAllowList → Option PeerAllowList
add_entries entries none = none
add_entries [] (some grants) = some grants
add_entries (entry ∷ entries) (some grants) =
    add_entries entries (add_entry (entry_of entry) grants)

-- `.map((entry) => entry.trim()).filter((entry) => entry.length > 0)`
unfoldable pub filled : List Text → List Text
filled [] = []
filled (part ∷ parts) =
    let rest = filled parts in elim (trim part) [ [] ↦ rest | c ∷ s ↦ (c ∷ s) ∷ rest ]

unfoldable pub parse_peer_allow_list : Text → Option PeerAllowList
parse_peer_allow_list raw = add_entries (filled (split_on b',' raw)) (some [])

abbrev pub service_of : Text → Text
service_of called = elim (cut_at b'/' called) [ none ↦ called | some parts ↦ parts.0 ]

unfoldable pub in_scopes : Text → Text → List Text → Bool
in_scopes called service scopes =
    any_where (is_text called) scopes
    || any_where (is_text service) scopes
    || any_where (is_text service) schema_services

unfoldable pub permitted : Text → Option (Option (List Text)) → Bool
permitted called none = false
permitted called (some none) = true
permitted called (some (some scopes)) = in_scopes called (service_of called) scopes

unfoldable pub permits : PeerAllowList → Text → Text → Bool
permits grants peer method = permitted (drop_slashes method) (get_scopes peer grants)
