-- ===== src/PeerAllowList/Grants.antt =====
-- What the entries of the list of peers grant.
use kinetix_identity_service.Prelude.{
  Bool, true, false, ◌&&◌, ◌||◌, Option, none, some, List, [], ◌∷◌, ◌≡◌, refl, ◌∙◌, arith, inl, inr,
  Bool-cases, Option-cases,
}
use kinetix_identity_service.Prelude.Tables.{any_where}
use kinetix_identity_service.Prelude.Text.{Text, text_eq, text_eq_sound, split_on}
use kinetix_identity_service.PeerAllowList.{
  PeerAllowList, Entry, whole, scoped, refused_entry, entry_of, is_text, get_scopes, with_scope,
  add_entry, add_entries, filled, parse_peer_allow_list, schema_services, service_of, in_scopes,
  permitted, drop_slashes, permits,
}

-- An entry by itself grants a method to a peer: it names the peer alone, or it names the peer with the
-- method or its service as the scope; an entry with a scope grants the services of the schema too.
abbrev pub grants_it : Text → Text → Entry → Bool
grants_it peer called (whole named) = text_eq named peer
grants_it peer called (scoped named scope) =
    text_eq named peer
    && (text_eq scope called
        || text_eq scope (service_of called)
        || any_where (is_text (service_of called)) schema_services)
grants_it peer called refused_entry = false

-- A peer that has the scopes of `found` already is permitted what they permit, and what the new scope
-- grants.
with_scope-permitted :
    (called scope : Text) (found : Option (Option (List Text)))
    → permitted called (some (with_scope scope found))
      ≡ (text_eq scope called
          || text_eq scope (service_of called)
          || any_where (is_text (service_of called)) schema_services)
        || permitted called found
unfolding permitted in_scopes
with_scope-permitted called scope none = ground arith
with_scope-permitted called scope (some none) = ground arith
with_scope-permitted called scope (some (some scopes)) = ground arith

scoped-permitted :
    (peer called named scope : Text) (grants : PeerAllowList)
    → permitted called
        (get_scopes peer ((named, with_scope scope (get_scopes named grants)) ∷ grants))
      ≡ grants_it peer called (scoped named scope) || permitted called (get_scopes peer grants)
unfolding get_scopes
scoped-permitted peer called named scope grants = elim (Bool-cases (text_eq named peer)) [
  | inr e ↦ rw e refl
  | inl e ↦
      let same : named ≡ peer = text_eq_sound named peer e in
      rw e (rw same (with_scope-permitted called scope (get_scopes peer grants)))
]

add_entry-permitted :
    (peer called : Text) (entry : Entry) (grants more : PeerAllowList)
    → add_entry entry grants ≡ some more
    → permitted called (get_scopes peer more)
      ≡ grants_it peer called entry || permitted called (get_scopes peer grants)
unfolding add_entry get_scopes permitted
add_entry-permitted peer called (whole named) grants more h =
    let same : more ≡ (named, none) ∷ grants = ground arith in rw same (ground arith)
add_entry-permitted peer called (scoped named scope) grants more h =
    let same : more ≡ (named, with_scope scope (get_scopes named grants)) ∷ grants = ground arith in
    rw same (scoped-permitted peer called named scope grants)
add_entry-permitted peer called refused_entry grants more h = ground arith

add_entries-permitted :
    (peer called : Text) (entries : List Text) (grants more : PeerAllowList)
    → add_entries entries (some grants) ≡ some more
    → permitted called (get_scopes peer more)
      ≡ any_where (λ entry. grants_it peer called (entry_of entry)) entries
        || permitted called (get_scopes peer grants)
unfolding add_entries
add_entries-permitted peer called [] grants more h = ground arith
add_entries-permitted peer called (entry ∷ entries) grants more h =
    elim (Option-cases (add_entry (entry_of entry) grants)) [
      | inl e ↦ ground (arith, e)
      | inr (next, e) ↦
          let run : add_entries entries (some next) ≡ some more = ground (arith, e) in
          ground (
            arith,
            add_entries-permitted peer called entries next more run,
            add_entry-permitted peer called (entry_of entry) grants next e,
          )
    ]

or_false : (b : Bool) → b || false ≡ b
or_false true = refl
or_false false = refl

-- A list of peers that is accepted permits a call if and only if one of its entries by itself grants it:
-- the order of the entries, and how often a peer is named, do not matter.
pub permits_any :
    (raw peer method : Text) (grants : PeerAllowList)
    → parse_peer_allow_list raw ≡ some grants
    → permits grants peer method
      ≡ any_where
          (λ entry. grants_it peer (drop_slashes method) (entry_of entry))
          (filled (split_on b',' raw))
unfolding parse_peer_allow_list permits permitted get_scopes
permits_any raw peer method grants h =
    add_entries-permitted peer (drop_slashes method) (filled (split_on b',' raw)) [] grants h
    ∙ or_false (
        any_where (λ entry. grants_it peer (drop_slashes method) (entry_of entry))
          (filled (split_on b',' raw)))
