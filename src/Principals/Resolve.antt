-- ===== src/Principals/Resolve.antt =====
-- An account keeps its principal, and an alias the principal that it names.
use kinetix_identity_service.Prelude.{
  ℕ, String, none, some, ◌∷◌, ◌≡◌, refl, arith, inl, inr, ◌==◌, if◌then◌else◌, Option-cases,
  Bool-cases, str_eq_refl, eq_iff, subst, sym,
}
use kinetix_identity_service.Prelude.Tables.{any_where, find_where}
use kinetix_identity_service.Prelude.Counts.{any_where-find}
use kinetix_identity_service.Tokens.{TokenSubject}
use kinetix_identity_service.World.{
  World, PrincipalAlias, internal, ok, err, transaction, try_catch, catch_outcome, random_uuid,
}
use kinetix_identity_service.Principals.{
  alias_for, with_principal, find_alias, resolve_or_mint_for_user, resolve_existing, mint_principal,
  insert_principal, insert_alias, winner_or_rethrow, principal_id_for_user, register_alias,
  register_new_alias, alias_or_refuse,
}

-- What an account resolves to is what its alias names afterwards.
pub resolve-principal_id :
    (user : TokenSubject) (principal : ℕ) (w : World)
    → (resolve_or_mint_for_user user w).0 ≡ ok principal
    → (principal_id_for_user user.id (resolve_or_mint_for_user user w).1).0 ≡ ok (some principal)
unfolding resolve_or_mint_for_user find_alias principal_id_for_user resolve_existing mint_principal
    transaction insert_principal insert_alias try_catch catch_outcome winner_or_rethrow random_uuid
resolve-principal_id user principal w h = ground (arith, str_eq_refl "identity")

pub principal_id-resolve :
    (user : TokenSubject) (principal : ℕ) (w : World)
    → (principal_id_for_user user.id w).0 ≡ ok (some principal)
    → resolve_or_mint_for_user user w ≡ (ok principal, w)
unfolding resolve_or_mint_for_user find_alias resolve_existing principal_id_for_user
principal_id-resolve user principal w h = ground arith

-- An account that resolves to a principal resolves to the same one in the state that this leaves, whatever its
-- e-mail address or role is then, and nothing changes.
pub resolve_twice :
    (user later : TokenSubject) (principal : ℕ) (w : World)
    → later.id ≡ user.id
    → (resolve_or_mint_for_user user w).0 ≡ ok principal
    → let w' = (resolve_or_mint_for_user user w).1 in
      resolve_or_mint_for_user later w' ≡ (ok principal, w')
resolve_twice user later principal w same h =
    let w' = (resolve_or_mint_for_user user w).1 in
    principal_id-resolve later principal w' (
      subst (λ (id : ℕ). (principal_id_for_user id w').0 ≡ ok (some principal)) (sym same)
        (resolve-principal_id user principal w h))

abbrev aliased : ℕ → String → ℕ → PrincipalAlias
aliased principal service local_id = record {
  principal_id = principal;
  service = service;
  local_id = local_id;
}

register_alias-new :
    (principal : ℕ) (service : String) (local_id : ℕ) (w : World)
    → find_where (alias_for service local_id) w.aliases ≡ none
    → register_alias principal service local_id w ≡ (
        if any_where (with_principal principal) w.principals
        then (ok tt, record w { aliases = aliased principal service local_id ∷ w.aliases })
        else (err (internal "could not register alias"), w))
unfolding register_alias register_new_alias find_alias insert_alias try_catch catch_outcome
    alias_or_refuse
register_alias-new principal service local_id w e =
    ground (arith, any_where-find (alias_for service local_id) w.aliases)

register_alias-old :
    (principal : ℕ) (service : String) (local_id : ℕ) (w : World) (row : PrincipalAlias)
    → find_where (alias_for service local_id) w.aliases ≡ some row
    → register_alias principal service local_id w ≡ (
      if row.principal_id == principal
          then ok tt
          else err (internal "already resolves to another principal; refusing to repoint it"),
      w,
    )
unfolding register_alias register_new_alias find_alias
register_alias-old principal service local_id w row e = ground arith

-- A registration never changes the principal that an alias names: a lookup that answered a row before
-- it answers the same row after it, whether it succeeds or not.
pub register_alias-keeps :
    (principal : ℕ) (service : String) (local_id : ℕ) (row : PrincipalAlias) (other : String)
    (other_id : ℕ) (w : World)
    → find_where (alias_for other other_id) w.aliases ≡ some row
    → find_where (alias_for other other_id) (register_alias principal service local_id w).1.aliases
      ≡ some row
register_alias-keeps principal service local_id row other other_id w h =
    elim (Option-cases (find_where (alias_for service local_id) w.aliases)) [
      | inl e ↦
          rw (register_alias-new principal service local_id w e)
            (elim (Bool-cases (any_where (with_principal principal) w.principals)) [
              | inr unknown ↦ ground arith
              | inl known ↦
                  elim (Bool-cases
                    (alias_for other other_id (aliased principal service local_id))) [
                      | inl same ↦
                          let facts : (service ≡ other) × (local_id ≡ other_id) =
                            ground (arith, eq_iff service other) in
                          let none_there : find_where (alias_for other other_id) w.aliases ≡ none =
                            subst
                              (λ (s : String). find_where (alias_for s other_id) w.aliases ≡ none)
                              facts.0
                              (subst (λ (n : ℕ). find_where (alias_for service n) w.aliases ≡ none)
                                facts.1 e) in
                          ground arith
                      | inr differs ↦ ground arith
                    ]
            ])
      | inr (old, e) ↦ rw (register_alias-old principal service local_id w old e) h
    ]

-- A registration that succeeds leaves the alias naming the principal that it was asked for.
pub register_alias-names :
    (principal : ℕ) (service : String) (local_id : ℕ) (w : World)
    → (register_alias principal service local_id w).0 ≡ ok tt
    → (row : PrincipalAlias) × (find_where
          (alias_for service local_id)
          (register_alias principal service local_id w).1.aliases
        ≡ some row)
      × (row.principal_id ≡ principal)
register_alias-names principal service local_id w h =
    elim (Option-cases (find_where (alias_for service local_id) w.aliases)) [
      | inl e ↦
          let lem = register_alias-new principal service local_id w e in
          (aliased principal service local_id, ground (arith, lem, str_eq_refl service), refl)
      | inr (old, e) ↦
          let lem = register_alias-old principal service local_id w old e in
          (old, rw lem e, ground (arith, lem))
    ]
