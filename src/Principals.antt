-- ===== src/Principals.antt =====
-- src/application/services/principal_resolver.service.ts: the principal that an account acts as. A
-- principal has an alias for each service that names it by an id of its own.
pub mod Resolve
use kinetix_identity_service.Prelude.{
  ℕ, String, Bool, true, false, ◌&&◌, not, Option, none, some, List, ◌∷◌, ◌==◌, if◌then◌else◌,
  str_eq,
}
use kinetix_identity_service.Prelude.Tables.{find_where, any_where, update_where}
use kinetix_identity_service.Prelude.Text.{Text}
use kinetix_identity_service.Domain.{UserRole, PrincipalKind, principal_kind_for_role}
use kinetix_identity_service.World.{
  World, Principal, PrincipalAlias, Request, Done, Failure, internal, ◌>>=◌, ◌>>◌, pure, throw,
  gets, modify, or_throw, throw_if, random_uuid, transaction, try_catch,
}
use kinetix_identity_service.Tokens.{TokenSubject}

abbrev pub alias_for : String → ℕ → PrincipalAlias → Bool
alias_for service local_id row = str_eq row.service service && (row.local_id == local_id)

abbrev pub alias_of : String → ℕ → PrincipalAlias → Bool
alias_of service principal row = str_eq row.service service && (row.principal_id == principal)

abbrev pub with_principal : ℕ → Principal → Bool
with_principal id row = row.id == id

-- The principal that the alias names.
unfoldable pub find_alias : String → ℕ → Request (Option PrincipalAlias)
find_alias service local_id = gets (λ w. find_where (alias_for service local_id) w.aliases)

-- Inserts, which the unique keys and the reference to the principal may refuse.
unfoldable pub insert_principal : PrincipalKind → Text → Request ℕ
insert_principal kind display_name = do
  id ← random_uuid
  taken ← gets (λ w. any_where (with_principal id) w.principals)
  throw_if taken (internal "duplicate key value violates unique constraint")
  modify (λ w. record w {
    principals = record { id = id; kind = kind; display_name = display_name } ∷ w.principals;
  })
  pure id

unfoldable pub insert_alias : ℕ → String → ℕ → Request Done
insert_alias principal service local_id = do
  taken ← gets (λ w. any_where (alias_for service local_id) w.aliases)
  throw_if taken (internal "duplicate key value violates unique constraint")
  known ← gets (λ w. any_where (with_principal principal) w.principals)
  throw_if (not known) (internal "insert violates foreign key constraint")
  modify (λ w. record w {
    aliases =
        record { principal_id = principal; service = service; local_id = local_id } ∷ w.aliases;
  })

unfoldable pub mint_principal : TokenSubject → Request ℕ
mint_principal user = transaction (do
  id ← insert_principal (principal_kind_for_role user.role) user.email
  insert_alias id "identity" user.id
  pure id)

-- What another request may have written meanwhile.
unfoldable pub winner_or_rethrow : ℕ → Failure → Request ℕ
winner_or_rethrow local_id cause = do
  winner ← find_alias "identity" local_id
  row ← or_throw winner cause
  pure row.principal_id

unfoldable pub resolve_existing : TokenSubject → Option PrincipalAlias → Request ℕ
resolve_existing user (some row) = pure row.principal_id
resolve_existing user none = try_catch (mint_principal user) (winner_or_rethrow user.id)

unfoldable pub resolve_or_mint_for_user : TokenSubject → Request ℕ
resolve_or_mint_for_user user = do
  existing ← find_alias "identity" user.id
  resolve_existing user existing

unfoldable pub principal_id_for_user : ℕ → Request (Option ℕ)
principal_id_for_user user_id = do
  row ← find_alias "identity" user_id
  pure (elim row [ none ↦ none | some r ↦ some r.principal_id ])

unfoldable pub user_id_for_principal : ℕ → Request (Option ℕ)
user_id_for_principal principal = do
  row ← gets (λ w. find_where (alias_of "identity" principal) w.aliases)
  pure (elim row [ none ↦ none | some r ↦ some r.local_id ])

unfoldable pub alias_or_refuse : ℕ → Option PrincipalAlias → Request Done
alias_or_refuse principal none = throw (internal "could not register alias")
alias_or_refuse principal (some row) =
    throw_if (not (row.principal_id == principal)) (internal "could not register alias")

unfoldable pub register_new_alias : ℕ → String → ℕ → Option PrincipalAlias → Request Done
register_new_alias principal service local_id (some row) =
    throw_if (not (row.principal_id == principal))
      (internal "already resolves to another principal; refusing to repoint it")
register_new_alias principal service local_id none =
    try_catch (insert_alias principal service local_id)
      (λ cause. do winner ← find_alias service local_id; alias_or_refuse principal winner)

unfoldable pub register_alias : ℕ → String → ℕ → Request Done
register_alias principal service local_id = do
  existing ← find_alias service local_id
  register_new_alias principal service local_id existing

unfoldable pub sync_kind : ℕ → UserRole → Request Done
sync_kind principal role = modify (λ w. record w {
  principals =
      update_where (with_principal principal)
        (λ row. record row { kind = principal_kind_for_role role }) w.principals;
})
