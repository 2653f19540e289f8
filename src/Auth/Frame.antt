-- ===== src/Auth/Frame.antt =====
-- What the start of a session leaves alone: the accounts, the revoked tokens and the clocks.
use kinetix_identity_service.Prelude.{
  ℕ, String, false, Option, none, some, ◌≡◌, arith, inl, inr, not, ◌&&◌,
}
use kinetix_identity_service.Crypto.{Crypto}
use kinetix_identity_service.Domain.{UserEntity, requires_two_factor}
use kinetix_identity_service.Domain.SessionClient.{RequestClient, client_name_of}
use kinetix_identity_service.Attempts.{clear_account_attempts}
use kinetix_identity_service.SignInAttempts.{succeeded}
use kinetix_identity_service.Tokens.{TokenService, TokenSubject}
use kinetix_identity_service.Tokens.Issue.{issue_pair, mint_pair, insert_refresh}
use kinetix_identity_service.Principals.{
  resolve_or_mint_for_user, resolve_existing, mint_principal, insert_principal, insert_alias,
  winner_or_rethrow, find_alias, sync_kind,
}
use kinetix_identity_service.World.{
  World, ok, Outcome-cases, transaction, random_uuid, try_catch, catch_outcome,
}
use kinetix_identity_service.Auth.{AuthTokens, signed_in, start_session, checked_client, subject_of}

pub resolve_or_mint_for_user-frame :
    (user : TokenSubject) (w : World)
    → let w' = (resolve_or_mint_for_user user w).1 in
      (w'.users ≡ w.users)
      × (w'.revoked_tokens ≡ w.revoked_tokens)
      × (w'.app_now ≡ w.app_now)
      × (w'.refresh_tokens ≡ w.refresh_tokens)
unfolding resolve_or_mint_for_user resolve_existing mint_principal transaction insert_principal
    insert_alias try_catch catch_outcome find_alias winner_or_rethrow random_uuid
resolve_or_mint_for_user-frame user w = ground arith

module _ (crypto : Crypto) {Token : Type 0} (service : TokenService Token) where
  pub signed_in-frame :
      (user : UserEntity) (w : World)
      → let w' = (signed_in crypto service user w).1 in
        (w'.users ≡ w.users)
        × (w'.revoked_tokens ≡ w.revoked_tokens)
        × (w'.app_now ≡ w.app_now)
        × (w'.refresh_tokens ≡ w.refresh_tokens)
  unfolding signed_in sync_kind succeeded clear_account_attempts
  signed_in-frame user w = ground (arith, resolve_or_mint_for_user-frame (subject_of user) w)

  pub issue_pair-frame :
      (user : TokenSubject) (principal : ℕ) (client : Option String) (w : World)
      → let w' = (issue_pair service user principal client w).1 in
        (w'.users ≡ w.users) × (w'.revoked_tokens ≡ w.revoked_tokens) × (w'.app_now ≡ w.app_now)
  unfolding issue_pair mint_pair insert_refresh random_uuid
  issue_pair-frame user principal client w = ground arith

  pub start_session-frame :
      (user : UserEntity) (client : Option RequestClient) (w : World)
      → let w' = (start_session crypto service user client w).1 in
        (w'.users ≡ w.users) × (w'.revoked_tokens ≡ w.revoked_tokens) × (w'.app_now ≡ w.app_now)
  unfolding start_session checked_client
  start_session-frame user none w = ground arith
  start_session-frame user (some client) w =
      elim (Outcome-cases (signed_in crypto service user w).0) [
        | inl (principal, e) ↦ ground (
          arith,
          signed_in-frame user w,
          issue_pair-frame (subject_of user) principal (client_name_of client)
              (signed_in crypto service user w).1,
        )
        | inr (failure, e) ↦ ground (arith, signed_in-frame user w)
      ]

  pub start_session-ok :
      (user : UserEntity) (client : Option RequestClient) (tokens : AuthTokens Token) (w : World)
      → (start_session crypto service user client w).0 ≡ ok tokens
      → (requires_two_factor user.role && not user.is_two_factor_enabled ≡ false)
        × (tokens.user ≡ subject_of user)
  unfolding start_session checked_client
  start_session-ok user none tokens w h = ground arith
  start_session-ok user (some client) tokens w h =
      elim (Outcome-cases (signed_in crypto service user w).0) [
        | inl (principal, e) ↦
            let w' = (signed_in crypto service user w).1 in
            elim (Outcome-cases
              (issue_pair service (subject_of user) principal (client_name_of client) w').0) [
                | inl (pair, e') ↦ ground arith
                | inr (failure, e') ↦ ground arith
              ]
        | inr (failure, e) ↦ ground arith
      ]
