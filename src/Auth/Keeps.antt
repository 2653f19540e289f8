-- ===== src/Auth/Keeps.antt =====
-- What the start of a session leaves alone: the tables that are not of sessions and principals.
use kinetix_identity_service.Prelude.{ℕ, String, Option, none, some, ◌≡◌, arith, inl, inr}
use kinetix_identity_service.Crypto.{Crypto}
use kinetix_identity_service.Domain.{UserEntity}
use kinetix_identity_service.Domain.SessionClient.{RequestClient, client_name_of}
use kinetix_identity_service.Attempts.{clear_account_attempts}
use kinetix_identity_service.SignInAttempts.{succeeded}
use kinetix_identity_service.Tokens.{TokenService, TokenSubject}
use kinetix_identity_service.Tokens.Issue.{issue_pair, mint_pair, insert_refresh}
use kinetix_identity_service.Principals.{
  resolve_or_mint_for_user, resolve_existing, mint_principal, insert_principal, insert_alias,
  winner_or_rethrow, find_alias, sync_kind,
}
use kinetix_identity_service.World.{
  World, Outcome-cases, transaction, random_uuid, try_catch, catch_outcome,
}
use kinetix_identity_service.Auth.{signed_in, start_session, checked_client, subject_of}

-- The clock of the database and the tables of passkeys, applications, merchants and profiles.
abbrev pub Keeps : World → World → Type 0
Keeps w w' =
    (w'.db_now ≡ w.db_now)
    × (w'.passkeys ≡ w.passkeys)
    × (w'.passkey_challenges ≡ w.passkey_challenges)
    × (w'.courier_applications ≡ w.courier_applications)
    × (w'.merchant_verifications ≡ w.merchant_verifications)
    × (w'.merchants ≡ w.merchants)
    × (w'.profiles ≡ w.profiles)

pub resolve_or_mint_for_user-Keeps :
    (user : TokenSubject) (w : World) → Keeps w (resolve_or_mint_for_user user w).1
unfolding resolve_or_mint_for_user resolve_existing mint_principal transaction insert_principal
    insert_alias try_catch catch_outcome find_alias winner_or_rethrow random_uuid
resolve_or_mint_for_user-Keeps user w = ground arith

module _ (crypto : Crypto) {Token : Type 0} (service : TokenService Token) where
  signed_in-Keeps : (user : UserEntity) (w : World) → Keeps w (signed_in crypto service user w).1
  unfolding signed_in sync_kind succeeded clear_account_attempts
  signed_in-Keeps user w = ground (arith, resolve_or_mint_for_user-Keeps (subject_of user) w)

  issue_pair-Keeps :
      (user : TokenSubject) (principal : ℕ) (client : Option String) (w : World)
      → Keeps w (issue_pair service user principal client w).1
  unfolding issue_pair mint_pair insert_refresh random_uuid
  issue_pair-Keeps user principal client w = ground arith

  pub start_session-Keeps :
      (user : UserEntity) (client : Option RequestClient) (w : World)
      → Keeps w (start_session crypto service user client w).1
  unfolding start_session checked_client
  start_session-Keeps user none w = ground arith
  start_session-Keeps user (some client) w =
      elim (Outcome-cases (signed_in crypto service user w).0) [
        | inl (principal, e) ↦ ground (
          arith,
          signed_in-Keeps user w,
          issue_pair-Keeps (subject_of user) principal (client_name_of client)
              (signed_in crypto service user w).1,
        )
        | inr (failure, e) ↦ ground (arith, signed_in-Keeps user w)
      ]
