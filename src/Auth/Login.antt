-- ===== src/Auth/Login.antt =====
-- Which account a login lets in, and how far.
use kinetix_identity_service.Prelude.{
  String, Bool, true, false, Option, none, some, ◌≡◌, refl, arith, inl, inr,
}
use kinetix_identity_service.Prelude.Text.{Text}
use kinetix_identity_service.Prelude.Tables.{find_where}
use kinetix_identity_service.Crypto.{Crypto}
use kinetix_identity_service.Domain.{UserEntity, is_admin, requires_two_factor, normalised_email}
use kinetix_identity_service.Domain.SessionClient.{RequestClient}
use kinetix_identity_service.Tokens.{TokenService}
use kinetix_identity_service.Tokens.Issue.{issue_mfa_challenge, issue_enrolment}
use kinetix_identity_service.Users.{entity_found, with_email}
use kinetix_identity_service.Passkeys.{exists_for_user}
use kinetix_identity_service.Principals.{resolve_or_mint_for_user}
use kinetix_identity_service.World.{World, ok, Outcome-cases, random_uuid}
use kinetix_identity_service.Auth.{
  Enrolment, subject_of, verify_password, start_session, start_enrolment, signed_in, checked_client,
}
use kinetix_identity_service.Auth.Password.{verify_password-ok}
use kinetix_identity_service.Auth.Frame.{start_session-ok}
use kinetix_identity_service.Auth.SignIn.{
  SignInResult, session, challenge, enrolment, login, admitted_by_password, let_in, start_challenge,
}

-- How far a sign-in by password takes an account: a session only where no second factor is in use
-- or owed, a challenge where one is in use, an enrolment where one is owed.
abbrev pub LetsIn : {Token : Type 0} → UserEntity → SignInResult Token → Type 0
LetsIn user (session tokens) =
    (user.is_two_factor_enabled ≡ false)
    × (is_admin user.role ≡ false)
    × (tokens.user ≡ subject_of user)
LetsIn user (challenge token life passkeys) = user.is_two_factor_enabled ≡ true
LetsIn user (enrolment started) =
    (user.is_two_factor_enabled ≡ false) × (is_admin user.role ≡ true) × (started.user_id ≡ user.id)

module _ (crypto : Crypto) {Token : Type 0} (service : TokenService Token) where
  start_enrolment-ok :
      (user : UserEntity) (client : Option RequestClient) (started : Enrolment Token) (w : World)
      → (start_enrolment crypto service user client w).0 ≡ ok started
      → started.user_id ≡ user.id
  unfolding start_enrolment checked_client issue_enrolment random_uuid
  start_enrolment-ok user none started w h = ground arith
  start_enrolment-ok user (some client) started w h =
      elim (Outcome-cases (signed_in crypto service user w).0) [
        | inl (principal, e) ↦ ground arith
        | inr (failure, e) ↦ ground arith
      ]

  start_challenge-ok :
      (user : UserEntity) (result : SignInResult Token) (w : World)
      → (start_challenge crypto service user w).0 ≡ ok result
      → user.is_two_factor_enabled ≡ true
      → LetsIn user result
  unfolding start_challenge exists_for_user issue_mfa_challenge random_uuid
  start_challenge-ok user (session tokens) w h enabled =
      elim (Outcome-cases (resolve_or_mint_for_user (subject_of user) w).0) [
        | inl (principal, e) ↦ ground arith
        | inr (failure, e) ↦ ground arith
      ]
  start_challenge-ok user (challenge token life passkeys) w h enabled = enabled
  start_challenge-ok user (enrolment started) w h enabled =
      elim (Outcome-cases (resolve_or_mint_for_user (subject_of user) w).0) [
        | inl (principal, e) ↦ ground arith
        | inr (failure, e) ↦ ground arith
      ]

  let_in-ok :
      (user : UserEntity) (client : Option RequestClient) (enabled owed : Bool)
      (result : SignInResult Token) (w : World)
      → user.is_two_factor_enabled ≡ enabled
      → is_admin user.role ≡ owed
      → (let_in crypto service user client enabled owed w).0 ≡ ok result
      → LetsIn user result
  unfolding let_in
  let_in-ok user client true owed result w e o h = start_challenge-ok user result w h e
  let_in-ok user client false true (session tokens) w e o h =
      elim (Outcome-cases (start_enrolment crypto service user client w).0) [
        | inl (made, e') ↦ ground arith
        | inr (failure, e') ↦ ground arith
      ]
  let_in-ok user client false true (challenge token life passkeys) w e o h =
      elim (Outcome-cases (start_enrolment crypto service user client w).0) [
        | inl (made, e') ↦ ground arith
        | inr (failure, e') ↦ ground arith
      ]
  let_in-ok user client false true (enrolment started) w e o h =
      elim (Outcome-cases (start_enrolment crypto service user client w).0) [
        | inl (made, e') ↦ ground (arith, start_enrolment-ok user client made w)
        | inr (failure, e') ↦ ground arith
      ]
  let_in-ok user client false false (session tokens) w e o h =
      elim (Outcome-cases (start_session crypto service user client w).0) [
        | inl (started, e') ↦ ground (arith, start_session-ok crypto service user client started w)
        | inr (failure, e') ↦ ground arith
      ]
  let_in-ok user client false false (challenge token life passkeys) w e o h =
      elim (Outcome-cases (start_session crypto service user client w).0) [
        | inl (started, e') ↦ ground arith
        | inr (failure, e') ↦ ground arith
      ]
  let_in-ok user client false false (enrolment made) w e o h =
      elim (Outcome-cases (start_session crypto service user client w).0) [
        | inl (started, e') ↦ ground arith
        | inr (failure, e') ↦ ground arith
      ]

  admitted_by_password-ok :
      (user : UserEntity) (client : Option RequestClient) (result : SignInResult Token) (w : World)
      → (admitted_by_password crypto service user client w).0 ≡ ok result
      → LetsIn user result
  unfolding admitted_by_password requires_two_factor
  admitted_by_password-ok user client result w h =
      let_in-ok user client user.is_two_factor_enabled (is_admin user.role) result w refl refl h

  -- A login succeeds only for a stored account of the e-mail address, whose password is the one given.
  -- It gives a full session only to an account with no second factor that needs none, a challenge
  -- only to one that uses its second factor, and an enrolment only to an admin with no second factor.
  pub login-LetsIn :
      (email : Text) (secret : String) (client : Option RequestClient) (result : SignInResult Token)
      (w : World)
      → (login crypto service email secret client w).0 ≡ ok result
      → (user : UserEntity) × (entity_found
            (find_where (with_email (normalised_email email)) w.users)
          ≡ some user)
        × (crypto.bcrypt_compare secret user.password_hash ≡ true)
        × LetsIn user result
  unfolding login
  login-LetsIn email secret client result w h =
      elim (Outcome-cases (verify_password crypto email secret w).0) [
        | inl (user, e) ↦
            let w' = (verify_password crypto email secret w).1 in
            let facts = verify_password-ok crypto email secret user w e in
            (user, facts.0, facts.1, admitted_by_password-ok user client result w' (ground arith))
        | inr (failure, e) ↦ ground arith
      ]
