-- ===== src/Auth.antt =====
-- src/application/services/auth_usecase.service.ts: the checks that the sign-in operations share, and
-- the start of a session.
-- Auth/SignIn.antt has the operations that sign in, Auth/Renewal.antt those on a session, and
-- Auth/TwoFactor.antt those on the second factor.
pub mod SignIn
pub mod Renewal
pub mod TwoFactor
pub mod Password
pub mod Frame
pub mod Keeps
pub mod Login
pub mod Challenge
pub mod Answer
pub mod Guard
pub mod Ending
pub mod Proved
pub mod Switch
use kinetix_identity_service.Prelude.{
  ℕ, String, Bool, true, false, ◌&&◌, not, Option, none, some, List, [], ◌∷◌, ◌==◌, if◌then◌else◌,
}
use kinetix_identity_service.Prelude.Text.{Text}
use kinetix_identity_service.Crypto.{Crypto}
use kinetix_identity_service.Domain.{UserEntity, UserRole, requires_two_factor, normalised_email}
use kinetix_identity_service.Domain.SessionClient.{RequestClient, client_name_of}
use kinetix_identity_service.Jwt.{Claims}
use kinetix_identity_service.Totp.{accepted_step}
use kinetix_identity_service.Tokens.{TokenService, TokenSubject, TokenPair, is_enrolment}
use kinetix_identity_service.Tokens.Issue.{issue_pair, issue_enrolment}
use kinetix_identity_service.Users
use kinetix_identity_service.Principals.{resolve_or_mint_for_user, sync_kind}
use kinetix_identity_service.SignInAttempts.{admit, failed, succeeded}
use kinetix_identity_service.World.{
  World, Request, Outcome, ok, err, Done, Failure, SignInStage, password, two_factor,
  unknown_account, wrong_password, wrong_code, code_reused, unauthorized, forbidden, not_found,
  bad_request, unprocessable, internal, ◌>>=◌, ◌>>◌, pure, throw, gets, or_throw, throw_if,
}

-- `AuthTokenOutputDto`
pub record AuthTokens (Token : Type 0) : Type 0 where
  pub access_token : Token
  pub refresh_token : Token
  pub expires_in : ℕ
  pub user : TokenSubject
  pub principal_id : ℕ

pub record Enrolment (Token : Type 0) : Type 0 where
  pub enrolment_token : Token
  pub expires_in : ℕ
  pub user_id : ℕ

-- `{ id: user.id, email: user.email, role: user.role }`
abbrev pub subject_of : UserEntity → TokenSubject
subject_of user = record { id = user.id; email = user.email; role = user.role }

-- A secret that is set and not empty.
abbrev pub usable_secret : Option Text → Option Text
usable_secret (some (c ∷ s)) = some (c ∷ s)
usable_secret _ = none

abbrev pub unknown_account_hash : String
unknown_account_hash = "$2b$10$invalidinvalidinvalidinvalidinvalidinvalidinvalidinvalidinv"

abbrev pub bad_credentials : Failure
bad_credentials = unauthorized "Invalid email or password credentials"

-- `checkedClient` of src/domain/session_client.ts; `none` is a route that did not check its client.
unfoldable pub checked_client : Option RequestClient → Request RequestClient
checked_client client =
    or_throw client
      (internal "a session was started or renewed on a route that does not check its client")

unfoldable pub own_account : Claims → ℕ → Request UserEntity
own_account claims user_id = do
  throw_if (not (claims.uid == user_id))
      (forbidden "This account may only act on its own second factor")
  user ← Users.find_by_id user_id
  or_throw user (not_found "User not found")

-- Whether the caller enrols, and the password that it gave.
unfoldable pub asked_password : Bool → Option String → Request (Option String)
asked_password true given = pure none
asked_password false none = throw (bad_request "PASSWORD_REQUIRED")
asked_password false (some secret) = pure (some secret)

unfoldable pub password_to_confirm : Claims → Option String → Request (Option String)
password_to_confirm claims given = asked_password (is_enrolment claims.token_use) given

module _ (crypto : Crypto) where
  unfoldable pub check_password : UserEntity → String → ℕ → Request Done
  check_password user secret attempt =
      if crypto.bcrypt_compare secret user.password_hash then pure tt else do
        failed crypto password wrong_password user.email (some user) attempt
        throw bad_credentials

  unfoldable pub check_found : Text → String → ℕ → Option UserEntity → Request UserEntity
  check_found email secret attempt none = do
    failed crypto password unknown_account email none attempt
    throw bad_credentials
  check_found email secret attempt (some user) = do check_password user secret attempt; pure user

  -- `verifyPassword`; what `bcrypt.compare` answers for an unknown account is not used.
  unfoldable pub verify_password : Text → String → Request UserEntity
  verify_password given_email secret = do
    attempt ← admit crypto (normalised_email given_email)
    user ← Users.find_by_email (normalised_email given_email)
    check_found (normalised_email given_email) secret attempt user

  unfoldable pub confirm_password : UserEntity → String → Request ℕ
  confirm_password user secret = do
    attempt ← admit crypto user.email
    check_password user secret attempt
    pure attempt

  -- The step of a code, at the time of the request.
  unfoldable pub step_of : Text → Text → Request (Option ℕ)
  step_of secret code = do
    now ← gets (λ w. w.app_now)
    or_throw (accepted_step crypto secret code now) (internal "the code could not be computed")

  unfoldable pub accept_fresh : UserEntity → ℕ → Failure → Bool → Request Done
  accept_fresh user attempt refusal true = pure tt
  accept_fresh user attempt refusal false = do
    failed crypto two_factor code_reused user.email (some user) attempt
    throw refusal

  unfoldable pub accept_step : UserEntity → ℕ → Option ℕ → Request Done
  accept_step user attempt none = do
    failed crypto two_factor wrong_code user.email (some user) attempt
    throw (unprocessable "That code is not valid")
  accept_step user attempt (some step) = do
    fresh ← Users.accept_two_factor_step user.id step
    accept_fresh user attempt
        (unprocessable "That code has already been used; wait for the next one") fresh

  unfoldable pub accept_code : UserEntity → Text → Text → ℕ → Request Done
  accept_code user secret code attempt = do
    step ← step_of secret code
    accept_step user attempt step

module _ (crypto : Crypto) {Token : Type 0} (service : TokenService Token) where
  -- The principal of an account that has signed in.
  unfoldable pub signed_in : UserEntity → Request ℕ
  signed_in user = do
    principal ← resolve_or_mint_for_user (subject_of user)
    sync_kind principal user.role
    succeeded crypto user.email
    pure principal

  abbrev pub tokens_of : UserEntity → ℕ → TokenPair Token → AuthTokens Token
  tokens_of user principal pair = record {
    access_token = pair.access_token;
    refresh_token = pair.refresh_token;
    expires_in = pair.expires_in;
    user = subject_of user;
    principal_id = principal;
  }

  unfoldable pub start_session : UserEntity → Option RequestClient → Request (AuthTokens Token)
  start_session user request_client = do
    throw_if (requires_two_factor user.role && not user.is_two_factor_enabled)
        (internal "refusing to start a full session for an admin account with no second factor")
    client ← checked_client request_client
    principal ← signed_in user
    pair ← issue_pair service (subject_of user) principal (client_name_of client)
    pure (tokens_of user principal pair)

  unfoldable pub start_enrolment : UserEntity → Option RequestClient → Request (Enrolment Token)
  start_enrolment user request_client = do
    client ← checked_client request_client
    principal ← signed_in user
    enrolment ← issue_enrolment service (subject_of user) principal (client_name_of client)
    pure (record { enrolment_token = enrolment.0; expires_in = enrolment.1; user_id = user.id })
