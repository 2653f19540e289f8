-- ===== src/Auth/SignIn.antt =====
-- src/application/services/auth_usecase.service.ts: `login`, `verifyTwoFactor` and `register`.
use kinetix_identity_service.Prelude.{
  ℕ, String, Bool, true, false, Option, none, some, if◌then◌else◌, is_some,
}
use kinetix_identity_service.Prelude.Text.{Text}
use kinetix_identity_service.Crypto.{Crypto}
use kinetix_identity_service.Domain.{UserEntity, customer, requires_two_factor, normalised_email}
use kinetix_identity_service.Domain.SessionClient.{RequestClient}
use kinetix_identity_service.Jwt.{Claims}
use kinetix_identity_service.Tokens.{
  TokenService, refuse_spent_mfa_challenge, consume_mfa_challenge,
}
use kinetix_identity_service.Tokens.Issue.{issue_mfa_challenge, peek_mfa_challenge}
use kinetix_identity_service.Users
use kinetix_identity_service.Passkeys.{exists_for_user}
use kinetix_identity_service.Principals.{resolve_or_mint_for_user}
use kinetix_identity_service.SignInAttempts.{admit_challenge_attempt, failed}
use kinetix_identity_service.World.{
  Request, two_factor, wrong_code, unauthorized, conflict, ◌>>=◌, ◌>>◌, pure, throw, or_throw,
  throw_if, random_bytes,
}
use kinetix_identity_service.Auth.{
  AuthTokens, Enrolment, subject_of, usable_secret, checked_client, verify_password, step_of,
  accept_fresh, start_session, start_enrolment,
}

pub data SignInResult (Token : Type 0) : Type 0 where
  session : AuthTokens Token → SignInResult Token
  -- `mfaRequired`: the challenge's token, its life, and whether the account has a passkey.
  challenge : Token → ℕ → Bool → SignInResult Token
  enrolment : Enrolment Token → SignInResult Token

-- `OpenChallenge`
pub record OpenChallenge : Type 0 where
  pub claims : Claims
  pub user : UserEntity
  pub two_factor_secret : Text

abbrev pub secret_in_use : UserEntity → Option Text
secret_in_use user =
    if user.is_two_factor_enabled then usable_secret user.two_factor_secret else none

module _ (crypto : Crypto) {Token : Type 0} (service : TokenService Token) where
  unfoldable pub start_challenge : UserEntity → Request (SignInResult Token)
  start_challenge user = do
    principal ← resolve_or_mint_for_user (subject_of user)
    issued ← issue_mfa_challenge service (subject_of user) principal
    passkeys ← exists_for_user user.id
    pure (challenge issued.0 issued.1 passkeys)

  -- `isTwoFactorEnabled`, then `requiresTwoFactor(user.role)`
  unfoldable pub let_in :
      UserEntity → Option RequestClient → Bool → Bool → Request (SignInResult Token)
  let_in user client true owed = start_challenge user
  let_in user client false true = do
    started ← start_enrolment crypto service user client
    pure (enrolment started)
  let_in user client false false = do
    started ← start_session crypto service user client
    pure (session started)

  unfoldable pub admitted_by_password :
      UserEntity → Option RequestClient → Request (SignInResult Token)
  admitted_by_password user client =
      let_in user client user.is_two_factor_enabled (requires_two_factor user.role)

  unfoldable pub login : Text → String → Option RequestClient → Request (SignInResult Token)
  login email secret client = do
    user ← verify_password crypto email secret
    admitted_by_password user client

  unfoldable pub open_challenge : Token → Request OpenChallenge
  open_challenge token = do
    claims ← peek_mfa_challenge service token
    refuse_spent_mfa_challenge claims
    found ← Users.find_by_id claims.uid
    user ← or_throw found (unauthorized "CHALLENGE_INVALID")
    secret ← or_throw (secret_in_use user) (unauthorized "CHALLENGE_INVALID")
    pure (record { claims = claims; user = user; two_factor_secret = secret })

  unfoldable pub admit_answer : UserEntity → Claims → Request ℕ
  admit_answer user claims = do
    attempt ← admit_challenge_attempt crypto user.email claims.jti claims.exp
    or_throw attempt (unauthorized "CHALLENGE_EXHAUSTED")

  unfoldable pub answer_step :
      OpenChallenge → ℕ → Option RequestClient → Option ℕ → Request (AuthTokens Token)
  answer_step opened attempt client none = do
    failed crypto two_factor wrong_code opened.user.email (some opened.user) attempt
    throw (unauthorized "WRONG_CODE")
  answer_step opened attempt client (some step) = do
    consume_mfa_challenge opened.claims
    fresh ← Users.accept_two_factor_step opened.user.id step
    accept_fresh crypto opened.user attempt (unauthorized "CHALLENGE_SPENT") fresh
    start_session crypto service opened.user client

  unfoldable pub verify_two_factor :
      Token → Text → Option RequestClient → Request (AuthTokens Token)
  verify_two_factor token code client = do
    opened ← open_challenge token
    attempt ← admit_answer opened.user opened.claims
    step ← step_of crypto opened.two_factor_secret code
    answer_step opened attempt client step

  unfoldable pub register : Text → String → Option RequestClient → Request (AuthTokens Token)
  register given_email secret client = do
    checked_client client
    existing ← Users.find_by_email (normalised_email given_email)
    throw_if (is_some existing) (conflict "Email address is already registered")
    salt ← random_bytes
    saved ← Users.save (record {
      id = 0;
      email = normalised_email given_email;
      password_hash = crypto.bcrypt_hash secret 10 salt;
      role = customer;
      is_two_factor_enabled = false;
      two_factor_secret = none;
    })
    start_session crypto service saved client
