-- ===== src/PasskeyUsecases.antt =====
-- src/application/services/passkey_usecase.service.ts: an account's passkeys, and the sign-in that
-- answers a challenge with one; and
-- src/infrastructure/webauthn/simple_webauthn_ceremony.adapter.ts, over what `@simplewebauthn/server`
-- answers.
pub mod SignIn
use kinetix_identity_service.Prelude.{
  ℕ, ◌*◌, String, Bool, true, false, not, Option, none, some, List, [], ◌∷◌, leb, ◌==◌, map,
}
use kinetix_identity_service.Prelude.Tables.{find_where, length}
use kinetix_identity_service.Prelude.Text.{Text, trim}
use kinetix_identity_service.Crypto.{Crypto}
use kinetix_identity_service.Domain.{UserEntity}
use kinetix_identity_service.Domain.SessionClient.{RequestClient}
use kinetix_identity_service.Jwt.{Claims}
use kinetix_identity_service.Passkeys
use kinetix_identity_service.Passkeys.{NewPasskey, PasskeyAddition, limit, duplicate, added}
use kinetix_identity_service.SignInAttempts.{failed}
use kinetix_identity_service.Tokens.{TokenService, consume_mfa_challenge}
use kinetix_identity_service.Users
use kinetix_identity_service.World.{
  World, Passkey, PasskeyDeviceType, Request, Done, SignInFailureReason, passkey, unknown_passkey,
  passkey_refused, no_passkey_challenge, sign_count_regressed, Failure, unauthorized, forbidden,
  not_found, conflict, bad_request, ◌>>=◌, ◌>>◌, pure, throw, throw_if, or_throw, random_bytes,
}
use kinetix_identity_service.Auth.{AuthTokens, confirm_password, start_session}
use kinetix_identity_service.Auth.SignIn.{OpenChallenge, open_challenge, admit_answer}

-- What a verification of the library comes to: it throws, or says whether the answer verified.
pub data Verification (A : Type 0) : Type 0 where
  thrown not_verified : Verification A
  verified : A → Verification A

-- `PasskeyCredential`, less its transports
pub record PasskeyCredential : Type 0 where
  pub credential_id : String
  pub public_key : List ℕ
  pub sign_count : ℕ
  pub device_type : PasskeyDeviceType
  pub backed_up : Bool

-- `authenticationInfo`: the new counter, and whether the credential is backed up.
pub record AuthenticationInfo : Type 0 where
  pub new_counter : ℕ
  pub backed_up : Bool

-- `RelyingParty`
pub record RelyingParty : Type 0 where
  pub name : String
  pub id : String
  pub origin : String

-- `@simplewebauthn/server`. Options draw their challenge from the random bytes; a user handle is the
-- principal's UUID, and a timeout in milliseconds.
pub record WebAuthn (Credential Options : Type 0) : Type 0 where
  pub registration_options : RelyingParty → ℕ → Text → List Passkey → ℕ → List ℕ → Options
  pub authentication_options : RelyingParty → List Passkey → ℕ → List ℕ → Options
  pub challenge_in : Options → String
  pub id_of : Credential → String
  pub verify_registration : RelyingParty → Credential → String → Verification PasskeyCredential
  pub verify_authentication :
      RelyingParty → Credential → String → Passkey → Verification AuthenticationInfo

-- `PasskeyAssertionOutcome`
pub data PasskeyAssertion : Type 0 where
  asserted : Passkey → AuthenticationInfo → PasskeyAssertion
  assertion_refused : SignInFailureReason → PasskeyAssertion

-- `PasskeyRegistrationOutcome`
pub data PasskeyRegistration : Type 0 where
  attested : PasskeyCredential → PasskeyRegistration
  attestation_refused : PasskeyRegistration

-- `PasskeyView`
pub record PasskeyView : Type 0 where
  pub id : ℕ
  pub credential_id : String
  pub name : Text
  pub created_at : ℕ
  pub last_used_at : Option ℕ
  pub device_type : PasskeyDeviceType
  pub backed_up : Bool

unfoldable pub view_of : Passkey → PasskeyView
view_of row = record {
  id = row.id;
  credential_id = row.credential_id;
  name = row.name;
  created_at = row.created_at;
  last_used_at = row.last_used_at;
  device_type = row.device_type;
  backed_up = row.backed_up;
}

abbrev pub passkeys_per_account : ℕ
passkeys_per_account = 10

abbrev pub registration_challenge_seconds : ℕ
registration_challenge_seconds = 300

abbrev pub sign_in_challenge_seconds : ℕ
sign_in_challenge_seconds = 120

abbrev pub limit_reached : Failure
limit_reached = conflict "PASSKEY_LIMIT"

-- `ownAccount`
unfoldable pub passkey_account : Claims → ℕ → Request UserEntity
passkey_account claims user_id = do
  throw_if (not (claims.uid == user_id))
      (forbidden "This account may only act on its own second factor")
  user ← Users.find_by_id user_id
  or_throw user (not_found "User not found")

unfoldable pub require_two_factor : UserEntity → Request Done
require_two_factor user = throw_if (not user.is_two_factor_enabled) (conflict "TWO_FACTOR_REQUIRED")

unfoldable pub list : Claims → ℕ → Request (List PasskeyView)
list claims user_id = do
  user ← passkey_account claims user_id
  held ← Passkeys.list_for_user user.id
  pure (map view_of held)

abbrev pub new_passkey : ℕ → Text → PasskeyCredential → NewPasskey
new_passkey user_id name credential = record {
  user_id = user_id;
  credential_id = credential.credential_id;
  public_key = credential.public_key;
  sign_count = credential.sign_count;
  device_type = credential.device_type;
  backed_up = credential.backed_up;
  name = name;
}

unfoldable pub added_or_refused : PasskeyAddition → Request PasskeyView
added_or_refused limit = throw limit_reached
added_or_refused duplicate = throw (conflict "PASSKEY_EXISTS")
added_or_refused (added row) = pure (view_of row)

module _ {Credential Options : Type 0} (webauthn : WebAuthn Credential Options)
    (party : RelyingParty) where
  unfoldable pub attestation_of : Verification PasskeyCredential → PasskeyRegistration
  attestation_of thrown = attestation_refused
  attestation_of not_verified = attestation_refused
  attestation_of (verified credential) = attested credential

  unfoldable pub verify_registration : Credential → String → PasskeyRegistration
  verify_registration credential expected =
      attestation_of (webauthn.verify_registration party credential expected)

  unfoldable pub assertion_of : Passkey → Verification AuthenticationInfo → PasskeyAssertion
  assertion_of row thrown = assertion_refused passkey_refused
  assertion_of row not_verified = assertion_refused passkey_refused
  assertion_of row (verified info) = asserted row info

  unfoldable pub assertion_by : Credential → String → Option Passkey → PasskeyAssertion
  assertion_by credential expected none = assertion_refused unknown_passkey
  assertion_by credential expected (some row) =
      assertion_of row (webauthn.verify_authentication party credential expected row)

  -- The ceremony's `verifySignIn`
  unfoldable pub verify_assertion : Credential → String → List Passkey → PasskeyAssertion
  verify_assertion credential expected held =
      assertion_by credential expected
        (find_where (Passkeys.with_credential (webauthn.id_of credential)) held)

  unfoldable pub add_attested : ℕ → Text → PasskeyRegistration → Request PasskeyView
  add_attested user_id name attestation_refused = throw (bad_request "PASSKEY_INVALID")
  add_attested user_id name (attested credential) = do
    addition ← Passkeys.add (new_passkey user_id (trim name) credential) passkeys_per_account
    added_or_refused addition

  unfoldable pub register : Claims → ℕ → ℕ → Credential → Text → Request PasskeyView
  register claims user_id challenge_id credential name = do
    user ← passkey_account claims user_id
    require_two_factor user
    spent ← Passkeys.spend_registration challenge_id user.id
    expected ← or_throw spent (bad_request "PASSKEY_CHALLENGE_INVALID")
    add_attested user.id name (verify_registration credential expected)

  unfoldable pub registration_options : Crypto → Claims → ℕ → String → Request (ℕ × Options)
  registration_options crypto claims user_id secret = do
    user ← passkey_account claims user_id
    confirm_password crypto user secret
    require_two_factor user
    held ← Passkeys.list_for_user user.id
    throw_if (leb passkeys_per_account (length held)) limit_reached
    drawn ← random_bytes
    let options =
        webauthn.registration_options party claims.sub user.email held
          (registration_challenge_seconds * 1000) drawn
    challenge_id ←
        Passkeys.issue_registration user.id (webauthn.challenge_in options)
          registration_challenge_seconds
    pure (challenge_id, options)

unfoldable pub remove : Crypto → Claims → ℕ → ℕ → String → Request Done
remove crypto claims user_id passkey_id secret = do
  user ← passkey_account claims user_id
  confirm_password crypto user secret
  removed ← Passkeys.remove user.id passkey_id
  throw_if (not removed) (not_found "PASSKEY_NOT_FOUND")

module _ (crypto : Crypto) {Token : Type 0} (service : TokenService Token)
    {Credential Options : Type 0} (webauthn : WebAuthn Credential Options)
    (party : RelyingParty) where
  unfoldable pub sign_in_options : Token → Request Options
  sign_in_options token = do
    opened ← open_challenge crypto service token
    held ← Passkeys.list_for_user opened.user.id
    throw_if (length held == 0) (conflict "NO_PASSKEYS")
    drawn ← random_bytes
    let options =
        webauthn.authentication_options party held (sign_in_challenge_seconds * 1000) drawn
    Passkeys.issue_sign_in opened.user.id opened.claims.jti (webauthn.challenge_in options)
        sign_in_challenge_seconds
    pure options

  unfoldable pub refused : {A : Type 0} → UserEntity → ℕ → SignInFailureReason → Request A
  refused user attempt reason = do
    failed crypto passkey reason user.email (some user) attempt
    throw (unauthorized "PASSKEY_REFUSED")

  unfoldable pub accept_use : UserEntity → ℕ → Bool → Request Done
  accept_use user attempt true = pure tt
  accept_use user attempt false = do
    failed crypto passkey sign_count_regressed user.email (some user) attempt
    throw (unauthorized "CHALLENGE_SPENT")

  unfoldable pub answer_assertion :
      OpenChallenge → ℕ → Option RequestClient → PasskeyAssertion → Request (AuthTokens Token)
  answer_assertion opened attempt client (assertion_refused reason) =
      refused opened.user attempt reason
  answer_assertion opened attempt client (asserted row info) = do
    consume_mfa_challenge opened.claims
    advanced ← Passkeys.record_use row.id info.new_counter info.backed_up
    accept_use opened.user attempt advanced
    start_session crypto service opened.user client

  unfoldable pub answer_challenge :
      OpenChallenge
      → ℕ
      → Credential
      → Option RequestClient
      → Option String
      → Request (AuthTokens Token)
  answer_challenge opened attempt credential client none =
      refused opened.user attempt no_passkey_challenge
  answer_challenge opened attempt credential client (some expected) = do
    held ← Passkeys.list_for_user opened.user.id
    answer_assertion opened attempt client
        (verify_assertion webauthn party credential expected held)

  unfoldable pub verify_sign_in :
      Token → Credential → Option RequestClient → Request (AuthTokens Token)
  verify_sign_in token credential client = do
    opened ← open_challenge crypto service token
    attempt ← admit_answer crypto service opened.user opened.claims
    expected ← Passkeys.spend_sign_in opened.claims.jti opened.user.id
    answer_challenge opened attempt credential client expected
