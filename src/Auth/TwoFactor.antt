-- ===== src/Auth/TwoFactor.antt =====
-- src/application/services/auth_usecase.service.ts: `setupTwoFactor`, `enableTwoFactor` and
-- `disableTwoFactor`.
use kinetix_identity_service.Prelude.{
  ℕ, ◌*◌, String, true, false, Option, none, some, if◌then◌else◌,
}
use kinetix_identity_service.Prelude.Text.{Text}
use kinetix_identity_service.Crypto.{Crypto}
use kinetix_identity_service.Domain.{UserEntity, requires_two_factor}
use kinetix_identity_service.Jwt.{Claims}
use kinetix_identity_service.Totp.{generate_secret}
use kinetix_identity_service.Tokens.{
  is_enrolment, revoke_all_families_for_principal, revoke_other_sessions, end_enrolment,
  revoke_access_jti,
}
use kinetix_identity_service.Users
use kinetix_identity_service.SignInAttempts.{admit}
use kinetix_identity_service.World.{
  Request, Done, conflict, bad_request, ◌>>=◌, ◌>>◌, pure, or_throw, throw_if, random_bytes,
}
use kinetix_identity_service.Auth.{
  usable_secret, own_account, password_to_confirm, check_password, confirm_password, accept_code,
}
use kinetix_identity_service.Auth.SignIn.{secret_in_use}

-- What ends when an account turns its second factor on.
unfoldable pub end_on_enable : Claims → Request Done
end_on_enable claims =
    if is_enrolment claims.token_use
    then revoke_all_families_for_principal claims.sub "two_factor_enabled" >> end_enrolment claims
    else revoke_other_sessions claims.sub claims.fam "two_factor_enabled"

-- What ends when an account turns its second factor off.
unfoldable pub end_on_disable : UserEntity → Claims → Request Done
end_on_disable user claims =
    if requires_two_factor user.role
    then revoke_all_families_for_principal claims.sub "two_factor_disabled"
      >> revoke_access_jti claims.jti (claims.exp * 1000) "two_factor_disabled"
    else revoke_other_sessions claims.sub claims.fam "two_factor_disabled"

module _ (crypto : Crypto) where
  unfoldable pub confirm_if_given : UserEntity → Option String → Request Done
  confirm_if_given user none = pure tt
  confirm_if_given user (some secret) = confirm_password crypto user secret >>= λ _. pure tt

  unfoldable pub check_if_given : UserEntity → ℕ → Option String → Request Done
  check_if_given user attempt none = pure tt
  check_if_given user attempt (some secret) = check_password crypto user secret attempt

  -- The new secret, which the account does not use yet.
  unfoldable pub setup_two_factor : Claims → ℕ → Option String → Request Text
  setup_two_factor claims user_id given = do
    user ← own_account claims user_id
    confirmed ← password_to_confirm claims given
    confirm_if_given user confirmed
    throw_if user.is_two_factor_enabled
        (conflict "Two-factor authentication is already enabled for this account")
    drawn ← random_bytes
    Users.save (record user {
      two_factor_secret = some (generate_secret drawn);
      is_two_factor_enabled = false;
    })
    pure (generate_secret drawn)

  -- `enableTwoFactor` up to its accepted code
  unfoldable pub proved_to_enable : Claims → ℕ → Option String → Text → Request UserEntity
  proved_to_enable claims user_id given code = do
    user ← own_account claims user_id
    confirmed ← password_to_confirm claims given
    attempt ← admit crypto user.email
    check_if_given user attempt confirmed
    secret ←
        or_throw (usable_secret user.two_factor_secret)
          (bad_request "Request a two-factor secret before enabling it")
    accept_code crypto user secret code attempt
    pure user

  unfoldable pub enable_two_factor : Claims → ℕ → Option String → Text → Request Done
  enable_two_factor claims user_id given code = do
    user ← proved_to_enable claims user_id given code
    end_on_enable claims
    Users.save (record user { is_two_factor_enabled = true })
    pure tt

  -- `disableTwoFactor` up to its accepted code
  unfoldable pub proved_to_disable : Claims → ℕ → String → Text → Request UserEntity
  proved_to_disable claims user_id given code = do
    user ← own_account claims user_id
    attempt ← confirm_password crypto user given
    secret ←
        or_throw (secret_in_use user)
          (conflict "Two-factor authentication is not enabled for this account")
    accept_code crypto user secret code attempt
    pure user

  unfoldable pub disable_two_factor : Claims → ℕ → String → Text → Request Done
  disable_two_factor claims user_id given code = do
    user ← proved_to_disable claims user_id given code
    end_on_disable user claims
    Users.save (record user { is_two_factor_enabled = false; two_factor_secret = none })
    pure tt
