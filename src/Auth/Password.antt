-- ===== src/Auth/Password.antt =====
-- What a sign-in by password shows of the account that it lets in.
use kinetix_identity_service.Prelude.{
  refl, ℕ, String, true, Option, none, some, ◌≡◌, arith, inl, inr, false, ◌∷◌,
}
use kinetix_identity_service.Prelude.Text.{Text}
use kinetix_identity_service.Crypto.{Crypto}
use kinetix_identity_service.Domain.{UserEntity, normalised_email, is_admin}
use kinetix_identity_service.Domain.SignInPolicy.{admit_attempt}
use kinetix_identity_service.Attempts.Frame.{claim_account_attempt-frame}
use kinetix_identity_service.SignInAttempts.{account_key_of, admit, admitted_attempts, failed}
use kinetix_identity_service.Users.{find_by_email, entity_found, with_email}
use kinetix_identity_service.Prelude.Tables.{find_where}
use kinetix_identity_service.World.{
  World, ok, Outcome-cases, SignInFailure, Failure, password, unknown_account, wrong_password, err,
}
use kinetix_identity_service.Auth.{bad_credentials, check_password, check_found, verify_password}

module _ (crypto : Crypto) where
  pub check_found-ok :
      (email : Text) (secret : String) (attempt : ℕ) (found : Option UserEntity) (user : UserEntity)
      (w : World)
      → (check_found crypto email secret attempt found w).0 ≡ ok user
      → (found ≡ some user)
        × (crypto.bcrypt_compare secret user.password_hash ≡ true)
        × ((check_found crypto email secret attempt found w).1 ≡ w)
  unfolding check_found check_password
  check_found-ok email secret attempt none user w h = ground arith
  check_found-ok email secret attempt (some u) user w h = ground arith

  pub admit-users : (email : Text) (w : World) → (admit crypto email w).1.users ≡ w.users
  unfolding admit admitted_attempts
  admit-users email w =
      ground (arith, claim_account_attempt-frame (account_key_of crypto email) admit_attempt w)

  -- The account of a password that was accepted.
  pub verify_password-ok :
      (email : Text) (secret : String) (user : UserEntity) (w : World)
      → (verify_password crypto email secret w).0 ≡ ok user
      → (entity_found (find_where (with_email (normalised_email email)) w.users) ≡ some user)
        × (crypto.bcrypt_compare secret user.password_hash ≡ true)
  unfolding verify_password find_by_email
  verify_password-ok email secret user w h =
      let key = normalised_email email in
      elim (Outcome-cases (admit crypto key w).0) [
        | inl (attempt, e) ↦
            let w' = (admit crypto key w).1 in
            let found = entity_found (find_where (with_email key) w'.users) in
            ground (arith, admit-users key w, check_found-ok key secret attempt found user w')
        | inr (failure, e) ↦ ground arith
      ]

  admit-failures : (email : Text) (w : World) → (admit crypto email w).1.failures ≡ w.failures
  unfolding admit admitted_attempts
  admit-failures email w =
      ground (arith, claim_account_attempt-frame (account_key_of crypto email) admit_attempt w)

  -- The log line of a refused password: it names the account if there is one.
  abbrev pub refusal_line : Text → ℕ → Option UserEntity → SignInFailure
  refusal_line email attempt none = record {
    stage = password;
    reason = unknown_account;
    account_key = account_key_of crypto email;
    user_id = none;
    is_admin = false;
    attempts = attempt;
  }
  refusal_line email attempt (some user) = record {
    stage = password;
    reason = wrong_password;
    account_key = account_key_of crypto user.email;
    user_id = some user.id;
    is_admin = is_admin user.role;
    attempts = attempt;
  }

  check_found-err :
      (email : Text) (secret : String) (attempt : ℕ) (found : Option UserEntity) (failure : Failure)
      (w : World)
      → (check_found crypto email secret attempt found w).0 ≡ err failure
      → (failure ≡ bad_credentials)
        × ((check_found crypto email secret attempt found w).1.failures
            ≡ refusal_line email attempt found ∷ w.failures)
  unfolding check_found check_password failed
  check_found-err email secret attempt none failure w h = (ground arith, refl)
  check_found-err email secret attempt (some u) failure w h = (ground arith, ground arith)

  -- A password sign-in whose attempt was admitted and that fails, fails in the same way whether or not
  -- there is an account of the e-mail address, and writes one line to the log, with the number of the
  -- attempt, which tells the two cases apart.
  pub verify_password-err :
      (email : Text) (secret : String) (attempt : ℕ) (failure : Failure) (w : World)
      → (admit crypto (normalised_email email) w).0 ≡ ok attempt
      → (verify_password crypto email secret w).0 ≡ err failure
      → (failure ≡ bad_credentials)
        × ((verify_password crypto email secret w).1.failures
            ≡ refusal_line
                (normalised_email email)
                attempt
                (entity_found (find_where (with_email (normalised_email email)) w.users))
              ∷ w.failures)
  unfolding verify_password find_by_email
  verify_password-err email secret attempt failure w admitted h =
      let key = normalised_email email in
      let w' = (admit crypto key w).1 in
      let found = entity_found (find_where (with_email key) w'.users) in
      let refused = check_found-err key secret attempt found failure w' (ground arith) in
      ground (arith, refused, admit-users key w, admit-failures key w)
