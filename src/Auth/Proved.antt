-- ===== src/Auth/Proved.antt =====
-- What an account has shown before its second factor changes.
pub mod Enabling
use kinetix_identity_service.Prelude.{
  ℕ, String, Bool, true, false, Option, none, some, ◌≡◌, refl, arith, inl, inr, Option-cases, subst,
  sym, ◌∙◌,
}
use kinetix_identity_service.Prelude.Text.{Text}
use kinetix_identity_service.Prelude.Tables.{find_where, any_where, update_where}
use kinetix_identity_service.Crypto.{Crypto}
use kinetix_identity_service.Domain.{UserEntity}
use kinetix_identity_service.Jwt.{Claims}
use kinetix_identity_service.Totp.{accepted_step}
use kinetix_identity_service.Tokens.{is_enrolment}
use kinetix_identity_service.SignInAttempts.{admit, admitted_attempts, account_key_of}
use kinetix_identity_service.Attempts.Frame.{claim_account_attempt-frame}
use kinetix_identity_service.Domain.SignInPolicy.{admit_attempt}
use kinetix_identity_service.Users.{
  find_by_id, entity_found, with_id, accepts_step, stepped, accept_two_factor_step,
}
use kinetix_identity_service.Users.Saved.{any-found, any-stepped}
use kinetix_identity_service.World.{World, Outcome, ok, Outcome-cases}
use kinetix_identity_service.Auth.{
  usable_secret, own_account, password_to_confirm, asked_password, check_password, confirm_password,
  accept_code, step_of, accept_step, accept_fresh,
}
use kinetix_identity_service.Auth.Password.{admit-users}
use kinetix_identity_service.Auth.SignIn.{secret_in_use}
use kinetix_identity_service.Auth.TwoFactor.{proved_to_enable, proved_to_disable, check_if_given}

-- The caller's own account, and a code of its secret that it had not used yet; the account is still
-- there in the state that this leaves, which has the same sessions.
pub record Proved (crypto : Crypto) (claims : Claims) (user_id : ℕ)
    (secret_of : UserEntity → Option Text) (code : Text) (user : UserEntity) (w w' : World)
    : Type 0 where
  pub is_own : claims.uid ≡ user_id
  pub is_stored : entity_found (find_where (with_id user_id) w.users) ≡ some user
  pub secret : Text
  pub step : ℕ
  pub is_secret : secret_of user ≡ some secret
  pub is_code : accepted_step crypto secret code w.app_now ≡ some (some step)
  pub is_new : any_where (accepts_step user.id step) w.users ≡ true
  pub is_there : any_where (with_id user_id) w'.users ≡ true
  pub same_sessions : w'.refresh_tokens ≡ w.refresh_tokens

own_account-ok :
    (claims : Claims) (user_id : ℕ) (user : UserEntity) (w : World)
    → (own_account claims user_id w).0 ≡ ok user
    → (claims.uid ≡ user_id)
      × (entity_found (find_where (with_id user_id) w.users) ≡ some user)
      × ((own_account claims user_id w).1 ≡ w)
unfolding own_account find_by_id
own_account-ok claims user_id user w h = ground arith

module _ (crypto : Crypto) where
  admit-clock : (email : Text) (w : World) → (admit crypto email w).1.app_now ≡ w.app_now
  unfolding admit admitted_attempts
  admit-clock email w =
      ground (arith, claim_account_attempt-frame (account_key_of crypto email) admit_attempt w)

  admit-sessions :
      (email : Text) (w : World) → (admit crypto email w).1.refresh_tokens ≡ w.refresh_tokens
  unfolding admit admitted_attempts
  admit-sessions email w =
      ground (arith, claim_account_attempt-frame (account_key_of crypto email) admit_attempt w)

  accept_code-ok :
      (user : UserEntity) (secret code : Text) (attempt : ℕ) (w : World)
      → (accept_code crypto user secret code attempt w).0 ≡ ok tt
      → (step : ℕ) × (accepted_step crypto secret code w.app_now ≡ some (some step))
        × (any_where (accepts_step user.id step) w.users ≡ true)
        × ((accept_code crypto user secret code attempt w).1.users
            ≡ update_where (accepts_step user.id step) (stepped step) w.users)
        × ((accept_code crypto user secret code attempt w).1.refresh_tokens ≡ w.refresh_tokens)
  unfolding accept_code step_of accept_step accept_fresh accept_two_factor_step
  accept_code-ok user secret code attempt w h =
      elim (Option-cases (accepted_step crypto secret code w.app_now)) [
        | inl e ↦ ground arith
        | inr (none, e) ↦ ground arith
        | inr (some step, e) ↦ (step, e, ground arith, ground arith, ground arith)
      ]

  check_password-ok :
      (user : UserEntity) (given : String) (attempt : ℕ) (w : World)
      → (check_password crypto user given attempt w).0 ≡ ok tt
      → (crypto.bcrypt_compare given user.password_hash ≡ true)
        × ((check_password crypto user given attempt w).1 ≡ w)
  unfolding check_password
  check_password-ok user given attempt w h = ground arith

  confirm_password-ok :
      (user : UserEntity) (given : String) (attempt : ℕ) (w : World)
      → (confirm_password crypto user given w).0 ≡ ok attempt
      → (crypto.bcrypt_compare given user.password_hash ≡ true)
        × ((confirm_password crypto user given w).1.users ≡ w.users)
        × ((confirm_password crypto user given w).1.app_now ≡ w.app_now)
        × ((confirm_password crypto user given w).1.refresh_tokens ≡ w.refresh_tokens)
  unfolding confirm_password
  confirm_password-ok user given attempt w h = elim (Outcome-cases (admit crypto user.email w).0) [
    | inl (n, e) ↦
        let w1 = (admit crypto user.email w).1 in
        elim (Outcome-cases (check_password crypto user given n w1).0) [
          | inl (done, e') ↦ ground (
            arith,
            check_password-ok user given n w1,
            admit-users crypto user.email w,
            admit-clock user.email w,
            admit-sessions user.email w,
          )
          | inr (failure, e') ↦ ground arith
        ]
    | inr (failure, e) ↦ ground arith
  ]

  -- The code of an account in a state that has the same accounts and the same time.
  with_code :
      (claims : Claims) (user_id : ℕ) (secret_of : UserEntity → Option Text) (code : Text)
      (user : UserEntity) (secret : Text) (attempt : ℕ) (w w1 : World)
      → (own_account claims user_id w).0 ≡ ok user
      → secret_of user ≡ some secret
      → w1.users ≡ w.users
      → w1.app_now ≡ w.app_now
      → w1.refresh_tokens ≡ w.refresh_tokens
      → (accept_code crypto user secret code attempt w1).0 ≡ ok tt
      → Proved crypto claims user_id secret_of code user w
          (accept_code crypto user secret code attempt w1).1
  with_code claims user_id secret_of code user secret attempt w w1 own s same clock sessions h =
      let facts = own_account-ok claims user_id user w own in
      let used = accept_code-ok user secret code attempt w1 h in
      record {
        is_own = facts.0;
        is_stored = facts.1;
        secret = secret;
        step = used.0;
        is_secret = s;
        is_code = ground (arith, used.1);
        is_new = ground (arith, used.2);
        is_there = ground (
          arith,
          used.3,
          any-stepped user.id used.0 user_id w.users,
          any-found user_id user w.users facts.1,
        );
        same_sessions = used.4 ∙ sessions;
      }

  -- What holds of the account that a run answers, in the state that it leaves.
  passed :
      (claims : Claims) (user_id : ℕ) (secret_of : UserEntity → Option Text) (code : Text)
      (u user : UserEntity) (is_password : String → Bool) (w w2 : World)
      (run : Outcome UserEntity × World)
      → run ≡ (ok u, w2)
      → run.0 ≡ ok user
      → is_password u.password_hash ≡ true
      → Proved crypto claims user_id secret_of code u w w2
      → (is_password user.password_hash ≡ true)
        × Proved crypto claims user_id secret_of code user w run.1
  passed claims user_id secret_of code u user is_password w w2 run e h p proved =
      let same : u ≡ user = ground arith in
      subst
        (λ (x : UserEntity).
          (is_password x.password_hash ≡ true)
          × Proved crypto claims user_id secret_of code x w run.1)
        same
        (
          p,
          subst
              (λ (v : Outcome UserEntity × World).
                Proved crypto claims user_id secret_of code u w v.1)
              (sym e) proved,
        )

  pub proved_to_disable-Proved :
      (claims : Claims) (user_id : ℕ) (given : String) (code : Text) (user : UserEntity) (w : World)
      → let run = proved_to_disable crypto claims user_id given code w in
        run.0 ≡ ok user
        → (crypto.bcrypt_compare given user.password_hash ≡ true)
          × Proved crypto claims user_id secret_in_use code user w run.1
  unfolding proved_to_disable
  proved_to_disable-Proved claims user_id given code user w h =
      elim (Outcome-cases (own_account claims user_id w).0) [
        | inl (u, e) ↦
            let own = own_account-ok claims user_id u w e in
            elim (Outcome-cases (confirm_password crypto u given w).0) [
              | inl (n, e') ↦
                  let w1 = (confirm_password crypto u given w).1 in
                  elim (Option-cases (secret_in_use u)) [
                    | inl missing ↦ ground (arith, own)
                    | inr (secret, s) ↦
                        elim (Outcome-cases (accept_code crypto u secret code n w1).0) [
                          | inl (done, e'') ↦
                              let confirmed = confirm_password-ok u given n w e' in
                              let w2 = (accept_code crypto u secret code n w1).1 in
                              let run : proved_to_disable crypto claims user_id given code w
                                  ≡ (ok u, w2) =
                                ground (arith, own) in
                              passed claims user_id secret_in_use code u user
                                (crypto.bcrypt_compare given) w w2 _ run h confirmed.0
                                (with_code claims user_id secret_in_use code u secret n w w1 e s
                                  confirmed.1 confirmed.2 confirmed.3 e'')
                          | inr (failure, e'') ↦ ground (arith, own)
                        ]
                  ]
              | inr (failure, e') ↦ ground (arith, own)
            ]
        | inr (failure, e) ↦ ground arith
      ]
