-- ===== src/Auth/Proved/Enabling.antt =====
-- What an account has shown before it turns its second factor on.
use kinetix_identity_service.Prelude.{
  ℕ, String, Bool, true, false, Option, none, some, ◌≡◌, refl, arith, inl, inr, Option-cases,
}
use kinetix_identity_service.Prelude.Text.{Text}
use kinetix_identity_service.Crypto.{Crypto}
use kinetix_identity_service.Domain.{UserEntity}
use kinetix_identity_service.Jwt.{Claims}
use kinetix_identity_service.Tokens.{is_enrolment}
use kinetix_identity_service.SignInAttempts.{admit}
use kinetix_identity_service.World.{World, ok, Outcome-cases}
use kinetix_identity_service.Auth.{
  usable_secret, own_account, password_to_confirm, asked_password, check_password, accept_code,
}
use kinetix_identity_service.Auth.Password.{admit-users}
use kinetix_identity_service.Auth.TwoFactor.{proved_to_enable, check_if_given}
use kinetix_identity_service.Auth.Proved.{
  Proved, own_account-ok, admit-clock, admit-sessions, with_code, passed,
}

module _ (crypto : Crypto) where
  -- The password that the caller has to give is the account's; an enrolment gives none.
  abbrev pub confirms_for : Bool → Option String → String → Bool
  confirms_for true given hash = true
  confirms_for false none hash = false
  confirms_for false (some secret) hash = crypto.bcrypt_compare secret hash

  abbrev pub confirms : Claims → Option String → String → Bool
  confirms claims = confirms_for (is_enrolment claims.token_use)

  asked_password-pure :
      (enrols : Bool) (given : Option String) (w : World) → (asked_password enrols given w).1 ≡ w
  unfolding asked_password
  asked_password-pure true given w = refl
  asked_password-pure false none w = refl
  asked_password-pure false (some secret) w = refl

  password_to_confirm-pure :
      (claims : Claims) (given : Option String) (w : World)
      → (password_to_confirm claims given w).1 ≡ w
  unfolding password_to_confirm
  password_to_confirm-pure claims given w =
      asked_password-pure (is_enrolment claims.token_use) given w

  -- A password that was asked for and checked.
  asked_password-ok :
      (enrols : Bool) (given confirmed : Option String) (user : UserEntity) (attempt : ℕ)
      (w w1 : World)
      → (asked_password enrols given w).0 ≡ ok confirmed
      → (check_if_given crypto user attempt confirmed w1).0 ≡ ok tt
      → (confirms_for enrols given user.password_hash ≡ true)
        × ((check_if_given crypto user attempt confirmed w1).1 ≡ w1)
  unfolding asked_password check_if_given check_password
  asked_password-ok true given none user attempt w w1 h k = (refl, refl)
  asked_password-ok true given (some secret) user attempt w w1 h k = ground arith
  asked_password-ok false none confirmed user attempt w w1 h k = ground arith
  asked_password-ok false (some s) none user attempt w w1 h k = ground arith
  asked_password-ok false (some s) (some secret) user attempt w w1 h k = ground arith

  check_if_given-ok :
      (claims : Claims) (given confirmed : Option String) (user : UserEntity) (attempt : ℕ)
      (w w1 : World)
      → (password_to_confirm claims given w).0 ≡ ok confirmed
      → (check_if_given crypto user attempt confirmed w1).0 ≡ ok tt
      → (confirms claims given user.password_hash ≡ true)
        × ((check_if_given crypto user attempt confirmed w1).1 ≡ w1)
  unfolding password_to_confirm
  check_if_given-ok claims given confirmed user attempt w w1 =
      asked_password-ok (is_enrolment claims.token_use) given confirmed user attempt w w1

  pub proved_to_enable-Proved :
      (claims : Claims) (user_id : ℕ) (given : Option String) (code : Text) (user : UserEntity)
      (w : World)
      → let run = proved_to_enable crypto claims user_id given code w in
        run.0 ≡ ok user
        → (confirms claims given user.password_hash ≡ true)
          × Proved crypto claims user_id
              (λ (u : UserEntity). usable_secret u.two_factor_secret)
              code
              user
              w
              run.1
  unfolding proved_to_enable
  proved_to_enable-Proved claims user_id given code user w h =
      elim (Outcome-cases (own_account claims user_id w).0) [
        | inl (u, e) ↦
            let own = own_account-ok claims user_id u w e in
            let asks = password_to_confirm-pure claims given w in
            let w1 = (admit crypto u.email w).1 in
            elim (Outcome-cases (password_to_confirm claims given w).0) [
              | inl (confirmed, c) ↦ elim (Outcome-cases (admit crypto u.email w).0) [
                | inl (n, a) ↦ elim (Outcome-cases (check_if_given crypto u n confirmed w1).0) [
                  | inl (checked, k) ↦
                      let passes = check_if_given-ok claims given confirmed u n w w1 c k in
                      elim (Option-cases (usable_secret u.two_factor_secret)) [
                        | inl missing ↦ ground (arith, own, asks, passes)
                        | inr (secret, s) ↦
                            elim (Outcome-cases (accept_code crypto u secret code n w1).0) [
                              | inl (done, e'') ↦
                                  let w2 = (accept_code crypto u secret code n w1).1 in
                                  let run : proved_to_enable crypto claims user_id given code w
                                      ≡ (ok u, w2) =
                                    ground (arith, own, asks, passes) in
                                  passed crypto claims user_id
                                    (λ (x : UserEntity). usable_secret x.two_factor_secret) code u
                                    user (confirms claims given) w w2 _ run h passes.0
                                    (with_code crypto claims user_id
                                      (λ (x : UserEntity). usable_secret x.two_factor_secret) code u
                                      secret n w w1 e s (admit-users crypto u.email w)
                                      (admit-clock crypto u.email w)
                                      (admit-sessions crypto u.email w) e'')
                              | inr (failure, e'') ↦ ground (arith, own, asks, passes)
                            ]
                      ]
                  | inr (failure, k) ↦ ground (arith, own, asks)
                ]
                | inr (failure, a) ↦ ground (arith, own, asks)
              ]
              | inr (failure, c) ↦ ground (arith, own, asks)
            ]
        | inr (failure, e) ↦ ground arith
      ]
