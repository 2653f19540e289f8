-- ===== src/Auth/Switch.antt =====
-- `enableTwoFactor` and `disableTwoFactor` as a whole.
use kinetix_identity_service.Prelude.{
  ℕ, ◌<◌, String, Bool, true, false, not, ◌||◌, Option, none, some, ◌≡◌, arith, inl, inr, subst,
  sym,
}
use kinetix_identity_service.Prelude.Text.{Text}
use kinetix_identity_service.Prelude.Tables.{find_where, any_where}
use kinetix_identity_service.Crypto.{Crypto}
use kinetix_identity_service.Domain.{UserEntity, requires_two_factor}
use kinetix_identity_service.Jwt.{Claims}
use kinetix_identity_service.Tokens.{is_enrolment, revokes}
use kinetix_identity_service.Users.{save, entity_found, with_id}
use kinetix_identity_service.Users.Saved.{save-find, save-frame, any-found}
use kinetix_identity_service.World.{World, Request, Done, Outcome, ok, Outcome-cases, ◌>>◌, pure}
use kinetix_identity_service.Auth.{usable_secret}
use kinetix_identity_service.Auth.SignIn.{secret_in_use}
use kinetix_identity_service.Auth.Ending.{
  Ends, OnlyKept, Spares, kept_family, end_on_enable-Ends, end_on_disable-Ends,
}
use kinetix_identity_service.Auth.Proved.{Proved, proved_to_disable-Proved}
use kinetix_identity_service.Auth.Proved.Enabling.{confirms, proved_to_enable-Proved}
use kinetix_identity_service.Auth.TwoFactor.{
  end_on_enable, end_on_disable, proved_to_enable, enable_two_factor, proved_to_disable,
  disable_two_factor,
}

-- What a change of the second factor leaves: the account as it was changed, no other session of the
-- principal if `all` or else only the caller's, which is as it was, as are those of other principals,
-- and the caller's token revoked if `all`.
pub record Leaves (all : Bool) (claims : Claims) (user_id : ℕ) (user : UserEntity) (w w' : World)
    : Type 0 where
  pub is_stored : entity_found (find_where (with_id user_id) w'.users) ≡ some user
  pub only_kept : OnlyKept claims.sub (kept_family all claims) w'.refresh_tokens
  pub spares : Spares claims.sub (kept_family all claims) w.refresh_tokens w'.refresh_tokens
  pub is_token_over : not all || any_where (revokes claims.jti) w'.revoked_tokens ≡ true

-- The last steps of a change: sessions end, and the account is saved.
finish :
    (all : Bool) (claims : Claims) (user_id : ℕ) (user : UserEntity) (ending : Request Done)
    (start w : World)
    → 0 < user_id
    → user.id ≡ user_id
    → any_where (with_id user_id) w.users ≡ true
    → w.refresh_tokens ≡ start.refresh_tokens
    → Ends all claims w (ending w)
    → ((ending >> (save user >> pure tt)) w).0 ≡ ok tt
    → Leaves all claims user_id user start ((ending >> (save user >> pure tt)) w).1
finish all claims user_id user ending start w pos same there kept ends h =
    let w1 = (ending w).1 in
    elim (Outcome-cases (save user w1).0) [
      | inl (saved, e) ↦
          let frame = save-frame user w1 in
          let run : (ending >> (save user >> pure tt)) w ≡ (ok tt, (save user w1).1) =
            ground (arith, ends.succeeds) in
          let found : entity_found (find_where (with_id user_id) (save user w1).1.users)
              ≡ some user =
            subst
              (λ (n : ℕ). entity_found (find_where (with_id n) (save user w1).1.users) ≡ some user)
              same
              (save-find user saved w1 (omega (arith, same, pos))
                (subst (λ (n : ℕ). any_where (with_id n) w1.users ≡ true) (sym same)
                  (rw ends.same_users there))
                e) in
          rw run (record {
            is_stored = found;
            only_kept = rw frame.0 ends.only_kept;
            spares = rw (frame.0, ← kept) ends.spares;
            is_token_over = rw frame.1 ends.is_token_over;
          })
      | inr (failure, e) ↦ ground (arith, ends.succeeds)
    ]

module _ (crypto : Crypto) where
  -- Turning the second factor on succeeds only for the caller's own stored account, with its password
  -- unless the caller is enrolling, and with a code of its secret at a step that it had not used. It
  -- leaves the account, whose id is not 0, with the second factor on. Every session of the principal
  -- is revoked but the caller's own, and none is spared, and the caller's token is revoked, where the
  -- caller is enrolling. The tokens of the session that is spared, and those of other principals, are
  -- as they were.
  pub enable_two_factor-Leaves :
      (claims : Claims) (user_id : ℕ) (given : Option String) (code : Text) (w : World)
      → 0 < user_id
      → (enable_two_factor crypto claims user_id given code w).0 ≡ ok tt
      → let w' = (enable_two_factor crypto claims user_id given code w).1 in
        (user : UserEntity) × (w1 : World) × (confirms crypto claims given user.password_hash
          ≡ true)
        × Proved crypto claims user_id
            (λ (u : UserEntity). usable_secret u.two_factor_secret)
            code
            user
            w
            w1
        × Leaves
            (is_enrolment claims.token_use)
            claims
            user_id
            (record user { is_two_factor_enabled = true })
            w
            w'
  unfolding enable_two_factor
  enable_two_factor-Leaves claims user_id given code w pos h =
      elim (Outcome-cases (proved_to_enable crypto claims user_id given code w).0) [
        | inl (user, e) ↦
            let w1 = (proved_to_enable crypto claims user_id given code w).1 in
            let shown = proved_to_enable-Proved crypto claims user_id given code user w e in
            let on : UserEntity = record user { is_two_factor_enabled = true } in
            let rest : Outcome Done × World = (end_on_enable claims >> (save on >> pure tt)) w1 in
            let run : enable_two_factor crypto claims user_id given code w ≡ rest = ground arith in
            (
              user,
              w1,
              shown.0,
              shown.1,
              rw run (
                  finish (is_enrolment claims.token_use) claims user_id on (end_on_enable claims) w
                    w1 pos (any-found user_id user w.users shown.1.is_stored).0 shown.1.is_there
                    shown.1.same_sessions (end_on_enable-Ends claims w1) (ground (arith, run))),
            )
        | inr (failure, e) ↦ ground arith
      ]

  -- Turning the second factor off succeeds only for the caller's own stored account, with its password
  -- and a code of the secret that it uses, at a step that it had not used. It leaves the account,
  -- whose id is not 0, with no second factor and no secret. Every session of the principal is revoked
  -- but the caller's own, and none is spared, and the caller's token is revoked, where the account
  -- has to use a second factor. The tokens of the session that is spared, and those of other
  -- principals, are as they were.
  pub disable_two_factor-Leaves :
      (claims : Claims) (user_id : ℕ) (given : String) (code : Text) (w : World)
      → 0 < user_id
      → (disable_two_factor crypto claims user_id given code w).0 ≡ ok tt
      → let w' = (disable_two_factor crypto claims user_id given code w).1 in
        (user : UserEntity) × (w1 : World) × (crypto.bcrypt_compare given user.password_hash ≡ true)
        × Proved crypto claims user_id secret_in_use code user w w1
        × Leaves
            (requires_two_factor user.role)
            claims
            user_id
            (record user { is_two_factor_enabled = false; two_factor_secret = none })
            w
            w'
  unfolding disable_two_factor
  disable_two_factor-Leaves claims user_id given code w pos h =
      elim (Outcome-cases (proved_to_disable crypto claims user_id given code w).0) [
        | inl (user, e) ↦
            let w1 = (proved_to_disable crypto claims user_id given code w).1 in
            let shown = proved_to_disable-Proved crypto claims user_id given code user w e in
            let off : UserEntity = record user {
              is_two_factor_enabled = false;
              two_factor_secret = none;
            } in
            let rest : Outcome Done × World =
              (end_on_disable user claims >> (save off >> pure tt)) w1 in
            let run : disable_two_factor crypto claims user_id given code w ≡ rest = ground arith in
            (
              user,
              w1,
              shown.0,
              shown.1,
              rw run (
                  finish (requires_two_factor user.role) claims user_id off
                    (end_on_disable user claims) w w1 pos
                    (any-found user_id user w.users shown.1.is_stored).0 shown.1.is_there
                    shown.1.same_sessions (end_on_disable-Ends user claims w1)
                    (ground (arith, run))),
            )
        | inr (failure, e) ↦ ground arith
      ]
