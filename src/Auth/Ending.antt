-- ===== src/Auth/Ending.antt =====
-- A change of the second factor ends the account's other sessions.
use kinetix_identity_service.Prelude.{
  ℕ, ◌*◌, String, Bool, true, false, not, ◌||◌, Option, none, some, ◌≡◌, ◌≢◌, refl, arith, inl, inr,
  Bool-cases, List, is_some, ◌==◌, holds,
}
use kinetix_identity_service.Prelude.Tables.{All, any_where, filter_where, filter-update}
use kinetix_identity_service.Prelude.Counts.{All-update}
use kinetix_identity_service.Domain.{UserEntity, requires_two_factor}
use kinetix_identity_service.Jwt.{Claims}
use kinetix_identity_service.Tokens.{
  is_enrolment, revokes, revoke_where, live_principal, live_other, revoked_at_for,
  revoke_other_sessions, revoke_all_families_for_principal, end_enrolment, revoke_access_jti,
  record_revoked_jti,
}
use kinetix_identity_service.World.{World, RefreshToken, Outcome, ok, Done, ◌>>◌}
use kinetix_identity_service.Auth.TwoFactor.{end_on_enable, end_on_disable}
use kinetix_identity_service.Tokens.Revoked.{revoke_access_jti-refresh_tokens, revoke_access_jti-ok}

-- Every session of the principal is revoked, except the one that is kept.
abbrev pub OnlyKept : ℕ → Option ℕ → List RefreshToken → Type 0
OnlyKept principal kept = All (λ row.
    row.principal_id ≡ principal → kept ≢ some row.family_id → is_some row.revoked_at ≡ true)

-- A token of another principal, or of the session that is kept.
abbrev pub is_spared : ℕ → Option ℕ → RefreshToken → Bool
is_spared principal kept row =
    not (row.principal_id == principal) || holds (λ family. row.family_id == family) kept

-- The tokens of other principals and of the session that is kept are as they were.
abbrev pub Spares : ℕ → Option ℕ → List RefreshToken → List RefreshToken → Type 0
Spares principal kept before after =
    filter_where (is_spared principal kept) after ≡ filter_where (is_spared principal kept) before

revoke_principal-Spares :
    (principal : ℕ) (reason : String) (w : World)
    → Spares principal none w.refresh_tokens
        (revoke_all_families_for_principal principal reason w).1.refresh_tokens
unfolding revoke_all_families_for_principal revoke_where
revoke_principal-Spares principal reason w =
    filter-update (is_spared principal none) (live_principal principal)
      (revoked_at_for w.app_now reason) w.refresh_tokens
      (λ row e. (ground (arith, e), ground (arith, e)))

pub revoke_other_sessions-Spares :
    (principal : ℕ) (kept : Option ℕ) (reason : String) (w : World)
    → Spares principal kept w.refresh_tokens
        (revoke_other_sessions principal kept reason w).1.refresh_tokens
unfolding revoke_other_sessions revoke_where
revoke_other_sessions-Spares principal none reason w = revoke_principal-Spares principal reason w
revoke_other_sessions-Spares principal (some family) reason w =
    filter-update (is_spared principal (some family)) (live_other principal family)
      (revoked_at_for w.app_now reason) w.refresh_tokens
      (λ row e. (ground (arith, e), ground (arith, e)))

-- The session that goes on: none if all of them end, and otherwise the caller's own.
abbrev pub kept_family : Bool → Claims → Option ℕ
kept_family true claims = none
kept_family false claims = claims.fam

revoke_principal-OnlyKept :
    (principal : ℕ) (kept : Option ℕ) (reason : String) (w : World)
    → OnlyKept principal kept
        (revoke_all_families_for_principal principal reason w).1.refresh_tokens
unfolding revoke_all_families_for_principal revoke_where
revoke_principal-OnlyKept principal kept reason w =
    All-update _ (live_principal principal) (revoked_at_for w.app_now reason) w.refresh_tokens
      (λ row e f g. refl) (λ row e f g. ground arith)

pub revoke_other_sessions-OnlyKept :
    (principal : ℕ) (kept : Option ℕ) (reason : String) (w : World)
    → OnlyKept principal kept (revoke_other_sessions principal kept reason w).1.refresh_tokens
unfolding revoke_other_sessions revoke_where
revoke_other_sessions-OnlyKept principal none reason w =
    revoke_principal-OnlyKept principal none reason w
revoke_other_sessions-OnlyKept principal (some family) reason w =
    All-update _ (live_other principal family) (revoked_at_for w.app_now reason) w.refresh_tokens
      (λ row e f g. refl)
      (λ row e f g. elim (Bool-cases (row.family_id == family)) [
        | inl same ↦ absurd (g (ground arith))
        | inr other ↦ ground arith
      ])

any_revokes-access :
    (jti expires_at : ℕ) (reason : String) (w : World)
    → any_where (revokes jti) (revoke_access_jti jti expires_at reason w).1.revoked_tokens ≡ true
unfolding revoke_access_jti record_revoked_jti
any_revokes-access jti expires_at reason w = ground arith

revoke_access_jti-users :
    (jti expires_at : ℕ) (reason : String) (w : World)
    → (revoke_access_jti jti expires_at reason w).1.users ≡ w.users
unfolding revoke_access_jti record_revoked_jti
revoke_access_jti-users jti expires_at reason w = ground arith

-- What ends when the second factor changes: it cannot fail, the sessions of the principal are
-- revoked but the one that is kept, which stays as it is with those of other principals, and so do the
-- accounts.
pub record Ends (all : Bool) (claims : Claims) (w : World) (run : Outcome Done × World)
    : Type 0 where
  pub succeeds : run.0 ≡ ok tt
  pub only_kept : OnlyKept claims.sub (kept_family all claims) run.1.refresh_tokens
  pub spares : Spares claims.sub (kept_family all claims) w.refresh_tokens run.1.refresh_tokens
  pub same_users : run.1.users ≡ w.users
  pub is_token_over : not all || any_where (revokes claims.jti) run.1.revoked_tokens ≡ true

ended_all :
    (claims : Claims) (all access : String) (w : World)
    → Ends true claims w (
        (revoke_all_families_for_principal claims.sub all
            >> revoke_access_jti claims.jti (claims.exp * 1000) access)
          w)
unfolding revoke_all_families_for_principal revoke_where
ended_all claims all access w =
    let w1 = (revoke_all_families_for_principal claims.sub all w).1 in
    let tokens = revoke_access_jti-refresh_tokens claims.jti (claims.exp * 1000) access w1 in
    record {
      succeeds = revoke_access_jti-ok claims.jti (claims.exp * 1000) access w1;
      only_kept = rw tokens (revoke_principal-OnlyKept claims.sub none all w);
      spares = rw tokens (revoke_principal-Spares claims.sub all w);
      same_users = revoke_access_jti-users claims.jti (claims.exp * 1000) access w1;
      is_token_over = any_revokes-access claims.jti (claims.exp * 1000) access w1;
    }

revoke_other_sessions-ok :
    (principal : ℕ) (kept : Option ℕ) (reason : String) (w : World)
    → let run = revoke_other_sessions principal kept reason w in
      (run.0 ≡ ok tt) × (run.1.users ≡ w.users)
unfolding revoke_other_sessions revoke_all_families_for_principal revoke_where
revoke_other_sessions-ok principal none reason w = (refl, refl)
revoke_other_sessions-ok principal (some family) reason w = (refl, refl)

ended_others :
    (claims : Claims) (reason : String) (w : World)
    → Ends false claims w (revoke_other_sessions claims.sub claims.fam reason w)
ended_others claims reason w =
    let run = revoke_other_sessions-ok claims.sub claims.fam reason w in
    record {
      succeeds = run.0;
      only_kept = revoke_other_sessions-OnlyKept claims.sub claims.fam reason w;
      spares = revoke_other_sessions-Spares claims.sub claims.fam reason w;
      same_users = run.1;
      is_token_over = refl;
    }

pub end_on_enable-Ends :
    (claims : Claims) (w : World)
    → Ends (is_enrolment claims.token_use) claims w (end_on_enable claims w)
unfolding end_on_enable end_enrolment
end_on_enable-Ends claims w = elim (Bool-cases (is_enrolment claims.token_use)) [
  | inl e ↦ rw e (ended_all claims "two_factor_enabled" "two_factor_enrolled" w)
  | inr e ↦ rw e (ended_others claims "two_factor_enabled" w)
]

pub end_on_disable-Ends :
    (user : UserEntity) (claims : Claims) (w : World)
    → Ends (requires_two_factor user.role) claims w (end_on_disable user claims w)
unfolding end_on_disable
end_on_disable-Ends user claims w = elim (Bool-cases (requires_two_factor user.role)) [
  | inl e ↦ rw e (ended_all claims "two_factor_disabled" "two_factor_disabled" w)
  | inr e ↦ rw e (ended_others claims "two_factor_disabled" w)
]
