-- ===== src/Tokens/Revoked.antt =====
-- What an insert into the table of revoked tokens comes to.
use kinetix_identity_service.Prelude.{ℕ, ◌≡◌, String, Bool, true, false, ◌∷◌, arith, if◌then◌else◌}
use kinetix_identity_service.Prelude.Tables.{any_where}
use kinetix_identity_service.World.{World, ok}
use kinetix_identity_service.Tokens.{revokes, record_revoked_jti, revoke_access_jti}

abbrev pub is_revoked : ℕ → World → Bool
is_revoked jti w = any_where (revokes jti) w.revoked_tokens

abbrev pub revoking : ℕ → ℕ → String → World → World
revoking jti expires_at reason w = record w {
  revoked_tokens =
      record { jti = jti; expires_at = expires_at; reason = reason } ∷ w.revoked_tokens;
}

pub record_revoked_jti_lem :
    (jti expires_at : ℕ) (reason : String) (w : World)
    → record_revoked_jti jti expires_at reason w
      ≡ (if is_revoked jti w then (ok false, w) else (ok true, revoking jti expires_at reason w))
unfolding record_revoked_jti
record_revoked_jti_lem jti expires_at reason w = ground arith

pub revoke_access_jti_lem :
    (jti expires_at : ℕ) (reason : String) (w : World)
    → revoke_access_jti jti expires_at reason w
      ≡ (if is_revoked jti w then (ok tt, w) else (ok tt, revoking jti expires_at reason w))
unfolding revoke_access_jti
revoke_access_jti_lem jti expires_at reason w =
    ground (arith, record_revoked_jti_lem jti expires_at reason w)

pub revoke_access_jti-refresh_tokens :
    (jti expires_at : ℕ) (reason : String) (w : World)
    → (revoke_access_jti jti expires_at reason w).1.refresh_tokens ≡ w.refresh_tokens
revoke_access_jti-refresh_tokens jti expires_at reason w =
    ground (arith, revoke_access_jti_lem jti expires_at reason w)

pub revoke_access_jti-ok :
    (jti expires_at : ℕ) (reason : String) (w : World)
    → (revoke_access_jti jti expires_at reason w).0 ≡ ok tt
revoke_access_jti-ok jti expires_at reason w =
    ground (arith, revoke_access_jti_lem jti expires_at reason w)
