-- ===== src/Tokens.antt =====
-- src/application/services/token.service.ts: the operations on the tables of refresh tokens and of
-- revoked tokens.
-- Tokens/Issue.antt has those that sign and verify, and Tokens/Rotation.antt the rotation.
pub mod Issue
pub mod Rotation
pub mod Revoked
pub mod Live
pub mod Sessions
pub mod Verified
pub mod Replay
pub mod Renewed
use kinetix_identity_service.Prelude.{
  ℕ, ◌+◌, ◌*◌, ◌/◌, String, Bool, true, false, ◌&&◌, ◌||◌, not, Option, none, some, List, [], ◌∷◌,
  ltb, ◌==◌, if◌then◌else◌, is_none,
}
use kinetix_identity_service.Prelude.Tables.{
  find_where, any_where, count_where, update_where, delete_where,
}
use kinetix_identity_service.Prelude.Text.{Text}
use kinetix_identity_service.Domain.{UserRole}
use kinetix_identity_service.Jwt.{
  Jwt, JwtKeys, Claims, TokenUse, access, refresh, mfa_challenge, mfa_enrolment, Payload, refused,
  text_payload, object, verification_key,
}
use kinetix_identity_service.World.{
  World, Request, Done, RefreshToken, RevokedAccessToken, unauthorized, internal, ◌>>=◌, ◌>>◌, pure,
  throw, gets, modify, or_throw, throw_if, random_uuid,
}

abbrev pub mfa_challenge_ttl_seconds : ℕ
mfa_challenge_ttl_seconds = 300

abbrev pub mfa_enrolment_ttl_seconds : ℕ
mfa_enrolment_ttl_seconds = 600

pub record TokenSubject : Type 0 where
  pub id : ℕ
  pub email : Text
  pub role : UserRole

pub record TokenPair (Token : Type 0) : Type 0 where
  pub access_token : Token
  pub refresh_token : Token
  pub expires_in : ℕ

-- The service's fields, and the package that it signs with.
pub record TokenService (Token : Type 0) : Type 0 where
  pub jwt : Jwt Token
  pub keys : JwtKeys
  pub issuer : String
  pub audience : String
  pub access_ttl_seconds : ℕ
  pub refresh_ttl_seconds : ℕ

abbrev pub is_access : TokenUse → Bool
is_access access = true
is_access _ = false

abbrev pub is_refresh : TokenUse → Bool
is_refresh refresh = true
is_refresh _ = false

abbrev pub is_challenge : TokenUse → Bool
is_challenge mfa_challenge = true
is_challenge _ = false

abbrev pub is_enrolment : TokenUse → Bool
is_enrolment mfa_enrolment = true
is_enrolment _ = false

-- `Math.floor(Date.now() / 1000)`
abbrev pub now_seconds : World → ℕ
now_seconds w = w.app_now / 1000

abbrev pub with_jti : ℕ → RefreshToken → Bool
with_jti jti row = row.jti == jti

abbrev pub revokes : ℕ → RevokedAccessToken → Bool
revokes jti row = row.jti == jti

-- The conditions of the `update` calls: rows that are not revoked yet.
abbrev pub live_family : ℕ → RefreshToken → Bool
live_family family row = (row.family_id == family) && is_none row.revoked_at

abbrev pub live_principal : ℕ → RefreshToken → Bool
live_principal principal row = (row.principal_id == principal) && is_none row.revoked_at

abbrev pub live_other : ℕ → ℕ → RefreshToken → Bool
live_other principal kept row =
    (row.principal_id == principal) && not (row.family_id == kept) && is_none row.revoked_at

abbrev pub revoked_at_for : ℕ → String → RefreshToken → RefreshToken
revoked_at_for now reason row = record row { revoked_at = some now; revoked_reason = some reason }

-- An `update` of the rows that `which` selects.
unfoldable pub revoke_where : (RefreshToken → Bool) → String → Request Done
revoke_where which reason = modify (λ w. record w {
  refresh_tokens = update_where which (revoked_at_for w.app_now reason) w.refresh_tokens;
})

-- `revokeFamily`, and `revokeFamilyWith` inside a transaction
unfoldable pub revoke_family : ℕ → String → Request Done
revoke_family family reason = revoke_where (live_family family) reason

unfoldable pub revoke_all_families_for_principal : ℕ → String → Request Done
revoke_all_families_for_principal principal reason = revoke_where (live_principal principal) reason

unfoldable pub revoke_other_sessions : ℕ → Option ℕ → String → Request Done
revoke_other_sessions principal none reason = revoke_all_families_for_principal principal reason
revoke_other_sessions principal (some kept) reason = revoke_where (live_other principal kept) reason

-- The insert of a revoked `jti`; `false` is a violation of its unique key.
unfoldable pub record_revoked_jti : ℕ → ℕ → String → Request Bool
record_revoked_jti jti expires_at reason = do
  taken ← gets (λ w. any_where (revokes jti) w.revoked_tokens)
  if taken then pure false else do
    modify (λ w. record w {
      revoked_tokens =
          record { jti = jti; expires_at = expires_at; reason = reason } ∷ w.revoked_tokens;
    })
    pure true

unfoldable pub revoke_access_jti : ℕ → ℕ → String → Request Done
revoke_access_jti jti expires_at reason = do
  record_revoked_jti jti expires_at reason >>= λ _. pure tt

unfoldable pub end_enrolment : Claims → Request Done
end_enrolment claims = revoke_access_jti claims.jti (claims.exp * 1000) "two_factor_enrolled"

unfoldable pub logout : Claims → Option ℕ → Request Done
logout claims family = do
  revoke_access_jti claims.jti (claims.exp * 1000) "logout"
  elim family [
    | none ↦ revoke_all_families_for_principal claims.sub "logout"
    | some f ↦ revoke_family f "logout"
  ]

unfoldable pub consume_mfa_challenge : Claims → Request Done
consume_mfa_challenge claims = do
  consumed ← record_revoked_jti claims.jti (claims.exp * 1000) "mfa_challenge_used"
  throw_if (not consumed) (unauthorized "CHALLENGE_SPENT")

unfoldable pub refuse_spent_mfa_challenge : Claims → Request Done
refuse_spent_mfa_challenge claims = do
  spent ← gets (λ w. any_where (revokes claims.jti) w.revoked_tokens)
  throw_if spent (unauthorized "CHALLENGE_SPENT")

unfoldable pub refuse_revoked : Claims → Request Done
refuse_revoked claims = do
  revoked ← gets (λ w. any_where (revokes claims.jti) w.revoked_tokens)
  throw_if revoked (unauthorized "This token has been revoked")

abbrev pub is_past : ℕ → RevokedAccessToken → Bool
is_past now row = ltb row.expires_at now

unfoldable pub sweep_expired_revocations : Request ℕ
sweep_expired_revocations = do
  affected ← gets (λ w. count_where (is_past w.app_now) w.revoked_tokens)
  modify (λ w. record w { revoked_tokens = delete_where (is_past w.app_now) w.revoked_tokens })
  pure affected
