-- ===== src/Tokens/Rotation.antt =====
-- src/application/services/token.service.ts: `rotate`.
use kinetix_identity_service.Prelude.{
  ℕ, String, Bool, true, false, not, Option, none, some, leb, if◌then◌else◌, is_some,
}
use kinetix_identity_service.Prelude.Tables.{find_where, update_where}
use kinetix_identity_service.Domain.SessionClient.{
  RequestClient, SessionClientDecision, bind, mismatch, session_client_decision, client_name_of,
}
use kinetix_identity_service.Jwt.{Claims}
use kinetix_identity_service.World.{
  Request, Done, RefreshToken, unauthorized, client_mismatch, ◌>>=◌, ◌>>◌, pure, throw, gets,
  modify, throw_if, transaction,
}
use kinetix_identity_service.Tokens.{
  TokenService, TokenSubject, TokenPair, is_refresh, with_jti, revoke_family,
}
use kinetix_identity_service.Tokens.Issue.{mint_pair, verify_signature}

pub data RotationOutcome (Token : Type 0) : Type 0 where
  rotated : TokenPair Token → Bool → RotationOutcome Token
  refused : String → RotationOutcome Token
  mismatched : Option String → RotationOutcome Token

-- `refreshTokens.save(stored)`, after its two assignments
unfoldable pub mark_used : ℕ → Option ℕ → Request Done
mark_used jti replacement = modify (λ w. record w {
  refresh_tokens =
      update_where (with_jti jti)
        (λ row. record row { used_at = some w.app_now; replaced_by_jti = replacement })
        w.refresh_tokens;
})

-- `stored.client ?? clientNameOf(client)`
abbrev pub session_client : Option String → RequestClient → Option String
session_client (some name) request = some name
session_client none request = client_name_of request

abbrev pub is_bind : SessionClientDecision → Bool
is_bind bind = true
is_bind _ = false

abbrev pub jti_of : Option Claims → Option ℕ
jti_of none = none
jti_of (some claims) = some claims.jti

module _ {Token : Type 0} (service : TokenService Token) where
  unfoldable pub renew :
      TokenSubject → RequestClient → RefreshToken → Bool → Request (RotationOutcome Token)
  renew user client stored bound = do
    pair ←
        mint_pair service user stored.principal_id stored.family_id
          (session_client stored.client client)
    mark_used stored.jti (jti_of (service.jwt.decode pair.refresh_token))
    pure (rotated pair bound)

  unfoldable pub decide_rotation :
      TokenSubject
      → RequestClient
      → RefreshToken
      → SessionClientDecision
      → Request (RotationOutcome Token)
  decide_rotation user client stored mismatch = pure (mismatched stored.client)
  decide_rotation user client stored decision = renew user client stored (is_bind decision)

  unfoldable pub rotate_stored :
      TokenSubject → RequestClient → RefreshToken → Request (RotationOutcome Token)
  rotate_stored user client stored =
      if is_some stored.revoked_at
      then pure (refused "This refresh token has been revoked")
      else if is_some stored.used_at
      then revoke_family stored.family_id "rotation_reuse"
        >> pure (refused "This refresh token has already been used; the session has been revoked")
      else do
        now ← gets (λ w. w.app_now)
        if leb stored.expires_at now
            then pure (refused "This refresh token has expired")
            else decide_rotation user client stored (session_client_decision stored.client client)

  unfoldable pub rotate_found :
      TokenSubject → RequestClient → Option RefreshToken → Request (RotationOutcome Token)
  rotate_found user client none = pure (refused "This refresh token is not recognised")
  rotate_found user client (some stored) = rotate_stored user client stored

  unfoldable pub rotate_jti : ℕ → TokenSubject → RequestClient → Request (RotationOutcome Token)
  rotate_jti jti user client = transaction (do
    stored ← gets (λ w. find_where (with_jti jti) w.refresh_tokens)
    rotate_found user client stored)

  unfoldable pub rotation_result : RotationOutcome Token → Request (TokenPair Token × Bool)
  rotation_result (rotated pair bound) = pure (pair, bound)
  rotation_result (refused reason) = throw (unauthorized reason)
  rotation_result (mismatched client) = throw (client_mismatch client)

  unfoldable pub rotate : Token → TokenSubject → RequestClient → Request (TokenPair Token × Bool)
  rotate token user client = do
    claims ← verify_signature service token
    throw_if (not (is_refresh claims.token_use)) (unauthorized "This is not a refresh token")
    outcome ← rotate_jti claims.jti user client
    rotation_result outcome
