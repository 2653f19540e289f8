-- ===== src/Tokens/Verified.antt =====
-- What the service accepts of the tokens that it signs, and of what it has revoked.
use kinetix_identity_service.Prelude.{
  ℕ, ◌*◌, ◌/◌, ◌<◌, ◌≡◌, true, false, ◌||◌, List, [], ◌∷◌, arith, if◌then◌else◌, inl, inr,
  str_eq_refl, Option-cases,
}
use kinetix_identity_service.Prelude.Tables.{All, delete_where}
use kinetix_identity_service.Prelude.Counts.{any-delete}
use kinetix_identity_service.Jwt.{JwtLaws, Claims, verification_key}
use kinetix_identity_service.World.{World, RevokedAccessToken, ok, err, unauthorized}
use kinetix_identity_service.Tokens.{
  TokenService, is_access, is_refresh, is_challenge, is_enrolment, now_seconds, revokes,
  refuse_revoked, sweep_expired_revocations, is_past,
}
use kinetix_identity_service.Tokens.Issue.{
  sign_claims, verify_signature, payload_claims, verify_access, verify_session, peek_refresh,
  peek_mfa_challenge,
}
use kinetix_identity_service.Tokens.Revoked.{is_revoked}

module _ {Token : Type 0} (service : TokenService Token) (laws : JwtLaws service.jwt) where
  -- The claims of a token of this service that has not expired.
  pub record Current (c : Claims) (w : World) : Type 0 where
    pub issuer : c.iss ≡ service.issuer
    pub audience : c.aud ≡ service.audience
    pub lives : now_seconds w < c.exp

  verify_signature-sign :
      (c : Claims) (w : World)
      → Current c w
      → verify_signature service (sign_claims service c) w ≡ (ok c, w)
  unfolding verify_signature sign_claims verification_key payload_claims
  verify_signature-sign c w h = ground (
    arith,
    laws.header_kid-sign service.keys.kid c,
    str_eq_refl service.keys.kid,
    laws.verify-sign service.keys.kid (now_seconds w) c h.lives,
  )

  -- A token that this service signed and that has not expired is good for what its use names, and
  -- for nothing else: as an access token; as the token of a signed-in caller, which may also be an
  -- enrolment token; as a refresh token; as a two-factor challenge. The first two uses it has only
  -- while its id is not revoked.
  pub signed_uses :
      (c : Claims) (w : World)
      → Current c w
      → let token = sign_claims service c in
        let revoked = unauthorized "This token has been revoked" in
        (verify_access service token w ≡ (
          if is_access c.token_use
              then if is_revoked c.jti w then err revoked else ok c
              else err (unauthorized "This is not an access token"),
          w,
        ))
        × (verify_session service token w ≡ (
          if is_access c.token_use || is_enrolment c.token_use
              then if is_revoked c.jti w then err revoked else ok c
              else err (unauthorized "This is not an access token"),
          w,
        ))
        × (peek_refresh service token w ≡ (
          if is_refresh c.token_use then ok c else err (unauthorized "This is not a refresh token"),
          w,
        ))
        × (peek_mfa_challenge service token w ≡ (
          if is_challenge c.token_use then ok c else err (unauthorized "CHALLENGE_INVALID"),
          w,
        ))
  unfolding verify_access verify_session peek_refresh peek_mfa_challenge refuse_revoked
  signed_uses c w h =
      let signed = verify_signature-sign c w h in
      (
        ground (arith, signed),
        ground (arith, signed),
        ground (arith, signed),
        ground (arith, signed),
      )

  -- The rows of the token's id stand until it expires.
  abbrev pub RevokedToEnd : Claims → List RevokedAccessToken → Type 0
  RevokedToEnd c = All (λ row. row.jti ≡ c.jti → row.expires_at ≡ c.exp * 1000)

  pub verify_signature-exp :
      (token : Token) (c : Claims) (w : World)
      → (verify_signature service token w).0 ≡ ok c
      → now_seconds w < c.exp
  unfolding verify_signature payload_claims
  verify_signature-exp token c w h =
      elim (Option-cases (verification_key service.keys (service.jwt.header_kid token))) [
        | inl e ↦ absurd (ground (arith, e))
        | inr (key, e) ↦
            laws.verify-exp key service.issuer service.audience (now_seconds w) token c
              (ground (arith, e))
      ]

  verify_signature-revoked :
      (token : Token) (rows : List RevokedAccessToken) (w : World)
      → verify_signature service token (record w { revoked_tokens = rows })
        ≡ ((verify_signature service token w).0, record w { revoked_tokens = rows })
  unfolding verify_signature payload_claims
  verify_signature-revoked token rows w = ground arith

  kept_by_sweep :
      (c : Claims) (now : ℕ) (rows : List RevokedAccessToken)
      → now / 1000 < c.exp
      → RevokedToEnd c rows
      → All (λ row. revokes c.jti row ≡ true → is_past now row ≡ false) rows
  kept_by_sweep c now [] l h = tt
  kept_by_sweep c now (row ∷ rows) l h = (λ e. ground (arith, h.0), kept_by_sweep c now rows l h.1)

  -- Sweeping lets nothing back in: where the ids of a token that verifies were revoked until its
  -- end, the service answers the token after a sweep as it did before.
  pub verify_session-sweep :
      (token : Token) (c : Claims) (w : World)
      → (verify_signature service token w).0 ≡ ok c
      → RevokedToEnd c w.revoked_tokens
      → (verify_session service token (sweep_expired_revocations w).1).0
        ≡ (verify_session service token w).0
  unfolding verify_session refuse_revoked sweep_expired_revocations
  verify_session-sweep token c w signed kept =
      let rows = delete_where (is_past w.app_now) w.revoked_tokens in
      let standing =
        kept_by_sweep c w.app_now w.revoked_tokens (verify_signature-exp token c w signed) kept in
      ground (
        arith,
        verify_signature-revoked token rows w,
        verify_signature-revoked token w.revoked_tokens w,
        any-delete (revokes c.jti) (is_past w.app_now) w.revoked_tokens standing,
      )
