-- ===== src/Tokens/Issue.antt =====
-- src/application/services/token.service.ts: issuing and verifying tokens.
use kinetix_identity_service.Prelude.{ℕ, ◌+◌, ◌*◌, String, ◌||◌, not, Option, none, some, ◌∷◌}
use kinetix_identity_service.Prelude.Tables.{any_where}
use kinetix_identity_service.Jwt.{
  Claims, access, refresh, mfa_challenge, mfa_enrolment, Payload, refused, text_payload, object,
  verification_key,
}
use kinetix_identity_service.World.{
  Request, Outcome, err, Done, RefreshToken, unauthorized, internal, ◌>>=◌, ◌>>◌, pure, throw, gets,
  modify, or_throw, throw_if, random_uuid,
}
use kinetix_identity_service.Tokens.{
  TokenService, TokenSubject, TokenPair, is_access, is_refresh, is_challenge, is_enrolment,
  now_seconds, with_jti, mfa_challenge_ttl_seconds, mfa_enrolment_ttl_seconds, refuse_revoked,
}

-- `refreshTokens.save(refreshTokens.create(…))`: an insert, which the unique `jti` may
-- refuse. The principal is one that is stored.
unfoldable pub insert_refresh : RefreshToken → Request Done
insert_refresh row = do
  taken ← gets (λ w. any_where (with_jti row.jti) w.refresh_tokens)
  throw_if taken (internal "duplicate key value violates unique constraint")
  modify (λ w. record w { refresh_tokens = row ∷ w.refresh_tokens })

module _ {Token : Type 0} (service : TokenService Token) where
  open service use {jwt, keys, issuer, audience, access_ttl_seconds, refresh_ttl_seconds}

  -- The claims of the two tokens of a session, and of the two that stand for no session.
  unfoldable pub access_claims : TokenSubject → ℕ → ℕ → Option String → ℕ → ℕ → Claims
  access_claims user principal family client jti now = record {
    sub = principal;
    jti = jti;
    iss = issuer;
    aud = audience;
    iat = now;
    exp = now + access_ttl_seconds;
    token_use = access;
    fam = some family;
    azp = client;
    uid = user.id;
    email = some user.email;
    role = some user.role;
  }

  unfoldable pub refresh_claims : TokenSubject → ℕ → ℕ → Option String → ℕ → ℕ → Claims
  refresh_claims user principal family client jti now = record {
    sub = principal;
    jti = jti;
    iss = issuer;
    aud = audience;
    iat = now;
    exp = now + refresh_ttl_seconds;
    token_use = refresh;
    fam = some family;
    azp = client;
    uid = user.id;
    email = none;
    role = none;
  }

  unfoldable pub enrolment_claims : TokenSubject → ℕ → Option String → ℕ → ℕ → Claims
  enrolment_claims user principal client jti now = record {
    sub = principal;
    jti = jti;
    iss = issuer;
    aud = audience;
    iat = now;
    exp = now + mfa_enrolment_ttl_seconds;
    token_use = mfa_enrolment;
    fam = none;
    azp = client;
    uid = user.id;
    email = none;
    role = none;
  }

  unfoldable pub challenge_claims : TokenSubject → ℕ → ℕ → ℕ → Claims
  challenge_claims user principal jti now = record {
    sub = principal;
    jti = jti;
    iss = issuer;
    aud = audience;
    iat = now;
    exp = now + mfa_challenge_ttl_seconds;
    token_use = mfa_challenge;
    fam = none;
    azp = none;
    uid = user.id;
    email = none;
    role = none;
  }

  unfoldable pub sign_claims : Claims → Token
  sign_claims claims = jwt.sign keys.kid claims

  unfoldable pub refresh_row : TokenSubject → ℕ → ℕ → Option String → ℕ → ℕ → RefreshToken
  refresh_row user principal family client jti now = record {
    jti = jti;
    family_id = family;
    principal_id = principal;
    user_id = user.id;
    client = client;
    expires_at = (now + refresh_ttl_seconds) * 1000;
    used_at = none;
    revoked_at = none;
    revoked_reason = none;
    replaced_by_jti = none;
  }

  unfoldable pub mint_pair : TokenSubject → ℕ → ℕ → Option String → Request (TokenPair Token)
  mint_pair user principal family client = do
    now ← gets now_seconds
    access_jti ← random_uuid
    refresh_jti ← random_uuid
    insert_refresh (refresh_row user principal family client refresh_jti now)
    pure (record {
      access_token = sign_claims (access_claims user principal family client access_jti now);
      refresh_token = sign_claims (refresh_claims user principal family client refresh_jti now);
      expires_in = access_ttl_seconds;
    })

  unfoldable pub issue_pair : TokenSubject → ℕ → Option String → Request (TokenPair Token)
  issue_pair user principal client = do family ← random_uuid; mint_pair user principal family client

  -- A token and its life in seconds.
  unfoldable pub issue_enrolment : TokenSubject → ℕ → Option String → Request (Token × ℕ)
  issue_enrolment user principal client = do
    now ← gets now_seconds
    jti ← random_uuid
    pure (sign_claims (enrolment_claims user principal client jti now), mfa_enrolment_ttl_seconds)

  unfoldable pub issue_mfa_challenge : TokenSubject → ℕ → Request (Token × ℕ)
  issue_mfa_challenge user principal = do
    now ← gets now_seconds
    jti ← random_uuid
    pure (sign_claims (challenge_claims user principal jti now), mfa_challenge_ttl_seconds)

  unfoldable pub payload_claims : Payload → Request Claims
  payload_claims refused = throw (unauthorized "Invalid token")
  payload_claims text_payload = throw (unauthorized "Token payload is not an object")
  payload_claims (object claims) = pure claims

  unfoldable pub verify_signature : Token → Request Claims
  verify_signature token = do
    key ← or_throw (verification_key keys (jwt.header_kid token)) (unauthorized "Invalid token")
    now ← gets now_seconds
    payload_claims (jwt.verify key issuer audience now token)

  unfoldable pub verify_access : Token → Request Claims
  verify_access token = do
    claims ← verify_signature token
    throw_if (not (is_access claims.token_use)) (unauthorized "This is not an access token")
    refuse_revoked claims
    pure claims

  unfoldable pub verify_session : Token → Request Claims
  verify_session token = do
    claims ← verify_signature token
    throw_if (not (is_access claims.token_use || is_enrolment claims.token_use))
        (unauthorized "This is not an access token")
    refuse_revoked claims
    pure claims

  -- The `catch` of `peekMfaChallenge`.
  abbrev pub as_challenge_invalid : Outcome Claims → Outcome Claims
  as_challenge_invalid (err (unauthorized reason)) = err (unauthorized "CHALLENGE_INVALID")
  as_challenge_invalid other = other

  unfoldable pub peek_mfa_challenge : Token → Request Claims
  peek_mfa_challenge token = do
    claims ← λ w. let (answer, w') = verify_signature token w in (as_challenge_invalid answer, w')
    throw_if (not (is_challenge claims.token_use)) (unauthorized "CHALLENGE_INVALID")
    pure claims

  unfoldable pub peek_refresh : Token → Request Claims
  peek_refresh token = do
    claims ← verify_signature token
    throw_if (not (is_refresh claims.token_use)) (unauthorized "This is not a refresh token")
    pure claims
