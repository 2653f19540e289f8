-- ===== src/Tokens/Renewed.antt =====
-- `rotate` of src/application/services/token.service.ts, on a refresh token that can be renewed: what it
-- answers and stores, written out, and what the same token comes to when it is presented again.
use kinetix_identity_service.Prelude.{
  ℕ, ◌+◌, ◌*◌, ◌/◌, String, Bool, true, false, Option, none, some, List, ◌∷◌, ◌==◌, ◌≡◌, arith, ap,
  refl, ◌∙◌,
}
use kinetix_identity_service.Prelude.Tables.{update_where}
use kinetix_identity_service.Domain.SessionClient.{
  RequestClient, named, unnamed, session_client_decision, client_name_of,
}
use kinetix_identity_service.Jwt.{JwtLaws, Claims, access, refresh}
use kinetix_identity_service.World.{World, RefreshToken, ok, err, unauthorized, ◌>>=◌}
use kinetix_identity_service.Tokens.{TokenService, TokenSubject, TokenPair, is_refresh, with_jti}
use kinetix_identity_service.Tokens.Issue.{
  access_claims, refresh_claims, refresh_row, sign_claims, verify_signature,
}
use kinetix_identity_service.Tokens.Live.{unused_jti-ne}
use kinetix_identity_service.Tokens.Rotation.{
  rotate, rotate_jti, rotation_result, rotated, session_client, is_bind, jti_of,
}
use kinetix_identity_service.Tokens.Sessions.{verify_signature-pure}
use kinetix_identity_service.Tokens.Replay.{
  IsEnded, Renewable, find-with_jti, replacing, replacement, used_up, rotate_jti_lem,
  rotate_jti_again,
}

-- A session keeps the client that it has, and takes the caller's where it has none.
abbrev pub client_after : Option String → RequestClient → Option String
client_after (some name) client = some name
client_after none (named name) = some name
client_after none unnamed = none

-- The renewal is the one that gives the session its client.
abbrev pub takes_client : Option String → RequestClient → Bool
takes_client none (named name) = true
takes_client none unnamed = false
takes_client (some name) client = false

untouched :
    (jti : ℕ) (f : RefreshToken → RefreshToken) (row : RefreshToken) (rows : List RefreshToken)
    → (row.jti == jti) ≡ false
    → update_where (with_jti jti) f (row ∷ rows) ≡ row ∷ update_where (with_jti jti) f rows
untouched jti f row rows e = rw e refl

module _ {Token : Type 0} (service : TokenService Token) where
  open service use {keys, issuer, audience, access_ttl_seconds, refresh_ttl_seconds}

  -- The claims and the row of a renewal: the session's principal and family, and the caller's account.
  abbrev pub next_access : TokenSubject → RequestClient → World → RefreshToken → Claims
  next_access user client w stored = record {
    sub = stored.principal_id;
    jti = w.entropy.uuid w.draws;
    iss = issuer;
    aud = audience;
    iat = w.app_now / 1000;
    exp = w.app_now / 1000 + access_ttl_seconds;
    token_use = access;
    fam = some stored.family_id;
    azp = client_after stored.client client;
    uid = user.id;
    email = some user.email;
    role = some user.role;
  }

  abbrev pub next_refresh : TokenSubject → RequestClient → World → RefreshToken → Claims
  next_refresh user client w stored = record {
    sub = stored.principal_id;
    jti = w.entropy.uuid (w.draws + 1);
    iss = issuer;
    aud = audience;
    iat = w.app_now / 1000;
    exp = w.app_now / 1000 + refresh_ttl_seconds;
    token_use = refresh;
    fam = some stored.family_id;
    azp = client_after stored.client client;
    uid = user.id;
    email = none;
    role = none;
  }

  abbrev pub next_row : TokenSubject → RequestClient → World → RefreshToken → RefreshToken
  next_row user client w stored = record {
    jti = w.entropy.uuid (w.draws + 1);
    family_id = stored.family_id;
    principal_id = stored.principal_id;
    user_id = user.id;
    client = client_after stored.client client;
    expires_at = (w.app_now / 1000 + refresh_ttl_seconds) * 1000;
    used_at = none;
    revoked_at = none;
    revoked_reason = none;
    replaced_by_jti = none;
  }

  -- The presented token is used now, and the new one replaces it.
  abbrev pub replaced : World → RefreshToken → RefreshToken
  replaced w row = record row {
    used_at = some w.app_now;
    replaced_by_jti = some (w.entropy.uuid (w.draws + 1));
  }

  abbrev pub next_pair : TokenSubject → RequestClient → World → RefreshToken → TokenPair Token
  next_pair user client w stored = record {
    access_token = service.jwt.sign keys.kid (next_access user client w stored);
    refresh_token = service.jwt.sign keys.kid (next_refresh user client w stored);
    expires_in = access_ttl_seconds;
  }

  -- `rotate` on a refresh token that verifies is `rotate_jti` on its id.
  rotate_lem :
      (token : Token) (claims : Claims) (user : TokenSubject) (client : RequestClient) (w : World)
      → (verify_signature service token w).0 ≡ ok claims
      → is_refresh claims.token_use ≡ true
      → rotate service token user client w
        ≡ (rotate_jti service claims.jti user client >>= rotation_result service) w
  unfolding rotate
  rotate_lem token claims user client w signed renews =
      ground (arith, verify_signature-pure service token w)

  -- The claims and the row that `mint_pair` makes are those written out, and the package decodes the
  -- id of the new refresh token.
  client_after_lem :
      (stored : Option String) (client : RequestClient)
      → (session_client stored client ≡ client_after stored client)
        × (is_bind (session_client_decision stored client) ≡ takes_client stored client)
  unfolding client_name_of session_client_decision
  client_after_lem none (named name) = (refl, refl)
  client_after_lem none unnamed = (refl, refl)
  client_after_lem (some name) (named other) = (refl, ground arith)
  client_after_lem (some name) unnamed = (refl, refl)

  replacement_lem :
      (user : TokenSubject) (client : RequestClient) (w : World) (stored : RefreshToken)
      → (replacing service client w user stored ≡ next_row user client w stored)
        × (replacement service client w user stored ≡ next_pair user client w stored)
  unfolding refresh_row access_claims refresh_claims sign_claims
  replacement_lem user client w stored =
      let same = (client_after_lem stored.client client).0 in rw same (refl, refl)

  decoded :
      JwtLaws service.jwt
      → (user : TokenSubject) (client : RequestClient) (w : World) (stored row : RefreshToken)
      → used_up service client w user stored row ≡ replaced w row
  unfolding refresh_claims sign_claims
  decoded laws user client w stored row =
      let claims = (replacement service client w user stored).refresh_token in
      ap (λ c. record row { used_at = some w.app_now; replaced_by_jti = jti_of c })
        (laws.decode-sign keys.kid _)

  tokens_lem :
      JwtLaws service.jwt
      → (jti : ℕ) (user : TokenSubject) (client : RequestClient) (w : World) (stored : RefreshToken)
      → Renewable service jti client w stored
      → update_where
          (with_jti stored.jti)
          (used_up service client w user stored)
          (replacing service client w user stored ∷ w.refresh_tokens)
        ≡ next_row user client w stored ∷ update_where (with_jti jti) (replaced w) w.refresh_tokens
  tokens_lem laws jti user client w stored r =
      let rows = w.refresh_tokens in
      let marked : used_up service client w user stored ≡ replaced w =
        λ i row. decoded laws user client w stored row i in
      let other = unused_jti-ne (w.entropy.uuid (w.draws + 1)) jti rows stored r.fresh r.found in
      let first = replacing service client w user stored in
      ap (λ (f : RefreshToken → RefreshToken). update_where (with_jti stored.jti) f (first ∷ rows))
        marked
      ∙ ap (λ (k : ℕ). update_where (with_jti k) (replaced w) (first ∷ rows))
          (find-with_jti jti rows stored r.found)
      ∙ ap (λ (row : RefreshToken). update_where (with_jti jti) (replaced w) (row ∷ rows))
          (replacement_lem user client w stored).0
      ∙ untouched jti (replaced w) (next_row user client w stored) rows other

  -- Where `jsonwebtoken` does what it documents, a refresh token that verifies, and whose row can be
  -- renewed by the caller's client and with a new id, is answered with a pair of tokens that the
  -- service signs: for the session's principal and family and the caller's account, with drawn ids, a
  -- life from now, and the session's client, or the caller's where the session has none. The answer
  -- tells whether the session got its client just now. The presented token is marked as used now and
  -- replaced by the new one, the row of the new one is added, and nothing else changes but that two
  -- ids are drawn.
  pub rotate-renews :
      JwtLaws service.jwt
      → (token : Token) (claims : Claims) (user : TokenSubject) (client : RequestClient) (w : World)
        (stored : RefreshToken)
      → (verify_signature service token w).0 ≡ ok claims
      → is_refresh claims.token_use ≡ true
      → Renewable service claims.jti client w stored
      → rotate service token user client w ≡ (
        ok (next_pair user client w stored, takes_client stored.client client),
        record w {
          draws = w.draws + 2;
          refresh_tokens =
              next_row user client w stored
              ∷ update_where (with_jti claims.jti) (replaced w) w.refresh_tokens;
        },
      )
  unfolding rotation_result
  rotate-renews laws token claims user client w stored signed renews r =
      let rows = w.refresh_tokens in
      let run : rotate_jti service claims.jti user client w ≡ (
        ok (rotated (next_pair user client w stored) (takes_client stored.client client)),
        record w {
          draws = w.draws + 2;
          refresh_tokens =
              next_row user client w stored ∷ update_where (with_jti claims.jti) (replaced w) rows;
        },
      ) =
        rw
          (
            rotate_jti_lem service claims.jti user client w stored r,
            tokens_lem laws claims.jti user client w stored r,
            (replacement_lem user client w stored).1,
            (client_after_lem stored.client client).1,
          )
          (ground arith) in
      rw (rotate_lem token claims user client w signed renews, run) refl

  -- A refresh token renews its session once: after a renewal, whoever presents the token to `rotate`
  -- again while it still verifies, as whatever account and client, and while the stored tokens are as
  -- the renewal left them, is refused, and every token of the family is revoked, the replacement
  -- included.
  pub rotate_twice :
      (token : Token) (claims : Claims) (user user' : TokenSubject) (client client' : RequestClient)
      (w v : World) (stored : RefreshToken)
      → (verify_signature service token w).0 ≡ ok claims
      → (verify_signature service token v).0 ≡ ok claims
      → is_refresh claims.token_use ≡ true
      → Renewable service claims.jti client w stored
      → v.refresh_tokens ≡ (rotate service token user client w).1.refresh_tokens
      → let again = rotate service token user' client' v in
        (again.0
          ≡ err (
              unauthorized
                "This refresh token has already been used; the session has been revoked"))
        × IsEnded stored.family_id again.1.refresh_tokens
  unfolding rotation_result
  rotate_twice token claims user user' client client' w v stored signed later renews r same =
      let first : (rotate service token user client w).1.refresh_tokens
          ≡ (rotate_jti service claims.jti user client w).1.refresh_tokens =
        rw (rotate_lem token claims user client w signed renews)
          (ground (arith, rotate_jti_lem service claims.jti user client w stored r)) in
      let again =
        rotate_jti_again service claims.jti user user' client client' w v stored r (same ∙ first) in
      let second = rotate_jti service claims.jti user' client' v in
      let run : (rotate_jti service claims.jti user' client' >>= rotation_result service) v ≡ (
        err (unauthorized "This refresh token has already been used; the session has been revoked"),
        second.1,
      ) =
        ground (arith, again.0) in
      rw (rotate_lem token claims user' client' v later renews, run) (refl, again.1)
