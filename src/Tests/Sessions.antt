-- ===== src/Tests/Sessions.antt =====
-- Examples of the theorems on sessions and tokens.
use kinetix_identity_service.Prelude.{◌≡◌, refl, arith, true, none, some, List, [], ◌∷◌}
use kinetix_identity_service.Domain.SessionClient.{named, unnamed, session_client_decision}
use kinetix_identity_service.Jwt.{Claims, access, refresh, verification_key}
use kinetix_identity_service.World.{World, RefreshToken, ok, err, unauthorized}
use kinetix_identity_service.Tokens.{revoke_family}
use kinetix_identity_service.Tokens.Issue.{
  sign_claims, verify_access, verify_session, peek_refresh, peek_mfa_challenge, verify_signature,
  payload_claims,
}
use kinetix_identity_service.Tokens.Rotation.{rotate, rotate_jti, refused}
use kinetix_identity_service.Tokens.Renewed.{next_pair, rotate-renews, rotate_twice}
use kinetix_identity_service.Tokens.Verified.{Current, signed_uses}
use kinetix_identity_service.Sweeper.{sweep}
use kinetix_identity_service.Sweeper.Harmless.{IsSwept, sweep_harmless}
use kinetix_identity_service.Domain.SignInPolicy.{admit_attempt}
use kinetix_identity_service.Attempts.Rows.{state_at}
use kinetix_identity_service.Passkeys.{spend, is_sign_in}
use kinetix_identity_service.Attempts.{used_attempts}
use kinetix_identity_service.World.{AccountAttempts, ChallengeAttempts}
use kinetix_identity_service.Tokens.Replay.{Renewable, IsEnded, outside, rotate_jti-reuse}
use kinetix_identity_service.Tokens.Live.{OneUsable}
use kinetix_identity_service.Tokens.Sessions.{here, next, ends_family, Reach-OneUsable}
use kinetix_identity_service.Tests.{Signed, service, stored, subject, world, signing-JwtLaws}

abbrev access_token : Claims
access_token = record {
  sub = 3;
  jti = 21;
  iss = "identity";
  aud = "kinetix";
  iat = 80;
  exp = 980;
  token_use = access;
  fam = some 5;
  azp = none;
  uid = 7;
  email = none;
  role = none;
}

stored-Renewable : Renewable service 11 (named "app") world stored
unfolding session_client_decision
stored-Renewable = record {
  found = refl;
  unrevoked = refl;
  unused = refl;
  lives = omega arith;
  matches = λ e. cc;
  fresh = refl;
}

-- The refresh token of the stored session, as the service signed it.
abbrev presented : Signed
presented = ("k1", record access_token { jti = 11; exp = 9000; token_use = refresh })

presented_verifies : (verify_signature service presented world).0 ≡ ok presented.1
unfolding verify_signature verification_key payload_claims
presented_verifies = refl

abbrev app_row : RefreshToken
app_row = record {
  jti = 101;
  family_id = 5;
  principal_id = 3;
  user_id = 7;
  client = some "app";
  expires_at = 3690000;
  used_at = none;
  revoked_at = none;
  revoked_reason = none;
  replaced_by_jti = none;
}

rotate-renews_example : rotate service presented subject (named "app") world ≡ (
  ok (next_pair service subject (named "app") world stored, true),
  record world {
    draws = 2;
    refresh_tokens =
        app_row ∷ record stored { used_at = some 90000; replaced_by_jti = some 101 } ∷ [];
  },
)
rotate-renews_example =
    rotate-renews service signing-JwtLaws presented presented.1 subject (named "app") world stored
      presented_verifies refl stored-Renewable

abbrev used_token : RefreshToken
used_token = record stored { used_at = some 80000 }

abbrev used_world : World
used_world = record world { refresh_tokens = used_token ∷ [] }

rotate_jti-reuse_example :
    let (answer, w') = rotate_jti service 11 subject unnamed used_world in
    (answer ≡ ok (refused "This refresh token has already been used; the session has been revoked"))
    × IsEnded 5 w'.refresh_tokens
    × (outside 5 w'.refresh_tokens ≡ outside 5 (used_token ∷ []))
rotate_jti-reuse_example =
    rotate_jti-reuse service 11 subject unnamed used_world used_token refl refl refl

abbrev renewed_world : World
renewed_world = (rotate service presented subject (named "app") world).1

presented_again : (verify_signature service presented renewed_world).0 ≡ ok presented.1
unfolding verify_signature verification_key payload_claims
presented_again = rw rotate-renews_example refl

rotate_twice_example :
    let again = rotate service presented subject (named "app") renewed_world in
    (again.0
      ≡ err (unauthorized "This refresh token has already been used; the session has been revoked"))
    × IsEnded 5 again.1.refresh_tokens
rotate_twice_example =
    rotate_twice service presented presented.1 subject subject (named "app") (named "app") world
      renewed_world stored presented_verifies presented_again refl stored-Renewable refl

stored-OneUsable : OneUsable world.refresh_tokens
stored-OneUsable family = ground arith

Reach-OneUsable_example : OneUsable (revoke_family 5 "logout" world).1.refresh_tokens
Reach-OneUsable_example =
    Reach-OneUsable service {w = world} {v = (revoke_family 5 "logout" world).1} stored-OneUsable
      (next here (ends_family 5 "logout"))

access_token-Current : Current service signing-JwtLaws access_token world
access_token-Current = record { issuer = refl; audience = refl; lives = omega arith }

signed_uses_example :
    (verify_access service (sign_claims service access_token) world ≡ (ok access_token, world))
    × (verify_session service (sign_claims service access_token) world ≡ (ok access_token, world))
    × (peek_refresh service (sign_claims service access_token) world
        ≡ (err (unauthorized "This is not a refresh token"), world))
    × (peek_mfa_challenge service (sign_claims service access_token) world
        ≡ (err (unauthorized "CHALLENGE_INVALID"), world))
signed_uses_example = signed_uses service signing-JwtLaws access_token world access_token-Current

abbrev revoked_world : World
revoked_world = record world {
  revoked_tokens = record { jti = 21; expires_at = 980000; reason = "logout" } ∷ [];
}

abbrev ann_row : AccountAttempts
ann_row = record {
  account_key = "ann";
  state = record { attempts = 6; last_attempt_at = 88000; delayed_until = 90000 };
}

-- Two answers of the token's own id, and one of a challenge that is over.
abbrev answers : List ChallengeAttempts
answers =
    record { jti = 21; attempts = 2; expires_at = 980000 }
    ∷ record { jti = 22; attempts = 1; expires_at = 5000 }
    ∷ []

abbrev swept_world : World
swept_world = record revoked_world { account_attempts = ann_row ∷ []; challenge_attempts = answers }

signed_access :
    (verify_signature service (sign_claims service access_token) swept_world).0 ≡ ok access_token
unfolding verify_signature sign_claims verification_key payload_claims
signed_access = refl

sweep_harmless_example :
    let w = swept_world in
    let w' = (sweep w).1 in
    ((sweep w).0 ≡ ok tt)
    × IsSwept w w'
    × (w' ≡ record w {
      account_attempts = w'.account_attempts;
      challenge_attempts = w'.challenge_attempts;
      revoked_tokens = w'.revoked_tokens;
      passkey_challenges = w'.passkey_challenges;
    })
    × (admit_attempt (state_at "ann" w'.account_attempts) 95000
        ≡ admit_attempt (state_at "ann" w.account_attempts) 95000)
    × ((verify_session service (sign_claims service access_token) w').0
        ≡ (verify_session service (sign_claims service access_token) w).0)
    × (used_attempts 21 w'.challenge_attempts ≡ used_attempts 21 w.challenge_attempts)
    × ((spend (is_sign_in 9) 7 (record w' { db_now = 95000 })).0
        ≡ (spend (is_sign_in 9) 7 (record w { db_now = 95000 })).0)
sweep_harmless_example =
    sweep_harmless service signing-JwtLaws "ann" (sign_claims service access_token) access_token
      (is_sign_in 9) 7 95000 swept_world (refl, tt) (omega arith) signed_access (λ e. refl, tt)
      (λ e. refl, (λ e. ground arith, tt))
