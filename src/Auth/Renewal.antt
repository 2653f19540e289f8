-- ===== src/Auth/Renewal.antt =====
-- src/application/services/auth_usecase.service.ts: `refresh` and `logout`.
use kinetix_identity_service.Prelude.{Bool, true, false, ◌&&◌, not, Option, none, some, ◌==◌}
use kinetix_identity_service.Domain.{UserEntity, requires_two_factor}
use kinetix_identity_service.Domain.SessionClient.{
  RequestClient, SessionClientDecision, mismatch, session_client_decision,
}
use kinetix_identity_service.Jwt.{Claims}
use kinetix_identity_service.Tokens
use kinetix_identity_service.Tokens.{TokenService, TokenPair, revoke_family}
use kinetix_identity_service.Tokens.Issue.{peek_refresh}
use kinetix_identity_service.Tokens.Rotation.{rotate}
use kinetix_identity_service.Users
use kinetix_identity_service.Principals.{resolve_or_mint_for_user}
use kinetix_identity_service.World.{
  Request, Done, Failure, unauthorized, forbidden, client_mismatch, ◌>>=◌, ◌>>◌, pure, throw,
  or_throw, throw_if, try_catch,
}
use kinetix_identity_service.Auth.{AuthTokens, subject_of, checked_client}

abbrev pub is_mismatch : SessionClientDecision → Bool
is_mismatch mismatch = true
is_mismatch _ = false

abbrev pub client_refusal : Failure
client_refusal = unauthorized "CLIENT_MISMATCH"

-- The `catch` of `refresh`.
abbrev pub refusal_of_rotation : Failure → Failure
refusal_of_rotation (client_mismatch stored) = client_refusal
refusal_of_rotation failure = failure

-- A refresh token always names its family, so the refusal of one that does not is not reached.
module _ {Token : Type 0} (service : TokenService Token) where
  unfoldable pub end_owing : Claims → Request (AuthTokens Token)
  end_owing claims = do
    family ← or_throw claims.fam (unauthorized "TWO_FACTOR_REQUIRED")
    revoke_family family "two_factor_required"
    throw (unauthorized "TWO_FACTOR_REQUIRED")

  unfoldable pub rotate_for : Token → RequestClient → UserEntity → Request (TokenPair Token × Bool)
  rotate_for token client user =
      try_catch (rotate service token (subject_of user) client)
        (λ cause. throw (refusal_of_rotation cause))

  -- `requiresTwoFactor(user.role) && !user.isTwoFactorEnabled`, then the rotation.
  unfoldable pub refresh_for :
      Token → Claims → RequestClient → UserEntity → Bool → Request (AuthTokens Token)
  refresh_for token claims client user true = end_owing claims
  refresh_for token claims client user false = do
    principal ← resolve_or_mint_for_user (subject_of user)
    renewed ← rotate_for token client user
    pure (record {
      access_token = renewed.0.access_token;
      refresh_token = renewed.0.refresh_token;
      expires_in = renewed.0.expires_in;
      user = subject_of user;
      principal_id = principal;
    })

  unfoldable pub refresh : Token → Option RequestClient → Request (AuthTokens Token)
  refresh token request_client = do
    claims ← peek_refresh service token
    client ← checked_client request_client
    throw_if (is_mismatch (session_client_decision claims.azp client)) client_refusal
    found ← Users.find_by_id claims.uid
    user ← or_throw found (unauthorized "The account behind this token no longer exists")
    refresh_for token claims client user
        (requires_two_factor user.role && not user.is_two_factor_enabled)

  unfoldable pub logout : Claims → Option Token → Request Done
  logout claims none = Tokens.logout claims none
  logout claims (some token) = do
    renewal ← peek_refresh service token
    throw_if (not (renewal.sub == claims.sub))
        (forbidden "That refresh token belongs to another account")
    Tokens.logout claims renewal.fam
