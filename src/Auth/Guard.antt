-- ===== src/Auth/Guard.antt =====
-- `refresh`: which account a renewal is for, and what it does to an account that owes a second
-- factor.
use kinetix_identity_service.Prelude.{
  ℕ, Bool, true, false, ◌&&◌, not, Option, none, some, ◌≡◌, refl, arith, inl, inr, Option-cases,
}
use kinetix_identity_service.Prelude.Tables.{find_where}
use kinetix_identity_service.Domain.{UserEntity, requires_two_factor}
use kinetix_identity_service.Domain.SessionClient.{RequestClient, session_client_decision}
use kinetix_identity_service.Jwt.{Claims}
use kinetix_identity_service.Tokens.{TokenService, revoke_family, revoke_where}
use kinetix_identity_service.Tokens.Issue.{peek_refresh}
use kinetix_identity_service.Tokens.Sessions.{verify_signature-pure}
use kinetix_identity_service.Tokens.Replay.{IsEnded, revoke_family-IsEnded}
use kinetix_identity_service.Users.{find_by_id, entity_found, with_id}
use kinetix_identity_service.Principals.{resolve_or_mint_for_user}
use kinetix_identity_service.World.{World, ok, err, unauthorized, Outcome-cases}
use kinetix_identity_service.Auth.{AuthTokens, subject_of, checked_client}
use kinetix_identity_service.Auth.Renewal.{is_mismatch, refresh_for, refresh, end_owing, rotate_for}

module _ {Token : Type 0} (service : TokenService Token) where
  peek_refresh-pure : (token : Token) (w : World) → (peek_refresh service token w).1 ≡ w
  unfolding peek_refresh
  peek_refresh-pure token w = ground (arith, verify_signature-pure service token w)

  -- A renewal that gives tokens: for whom.
  pub record Renews (token : Token) (client : Option RequestClient) (w : World)
      (tokens : AuthTokens Token) (claims : Claims) (user : UserEntity) : Type 0 where
    pub is_signed : (peek_refresh service token w).0 ≡ ok claims
    pub is_account : entity_found (find_where (with_id claims.uid) w.users) ≡ some user
    pub owes_nothing : requires_two_factor user.role && not user.is_two_factor_enabled ≡ false
    pub is_for : tokens.user ≡ subject_of user

  refresh_for-ok :
      (token : Token) (claims : Claims) (client : RequestClient) (user : UserEntity) (owes : Bool)
      (tokens : AuthTokens Token) (w : World)
      → (refresh_for service token claims client user owes w).0 ≡ ok tokens
      → (owes ≡ false) × (tokens.user ≡ subject_of user)
  unfolding refresh_for end_owing revoke_family revoke_where
  refresh_for-ok token claims client user true tokens w h = ground arith
  refresh_for-ok token claims client user false tokens w h =
      elim (Outcome-cases (resolve_or_mint_for_user (subject_of user) w).0) [
        | inl (principal, e) ↦
            let w' = (resolve_or_mint_for_user (subject_of user) w).1 in
            elim (Outcome-cases (rotate_for service token client user w').0) [
              | inl (renewed, e') ↦ ground arith
              | inr (failure, e') ↦ ground arith
            ]
        | inr (failure, e) ↦ ground arith
      ]

  end_owing_lem :
      (claims : Claims) (family : ℕ) (w : World)
      → claims.fam ≡ some family
      → end_owing service claims w ≡ (
        err (unauthorized "TWO_FACTOR_REQUIRED"),
        (revoke_family family "two_factor_required" w).1,
      )
  unfolding end_owing revoke_family revoke_where
  end_owing_lem claims family w e = ground arith

  -- A renewal gives tokens only for a refresh token that verifies, to the stored account that the
  -- token is of, and only if that account does not owe a second factor.
  pub refresh-Renews :
      (token : Token) (client : Option RequestClient) (tokens : AuthTokens Token) (w : World)
      → (refresh service token client w).0 ≡ ok tokens
      → (claims : Claims) × (user : UserEntity) × Renews token client w tokens claims user
  unfolding refresh find_by_id checked_client
  refresh-Renews token none tokens w h = elim (Outcome-cases (peek_refresh service token w).0) [
    | inl (claims, e) ↦ ground arith
    | inr (failure, e) ↦ ground arith
  ]
  refresh-Renews token (some client) tokens w h =
      elim (Outcome-cases (peek_refresh service token w).0) [
        | inl (claims, e) ↦
            elim (Option-cases (entity_found (find_where (with_id claims.uid) w.users))) [
              | inl e' ↦ ground (arith, peek_refresh-pure token w)
              | inr (user, e') ↦
                  let owes = requires_two_factor user.role && not user.is_two_factor_enabled in
                  let ran : (refresh_for service token claims client user owes w).0 ≡ ok tokens =
                    ground (arith, peek_refresh-pure token w) in
                  let facts = refresh_for-ok token claims client user owes tokens w ran in
                  (
                    claims,
                    user,
                    record {
                      is_signed = e;
                      is_account = e';
                      owes_nothing = facts.0;
                      is_for = facts.1;
                    },
                  )
            ]
        | inr (failure, e) ↦ ground (arith, peek_refresh-pure token w)
      ]

  -- An account that owes a second factor and does not use one cannot renew a session: where the token
  -- verifies and the client may renew it, the caller is told that a second factor is required, and
  -- every token of the session's family is revoked.
  pub refresh-IsEnded :
      (token : Token) (client : RequestClient) (claims : Claims) (user : UserEntity) (family : ℕ)
      (w : World)
      → (peek_refresh service token w).0 ≡ ok claims
      → is_mismatch (session_client_decision claims.azp client) ≡ false
      → entity_found (find_where (with_id claims.uid) w.users) ≡ some user
      → requires_two_factor user.role && not user.is_two_factor_enabled ≡ true
      → claims.fam ≡ some family
      → let (answer, w') = refresh service token (some client) w in
        (answer ≡ err (unauthorized "TWO_FACTOR_REQUIRED")) × IsEnded family w'.refresh_tokens
  unfolding refresh find_by_id checked_client refresh_for
  refresh-IsEnded token client claims user family w signed same found owes e =
      let ended : refresh service token (some client) w ≡ end_owing service claims w =
        ground (arith, peek_refresh-pure token w) in
      rw (ended, end_owing_lem claims family w e)
        (refl, revoke_family-IsEnded family "two_factor_required" w)
