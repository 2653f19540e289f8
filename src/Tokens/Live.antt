-- ===== src/Tokens/Live.antt =====
-- A session is a family of refresh tokens, of which one at most can still be renewed.
use kinetix_identity_service.Prelude.{
  ℕ, ◌+◌, ◌≤◌, ◌≡◌, subst, String, Bool, true, false, ◌&&◌, Option, none, some, List, ◌∷◌, arith,
  ◌==◌, if◌then◌else◌, is_none, Bool-cases, inl, inr,
}
use kinetix_identity_service.Prelude.Tables.{any_where, count_where, find_where}
use kinetix_identity_service.Prelude.Counts.{
  count_where-update_le, count_where-update_lt, find_where-any, find_where-any_where,
}
use kinetix_identity_service.Domain.SessionClient.{RequestClient}
use kinetix_identity_service.World.{
  World, RefreshToken, ok, err, internal, random_uuid, commit_or_undo,
}
use kinetix_identity_service.Tokens.{
  TokenService, TokenSubject, TokenPair, now_seconds, with_jti, revoked_at_for, revoke_where,
  revoke_family, live_family,
}
use kinetix_identity_service.Tokens.Issue.{
  insert_refresh, mint_pair, issue_pair, refresh_row, refresh_claims, access_claims, sign_claims,
}
use kinetix_identity_service.Tokens.Rotation.{
  mark_used, renew, decide_rotation, rotate_stored, rotate_found, session_client, jti_of,
}

-- A token of the family that `rotate` could still accept.
abbrev pub usable : ℕ → RefreshToken → Bool
usable family row = (row.family_id == family) && is_none row.used_at && is_none row.revoked_at

abbrev pub OneUsable : List RefreshToken → Type 0
OneUsable rows = (family : ℕ) → count_where (usable family) rows ≤ 1

revoked-unusable :
    (family now : ℕ) (reason : String) (row : RefreshToken)
    → usable family (revoked_at_for now reason row) ≡ false
revoked-unusable family now reason row = ground arith

pub revoke_where-OneUsable :
    (which : RefreshToken → Bool) (reason : String) (w : World)
    → OneUsable w.refresh_tokens
    → OneUsable (revoke_where which reason w).1.refresh_tokens
unfolding revoke_where
revoke_where-OneUsable which reason w h family = omega (
  arith,
  h family,
  count_where-update_le (usable family) which (revoked_at_for w.app_now reason) w.refresh_tokens
      (revoked-unusable family w.app_now reason),
)

-- A `jti` that no row has is not that of a row.
pub unused_jti-ne :
    (n j : ℕ) (rows : List RefreshToken) (stored : RefreshToken)
    → any_where (with_jti n) rows ≡ false
    → find_where (with_jti j) rows ≡ some stored
    → (n == j) ≡ false
unused_jti-ne n j rows stored free found = elim (Bool-cases (n == j)) [
  | inl same ↦
      let e : n ≡ j = ground arith in
      ground (arith, rw (← e) at (find_where-any_where (with_jti j) rows stored found))
  | inr other ↦ other
]

-- A session that starts draws a family that no stored token has.
abbrev pub IsNewFamily : World → Type 0
IsNewFamily w = count_where (usable (w.entropy.uuid w.draws)) w.refresh_tokens ≡ 0

module _ {Token : Type 0} (service : TokenService Token) where
  -- The row and the pair of a call of `mintPair`, and its effect.
  abbrev pub minted_row : TokenSubject → ℕ → ℕ → Option String → World → RefreshToken
  minted_row user principal family client w =
      refresh_row service user principal family client (w.entropy.uuid (w.draws + 1))
        (now_seconds w)

  abbrev pub minted_pair : TokenSubject → ℕ → ℕ → Option String → World → TokenPair Token
  minted_pair user principal family client w = record {
    access_token = sign_claims service (
        access_claims service user principal family client (w.entropy.uuid w.draws)
          (now_seconds w));
    refresh_token = sign_claims service (
        refresh_claims service user principal family client (w.entropy.uuid (w.draws + 1))
          (now_seconds w));
    expires_in = service.access_ttl_seconds;
  }

  pub mint_pair_lem :
      (user : TokenSubject) (principal family : ℕ) (client : Option String) (w : World)
      → let drawn : World = record w { draws = w.draws + 1 + 1 } in
        mint_pair service user principal family client w ≡ (
          if any_where (with_jti (w.entropy.uuid (w.draws + 1))) w.refresh_tokens
          then (err (internal "duplicate key value violates unique constraint"), drawn)
          else (
            ok (minted_pair user principal family client w),
            record drawn {
              refresh_tokens = minted_row user principal family client w ∷ w.refresh_tokens;
            },
          ))
  unfolding mint_pair insert_refresh random_uuid refresh_row
  mint_pair_lem user principal family client w = ground arith

  pub issue_pair-OneUsable :
      (user : TokenSubject) (principal : ℕ) (client : Option String) (w : World)
      → IsNewFamily w
      → OneUsable w.refresh_tokens
      → OneUsable (issue_pair service user principal client w).1.refresh_tokens
  unfolding issue_pair random_uuid refresh_row
  issue_pair-OneUsable user principal client w n h family = ground (
    arith,
    n,
    h family,
    mint_pair_lem user principal (w.entropy.uuid w.draws) client (record w { draws = w.draws + 1 }),
  )

  renew-usable :
      (user : TokenSubject) (client : RequestClient) (stored : RefreshToken) (bound : Bool)
      (w : World) (family : ℕ)
      → find_where (with_jti stored.jti) w.refresh_tokens ≡ some stored
      → stored.used_at ≡ none
      → stored.revoked_at ≡ none
      → count_where (usable family) w.refresh_tokens ≤ 1
      → count_where
          (usable family)
          (commit_or_undo w (renew service user client stored bound w)).1.refresh_tokens
        ≤ 1
  unfolding renew mark_used refresh_row
  renew-usable user client stored bound w family found unused unrevoked h =
      let rows = w.refresh_tokens in
      let fresh = w.entropy.uuid (w.draws + 1) in
      let mark = λ (row : RefreshToken). record row {
        used_at = some w.app_now;
        replaced_by_jti = jti_of (
            service.jwt.decode
              (minted_pair user stored.principal_id stored.family_id
                (session_client stored.client client) w).refresh_token);
      } in
      ground (
        arith,
        mint_pair_lem user stored.principal_id stored.family_id
            (session_client stored.client client) w,
        unused_jti-ne fresh stored.jti rows stored,
        count_where-update_lt (usable family) (with_jti stored.jti) mark rows stored
            (λ a. ground arith),
        count_where-update_le (usable family) (with_jti stored.jti) mark rows (λ a. ground arith),
      )

  pub rotate_found-OneUsable :
      (user : TokenSubject) (client : RequestClient) (jti : ℕ) (o : Option RefreshToken) (w : World)
      → find_where (with_jti jti) w.refresh_tokens ≡ o
      → OneUsable w.refresh_tokens
      → OneUsable (commit_or_undo w (rotate_found service user client o w)).1.refresh_tokens
  unfolding rotate_found rotate_stored decide_rotation revoke_family
  rotate_found-OneUsable user client jti none w found h family = h family
  rotate_found-OneUsable user client jti (some stored) w found h family =
      let same : jti ≡ stored.jti =
        ground (arith, find_where-any (with_jti jti) w.refresh_tokens stored found) in
      let found' : find_where (with_jti stored.jti) w.refresh_tokens ≡ some stored =
        subst (λ (k : ℕ). find_where (with_jti k) w.refresh_tokens ≡ some stored) same found in
      ground (
        arith,
        h family,
        revoke_where-OneUsable (live_family stored.family_id) "rotation_reuse" w h family,
        renew-usable user client stored true w family found',
        renew-usable user client stored false w family found',
      )
