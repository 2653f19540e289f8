-- ===== src/Tokens/Replay.antt =====
-- What the transaction of `rotate` does on each branch, and what replaying a refresh token costs.
use kinetix_identity_service.Prelude.{
  ℕ, ◌+◌, ◌<◌, ◌≤◌, ◌≡◌, ◌≢◌, refl, subst, String, true, false, none, some, List, [], ◌∷◌, arith,
  if◌then◌else◌, ◌==◌, is_some, sym,
}
use kinetix_identity_service.Prelude.Tables.{
  All, All-find_where, any_where, find_where, update_where,
}
use kinetix_identity_service.Prelude.Counts.{find_where-update, find_where-any, All-update}
use kinetix_identity_service.Domain.SessionClient.{RequestClient, session_client_decision, mismatch}
use kinetix_identity_service.World.{World, RefreshToken, ok, transaction}
use kinetix_identity_service.Tokens.{
  TokenService, TokenSubject, TokenPair, with_jti, live_family, revoked_at_for, revoke_where,
  revoke_family,
}
use kinetix_identity_service.Tokens.Issue.{refresh_row}
use kinetix_identity_service.Tokens.Rotation.{
  rotated, refused, mismatched, mark_used, renew, decide_rotation, rotate_stored, rotate_found,
  rotate_jti, session_client, jti_of, is_bind,
}
use kinetix_identity_service.Tokens.Live.{minted_row, minted_pair, mint_pair_lem, unused_jti-ne}

-- Every token of the family is revoked.
abbrev pub IsEnded : ℕ → List RefreshToken → Type 0
IsEnded family = All (λ row. row.family_id ≡ family → is_some row.revoked_at ≡ true)

-- Of another family nothing changes.
abbrev pub outside : ℕ → List RefreshToken → List RefreshToken
outside family [] = []
outside family (row ∷ rows) =
    if row.family_id == family then outside family rows else row ∷ outside family rows

pub revoke_family-IsEnded :
    (family : ℕ) (reason : String) (w : World)
    → IsEnded family (revoke_family family reason w).1.refresh_tokens
unfolding revoke_family revoke_where
revoke_family-IsEnded family reason w =
    All-update _ (live_family family) (revoked_at_for w.app_now reason) w.refresh_tokens
      (λ row e f. refl) (λ row e f. ground arith)

outside-update :
    (family now : ℕ) (reason : String) (rows : List RefreshToken)
    → outside family (update_where (live_family family) (revoked_at_for now reason) rows)
      ≡ outside family rows
outside-update family now reason [] = refl
outside-update family now reason (row ∷ rows) =
    ground (arith, outside-update family now reason rows)

pub find-with_jti :
    (jti : ℕ) (rows : List RefreshToken) (stored : RefreshToken)
    → find_where (with_jti jti) rows ≡ some stored
    → stored.jti ≡ jti
find-with_jti jti rows stored e = ground (arith, find_where-any (with_jti jti) rows stored e)

module _ {Token : Type 0} (service : TokenService Token) where
  reuse_ends :
      (jti : ℕ) (user : TokenSubject) (client : RequestClient) (w : World) (stored : RefreshToken)
      → find_where (with_jti jti) w.refresh_tokens ≡ some stored
      → stored.revoked_at ≡ none
      → is_some stored.used_at ≡ true
      → rotate_jti service jti user client w ≡ (
        ok (refused "This refresh token has already been used; the session has been revoked"),
        (revoke_family stored.family_id "rotation_reuse" w).1,
      )
  unfolding rotate_jti rotate_found rotate_stored transaction revoke_family revoke_where
  reuse_ends jti user client w stored found unrevoked used = ground arith

  -- A refresh token that has been used, and is not revoked, ends its session: the caller is refused,
  -- every token of the family is revoked, and no token of another family changes.
  pub rotate_jti-reuse :
      (jti : ℕ) (user : TokenSubject) (client : RequestClient) (w : World) (stored : RefreshToken)
      → find_where (with_jti jti) w.refresh_tokens ≡ some stored
      → stored.revoked_at ≡ none
      → is_some stored.used_at ≡ true
      → let (answer, w') = rotate_jti service jti user client w in
        (answer
          ≡ ok (refused "This refresh token has already been used; the session has been revoked"))
        × IsEnded stored.family_id w'.refresh_tokens
        × (outside stored.family_id w'.refresh_tokens ≡ outside stored.family_id w.refresh_tokens)
  unfolding revoke_family revoke_where
  rotate_jti-reuse jti user client w stored found unrevoked used =
      rw (reuse_ends jti user client w stored found unrevoked used) (
        refl,
        revoke_family-IsEnded stored.family_id "rotation_reuse" w,
        outside-update stored.family_id w.app_now "rotation_reuse" w.refresh_tokens,
      )

  -- A token that `rotate` renews: stored, neither revoked nor used, not expired, of a session that
  -- the caller's client may renew; and the id drawn for its replacement is new.
  pub record Renewable (jti : ℕ) (client : RequestClient) (w : World) (stored : RefreshToken)
      : Type 0 where
    pub found : find_where (with_jti jti) w.refresh_tokens ≡ some stored
    pub unrevoked : stored.revoked_at ≡ none
    pub unused : stored.used_at ≡ none
    pub lives : w.app_now < stored.expires_at
    pub matches : session_client_decision stored.client client ≢ mismatch
    pub fresh : any_where (with_jti (w.entropy.uuid (w.draws + 1))) w.refresh_tokens ≡ false

  abbrev pub replacing : RequestClient → World → TokenSubject → RefreshToken → RefreshToken
  replacing client w user stored =
      minted_row service user stored.principal_id stored.family_id
        (session_client stored.client client) w

  abbrev pub replacement : RequestClient → World → TokenSubject → RefreshToken → TokenPair Token
  replacement client w user stored =
      minted_pair service user stored.principal_id stored.family_id
        (session_client stored.client client) w

  abbrev pub used_up :
      RequestClient → World → TokenSubject → RefreshToken → RefreshToken → RefreshToken
  used_up client w user stored row = record row {
    used_at = some w.app_now;
    replaced_by_jti = jti_of (service.jwt.decode (replacement client w user stored).refresh_token);
  }

  -- What a renewal comes to, in the terms of `mint_pair`.
  pub rotate_jti_lem :
      (jti : ℕ) (user : TokenSubject) (client : RequestClient) (w : World) (stored : RefreshToken)
      → Renewable jti client w stored
      → rotate_jti service jti user client w ≡ (
        ok (
            rotated
              (replacement client w user stored)
              (is_bind (session_client_decision stored.client client))),
        record w {
          draws = w.draws + 1 + 1;
          refresh_tokens =
              update_where
                (with_jti stored.jti)
                (used_up client w user stored)
                (replacing client w user stored ∷ w.refresh_tokens);
        },
      )
  unfolding rotate_jti rotate_found rotate_stored decide_rotation renew mark_used transaction
  rotate_jti_lem jti user client w stored r =
      let minted =
        mint_pair_lem service user stored.principal_id stored.family_id
          (session_client stored.client client) w in
      ground (arith, minted, r.fresh, r.found, r.unrevoked, r.unused, r.lives, r.matches)

  found_used :
      (jti : ℕ) (user : TokenSubject) (client : RequestClient) (w : World) (stored : RefreshToken)
      → Renewable jti client w stored
      → find_where (with_jti jti) (rotate_jti service jti user client w).1.refresh_tokens
        ≡ some (used_up client w user stored stored)
  unfolding refresh_row
  found_used jti user client w stored r =
      let rows = w.refresh_tokens in
      let mine = find-with_jti jti rows stored r.found in
      let first = replacing client w user stored in
      let other = unused_jti-ne first.jti jti rows stored r.fresh r.found in
      let marked =
        find_where-update (with_jti jti) (used_up client w user stored) (first ∷ rows) stored
          (λ a. refl) (ground (arith, r.found, other)) in
      rw (rotate_jti_lem jti user client w stored r) (
        subst
          (λ (k : ℕ).
            find_where (with_jti jti)
              (update_where (with_jti k) (used_up client w user stored) (first ∷ rows))
            ≡ some (used_up client w user stored stored))
          (sym mine) marked)

  -- Inside the transaction, a token that a renewal has used up ends its session.
  pub rotate_jti_again :
      (jti : ℕ) (user user' : TokenSubject) (client client' : RequestClient) (w v : World)
      (stored : RefreshToken)
      → Renewable jti client w stored
      → v.refresh_tokens ≡ (rotate_jti service jti user client w).1.refresh_tokens
      → let (answer, v') = rotate_jti service jti user' client' v in
        (answer
          ≡ ok (refused "This refresh token has already been used; the session has been revoked"))
        × IsEnded stored.family_id v'.refresh_tokens
  rotate_jti_again jti user user' client client' w v stored r same =
      let again =
        rotate_jti-reuse jti user' client' v (used_up client w user stored stored)
          (rw same (found_used jti user client w stored r)) r.unrevoked refl in
      (again.0, again.1)

  -- In a session that has ended, no token is renewed, and trying changes nothing.
  pub rotate_jti-ended :
      (jti family : ℕ) (user : TokenSubject) (client : RequestClient) (w : World)
      (stored : RefreshToken)
      → IsEnded family w.refresh_tokens
      → find_where (with_jti jti) w.refresh_tokens ≡ some stored
      → stored.family_id ≡ family
      → rotate_jti service jti user client w
        ≡ (ok (refused "This refresh token has been revoked"), w)
  unfolding rotate_jti rotate_found rotate_stored transaction
  rotate_jti-ended jti family user client w stored ended found mine =
      let revoked =
        (All-find_where (λ row. row.family_id ≡ family → is_some row.revoked_at ≡ true)
            (with_jti jti) w.refresh_tokens ended found).0
          mine in
      ground (arith, revoked)

  -- What else is refused leaves every table as it is: an unknown token, an expired one, and one of a
  -- session that the caller's client may not renew.
  pub rotate_jti-refuses :
      (jti : ℕ) (user : TokenSubject) (client : RequestClient) (w : World)
      → (find_where (with_jti jti) w.refresh_tokens ≡ none
          → rotate_jti service jti user client w
            ≡ (ok (refused "This refresh token is not recognised"), w))
        × ((stored : RefreshToken)
            → find_where (with_jti jti) w.refresh_tokens ≡ some stored
            → stored.revoked_at ≡ none
            → stored.used_at ≡ none
            → (stored.expires_at ≤ w.app_now
                → rotate_jti service jti user client w
                  ≡ (ok (refused "This refresh token has expired"), w))
              × (w.app_now < stored.expires_at
                  → session_client_decision stored.client client ≡ mismatch
                  → rotate_jti service jti user client w ≡ (ok (mismatched stored.client), w)))
  unfolding rotate_jti rotate_found rotate_stored decide_rotation transaction
  rotate_jti-refuses jti user client w =
      (λ e. ground (arith, e), λ stored e u n. (λ h. ground (arith, e), λ h m. ground (arith, e)))
