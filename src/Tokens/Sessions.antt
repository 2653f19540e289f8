-- ===== src/Tokens/Sessions.antt =====
-- Sessions over time: every history of issuing, renewing and ending them.
use kinetix_identity_service.Prelude.{
  ℕ, ◌*◌, ◌≡◌, refl, String, Option, none, some, arith, inl, inr,
}
use kinetix_identity_service.Prelude.Tables.{find_where}
use kinetix_identity_service.Domain.SessionClient.{RequestClient}
use kinetix_identity_service.Jwt.{Claims}
use kinetix_identity_service.World.{World, Outcome-cases, transaction}
use kinetix_identity_service.Tokens.{
  TokenService, TokenSubject, with_jti, logout, revoke_family, revoke_all_families_for_principal,
  revoke_other_sessions, revoke_access_jti, live_principal, live_family, record_revoked_jti,
}
use kinetix_identity_service.Tokens.Issue.{issue_pair, verify_signature, payload_claims}
use kinetix_identity_service.Tokens.Revoked.{revoke_access_jti-ok, revoke_access_jti-refresh_tokens}
use kinetix_identity_service.Tokens.Rotation.{rotate, rotate_jti, rotation_result}
use kinetix_identity_service.Tokens.Live.{
  OneUsable, IsNewFamily, issue_pair-OneUsable, revoke_where-OneUsable, rotate_found-OneUsable,
}

module _ {Token : Type 0} (service : TokenService Token) where
  pub verify_signature-pure : (token : Token) (w : World) → (verify_signature service token w).1 ≡ w
  unfolding verify_signature payload_claims
  verify_signature-pure token w = ground arith

  rotate_jti-OneUsable :
      (jti : ℕ) (user : TokenSubject) (client : RequestClient) (w : World)
      → OneUsable w.refresh_tokens
      → OneUsable (rotate_jti service jti user client w).1.refresh_tokens
  unfolding rotate_jti transaction
  rotate_jti-OneUsable jti user client w =
      rotate_found-OneUsable service user client jti (find_where (with_jti jti) w.refresh_tokens) w
        refl

  rotate-OneUsable :
      (token : Token) (user : TokenSubject) (client : RequestClient) (w : World)
      → OneUsable w.refresh_tokens
      → OneUsable (rotate service token user client w).1.refresh_tokens
  unfolding rotate rotation_result
  rotate-OneUsable token user client w h family =
      elim (Outcome-cases (verify_signature service token w).0) [
        | inl (claims, e) ↦ ground (
          arith,
          verify_signature-pure token w,
          h family,
          rotate_jti-OneUsable claims.jti user client w h family,
        )
        | inr (failure, e) ↦ ground (arith, verify_signature-pure token w, h family)
      ]

  logout-OneUsable :
      (claims : Claims) (family : Option ℕ) (w : World)
      → OneUsable w.refresh_tokens
      → OneUsable (logout claims family w).1.refresh_tokens
  unfolding logout revoke_family revoke_all_families_for_principal
  logout-OneUsable claims family w h = ended family
    where
      kept :
          OneUsable (revoke_access_jti claims.jti (claims.exp * 1000) "logout" w).1.refresh_tokens
      kept = rw (revoke_access_jti-refresh_tokens claims.jti (claims.exp * 1000) "logout" w) h

      ended : (f : Option ℕ) → OneUsable (logout claims f w).1.refresh_tokens
      ended none =
          rw (revoke_access_jti-ok claims.jti (claims.exp * 1000) "logout" w)
            (revoke_where-OneUsable (live_principal claims.sub) "logout" _ kept)
      ended (some f) =
          rw (revoke_access_jti-ok claims.jti (claims.exp * 1000) "logout" w)
            (revoke_where-OneUsable (live_family f) "logout" _ kept)

  -- One operation of the service on the sessions, or time going by: the clocks move, and the source
  -- of randomness is drawn from by others.
  pub data Step (w : World) : World → Type 0 where
    issues :
        (user : TokenSubject) (principal : ℕ) (client : Option String)
        → IsNewFamily w
        → Step w (issue_pair service user principal client w).1
    renews :
        (token : Token) (user : TokenSubject) (client : RequestClient)
        → Step w (rotate service token user client w).1
    logs_out : (claims : Claims) (family : Option ℕ) → Step w (logout claims family w).1
    ends_family : (family : ℕ) (reason : String) → Step w (revoke_family family reason w).1
    ends_others :
        (principal : ℕ) (kept : Option ℕ) (reason : String)
        → Step w (revoke_other_sessions principal kept reason w).1
    elapses : (app db draws : ℕ) → Step w (record w { app_now = app; db_now = db; draws = draws })

  pub data Reach (w : World) : World → Type 0 where
    here : Reach w w
    next : {u v : World} → Reach w u → Step u v → Reach w v

  Step-OneUsable :
      {u v : World} → Step u v → OneUsable u.refresh_tokens → OneUsable v.refresh_tokens
  unfolding logout revoke_family revoke_all_families_for_principal revoke_other_sessions
      revoke_access_jti record_revoked_jti
  Step-OneUsable {u} (issues user principal client n) h =
      issue_pair-OneUsable service user principal client u n h
  Step-OneUsable {u} (renews token user client) h = rotate-OneUsable token user client u h
  Step-OneUsable {u} (logs_out claims family) h = logout-OneUsable claims family u h
  Step-OneUsable {u} (ends_family family reason) h = revoke_where-OneUsable _ reason u h
  Step-OneUsable {u} (ends_others principal none reason) h = revoke_where-OneUsable _ reason u h
  Step-OneUsable {u} (ends_others principal (some kept) reason) h =
      revoke_where-OneUsable _ reason u h
  Step-OneUsable (elapses app db draws) h = h

  -- Where every session that starts draws a new family, no sequence of starting and renewing
  -- sessions, logging out, ending a session or a principal's other sessions, and letting time pass
  -- makes two tokens of one session renewable: if that holds of the stored tokens, it holds in every
  -- state reached.
  pub Reach-OneUsable :
      {w v : World} → OneUsable w.refresh_tokens → Reach w v → OneUsable v.refresh_tokens
  Reach-OneUsable h here = h
  Reach-OneUsable h (next r s) = Step-OneUsable s (Reach-OneUsable h r)
