-- ===== src/Auth/Challenge.antt =====
-- The answer to a challenge: what it takes, and that it is taken once.
use kinetix_identity_service.Prelude.{
  ℕ, ◌*◌, String, true, false, Option, some, ◌≡◌, arith, inl, inr, ◌∷◌,
}
use kinetix_identity_service.Prelude.Tables.{find_where, any_where, update_where}
use kinetix_identity_service.Crypto.{Crypto}
use kinetix_identity_service.Domain.{UserEntity}
use kinetix_identity_service.Domain.SessionClient.{RequestClient}
use kinetix_identity_service.Domain.SignInPolicy.{admit_attempt, attempts_per_challenge}
use kinetix_identity_service.Jwt.{Claims}
use kinetix_identity_service.Attempts.Frame.{claim_challenge_attempt-frame}
use kinetix_identity_service.SignInAttempts.{
  admit_challenge_attempt, answer_attempts, account_key_of,
}
use kinetix_identity_service.Tokens.{
  TokenService, revokes, record_revoked_jti, refuse_spent_mfa_challenge, consume_mfa_challenge,
}
use kinetix_identity_service.Tokens.Issue.{peek_mfa_challenge, verify_signature, payload_claims}
use kinetix_identity_service.Tokens.Sessions.{verify_signature-pure}
use kinetix_identity_service.Users.{
  entity_found, with_id, find_by_id, accepts_step, stepped, accept_two_factor_step,
}
use kinetix_identity_service.Users.Steps.{accepts_step-stepped}
use kinetix_identity_service.World.{World, ok, err, unauthorized, Outcome-cases}
use kinetix_identity_service.Auth.{AuthTokens, subject_of, accept_fresh, start_session}
use kinetix_identity_service.Auth.Frame.{start_session-ok, start_session-frame}
use kinetix_identity_service.Auth.SignIn.{
  OpenChallenge, secret_in_use, open_challenge, admit_answer, answer_step,
}

-- What an open challenge shows of the state that it was opened in.
pub record Opens {Token : Type 0} (service : TokenService Token) (token : Token) (w : World)
    (opened : OpenChallenge) : Type 0 where
  pub is_signed : (peek_mfa_challenge service token w).0 ≡ ok opened.claims
  pub is_unspent : any_where (revokes opened.claims.jti) w.revoked_tokens ≡ false
  pub is_account : entity_found (find_where (with_id opened.claims.uid) w.users) ≡ some opened.user
  pub is_secret : secret_in_use opened.user ≡ some opened.two_factor_secret

-- What an answer that was taken shows: its step was new for the account, and neither the step nor
-- the challenge can be used in the state that it leaves.
pub record Taken {Token : Type 0} (opened : OpenChallenge) (step : ℕ) (tokens : AuthTokens Token)
    (w w' : World) : Type 0 where
  pub is_new : any_where (accepts_step opened.user.id step) w.users ≡ true
  pub is_used : any_where (accepts_step opened.user.id step) w'.users ≡ false
  pub is_spent : any_where (revokes opened.claims.jti) w'.revoked_tokens ≡ true
  pub is_for : tokens.user ≡ subject_of opened.user
  pub same_clock : w'.app_now ≡ w.app_now

module _ {Token : Type 0} (service : TokenService Token) where
  pub peek_mfa_challenge-pure :
      (token : Token) (w : World) → (peek_mfa_challenge service token w).1 ≡ w
  unfolding peek_mfa_challenge
  peek_mfa_challenge-pure token w = ground (arith, verify_signature-pure service token w)

module _ (crypto : Crypto) {Token : Type 0} (service : TokenService Token) where
  pub open_challenge-pure :
      (token : Token) (w : World) → (open_challenge crypto service token w).1 ≡ w
  unfolding open_challenge refuse_spent_mfa_challenge find_by_id
  open_challenge-pure token w = elim (Outcome-cases (peek_mfa_challenge service token w).0) [
    | inl (claims, e) ↦ ground (arith, peek_mfa_challenge-pure service token w)
    | inr (failure, e) ↦ ground (arith, peek_mfa_challenge-pure service token w)
  ]

  pub open_challenge-ok :
      (token : Token) (opened : OpenChallenge) (w : World)
      → (open_challenge crypto service token w).0 ≡ ok opened
      → Opens service token w opened
  unfolding open_challenge refuse_spent_mfa_challenge find_by_id
  open_challenge-ok token opened w h = elim (Outcome-cases (peek_mfa_challenge service token w).0) [
    | inl (claims, e) ↦
        let facts : ((peek_mfa_challenge service token w).0 ≡ ok opened.claims)
            × (any_where (revokes opened.claims.jti) w.revoked_tokens ≡ false)
            × (entity_found (find_where (with_id opened.claims.uid) w.users) ≡ some opened.user)
            × (secret_in_use opened.user ≡ some opened.two_factor_secret) =
          ground (arith, peek_mfa_challenge-pure service token w) in
        record {
          is_signed = facts.0;
          is_unspent = facts.1;
          is_account = facts.2;
          is_secret = facts.3;
        }
    | inr (failure, e) ↦ ground (arith, peek_mfa_challenge-pure service token w)
  ]

  pub peek_mfa_challenge-clock :
      (token : Token) (w w' : World)
      → w'.app_now ≡ w.app_now
      → (peek_mfa_challenge service token w').0 ≡ (peek_mfa_challenge service token w).0
  unfolding peek_mfa_challenge verify_signature payload_claims
  peek_mfa_challenge-clock token w w' h = ground arith

  pub open_challenge-spent :
      (token : Token) (claims : Claims) (w : World)
      → (peek_mfa_challenge service token w).0 ≡ ok claims
      → any_where (revokes claims.jti) w.revoked_tokens ≡ true
      → (open_challenge crypto service token w).0 ≡ err (unauthorized "CHALLENGE_SPENT")
  unfolding open_challenge refuse_spent_mfa_challenge
  open_challenge-spent token claims w h spent =
      ground (arith, peek_mfa_challenge-pure service token w)

  pub admit_answer-frame :
      (user : UserEntity) (claims : Claims) (w : World)
      → let w' = (admit_answer crypto service user claims w).1 in
        (w'.users ≡ w.users) × (w'.revoked_tokens ≡ w.revoked_tokens) × (w'.app_now ≡ w.app_now)
  unfolding admit_answer admit_challenge_attempt answer_attempts
  admit_answer-frame user claims w = ground (
    arith,
    claim_challenge_attempt-frame (account_key_of crypto user.email) admit_attempt
        (record {
          jti = claims.jti;
          expires_at = claims.exp * 1000;
          limit = attempts_per_challenge;
        })
        w,
  )

  any_revokes-record :
      (jti expires_at : ℕ) (reason : String) (w : World)
      → any_where (revokes jti) (record_revoked_jti jti expires_at reason w).1.revoked_tokens ≡ true
  unfolding record_revoked_jti
  any_revokes-record jti expires_at reason w = ground arith

  -- The state in which the session of an accepted answer starts.
  abbrev answered : OpenChallenge → ℕ → World → World
  answered opened step w = record w {
    revoked_tokens =
        record {
          jti = opened.claims.jti;
          expires_at = opened.claims.exp * 1000;
          reason = "mfa_challenge_used";
        }
        ∷ w.revoked_tokens;
    users = update_where (accepts_step opened.user.id step) (stepped step) w.users;
  }

  pub answer_step-ok :
      (opened : OpenChallenge) (attempt : ℕ) (client : Option RequestClient) (step : ℕ)
      (tokens : AuthTokens Token) (w : World)
      → (answer_step crypto service opened attempt client (some step) w).0 ≡ ok tokens
      → Taken opened step tokens w
          (answer_step crypto service opened attempt client (some step) w).1
  unfolding answer_step consume_mfa_challenge accept_two_factor_step accept_fresh record_revoked_jti
  answer_step-ok opened attempt client step tokens w h =
      let id = opened.user.id in
      let started = start_session crypto service opened.user client (answered opened step w) in
      let w' = (answer_step crypto service opened attempt client (some step) w).1 in
      let facts : (any_where (accepts_step id step) w.users ≡ true)
          × (any_where (accepts_step id step) w'.users ≡ false)
          × (any_where (revokes opened.claims.jti) w'.revoked_tokens ≡ true)
          × (tokens.user ≡ subject_of opened.user)
          × (w'.app_now ≡ w.app_now) =
        elim (Outcome-cases started.0) [
          | inl (made, e) ↦ ground (
            arith,
            start_session-ok crypto service opened.user client made (answered opened step w),
            start_session-frame crypto service opened.user client (answered opened step w),
            accepts_step-stepped id step step w.users (ground arith),
          )
          | inr (failure, e) ↦ ground arith
        ] in
      record {
        is_new = facts.0;
        is_used = facts.1;
        is_spent = facts.2;
        is_for = facts.3;
        same_clock = facts.4;
      }
