-- ===== src/Auth/Answer.antt =====
-- `verifyTwoFactor` as a whole: what a session of it shows, and that its challenge answers once.
use kinetix_identity_service.Prelude.{
  ℕ, Option, none, some, ◌≡◌, arith, inl, inr, Option-cases, subst, sym, ◌∙◌,
}
use kinetix_identity_service.Prelude.Text.{Text}
use kinetix_identity_service.Crypto.{Crypto}
use kinetix_identity_service.Domain.SessionClient.{RequestClient}
use kinetix_identity_service.Totp.{accepted_step}
use kinetix_identity_service.Tokens.{TokenService}
use kinetix_identity_service.World.{World, Outcome, ok, err, Outcome-cases, unauthorized, ◌>>=◌}
use kinetix_identity_service.Auth.{AuthTokens, step_of}
use kinetix_identity_service.Auth.Challenge.{
  Opens, Taken, open_challenge-pure, open_challenge-ok, admit_answer-frame, answer_step-ok,
  peek_mfa_challenge-clock, open_challenge-spent,
}
use kinetix_identity_service.Auth.SignIn.{
  OpenChallenge, open_challenge, admit_answer, answer_step, verify_two_factor,
}

module _ (crypto : Crypto) {Token : Type 0} (service : TokenService Token) where
  -- The answer to an open challenge.
  abbrev answer :
      Text → Option RequestClient → OpenChallenge → World → Outcome (AuthTokens Token) × World
  answer code client opened w =
      (admit_answer crypto service opened.user opened.claims >>= λ attempt.
      step_of crypto opened.two_factor_secret code >>= λ step.
      answer_step crypto service opened attempt client step)
        w

  answer-ok :
      (code : Text) (client : Option RequestClient) (opened : OpenChallenge)
      (tokens : AuthTokens Token) (w : World)
      → (answer code client opened w).0 ≡ ok tokens
      → (step : ℕ) × (accepted_step crypto opened.two_factor_secret code w.app_now
          ≡ some (some step))
        × Taken opened step tokens w (answer code client opened w).1
  unfolding step_of answer_step
  answer-ok code client opened tokens w h =
      let frame = admit_answer-frame crypto service opened.user opened.claims w in
      let w1 = (admit_answer crypto service opened.user opened.claims w).1 in
      elim (Outcome-cases (admit_answer crypto service opened.user opened.claims w).0) [
        | inl (attempt, e) ↦
            elim (Option-cases (accepted_step crypto opened.two_factor_secret code w1.app_now)) [
              | inl e' ↦ ground (arith, frame)
              | inr (none, e') ↦ ground (arith, frame)
              | inr (some step, e') ↦
                  let last = answer_step crypto service opened attempt client (some step) w1 in
                  let taken =
                    answer_step-ok crypto service opened attempt client step tokens w1
                      (ground arith) in
                  let same : (answer code client opened w).1 ≡ last.1 = ground arith in
                  (
                    step,
                    ground (arith, frame),
                    subst (λ (v : World). Taken opened step tokens w v) (sym same)
                        (record {
                          is_new = ground (arith, frame, taken.is_new);
                          is_used = taken.is_used;
                          is_spent = taken.is_spent;
                          is_for = taken.is_for;
                          same_clock = ground (arith, frame, taken.same_clock);
                        }),
                  )
            ]
        | inr (failure, e) ↦ ground arith
      ]

  -- A challenge gives a session only if its token verifies and is not spent, to the stored account that
  -- it is of, for a code of the secret that the account uses, at a step that the account had not used.
  -- In the state that this leaves, the account cannot use the step again and the challenge is spent.
  pub verify_two_factor-Taken :
      (token : Token) (code : Text) (client : Option RequestClient) (tokens : AuthTokens Token)
      (w : World)
      → (verify_two_factor crypto service token code client w).0 ≡ ok tokens
      → (opened : OpenChallenge) × (step : ℕ) × Opens service token w opened
        × (accepted_step crypto opened.two_factor_secret code w.app_now ≡ some (some step))
        × Taken opened step tokens w (verify_two_factor crypto service token code client w).1
  unfolding verify_two_factor
  verify_two_factor-Taken token code client tokens w h =
      elim (Outcome-cases (open_challenge crypto service token w).0) [
        | inl (opened, e) ↦
            let pure_w = open_challenge-pure crypto service token w in
            let same : verify_two_factor crypto service token code client w
                ≡ answer code client opened w =
              ground (arith, pure_w) in
            let found = answer-ok code client opened tokens w (ground (arith, same)) in
            (
              opened,
              found.0,
              open_challenge-ok crypto service token opened w e,
              found.1,
              subst (λ (v : Outcome (AuthTokens Token) × World). Taken opened found.0 tokens w v.1)
                  (sym same) found.2,
            )
        | inr (failure, e) ↦ ground arith
      ]

  -- A challenge that has given a session gives no other in the state that this leaves, whatever the
  -- code and the client: the caller is told that the challenge is spent.
  pub verify_two_factor_twice :
      (token : Token) (code : Text) (client : Option RequestClient) (tokens : AuthTokens Token)
      (w : World) (code' : Text) (client' : Option RequestClient)
      → (verify_two_factor crypto service token code client w).0 ≡ ok tokens
      → (verify_two_factor crypto service token code' client'
          (verify_two_factor crypto service token code client w).1).0
        ≡ err (unauthorized "CHALLENGE_SPENT")
  unfolding verify_two_factor
  verify_two_factor_twice token code client tokens w code' client' h =
      let w' = (verify_two_factor crypto service token code client w).1 in
      let facts = verify_two_factor-Taken token code client tokens w h in
      let claims = facts.0.claims in
      let still = peek_mfa_challenge-clock crypto service token w w' facts.4.same_clock in
      ground (
        arith,
        open_challenge-spent crypto service token claims w' (still ∙ facts.2.is_signed)
            facts.4.is_spent,
      )
