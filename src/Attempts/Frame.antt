-- ===== src/Attempts/Frame.antt =====
-- What a claim on the attempts leaves alone: everything but the two tables of attempts.
use kinetix_identity_service.Prelude.{ℕ, String, ◌≡◌, arith, Option}
use kinetix_identity_service.Domain.SignInPolicy.{AttemptState, AttemptAdmission}
use kinetix_identity_service.World.{World, transaction}
use kinetix_identity_service.Attempts.{
  claim_account_attempt, claim_challenge_attempt, record_if_admitted, record_account_attempt,
  lock_account, ChallengeAttempt, claim_challenge, claim_admitted,
}

pub claim_account_attempt-frame :
    (key : String) (decide : Option AttemptState → ℕ → AttemptAdmission) (w : World)
    → let w' = (claim_account_attempt key decide w).1 in
      w' ≡ record w { account_attempts = w'.account_attempts }
unfolding claim_account_attempt transaction lock_account record_if_admitted record_account_attempt
claim_account_attempt-frame key decide w = ground arith

pub claim_challenge_attempt-frame :
    (key : String) (decide : Option AttemptState → ℕ → AttemptAdmission) (claim : ChallengeAttempt)
    (w : World)
    → let w' = (claim_challenge_attempt key decide claim w).1 in
      w' ≡ record w {
        account_attempts = w'.account_attempts;
        challenge_attempts = w'.challenge_attempts;
      }
unfolding claim_challenge_attempt transaction lock_account record_if_admitted record_account_attempt
    claim_challenge claim_admitted
claim_challenge_attempt-frame key decide claim w = ground arith
