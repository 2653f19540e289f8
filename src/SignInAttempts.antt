-- ===== src/SignInAttempts.antt =====
-- src/application/services/sign_in_attempts.service.ts and
-- src/infrastructure/crypto/account_key.ts: attempts by e-mail address, and the log of failures.
use kinetix_identity_service.Prelude.{ℕ, ◌*◌, String, false, Option, none, some, ◌∷◌}
use kinetix_identity_service.Prelude.Text.{Text}
use kinetix_identity_service.Crypto.{Crypto}
use kinetix_identity_service.Domain.{UserEntity, is_admin, normalised_email}
use kinetix_identity_service.Domain.SignInPolicy.{
  AttemptAdmission, admitted, delayed, admit_attempt, attempts_per_challenge, forget_after_seconds,
}
use kinetix_identity_service.Attempts
use kinetix_identity_service.Attempts.{
  ChallengeAttempt, ChallengeAdmission, answer_admitted, answer_delayed, exhausted,
}
use kinetix_identity_service.World.{
  Request, SignInStage, SignInFailureReason, Done, sign_in_delayed, ◌>>=◌, pure, throw, modify,
}

-- What the claims of a challenge say of it: its id, and its end in seconds.
module _ (crypto : Crypto) where
  unfoldable pub account_key_of : Text → String
  account_key_of email = crypto.sha256_hex (normalised_email email)

  unfoldable pub admitted_attempts : AttemptAdmission → Request ℕ
  admitted_attempts (admitted attempts delayed_until) = pure attempts
  admitted_attempts (delayed retry) = throw (sign_in_delayed retry)

  -- `admit`: the number of the attempt.
  unfoldable pub admit : Text → Request ℕ
  admit email = do
    admission ← Attempts.claim_account_attempt (account_key_of email) admit_attempt
    admitted_attempts admission

  unfoldable pub answer_attempts : ChallengeAdmission → Request (Option ℕ)
  answer_attempts (answer_admitted attempts) = pure (some attempts)
  answer_attempts (answer_delayed retry) = throw (sign_in_delayed retry)
  answer_attempts exhausted = pure none

  -- `claims.jti` and `claims.exp` stand for the claims; `none` is an exhausted challenge.
  unfoldable pub admit_challenge_attempt : Text → ℕ → ℕ → Request (Option ℕ)
  admit_challenge_attempt email jti exp = do
    admission ←
        Attempts.claim_challenge_attempt (account_key_of email) admit_attempt
          (record { jti = jti; expires_at = exp * 1000; limit = attempts_per_challenge })
    answer_attempts admission

  unfoldable pub failed :
      SignInStage → SignInFailureReason → Text → Option UserEntity → ℕ → Request Done
  failed stage reason email user attempts = modify (λ w. record w {
    failures =
        record {
          stage = stage;
          reason = reason;
          account_key = account_key_of email;
          user_id = elim user [ none ↦ none | some u ↦ some u.id ];
          is_admin = elim user [ none ↦ false | some u ↦ is_admin u.role ];
          attempts = attempts;
        }
        ∷ w.failures;
  })

  unfoldable pub succeeded : Text → Request Done
  succeeded email = Attempts.clear_account_attempts (account_key_of email)

unfoldable pub sweep : Request ℕ
sweep = Attempts.sweep forget_after_seconds
