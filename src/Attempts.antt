-- ===== src/Attempts.antt =====
-- Sign-in attempts: src/infrastructure/persistence/adapters/typeorm_sign_in_attempt_repository.adapter.ts. A transaction that holds the account's row lock is one
-- step.
pub mod Rows
pub mod Account
pub mod Pace
pub mod Challenge
pub mod Sweep
pub mod Frame
use kinetix_identity_service.Prelude.{
  ℕ, ◌+◌, ◌*◌, String, Bool, true, false, ◌&&◌, Option, none, some, List, [], ◌∷◌, ltb, leb, ◌==◌,
  if◌then◌else◌, str_eq, or_default,
}
use kinetix_identity_service.Prelude.Tables.{
  find_where, any_where, count_where, update_where, delete_where,
}
use kinetix_identity_service.Prelude.Text.{Text}
use kinetix_identity_service.Crypto.{Crypto}
use kinetix_identity_service.Domain.{UserEntity, is_admin, normalised_email}
use kinetix_identity_service.Domain.SignInPolicy.{
  AttemptState, AttemptAdmission, admitted, delayed, admit_attempt, attempts_per_challenge,
  forget_after_seconds,
}
use kinetix_identity_service.World.{
  World, Request, AccountAttempts, ChallengeAttempts, SignInStage, SignInFailureReason,
  SignInFailure, Done, sign_in_delayed, internal, ◌>>=◌, ◌>>◌, pure, throw, gets, modify, or_throw,
  transaction,
}

abbrev pub of_account : String → AccountAttempts → Bool
of_account key row = str_eq row.account_key key

abbrev pub of_challenge : ℕ → ChallengeAttempts → Bool
of_challenge jti row = row.jti == jti

-- `INSERT … ON CONFLICT DO NOTHING`
unfoldable pub insert_account : String → ℕ → List AccountAttempts → List AccountAttempts
insert_account key now rows =
    if any_where (of_account key) rows
    then rows
    else record {
      account_key = key;
      state = record { attempts = 0; last_attempt_at = now; delayed_until = now };
    }
      ∷ rows

-- The row's state and the time of the decision.
unfoldable pub lock_account : String → Request (AttemptState × ℕ)
lock_account key = do
  modify (λ w. record w { account_attempts = insert_account key w.db_now w.account_attempts })
  found ← gets (λ w. find_where (of_account key) w.account_attempts)
  row ← or_throw found (internal "the sign-in attempt row was not there after it was written")
  now ← gets (λ w. w.db_now)
  pure (row.state, now)

unfoldable pub record_account_attempt : String → ℕ → ℕ → ℕ → Request Done
record_account_attempt key attempts delayed_until now = modify (λ w. record w {
  account_attempts =
      update_where (of_account key)
        (λ row. record row {
          state = record {
            attempts = attempts;
            last_attempt_at = now;
            delayed_until = delayed_until;
          };
        })
        w.account_attempts;
})

abbrev pub Decide : Type 0
Decide = Option AttemptState → ℕ → AttemptAdmission

unfoldable pub record_if_admitted : String → ℕ → AttemptAdmission → Request AttemptAdmission
record_if_admitted key now (delayed retry) = pure (delayed retry)
record_if_admitted key now (admitted attempts delayed_until) = do
  record_account_attempt key attempts delayed_until now
  pure (admitted attempts delayed_until)

unfoldable pub claim_account_attempt : String → Decide → Request AttemptAdmission
claim_account_attempt key decide =
    transaction
      (do (state, now) ← lock_account key; record_if_admitted key now (decide (some state) now))

unfoldable pub clear_account_attempts : String → Request Done
clear_account_attempts key =
    modify (λ w. record w { account_attempts = delete_where (of_account key) w.account_attempts })

pub record ChallengeAttempt : Type 0 where
  pub jti : ℕ
  pub expires_at : ℕ
  pub limit : ℕ

pub data ChallengeAdmission : Type 0 where
  answer_admitted : ℕ → ChallengeAdmission
  answer_delayed : ℕ → ChallengeAdmission
  exhausted : ChallengeAdmission

abbrev pub used_attempts : ℕ → List ChallengeAttempts → ℕ
used_attempts jti rows = elim (find_where (of_challenge jti) rows) [
  | none ↦ 0
  | some row ↦ row.attempts
]

-- `INSERT … ON CONFLICT ("jti") DO UPDATE SET "attempts" = … + 1 WHERE … < limit RETURNING …`: the
-- table after it, and whether it returns a row.
unfoldable pub claim_challenge :
    ChallengeAttempt → List ChallengeAttempts → List ChallengeAttempts × Bool
claim_challenge c [] = (record { jti = c.jti; attempts = 1; expires_at = c.expires_at } ∷ [], true)
claim_challenge c (row ∷ rows) =
    let (rest, returned) = claim_challenge c rows in
    if row.jti == c.jti
    then if ltb row.attempts c.limit
      then (record row { attempts = row.attempts + 1 } ∷ rows, true)
      else (row ∷ rows, false)
    else (row ∷ rest, returned)

unfoldable pub claim_admitted :
    String → ℕ → ChallengeAttempt → AttemptAdmission → Request ChallengeAdmission
claim_admitted key now challenge (delayed retry) = pure (answer_delayed retry)
claim_admitted key now challenge (admitted attempts delayed_until) = do
  claimed ← gets (λ w. claim_challenge challenge w.challenge_attempts)
  modify (λ w. record w { challenge_attempts = claimed.0 })
  if claimed.1
      then record_account_attempt key attempts delayed_until now >> pure (answer_admitted attempts)
      else pure exhausted

unfoldable pub claim_challenge_attempt :
    String → Decide → ChallengeAttempt → Request ChallengeAdmission
claim_challenge_attempt key decide challenge = transaction (do
  (state, now) ← lock_account key
  used ← gets (λ w. used_attempts challenge.jti w.challenge_attempts)
  if leb challenge.limit used
      then pure exhausted
      else claim_admitted key now challenge (decide (some state) now))

abbrev pub is_forgotten : ℕ → ℕ → AccountAttempts → Bool
is_forgotten forget_after now row =
    ltb (row.state.last_attempt_at + forget_after * 1000) now && ltb row.state.delayed_until now

abbrev pub has_expired : ℕ → ChallengeAttempts → Bool
has_expired now row = ltb row.expires_at now

-- The accounts' rows go by the database's clock, the challenges' by the service's.
unfoldable pub sweep : ℕ → Request ℕ
sweep forget_after = do
  forgotten ← gets (λ w. count_where (is_forgotten forget_after w.db_now) w.account_attempts)
  modify (λ w. record w {
    account_attempts = delete_where (is_forgotten forget_after w.db_now) w.account_attempts;
  })
  expired ← gets (λ w. count_where (has_expired w.app_now) w.challenge_attempts)
  modify (λ w. record w {
    challenge_attempts = delete_where (has_expired w.app_now) w.challenge_attempts;
  })
  pure (forgotten + expired)
