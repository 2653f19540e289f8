-- ===== src/Attempts/Challenge.antt =====
-- Claiming an answer to a two-factor challenge: a challenge takes a limited number of answers.
use Prim.Native.Nat.{max}
use kinetix_identity_service.Prelude.{
  Bool, false, ℕ, ◌+◌, ◌≤◌, ◌<◌, ◌≡◌, String, true, List, [], ◌∷◌, arith, if◌then◌else◌, leb, ◌==◌,
  Bool-cases, inl, inr,
}
use kinetix_identity_service.World.{
  World, Outcome, ok, ChallengeAttempts, commit_or_undo, transaction,
}
use kinetix_identity_service.Domain.SignInPolicy.{AttemptAdmission, admitted, delayed}
use kinetix_identity_service.Attempts.{
  used_attempts, claim_challenge, claim_admitted, claim_challenge_attempt, Decide, ChallengeAttempt,
  ChallengeAdmission, answer_admitted, exhausted, record_account_attempt,
}
use kinetix_identity_service.Attempts.Account.{lock_account_lem}

used-claim :
    (c : ChallengeAttempt) (j : ℕ) (rows : List ChallengeAttempts)
    → used_attempts c.jti rows < c.limit
    → ((claim_challenge c rows).1 ≡ true)
      × (used_attempts j (claim_challenge c rows).0
          ≡ (if c.jti == j then 1 else 0) + used_attempts j rows)
unfolding claim_challenge
used-claim c j [] h = ground arith
used-claim c j (row ∷ rows) h = ground (arith, used-claim c j rows)

abbrev pub granted : Outcome ChallengeAdmission → ℕ
granted (ok (answer_admitted n)) = 1
granted _ = 0

abbrev pub is_exhausted : Outcome ChallengeAdmission → Bool
is_exhausted (ok exhausted) = true
is_exhausted _ = false

-- What an answer does to the number of answers that challenges have used: an admitted answer uses
-- one of its own challenge, within the limit, and it is refused as exhausted when none is left.
pub record Counted (c : ChallengeAttempt) (rows : List ChallengeAttempts)
    (answer : Outcome ChallengeAdmission) (rows' : List ChallengeAttempts) : Type 0 where
  pub counted :
      (j : ℕ)
      → used_attempts j rows' ≡ (if c.jti == j then granted answer else 0) + used_attempts j rows
  pub within : used_attempts c.jti rows' ≤ max c.limit (used_attempts c.jti rows)
  pub exhausts : is_exhausted answer ≡ leb c.limit (used_attempts c.jti rows)

claim_admitted-Counted :
    (key : String) (now : ℕ) (c : ChallengeAttempt) (a : AttemptAdmission) (before w : World)
    → used_attempts c.jti w.challenge_attempts < c.limit
    → let (answer, w') = commit_or_undo before (claim_admitted key now c a w) in
      Counted c w.challenge_attempts answer w'.challenge_attempts
unfolding claim_admitted record_account_attempt
claim_admitted-Counted key now c (delayed retry) before w h = record {
  counted = λ j. ground arith;
  within = omega arith;
  exhausts = ground arith;
}
claim_admitted-Counted key now c (admitted n until) before w h =
    let rows = w.challenge_attempts in
    let mine = used-claim c c.jti rows h in
    record {
      counted = λ j. ground (arith, mine, used-claim c j rows h);
      within = ground (arith, mine);
      exhausts = ground (arith, mine);
    }

-- Whatever the policy decides, an admitted answer uses one answer of its challenge and no other
-- answer uses any; none passes the challenge's limit; and an answer is refused as exhausted exactly
-- when the challenge has used its answers up.
pub claim_challenge_attempt-Counted :
    (key : String) (decide : Decide) (c : ChallengeAttempt) (w : World)
    → let (answer, w') = claim_challenge_attempt key decide c w in
      Counted c w.challenge_attempts answer w'.challenge_attempts
unfolding claim_challenge_attempt transaction
claim_challenge_attempt-Counted key decide c w =
    rw (lock_account_lem key w)
      (elim (Bool-cases (leb c.limit (used_attempts c.jti w.challenge_attempts))) [
        | inl full ↦ rw full (record {
          counted = λ j. ground arith;
          within = omega arith;
          exhausts = ground (arith, full);
        })
        | inr more ↦ rw more (claim_admitted-Counted key w.db_now c _ w _ (ground arith))
      ])
