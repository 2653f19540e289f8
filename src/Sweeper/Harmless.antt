-- ===== src/Sweeper/Harmless.antt =====
-- What a sweep leaves as it was.
use kinetix_identity_service.Prelude.{
  ℕ, ◌+◌, ltb, ◌⊎◌, inl, inr, Bool-cases, ◌≤◌, ◌<◌, ◌*◌, ◌/◌, none, some, true, false, String, Bool,
  List, [], ◌∷◌, ◌≡◌, refl, ◌∙◌, arith, ap,
}
use kinetix_identity_service.Prelude.Tables.{All, find_where, delete_where}
use kinetix_identity_service.Prelude.Counts.{find-delete, All-delete}
use kinetix_identity_service.Domain.SignInPolicy.{admit_attempt, forget_after_seconds}
use kinetix_identity_service.Jwt.{JwtLaws, Claims}
use kinetix_identity_service.World.{
  World, PasskeyChallenge, AccountAttempts, ChallengeAttempts, ok, try_catch, catch_outcome,
}
use kinetix_identity_service.Attempts
use kinetix_identity_service.Attempts.{of_challenge, is_forgotten, has_expired, used_attempts}
use kinetix_identity_service.Attempts.Rows.{state_at}
use kinetix_identity_service.Attempts.Sweep.{UniqueKeys, admit_attempt-sweep}
use kinetix_identity_service.Passkeys
use kinetix_identity_service.Passkeys.{
  is_open, is_over, is_sign_in, spend, spend_sign_in, challenge_of,
}
use kinetix_identity_service.SignInAttempts
use kinetix_identity_service.Sweeper.{sweep_records, sweep}
use kinetix_identity_service.Tokens.{
  TokenService, refuse_revoked, sweep_expired_revocations, is_past,
}
use kinetix_identity_service.Tokens.Issue.{verify_signature, payload_claims, verify_session}
use kinetix_identity_service.Tokens.Verified.{
  RevokedToEnd, verify_session-sweep, verify_signature-exp,
}

-- The three sweeps, one after the other.
abbrev pub swept : World → World
swept w = (Passkeys.sweep (sweep_expired_revocations (SignInAttempts.sweep w).1).1).1

sweep_lem : (w : World) → sweep w ≡ (ok tt, swept w)
unfolding sweep sweep_records try_catch catch_outcome SignInAttempts.sweep Attempts.sweep
    Passkeys.sweep sweep_expired_revocations
sweep_lem w = refl

open-sweep :
    (which : PasskeyChallenge → Bool) (user_id now later : ℕ) (rows : List PasskeyChallenge)
    → now ≤ later
    → find_where (is_open which user_id later) (delete_where (is_over now) rows)
      ≡ find_where (is_open which user_id later) rows
open-sweep which user_id now later [] le = refl
open-sweep which user_id now later (row ∷ rows) le =
    ground (arith, open-sweep which user_id now later rows le)

spend-sweep :
    (which : PasskeyChallenge → Bool) (user_id later : ℕ) (w : World)
    → w.db_now ≤ later
    → (spend which user_id (record (swept w) { db_now = later })).0
      ≡ (spend which user_id (record w { db_now = later })).0
unfolding spend SignInAttempts.sweep Attempts.sweep Passkeys.sweep sweep_expired_revocations
spend-sweep which user_id later w le =
    ap (λ row. ok (challenge_of row))
      (open-sweep which user_id w.db_now later w.passkey_challenges le)

-- The rows of a challenge's answers stand until the challenge expires.
abbrev pub CountedToEnd : Claims → List ChallengeAttempts → Type 0
CountedToEnd c = All (λ row. of_challenge c.jti row ≡ true → row.expires_at ≡ c.exp * 1000)

counted_by_sweep :
    (c : Claims) (now : ℕ) (rows : List ChallengeAttempts)
    → now / 1000 < c.exp
    → CountedToEnd c rows
    → All (λ row. of_challenge c.jti row ≡ true → has_expired now row ≡ false) rows
counted_by_sweep c now [] l h = tt
counted_by_sweep c now (row ∷ rows) l h =
    (λ e. ground (arith, h.0 e), counted_by_sweep c now rows l h.1)

used-sweep :
    (c : Claims) (w : World)
    → w.app_now / 1000 < c.exp
    → CountedToEnd c w.challenge_attempts
    → used_attempts c.jti (swept w).challenge_attempts ≡ used_attempts c.jti w.challenge_attempts
unfolding SignInAttempts.sweep Attempts.sweep Passkeys.sweep sweep_expired_revocations
used-sweep c w l h =
    ap (λ found. elim found [ none ↦ 0 | some row ↦ row.attempts ])
      (find-delete (of_challenge c.jti) (has_expired w.app_now) w.challenge_attempts
        (counted_by_sweep c w.app_now w.challenge_attempts l h))

swept-frame :
    (w : World)
    → swept w ≡ record w {
      account_attempts = (swept w).account_attempts;
      challenge_attempts = (swept w).challenge_attempts;
      revoked_tokens = (swept w).revoked_tokens;
      passkey_challenges = (swept w).passkey_challenges;
    }
unfolding SignInAttempts.sweep Attempts.sweep Passkeys.sweep sweep_expired_revocations
swept-frame w = refl

admitted-sweep :
    (key : String) (t : ℕ) (w : World)
    → UniqueKeys w.account_attempts
    → w.db_now ≤ t
    → admit_attempt (state_at key (swept w).account_attempts) t
      ≡ admit_attempt (state_at key w.account_attempts) t
unfolding SignInAttempts.sweep Passkeys.sweep sweep_expired_revocations
admitted-sweep key t w u le = admit_attempt-sweep key w t u le

module _ {Token : Type 0} (service : TokenService Token) where
  -- A token is read from no table that the passkeys or the attempts stand in.
  verify_signature-tables :
      (token : Token) (accounts : List AccountAttempts) (answers : List ChallengeAttempts)
      (challenges : List PasskeyChallenge) (w : World)
      → let w' = record w {
        account_attempts = accounts;
        challenge_attempts = answers;
        passkey_challenges = challenges;
      } in
        verify_signature service token w' ≡ ((verify_signature service token w).0, w')
  unfolding verify_signature payload_claims
  verify_signature-tables token accounts answers challenges w = ground arith

  verify_session-tables :
      (token : Token) (accounts : List AccountAttempts) (answers : List ChallengeAttempts)
      (challenges : List PasskeyChallenge) (w : World)
      → (verify_session service token (record w {
        account_attempts = accounts;
        challenge_attempts = answers;
        passkey_challenges = challenges;
      })).0
        ≡ (verify_session service token w).0
  unfolding verify_session refuse_revoked
  verify_session-tables token accounts answers challenges w = ground (
    arith,
    verify_signature-tables token accounts answers challenges w,
    verify_signature-tables token w.account_attempts w.challenge_attempts w.passkey_challenges w,
  )

  verified-sweep :
      (laws : JwtLaws service.jwt) (token : Token) (c : Claims) (w : World)
      → (verify_signature service token w).0 ≡ ok c
      → RevokedToEnd service laws c w.revoked_tokens
      → (verify_session service token (swept w)).0 ≡ (verify_session service token w).0
  unfolding SignInAttempts.sweep Attempts.sweep Passkeys.sweep sweep_expired_revocations
  verified-sweep laws token c w signed kept =
      let v = swept w in
      verify_session-tables token v.account_attempts v.challenge_attempts v.passkey_challenges
        (sweep_expired_revocations w).1
      ∙ verify_session-sweep service laws token c w signed kept

-- The rows that are left are not over in the state that the sweep started in: an account's last attempt
-- is at most an hour old or its delay goes on, and the rows of the other tables have not expired.
pub IsSwept : World → World → Type 0
IsSwept w w' =
    All
      (λ row.
        (w.db_now ≤ row.state.last_attempt_at + 3600 * 1000) ⊎ (w.db_now ≤ row.state.delayed_until))
      w'.account_attempts
    × All (λ row. w.app_now ≤ row.expires_at) w'.challenge_attempts
    × All (λ row. w.app_now ≤ row.expires_at) w'.revoked_tokens
    × All (λ row. w.db_now ≤ row.expires_at) w'.passkey_challenges

swept-IsSwept : (w : World) → IsSwept w (swept w)
unfolding IsSwept SignInAttempts.sweep Attempts.sweep Passkeys.sweep sweep_expired_revocations
swept-IsSwept w = (
  All-delete _ (is_forgotten forget_after_seconds w.db_now) w.account_attempts (λ row e.
      elim (Bool-cases (ltb row.state.delayed_until w.db_now)) [
        | inl over ↦ inl (ground (arith, e, over))
        | inr on ↦ inr (ground (arith, on))
      ]),
  All-delete _ (has_expired w.app_now) w.challenge_attempts (λ row e. ground (arith, e)),
  All-delete _ (is_past w.app_now) w.revoked_tokens (λ row e. ground (arith, e)),
  All-delete _ (is_over w.db_now) w.passkey_challenges (λ row e. ground (arith, e)),
)

-- A sweep does not fail. It leaves no account's row whose last attempt is over an hour old and whose
-- delay is over, and no expired row of the challenges' answers, of the revoked tokens and of the passkey
-- challenges; and it writes no table but those four. For an account with at most one row, the policy decides on an attempt at any
-- later time as it would have. Where the rows of a token that verifies stand until its end, the token
-- is accepted or not as a signed-in caller's as before, and as a challenge it has as many answers
-- used as before. A passkey challenge that is spent at any later time is the one that would have been.
pub sweep_harmless :
    {Token : Type 0} (service : TokenService Token) (laws : JwtLaws service.jwt) (key : String)
    (token : Token) (c : Claims) (which : PasskeyChallenge → Bool) (user_id later : ℕ) (w : World)
    → UniqueKeys w.account_attempts
    → w.db_now ≤ later
    → (verify_signature service token w).0 ≡ ok c
    → RevokedToEnd service laws c w.revoked_tokens
    → CountedToEnd c w.challenge_attempts
    → let w' = (sweep w).1 in
      ((sweep w).0 ≡ ok tt)
      × IsSwept w w'
      × (w' ≡ record w {
        account_attempts = w'.account_attempts;
        challenge_attempts = w'.challenge_attempts;
        revoked_tokens = w'.revoked_tokens;
        passkey_challenges = w'.passkey_challenges;
      })
      × (admit_attempt (state_at key w'.account_attempts) later
          ≡ admit_attempt (state_at key w.account_attempts) later)
      × ((verify_session service token w').0 ≡ (verify_session service token w).0)
      × (used_attempts c.jti w'.challenge_attempts ≡ used_attempts c.jti w.challenge_attempts)
      × ((spend which user_id (record w' { db_now = later })).0
          ≡ (spend which user_id (record w { db_now = later })).0)
sweep_harmless service laws key token c which user_id later w unique le signed kept counted =
    rw (sweep_lem w) (
      refl,
      swept-IsSwept w,
      swept-frame w,
      admitted-sweep key later w unique le,
      verified-sweep service laws token c w signed kept,
      used-sweep c w (verify_signature-exp service laws token c w signed) counted,
      spend-sweep which user_id later w le,
    )
