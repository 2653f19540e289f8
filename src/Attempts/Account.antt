-- ===== src/Attempts/Account.antt =====
-- Claiming an attempt on an account, against the map from account keys to states.
use kinetix_identity_service.Prelude.{
  ℕ, ◌≡◌, refl, String, Option, none, some, List, arith, if◌then◌else◌, str_eq, or_default,
  str_eq_refl,
}
use kinetix_identity_service.World.{World, ok, AccountAttempts, transaction}
use kinetix_identity_service.Domain.SignInPolicy.{
  AttemptState, AttemptAdmission, admitted, delayed, admit_attempt,
}
use kinetix_identity_service.Attempts.{
  insert_account, lock_account, record_if_admitted, record_account_attempt, claim_account_attempt,
}
use kinetix_identity_service.Attempts.Rows.{
  state_at, blank, find-state_at, state_at-insert, state_at-update,
}

-- The state that an attempt at `now` leaves.
abbrev pub after : AttemptAdmission → ℕ → Option AttemptState → Option AttemptState
after (admitted attempts delayed_until) now old =
    some (record { attempts = attempts; last_attempt_at = now; delayed_until = delayed_until })
after (delayed retry) now old = old

pub lock_account_lem :
    (key : String) (w : World)
    → lock_account key w ≡ (
      ok (or_default (state_at key w.account_attempts) (blank w.db_now), w.db_now),
      record w { account_attempts = insert_account key w.db_now w.account_attempts },
    )
unfolding lock_account
lock_account_lem key w =
    let rows = insert_account key w.db_now w.account_attempts in
    ground (
      arith,
      find-state_at key rows,
      state_at-insert key key w.db_now w.account_attempts,
      str_eq_refl key,
    )

-- The row that the lock writes decides as no row would.
pub admit_attempt-blank :
    (now : ℕ) (o : Option AttemptState)
    → admit_attempt (some (or_default o (blank now))) now ≡ admit_attempt o now
unfolding admit_attempt
admit_attempt-blank now none = ground arith
admit_attempt-blank now (some s) = refl

-- The state of the account `j` in the table `rows`, after a claim on the account `key`.
abbrev pub ClaimedAs :
    String → ℕ → AttemptAdmission → List AccountAttempts → List AccountAttempts → Type 0
ClaimedAs key now admission rows rows' =
    (j : String)
    → state_at j rows'
      ≡ (if str_eq key j then after admission now (state_at key rows) else state_at j rows)

-- Who is delayed has a state.
delayed_has_state :
    (now : ℕ) (o : Option AttemptState) {r : ℕ}
    → admit_attempt o now ≡ delayed r
    → some (or_default o (blank now)) ≡ o
unfolding admit_attempt
delayed_has_state now none e = cc
delayed_has_state now (some s) e = refl

record_if_admitted-claims :
    (key : String) (w : World) (admission : AttemptAdmission)
    → admit_attempt (state_at key w.account_attempts) w.db_now ≡ admission
    → let rows = insert_account key w.db_now w.account_attempts in
      let (answer, w') =
        record_if_admitted key w.db_now admission (record w { account_attempts = rows }) in
      (answer ≡ ok admission)
      × ClaimedAs key w.db_now admission w.account_attempts w'.account_attempts
unfolding record_if_admitted record_account_attempt
record_if_admitted-claims key w (delayed retry) e = (
  refl,
  λ j. ground (
    arith,
    state_at-insert key j w.db_now w.account_attempts,
    delayed_has_state w.db_now (state_at key w.account_attempts) e,
  ),
)
record_if_admitted-claims key w (admitted attempts until) e = (
  refl,
  λ j. ground (
    arith,
    state_at-update key j
        (record { attempts = attempts; last_attempt_at = w.db_now; delayed_until = until })
        (insert_account key w.db_now w.account_attempts),
    state_at-insert key j w.db_now w.account_attempts,
    state_at-insert key key w.db_now w.account_attempts,
    str_eq_refl key,
  ),
)

-- A claim answers what the policy says of the account's state, and writes what an admitted attempt
-- leaves; no other account's state changes, and it never fails.
pub claim_account_attempt-refines :
    (key : String) (w : World)
    → let admission = admit_attempt (state_at key w.account_attempts) w.db_now in
      let (answer, w') = claim_account_attempt key admit_attempt w in
      (answer ≡ ok admission)
      × ClaimedAs key w.db_now admission w.account_attempts w'.account_attempts
unfolding claim_account_attempt transaction
claim_account_attempt-refines key w =
    let rows = insert_account key w.db_now w.account_attempts in
    let old = state_at key w.account_attempts in
    let admission = admit_attempt old w.db_now in
    ground (
      arith,
      lock_account_lem key w,
      admit_attempt-blank w.db_now old,
      record_if_admitted-claims key w admission refl,
    )
