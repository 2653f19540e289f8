-- ===== src/Attempts/Sweep.antt =====
-- Sweeping old rows away changes no decision.
use kinetix_identity_service.Prelude.{
  ℕ, ◌≤◌, ◌≡◌, refl, String, Bool, Option, none, some, List, [], ◌∷◌, arith, if◌then◌else◌, eq_iff,
}
use kinetix_identity_service.Prelude.Tables.{delete_where}
use kinetix_identity_service.World.{World, AccountAttempts}
use kinetix_identity_service.Domain.SignInPolicy.{AttemptState, admit_attempt}
use kinetix_identity_service.Attempts.{is_forgotten, sweep}
use kinetix_identity_service.Attempts.Rows.{state_at}

-- The primary key of the table: no two rows of one account.
abbrev pub UniqueKeys : List AccountAttempts → Type 0
UniqueKeys [] = Unit {0}
UniqueKeys (row ∷ rows) = (state_at row.account_key rows ≡ none) × UniqueKeys rows

-- A state that a sweep drops.
abbrev stale : ℕ → ℕ → Option AttemptState → Option AttemptState
stale forget_after now none = none
stale forget_after now (some s) =
    if is_forgotten forget_after now (record { account_key = ""; state = s }) then none else some s

state_at-delete_none :
    (key : String) (p : AccountAttempts → Bool) (rows : List AccountAttempts)
    → state_at key rows ≡ none
    → state_at key (delete_where p rows) ≡ none
state_at-delete_none key p [] h = refl
state_at-delete_none key p (row ∷ rows) h = ground (arith, state_at-delete_none key p rows)

state_at-sweep :
    (key : String) (forget_after now : ℕ) (rows : List AccountAttempts)
    → UniqueKeys rows
    → state_at key (delete_where (is_forgotten forget_after now) rows)
      ≡ stale forget_after now (state_at key rows)
state_at-sweep key f now [] u = refl
state_at-sweep key f now (row ∷ rows) u = ground (
  arith,
  eq_iff row.account_key key,
  state_at-sweep key f now rows u.1,
  state_at-delete_none key (is_forgotten f now) rows,
)

stale_decides :
    (now t : ℕ) (o : Option AttemptState)
    → now ≤ t
    → admit_attempt (stale 3600 now o) t ≡ admit_attempt o t
unfolding admit_attempt
stale_decides now t none h = refl
stale_decides now t (some s) h = ground arith

-- With one row to an account, an attempt at any time after a sweep is decided as it would have been
-- had the sweep not run: a dropped row is one that the policy has forgotten and whose delay is over.
pub admit_attempt-sweep :
    (key : String) (w : World) (t : ℕ)
    → UniqueKeys w.account_attempts
    → w.db_now ≤ t
    → admit_attempt (state_at key (sweep 3600 w).1.account_attempts) t
      ≡ admit_attempt (state_at key w.account_attempts) t
unfolding sweep
admit_attempt-sweep key w t u h =
    rw (state_at-sweep key 3600 w.db_now w.account_attempts u)
      (stale_decides w.db_now t (state_at key w.account_attempts) h)
