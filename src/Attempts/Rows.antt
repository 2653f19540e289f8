-- ===== src/Attempts/Rows.antt =====
-- The table of account attempts seen as a map from account keys to states.
use kinetix_identity_service.Prelude.{
  ℕ, ◌≡◌, refl, String, Option, none, some, List, [], ◌∷◌, arith, if◌then◌else◌, str_eq, eq_iff,
  or_default, is_some,
}
use kinetix_identity_service.Prelude.Tables.{find_where, any_where, update_where, delete_where}
use kinetix_identity_service.World.{AccountAttempts}
use kinetix_identity_service.Domain.SignInPolicy.{AttemptState}
use kinetix_identity_service.Attempts.{of_account, insert_account}

abbrev pub state_at : String → List AccountAttempts → Option AttemptState
state_at key [] = none
state_at key (row ∷ rows) = if str_eq row.account_key key then some row.state else state_at key rows

-- The state of a row that nobody has attempted yet.
abbrev pub blank : ℕ → AttemptState
blank now = record { attempts = 0; last_attempt_at = now; delayed_until = now }

abbrev pub replaced : AttemptState → Option AttemptState → Option AttemptState
replaced s none = none
replaced s (some old) = some s

abbrev pub state_of : Option AccountAttempts → Option AttemptState
state_of none = none
state_of (some row) = some row.state

pub find-state_at :
    (key : String) (rows : List AccountAttempts)
    → state_of (find_where (of_account key) rows) ≡ state_at key rows
find-state_at key [] = refl
find-state_at key (row ∷ rows) = ground (arith, find-state_at key rows)

any-state_at :
    (key : String) (rows : List AccountAttempts)
    → any_where (of_account key) rows ≡ is_some (state_at key rows)
any-state_at key [] = refl
any-state_at key (row ∷ rows) = ground (arith, any-state_at key rows)

pub state_at-insert :
    (key j : String) (now : ℕ) (rows : List AccountAttempts)
    → state_at j (insert_account key now rows) ≡ (
        if str_eq key j then some (or_default (state_at key rows) (blank now)) else state_at j rows)
unfolding insert_account
state_at-insert key j now rows = ground (arith, any-state_at key rows, eq_iff key j)

pub state_at-update :
    (key j : String) (s : AttemptState) (rows : List AccountAttempts)
    → state_at j (update_where (of_account key) (λ row. record row { state = s }) rows)
      ≡ (if str_eq key j then replaced s (state_at key rows) else state_at j rows)
state_at-update key j s [] = ground arith
state_at-update key j s (row ∷ rows) = ground (
  arith,
  state_at-update key j s rows,
  eq_iff key j,
  eq_iff row.account_key key,
  eq_iff row.account_key j,
)

pub state_at-delete :
    (key j : String) (rows : List AccountAttempts)
    → state_at j (delete_where (of_account key) rows)
      ≡ (if str_eq key j then none else state_at j rows)
state_at-delete key j [] = ground arith
state_at-delete key j (row ∷ rows) = ground (
  arith,
  state_at-delete key j rows,
  eq_iff key j,
  eq_iff row.account_key key,
  eq_iff row.account_key j,
)
