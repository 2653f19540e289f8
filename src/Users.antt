-- ===== src/Users.antt =====
-- src/infrastructure/persistence/adapters/typeorm_user_repository.adapter.ts: the accounts, of which
-- no two have one e-mail address, whatever its case.
pub mod Steps
pub mod Saved
use kinetix_identity_service.Prelude.{
  ℕ, ◌+◌, Bool, true, ◌&&◌, not, Option, none, some, List, ◌∷◌, ltb, ◌==◌, if◌then◌else◌, is_none,
  holds,
}
use kinetix_identity_service.Prelude.Tables.{find_where, any_where, update_where}
use kinetix_identity_service.Prelude.Text.{Text, text_eq, to_lower_case}
use kinetix_identity_service.Domain.{UserEntity}
use kinetix_identity_service.World.{
  World, UserRow, Request, Done, record_conflict, ◌>>=◌, ◌>>◌, pure, gets, modify, throw_if,
}

abbrev pub with_id : ℕ → UserRow → Bool
with_id id row = row.id == id

abbrev pub with_email : Text → UserRow → Bool
with_email email row = text_eq (to_lower_case row.email) (to_lower_case email)

unfoldable pub entity_of : UserRow → UserEntity
entity_of row = record {
  id = row.id;
  email = row.email;
  password_hash = row.password_hash;
  role = row.role;
  is_two_factor_enabled = row.is_two_factor_enabled;
  two_factor_secret = row.two_factor_secret;
}

abbrev pub entity_found : Option UserRow → Option UserEntity
entity_found none = none
entity_found (some row) = some (entity_of row)

unfoldable pub find_by_email : Text → Request (Option UserEntity)
find_by_email email = gets (λ w. entity_found (find_where (with_email email) w.users))

unfoldable pub find_by_id : ℕ → Request (Option UserEntity)
find_by_id id = gets (λ w. entity_found (find_where (with_id id) w.users))

-- A new row, and the columns that a save writes to a stored one.
unfoldable pub row_of : ℕ → UserEntity → UserRow
row_of id user = record {
  id = id;
  email = user.email;
  password_hash = user.password_hash;
  role = user.role;
  is_two_factor_enabled = user.is_two_factor_enabled;
  two_factor_secret = user.two_factor_secret;
  two_factor_last_step = none;
}

unfoldable pub saved_over : UserEntity → UserRow → UserRow
saved_over user row = record row {
  email = user.email;
  password_hash = user.password_hash;
  role = user.role;
  is_two_factor_enabled = user.is_two_factor_enabled;
  two_factor_secret = user.two_factor_secret;
}

-- Another account has the address.
abbrev pub takes_email : UserEntity → UserRow → Bool
takes_email user row = not (row.id == user.id) && with_email user.email row

unfoldable pub insert_user : ℕ → UserEntity → Request UserEntity
insert_user id user = do
  modify (λ w. record w { users = row_of id user ∷ w.users })
  pure (record user { id = id })

-- An entity with no id yet takes the next one.
unfoldable pub save_checked : UserEntity → Request UserEntity
save_checked user w =
    if ltb 0 user.id
    then if any_where (with_id user.id) w.users
      then (modify
              (λ w. record w { users = update_where (with_id user.id) (saved_over user) w.users })
            >> pure user)
          w
      else insert_user user.id user w
    else insert_user w.next_user_id user (record w { next_user_id = w.next_user_id + 1 })

unfoldable pub save : UserEntity → Request UserEntity
save user = do
  taken ← gets (λ w. any_where (takes_email user) w.users)
  throw_if taken (record_conflict "Email address is already registered")
  save_checked user

-- The account's last accepted step is none, or an earlier one.
abbrev pub accepts_step : ℕ → ℕ → UserRow → Bool
accepts_step id step row =
    (row.id == id) && elim row.two_factor_last_step [ none ↦ true | some last ↦ ltb last step ]

abbrev pub stepped : ℕ → UserRow → UserRow
stepped step row = record row { two_factor_last_step = some step }

-- The `id` is the primary key, so a row that is selected is the only one.
unfoldable pub accept_two_factor_step : ℕ → ℕ → Request Bool
accept_two_factor_step id step = do
  affected ← gets (λ w. any_where (accepts_step id step) w.users)
  modify (λ w. record w { users = update_where (accepts_step id step) (stepped step) w.users })
  pure affected
