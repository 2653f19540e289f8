-- ===== src/Users/Saved.antt =====
-- What `save` stores of an account, and what it leaves alone.
use kinetix_identity_service.Prelude.{
  ℕ, ◌<◌, ◌≡◌, refl, true, some, if◌then◌else◌, List, [], ◌∷◌, arith,
}
use kinetix_identity_service.Prelude.Tables.{any_where, find_where, update_where}
use kinetix_identity_service.Domain.{UserEntity}
use kinetix_identity_service.Users.{
  with_id, entity_of, entity_found, saved_over, save, save_checked, insert_user, accepts_step,
  stepped, takes_email,
}
use kinetix_identity_service.World.{World, UserRow, ok, err, record_conflict}

pub find-saved_over :
    (user : UserEntity) (rows : List UserRow)
    → any_where (with_id user.id) rows ≡ true
    → entity_found
        (find_where (with_id user.id) (update_where (with_id user.id) (saved_over user) rows))
      ≡ some user
unfolding entity_of saved_over
find-saved_over user [] h = ground arith
find-saved_over user (row ∷ rows) h = ground (arith, find-saved_over user rows)

-- A stored account is found as it was saved.
pub save-find :
    (user saved : UserEntity) (w : World)
    → 0 < user.id
    → any_where (with_id user.id) w.users ≡ true
    → (save user w).0 ≡ ok saved
    → entity_found (find_where (with_id user.id) (save user w).1.users) ≡ some user
unfolding save save_checked
save-find user saved w pos h e = ground (arith, find-saved_over user w.users h)

pub save-frame :
    (user : UserEntity) (w : World)
    → let w' = (save user w).1 in
      (w'.refresh_tokens ≡ w.refresh_tokens) × (w'.revoked_tokens ≡ w.revoked_tokens)
unfolding save save_checked insert_user
save-frame user w = ground arith

pub any-stepped :
    (id step : ℕ) (j : ℕ) (rows : List UserRow)
    → any_where (with_id j) (update_where (accepts_step id step) (stepped step) rows)
      ≡ any_where (with_id j) rows
any-stepped id step j [] = refl
any-stepped id step j (row ∷ rows) = ground (arith, any-stepped id step j rows)

pub any-found :
    (id : ℕ) (user : UserEntity) (rows : List UserRow)
    → entity_found (find_where (with_id id) rows) ≡ some user
    → (user.id ≡ id) × (any_where (with_id id) rows ≡ true)
unfolding entity_of
any-found id user [] h = ground arith
any-found id user (row ∷ rows) h = ground (arith, any-found id user rows)

-- A save of a stored account is refused if another account has the address, and otherwise writes it.
pub save-stored :
    (user : UserEntity) (w : World)
    → 0 < user.id
    → any_where (with_id user.id) w.users ≡ true
    → save user w ≡ (
        if any_where (takes_email user) w.users
        then (err (record_conflict "Email address is already registered"), w)
        else (
          ok user,
          record w { users = update_where (with_id user.id) (saved_over user) w.users },
        ))
unfolding save save_checked
save-stored user w pos h = ground arith

-- A save does not change whether another account has an address.
pub takes_email-saved_over :
    (user saver : UserEntity) (rows : List UserRow)
    → saver.id ≡ user.id
    → any_where (takes_email user) (update_where (with_id saver.id) (saved_over saver) rows)
      ≡ any_where (takes_email user) rows
unfolding saved_over
takes_email-saved_over user saver [] same = refl
takes_email-saved_over user saver (row ∷ rows) same =
    ground (arith, takes_email-saved_over user saver rows same)

pub any-saved_over :
    (id : ℕ) (saver : UserEntity) (rows : List UserRow)
    → any_where (with_id id) (update_where (with_id saver.id) (saved_over saver) rows)
      ≡ any_where (with_id id) rows
unfolding saved_over
any-saved_over id saver [] = refl
any-saved_over id saver (row ∷ rows) = ground (arith, any-saved_over id saver rows)
