-- ===== src/CourierRegistration/Registered.antt =====
-- What the registration of a courier shows and leaves.
use kinetix_identity_service.Prelude.{ℕ, List, true, false, Option, none, some, ◌∷◌, ◌≡◌, ◌⊎◌}
use kinetix_identity_service.Prelude.Tables.{find_where}
use kinetix_identity_service.Prelude.Text.{Text}
use kinetix_identity_service.Crypto.{Crypto}
use kinetix_identity_service.Domain.{UserEntity, customer, normalised_email}
use kinetix_identity_service.Auth.{AuthTokens, subject_of}
use kinetix_identity_service.CourierApplications.{CourierFiling}
use kinetix_identity_service.CourierApplications.Filing.{IsFiled}
use kinetix_identity_service.CourierRegistration.{RegisterCourierInput, CourierSession, may_drive}
use kinetix_identity_service.Fleet.{
  FleetRegistration, answered, FleetRegistry, RegisterDriverCommand,
}
use kinetix_identity_service.Users.{entity_found, with_email}
use kinetix_identity_service.World.{World, UserRow}

-- The account that a registration resumes: the password is its own, and it has no second factor and
-- a role that may drive.
pub record Resumes (crypto : Crypto) {Token : Type 0} (dto : RegisterCourierInput)
    (session : AuthTokens Token) (user : UserEntity) : Type 0 where
  pub is_password : crypto.bcrypt_compare dto.password user.password_hash ≡ true
  pub is_driver : may_drive user.role ≡ true
  pub no_second_factor : user.is_two_factor_enabled ≡ false
  pub is_for : session.user ≡ subject_of user

abbrev pub account_in : Text → World → Option UserEntity
account_in email w = entity_found (find_where (with_email (normalised_email email)) w.users)

-- The account that a registration makes: the next id, the address and the password that it gave, hashed
-- with the bytes that it drew, a customer's role and no second factor.
abbrev pub new_account : Crypto → RegisterCourierInput → World → UserRow
new_account crypto dto w = record {
  id = w.next_user_id;
  email = normalised_email dto.email;
  password_hash = crypto.bcrypt_hash dto.password 10 (w.entropy.bytes w.draws);
  role = customer;
  is_two_factor_enabled = false;
  two_factor_secret = none;
  two_factor_last_step = none;
}

-- No account had the address; now the new account stands before the others, and the session is its own.
pub record Makes (crypto : Crypto) {Token : Type 0} (dto : RegisterCourierInput)
    (session : AuthTokens Token) (w : World) (after : List UserRow) : Type 0 where
  pub had_none : account_in dto.email w ≡ none
  pub is_stored : after ≡ new_account crypto dto w ∷ w.users
  pub is_for :
      session.user
      ≡ record { id = w.next_user_id; email = normalised_email dto.email; role = customer }

-- The vehicle that a registration files.
abbrev pub vehicle_of : ℕ → RegisterCourierInput → RegisterDriverCommand
vehicle_of principal_id dto = record {
  principal_id = principal_id;
  vehicle_plate = dto.vehicle_plate;
  capacity_kg = dto.capacity_kg;
}

abbrev pub filing_for : {Token : Type 0} → AuthTokens Token → ℕ → CourierFiling
filing_for session driver_id = record {
  user_id = session.user.id;
  principal_id = session.principal_id;
  driver_id = driver_id;
}

-- What a registration shows of the account it makes or resumes, and what it leaves: the fleet
-- answered for the vehicle, and the account's application names its driver and is not rejected.
pub record Registers (crypto : Crypto) {Token : Type 0} (fleet : FleetRegistry)
    (dto : RegisterCourierInput) (made : CourierSession Token) (w w' : World) : Type 0 where
  pub account :
      Makes crypto dto made.session w w'.users
      ⊎ ((user : UserEntity) × (account_in dto.email w ≡ some user)
          × Resumes crypto dto made.session user)
  pub asked : World
  pub registration : FleetRegistration
  pub is_answered :
      fleet.register_driver (vehicle_of made.session.principal_id dto) asked ≡ answered registration
  pub is_driver : made.driver_id ≡ registration.driver_id
  pub is_filed : IsFiled (filing_for made.session made.driver_id) w'.courier_applications
