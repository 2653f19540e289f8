-- ===== src/CourierRegistration.antt =====
-- src/application/services/courier_registration_usecase.service.ts: an account is made or resumed, its
-- vehicle is filed with the fleet, and its application is recorded.
pub mod Registered
use kinetix_identity_service.Prelude.{
  ℕ, String, Bool, true, false, Option, none, some, if◌then◌else◌, not,
}
use kinetix_identity_service.Prelude.Text.{Text}
use kinetix_identity_service.Auth.{AuthTokens, verify_password, start_session}
use kinetix_identity_service.Auth.SignIn.{register}
use kinetix_identity_service.CourierApplications.{record_filed}
use kinetix_identity_service.Crypto.{Crypto}
use kinetix_identity_service.Domain.{
  UserEntity, UserRole, customer, seller, courier, admin, normalised_email,
}
use kinetix_identity_service.Domain.SessionClient.{RequestClient}
use kinetix_identity_service.Fleet.{
  FleetFailure, FleetRegistration, FleetAnswer, answered, failed_with, broke, FleetRegistry,
  definitely_did_nothing, is_fault,
}
use kinetix_identity_service.Geocoding.{GeocodingProvider}
use kinetix_identity_service.Profiles.{update_profile}
use kinetix_identity_service.Tokens.{TokenService}
use kinetix_identity_service.Users
use kinetix_identity_service.World.{
  World, Request, Done, Failure, unauthorized, conflict, bad_gateway, bad_request, unavailable,
  ◌>>=◌, ◌>>◌, pure, throw, gets, throw_if, try_catch,
}

-- `RegisterCourierInputDto`
pub record RegisterCourierInput : Type 0 where
  pub email : Text
  pub password : String
  pub full_name : String
  pub phone_number : String
  pub vehicle_plate : String
  pub capacity_kg : ℕ

-- `RegisterCourierOutputDto`: the session, and the driver that the fleet names.
pub record CourierSession (Token : Type 0) : Type 0 where
  pub session : AuthTokens Token
  pub driver_id : ℕ

-- `ROLES_THAT_MAY_DRIVE`
unfoldable pub may_drive : UserRole → Bool
may_drive customer = true
may_drive courier = true
may_drive _ = false

unfoldable pub explain : FleetFailure → Failure
explain failure =
    if is_fault failure.kind
    then bad_gateway "FLEET_FAULT"
    else if definitely_did_nothing failure.kind
    then bad_request failure.code
    else unavailable failure.code

-- A password that is refused is told from no other failure.
unfoldable pub as_conflict : Failure → Failure
as_conflict (unauthorized code) = conflict "An account with that email address already exists"
as_conflict failure = failure

unfoldable pub driver_of : FleetAnswer FleetRegistration → Request ℕ
driver_of (answered registration) = pure registration.driver_id
driver_of (failed_with failure) = throw (explain failure)
driver_of (broke failure) = throw failure

module _ (crypto : Crypto) {Token : Type 0} (service : TokenService Token) where
  unfoldable pub resume_account : UserEntity → Option RequestClient → Request (AuthTokens Token)
  resume_account account client = do
    throw_if (not (may_drive account.role))
        (conflict "Filing a vehicle under that account would make it a courier")
    throw_if account.is_two_factor_enabled
        (conflict "That account has two-factor authentication enabled")
    start_session crypto service account client

  unfoldable pub resume : RegisterCourierInput → Option RequestClient → Request (AuthTokens Token)
  resume dto client = do
    account ←
        try_catch (verify_password crypto dto.email dto.password)
          (λ cause. throw (as_conflict cause))
    resume_account account client

  unfoldable pub session_of :
      RegisterCourierInput → Option RequestClient → Option UserEntity → Request (AuthTokens Token)
  session_of dto client none = register crypto service dto.email dto.password client
  session_of dto client (some existing) = resume dto client

  unfoldable pub session_for :
      RegisterCourierInput → Option RequestClient → Request (AuthTokens Token)
  session_for dto client = do
    existing ← Users.find_by_email (normalised_email dto.email)
    session_of dto client existing

module _ (fleet : FleetRegistry) where
  unfoldable pub file_vehicle : ℕ → RegisterCourierInput → Request ℕ
  file_vehicle principal_id dto = do
    answer ← gets (
        fleet.register_driver (record {
          principal_id = principal_id;
          vehicle_plate = dto.vehicle_plate;
          capacity_kg = dto.capacity_kg;
        }))
    driver_of answer

-- What follows the session: the profile, the vehicle and the application.
unfoldable pub file_for :
    {Token : Type 0}
    → GeocodingProvider
    → FleetRegistry
    → RegisterCourierInput
    → AuthTokens Token
    → Request (CourierSession Token)
file_for provider fleet dto session = do
  update_profile provider session.user.id (record {
    full_name = some dto.full_name;
    phone_number = some dto.phone_number;
    street_address = none;
    city = none;
    postal_code = none;
    avatar_url = none;
  })
  driver_id ← file_vehicle fleet session.principal_id dto
  record_filed (record {
    user_id = session.user.id;
    principal_id = session.principal_id;
    driver_id = driver_id;
  })
  pure (record { session = session; driver_id = driver_id })

unfoldable pub register_courier :
    Crypto
    → {Token : Type 0} → TokenService Token
    → GeocodingProvider
    → FleetRegistry
    → RegisterCourierInput
    → Option RequestClient
    → Request (CourierSession Token)
register_courier crypto service provider fleet dto client = do
  session ← session_for crypto service dto client
  file_for provider fleet dto session
