-- ===== src/CourierOnboarding.antt =====
-- src/application/services/courier_onboarding_usecase.service.ts: an application is approved, which
-- makes its account a courier and activates the driver in the fleet, or rejected.
pub mod Approval
pub mod Lifecycle
pub mod Undone
pub mod Promotion
pub mod Resumed
use kinetix_identity_service.Prelude.{
  ℕ, String, Bool, true, false, ◌&&◌, not, Option, none, some, ◌==◌, if◌then◌else◌, str_eq,
}
use kinetix_identity_service.Prelude.Text.{Text}
use kinetix_identity_service.CourierApplications
use kinetix_identity_service.CourierApplications.{
  CourierApplicationView, record_approved, record_rejected, find_by_user, is_rejected, is_pending,
}
use kinetix_identity_service.Domain.{UserEntity, UserRole, customer, seller, courier, admin}
use kinetix_identity_service.Fleet.{
  FleetFailure, FleetActivation, FleetAnswer, answered, failed_with, broke, FleetRegistry,
  definitely_did_nothing, is_fault,
}
use kinetix_identity_service.Paging.{ApplicationQuery, ApplicationPage, ApplicationTally}
use kinetix_identity_service.Principals.{user_id_for_principal, sync_kind}
use kinetix_identity_service.Users
use kinetix_identity_service.World.{
  World, CourierApplicationStatus, Request, Done, Failure, not_found, conflict, bad_gateway,
  unavailable, internal, ◌>>=◌, ◌>>◌, pure, throw, gets, throw_if, or_throw,
}

-- `ApproveCourierOutputDto`
pub record CourierApproval : Type 0 where
  pub principal_id : ℕ
  pub email : Text
  pub role : UserRole
  pub driver_id : ℕ
  pub fleet_activated : Bool

unfoldable pub list_applications :
    ApplicationQuery CourierApplicationStatus → Request (ApplicationPage CourierApplicationView)
list_applications query = CourierApplications.list query

unfoldable pub tally : ℕ → Request ApplicationTally
tally since = CourierApplications.tally since

unfoldable pub refusal_of : FleetFailure → Failure
refusal_of failure =
    if str_eq failure.code "NO_DRIVER_RECORD"
    then conflict "NO_DRIVER_RECORD"
    else if is_fault failure.kind
    then bad_gateway failure.code
    else if definitely_did_nothing failure.kind
    then bad_gateway failure.code
    else unavailable failure.code

abbrev pub with_role : UserRole → UserEntity → UserEntity
with_role role user = record user { role = role }

unfoldable pub restore_customer : UserEntity → ℕ → Request Done
restore_customer user principal_id = do
  Users.save (with_role customer user)
  sync_kind principal_id customer

-- The account of a principal.
unfoldable pub account_of : ℕ → Request UserEntity
account_of principal_id = do
  found ← user_id_for_principal principal_id
  user_id ← or_throw found (not_found "No account is registered under this principal")
  user ← Users.find_by_id user_id
  or_throw user (not_found "No account is registered under this principal")

unfoldable pub approved : UserEntity → ℕ → FleetActivation → Request CourierApproval
approved user principal_id activation = do
  record_approved
      (record { user_id = user.id; principal_id = principal_id; driver_id = activation.driver_id })
  pure (record {
    principal_id = principal_id;
    email = user.email;
    role = user.role;
    driver_id = activation.driver_id;
    fleet_activated = true;
  })

unfoldable pub restore_if : Bool → UserEntity → ℕ → Request Done
restore_if true user principal_id = restore_customer user principal_id
restore_if false user principal_id = pure tt

unfoldable pub activation_or_refusal :
    UserEntity → ℕ → Bool → FleetAnswer FleetActivation → Request FleetActivation
activation_or_refusal user principal_id promoted (answered activation) = pure activation
activation_or_refusal user principal_id promoted (failed_with failure) = do
  restore_if (promoted && definitely_did_nothing failure.kind) user principal_id
  throw (refusal_of failure)
activation_or_refusal user principal_id promoted (broke failure) = throw failure

abbrev pub rejected_before : Option CourierApplicationView → Bool
rejected_before none = false
rejected_before (some view) = is_rejected view.status

unfoldable pub pending_application_of : ℕ → Request CourierApplicationView
pending_application_of user_id = do
  found ← find_by_user user_id
  application ← or_throw found (not_found "No courier application is filed under this principal")
  throw_if (not (is_pending application.status)) (conflict "The courier application is not pending")
  pure application

abbrev pub is_courier : UserRole → Bool
is_courier courier = true
is_courier _ = false

-- `if (!(await this.applications.recordRejected(userId)))`
unfoldable pub insist_rejected : ℕ → Bool → Request Done
insist_rejected user_id true = pure tt
insist_rejected user_id false = do
  pending_application_of user_id
  throw (internal "the courier application stayed pending through a rejection")

-- The last calls of a rejection.
unfoldable pub reject_pending : ℕ → Request CourierApplicationView
reject_pending user_id = do
  affected ← record_rejected user_id
  insist_rejected user_id affected
  rejected ← find_by_user user_id
  or_throw rejected (not_found "No courier application is filed under this principal")

unfoldable pub reject_courier : ℕ → Request CourierApplicationView
reject_courier principal_id = do
  user ← account_of principal_id
  pending_application_of user.id
  throw_if (is_courier user.role) (conflict "Account is already a courier")
  reject_pending user.id

module _ (fleet : FleetRegistry) where
  unfoldable pub activate_in_fleet : UserEntity → ℕ → Bool → Request FleetActivation
  activate_in_fleet user principal_id promoted = do
    answer ← gets (fleet.activate_driver principal_id)
    activation_or_refusal user principal_id promoted answer

  -- The last two calls of an approval.
  unfoldable pub activate_and_record : UserEntity → ℕ → Bool → Request CourierApproval
  activate_and_record user principal_id promoted = do
    activation ← activate_in_fleet user principal_id promoted
    approved user principal_id activation

  unfoldable pub approve_as : UserEntity → ℕ → UserRole → Request CourierApproval
  approve_as user principal_id courier = activate_and_record user principal_id false
  approve_as user principal_id customer = do
    Users.save (with_role courier user)
    sync_kind principal_id courier
    activate_and_record (with_role courier user) principal_id true
  approve_as user principal_id seller =
      throw (conflict "Promoting the account to courier would revoke its role")
  approve_as user principal_id admin =
      throw (conflict "Promoting the account to courier would revoke its role")

  unfoldable pub approve_courier : ℕ → Request CourierApproval
  approve_courier principal_id = do
    user ← account_of principal_id
    application ← find_by_user user.id
    throw_if (rejected_before application) (conflict "The courier application was rejected")
    approve_as user principal_id user.role
