-- ===== src/Tests/Couriers.antt =====
-- Examples of the theorems on couriers.
use kinetix_identity_service.Prelude.{◌<◌, ◌≡◌, refl, arith, true, false, none, some, [], ◌∷◌}
use kinetix_identity_service.Prelude.Tables.{find_where, any_where}
use kinetix_identity_service.Prelude.Text.{codes}
use kinetix_identity_service.Prelude.Text.{text_eq, lower, to_lower_case}
use kinetix_identity_service.CourierApplications.{
  find_by_user, record_filed, record_approved, write,
}
use kinetix_identity_service.CourierApplications.Filing.{IsApproved, status_at}
use kinetix_identity_service.CourierOnboarding
use kinetix_identity_service.CourierOnboarding.{
  CourierApproval, account_of, approved as record_approval, activate_and_record, approve_as,
  approve_courier, activate_in_fleet, activation_or_refusal, restore_if, restore_customer,
  rejected_before, with_role, refusal_of,
}
use kinetix_identity_service.CourierOnboarding.Lifecycle.{starts, rejects, files, approved_stays}
use kinetix_identity_service.CourierOnboarding.Promotion.{
  Approves, approval_of, filing_of, approve_courier-Approves,
}
use kinetix_identity_service.CourierOnboarding.Resumed.{approve_courier-resumes}
use kinetix_identity_service.CourierOnboarding.Undone.{approve_courier-undone}
use kinetix_identity_service.Domain.{UserEntity, courier, principal_kind_for_role}
use kinetix_identity_service.Fleet.{
  FleetFailure, FleetActivation, answered, failed_with, fleet_fault, fleet_unknown, FleetRegistry,
  definitely_did_nothing,
}
use kinetix_identity_service.Principals.{sync_kind, user_id_for_principal}
use kinetix_identity_service.Users
use kinetix_identity_service.Users.{
  entity_of, entity_found, with_id, find_by_id, save, save_checked, saved_over,
}
use kinetix_identity_service.World.{World, Failure, approved, ok, err}
use kinetix_identity_service.Tests.{ann, world}

abbrev driver_9 : FleetActivation
driver_9 = record { driver_id = 9; already_active = false }

abbrev pub ready_fleet : FleetRegistry
ready_fleet = record {
  register_driver = λ command w. answered (record { driver_id = 9; already_registered = false });
  activate_driver = λ principal w. answered driver_9;
}

abbrev failing_fleet : FleetFailure → FleetRegistry
failing_fleet failure = record {
  register_driver = λ command w. failed_with failure;
  activate_driver = λ principal w. failed_with failure;
}

abbrev fault : FleetFailure
fault = record { kind = fleet_fault; code = "FLEET_UNIMPLEMENTED" }

abbrev timeout : FleetFailure
timeout = record { kind = fleet_unknown; code = "FLEET_DEADLINE_EXCEEDED" }

-- Ann as the repository reads her.
abbrev ann_entity : UserEntity
ann_entity = record {
  id = 7;
  email = codes "ann@x.io";
  password_hash = "secret";
  role = ann.role;
  is_two_factor_enabled = false;
  two_factor_secret = some (codes "MFRGG");
}

account_of_3 : (account_of 3 world).0 ≡ ok ann_entity
unfolding account_of user_id_for_principal find_by_id entity_of
account_of_3 = refl

account_of_3_positive : (user : UserEntity) → (account_of 3 world).0 ≡ ok user → 0 < user.id
account_of_3_positive user h = ground (arith, account_of_3)

abbrev approval_9 : CourierApproval
approval_9 = approval_of (with_role courier ann_entity) 3 driver_9

approve_run : (approve_courier ready_fleet 3 world).0 ≡ ok approval_9
unfolding approve_courier account_of user_id_for_principal find_by_id entity_of find_by_user
    approve_as activate_and_record activate_in_fleet activation_or_refusal record_approval
    record_approved write save save_checked saved_over sync_kind principal_kind_for_role text_eq
    lower to_lower_case
approve_run = refl

approve_courier-Approves_example :
    Approves ready_fleet 3 approval_9 world (approve_courier ready_fleet 3 world).1
approve_courier-Approves_example =
    approve_courier-Approves ready_fleet 3 approval_9 world account_of_3_positive approve_run

fault_is_known : definitely_did_nothing fault.kind ≡ true
unfolding definitely_did_nothing
fault_is_known = refl

approve_courier-undone_example :
    let run = approve_courier (failing_fleet fault) 3 world in
    ((e : Failure) × (run.0 ≡ err e))
    × (entity_found (find_where (with_id 7) run.1.users) ≡ some ann_entity)
    × (run.1.courier_applications ≡ [])
approve_courier-undone_example =
    approve_courier-undone (failing_fleet fault) 3 ann_entity fault world account_of_3 (omega arith)
      refl (λ v. refl) fault_is_known

timeout_is_unknown : definitely_did_nothing timeout.kind ≡ false
unfolding definitely_did_nothing
timeout_is_unknown = refl

ann_keeps_email : any_where (Users.takes_email ann_entity) world.users ≡ false
ann_keeps_email = refl

approve_courier-resumes_example :
    let first = approve_courier (failing_fleet timeout) 3 world in
    let second = approve_courier ready_fleet 3 first.1 in
    (first.0 ≡ err (refusal_of timeout))
    × (entity_found (find_where (with_id 7) first.1.users) ≡ some (with_role courier ann_entity))
    × (second.0 ≡ ok approval_9)
    × IsApproved (filing_of ann_entity 3 driver_9) second.1.courier_applications
approve_courier-resumes_example =
    approve_courier-resumes (failing_fleet timeout) ready_fleet 3 ann_entity timeout driver_9 world
      account_of_3 (omega arith) refl refl ann_keeps_email refl (λ v. refl) timeout_is_unknown
      (λ v. refl)

abbrev approved_world : World
approved_world = record world {
  courier_applications =
      record {
        id = 1;
        user_id = 7;
        principal_id = 3;
        driver_id = some 9;
        status = approved;
        filed_at = 0;
        approved_at = some 5;
        rejected_at = none;
      }
      ∷ [];
}

-- A rejection of the approved application, and a filing.
approved_stays_example :
    status_at 7
      (record_filed
        (record { user_id = 7; principal_id = 3; driver_id = 4 })
        (CourierOnboarding.reject_courier 3 approved_world).1).1
    ≡ some approved
approved_stays_example =
    approved_stays ready_fleet 7 approved_world
      (record_filed (record { user_id = 7; principal_id = 3; driver_id = 4 })
        (CourierOnboarding.reject_courier 3 approved_world).1).1
      (files (rejects starts 3) (record { user_id = 7; principal_id = 3; driver_id = 4 })) refl
