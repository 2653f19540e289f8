-- ===== src/CourierOnboarding/Undone.antt =====
-- An approval that the fleet refuses.
use kinetix_identity_service.Prelude.{
  ℕ, ◌<◌, true, false, some, List, ◌≡◌, refl, arith, inl, inr, Bool-cases, subst,
}
use kinetix_identity_service.Prelude.Tables.{find_where, any_where, update_where}
use kinetix_identity_service.CourierApplications.{application_of, joined_found, find_by_user}
use kinetix_identity_service.CourierOnboarding.{
  account_of, activate_and_record, approve_as, approve_courier, activate_in_fleet,
  activation_or_refusal, restore_if, restore_customer, rejected_before, with_role, refusal_of,
}
use kinetix_identity_service.CourierOnboarding.Approval.{account_of-pure, account_of-ok}
use kinetix_identity_service.Domain.{UserEntity, UserRole, customer, courier}
use kinetix_identity_service.Fleet.{
  FleetFailure, failed_with, FleetRegistry, definitely_did_nothing,
}
use kinetix_identity_service.Principals.{sync_kind}
use kinetix_identity_service.Users.{entity_found, with_id, saved_over, save, takes_email}
use kinetix_identity_service.Users.Saved.{
  find-saved_over, save-stored, takes_email-saved_over, any-saved_over, any-found,
}
use kinetix_identity_service.World.{World, UserRow, ok, err, Failure, record_conflict, conflict}

-- The accounts after one is promoted, and after it is a customer again.
abbrev pub as_courier : UserEntity → List UserRow → List UserRow
as_courier user rows = update_where (with_id user.id) (saved_over (with_role courier user)) rows

abbrev as_customer : UserEntity → List UserRow → List UserRow
as_customer user rows = update_where (with_id user.id) (saved_over (with_role customer user)) rows

-- A refusal that certainly did nothing makes the account a customer again.
refused-users :
    (user : UserEntity) (principal_id : ℕ) (failure : FleetFailure) (w : World)
    → 0 < user.id
    → any_where (with_id user.id) w.users ≡ true
    → any_where (takes_email (with_role customer user)) w.users ≡ false
    → definitely_did_nothing failure.kind ≡ true
    → let run = activation_or_refusal user principal_id true (failed_with failure) w in
      (run.0 ≡ err (refusal_of failure))
      × (run.1.users ≡ as_customer user w.users)
      × (run.1.courier_applications ≡ w.courier_applications)
unfolding activation_or_refusal restore_if restore_customer sync_kind
refused-users user principal_id failure w pos there free nothing =
    ground (arith, save-stored (with_role customer user) w)

-- The run of an approval of a customer.
refused-customer :
    (fleet : FleetRegistry) (user : UserEntity) (principal_id : ℕ) (failure : FleetFailure)
    (w : World)
    → 0 < user.id
    → entity_found (find_where (with_id user.id) w.users) ≡ some user
    → any_where (with_id user.id) w.users ≡ true
    → user.role ≡ customer
    → ((v : World) → fleet.activate_driver principal_id v ≡ failed_with failure)
    → definitely_did_nothing failure.kind ≡ true
    → let run = approve_as fleet user principal_id customer w in
      ((e : Failure) × (run.0 ≡ err e))
      × (entity_found (find_where (with_id user.id) run.1.users) ≡ some user)
      × (run.1.courier_applications ≡ w.courier_applications)
unfolding approve_as activate_and_record activate_in_fleet sync_kind
refused-customer fleet user principal_id failure w pos stored there role fails nothing =
    let promoted = with_role courier user in
    let saved = save-stored promoted w pos there in
    elim (Bool-cases (any_where (takes_email promoted) w.users)) [
      | inl t ↦ (
        (record_conflict "Email address is already registered", ground (arith, saved)),
        ground (arith, saved),
        ground (arith, saved),
      )
      | inr f ↦
          let w1 = (sync_kind principal_id courier (save promoted w).1).1 in
          let users1 : w1.users ≡ as_courier user w.users = ground (arith, saved) in
          let undone =
            refused-users promoted principal_id failure w1 pos
              (ground (arith, users1, any-saved_over user.id promoted w.users))
              (ground
                (arith, users1, takes_email-saved_over (with_role customer user) promoted w.users))
              nothing in
          let there1 : any_where (with_id user.id) w1.users ≡ true =
            ground (arith, users1, any-saved_over user.id promoted w.users, there) in
          let same : with_role customer user ≡ user =
            subst (λ (r : UserRole). with_role r user ≡ user) role refl in
          let restored = find-saved_over (with_role customer user) w1.users there1 in
          (
            (refusal_of failure, ground (arith, saved, fails w1, undone.0)),
            ground (arith, saved, fails w1, undone.1, restored, same),
            ground (arith, saved, fails w1, undone.2),
          )
    ]

-- If the fleet fails to activate the driver of a customer, and certainly did nothing, then the approval
-- fails, the stored account is as it was, and no application has changed.
pub approve_courier-undone :
    (fleet : FleetRegistry) (principal_id : ℕ) (user : UserEntity) (failure : FleetFailure)
    (w : World)
    → (account_of principal_id w).0 ≡ ok user
    → 0 < user.id
    → user.role ≡ customer
    → ((v : World) → fleet.activate_driver principal_id v ≡ failed_with failure)
    → definitely_did_nothing failure.kind ≡ true
    → let run = approve_courier fleet principal_id w in
      ((e : Failure) × (run.0 ≡ err e))
      × (entity_found (find_where (with_id user.id) run.1.users) ≡ some user)
      × (run.1.courier_applications ≡ w.courier_applications)
unfolding approve_courier find_by_user
approve_courier-undone fleet principal_id user failure w found pos role fails nothing =
    let clean = account_of-pure principal_id w in
    let stored = account_of-ok principal_id user w found in
    let there = (any-found user.id user w.users stored).1 in
    let refused =
      refused-customer fleet user principal_id failure w pos stored there role fails nothing in
    let view = joined_found w.users (find_where (application_of user.id) w.courier_applications) in
    elim (Bool-cases (rejected_before view)) [
      | inl r ↦ (
        (conflict "The courier application was rejected", ground (arith, clean)),
        ground (arith, clean, stored),
        ground (arith, clean),
      )
      | inr r ↦
          let run : approve_courier fleet principal_id w
              ≡ approve_as fleet user principal_id customer w =
            ground (arith, clean) in
          rw run refused
    ]
