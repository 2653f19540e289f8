-- ===== src/CourierOnboarding/Promotion.antt =====
-- An approval that succeeds: the account's role, its application and the fleet's answer.
use kinetix_identity_service.Prelude.{
  ℕ, ◌<◌, Bool, true, false, ◌&&◌, some, ◌≡◌, ◌≢◌, ◌⊎◌, refl, arith, inl, inr, Option-cases,
  Bool-cases, subst,
}
use kinetix_identity_service.Prelude.Tables.{find_where, any_where}
use kinetix_identity_service.CourierApplications.{
  CourierFiling, application_of, joined_found, find_by_user, record_approved, write,
}
use kinetix_identity_service.CourierApplications.Filing.{
  IsApproved, may_move, status_at, approved_over-move, record_approved-IsApproved,
}
use kinetix_identity_service.CourierOnboarding.{
  CourierApproval, account_of, approved as record_approval, activate_and_record, approve_as,
  approve_courier, activate_in_fleet, activation_or_refusal, restore_if, rejected_before, with_role,
}
use kinetix_identity_service.CourierOnboarding.Approval.{account_of-pure, account_of-ok, unrejected}
use kinetix_identity_service.Domain.{UserEntity, UserRole, customer, seller, courier, admin}
use kinetix_identity_service.Fleet.{
  FleetFailure, FleetActivation, FleetAnswer-cases, answered, failed_with, FleetRegistry,
  definitely_did_nothing,
}
use kinetix_identity_service.Principals.{sync_kind}
use kinetix_identity_service.Users.{entity_found, with_id, save, takes_email}
use kinetix_identity_service.Users.Saved.{find-saved_over, save-stored, any-found}
use kinetix_identity_service.World.{World, approved as status_approved, Outcome-cases, ok}
use kinetix_identity_service.CourierOnboarding.Undone.{as_courier}

-- The filing that an approval records.
abbrev pub filing_of : UserEntity → ℕ → FleetActivation → CourierFiling
filing_of user principal_id activation = record {
  user_id = user.id;
  principal_id = principal_id;
  driver_id = activation.driver_id;
}

abbrev pub approval_of : UserEntity → ℕ → FleetActivation → CourierApproval
approval_of user principal_id activation = record {
  principal_id = principal_id;
  email = user.email;
  role = user.role;
  driver_id = activation.driver_id;
  fleet_activated = true;
}

-- What an approval that succeeds shows of the account, which was a customer or a courier, and what it
-- leaves: the account is a courier, and its application is approved with the driver of the fleet.
pub record Approves (fleet : FleetRegistry) (principal_id : ℕ) (approval : CourierApproval)
    (w w' : World) : Type 0 where
  pub user : UserEntity
  pub activation : FleetActivation
  pub asked : World
  pub is_account : (account_of principal_id w).0 ≡ ok user
  pub may_drive : (user.role ≡ customer) ⊎ (user.role ≡ courier)
  pub is_open : may_move (status_at user.id w) (some status_approved) ≡ true
  pub is_activated : fleet.activate_driver principal_id asked ≡ answered activation
  pub is_courier :
      entity_found (find_where (with_id user.id) w'.users) ≡ some (with_role courier user)
  pub is_approved : IsApproved (filing_of user principal_id activation) w'.courier_applications
  pub is_answer : approval ≡ approval_of (with_role courier user) principal_id activation

-- What the last two calls show.
record Activates (fleet : FleetRegistry) (user : UserEntity) (principal_id : ℕ)
    (approval : CourierApproval) (w w' : World) : Type 0 where
  activation : FleetActivation
  is_activated : fleet.activate_driver principal_id w ≡ answered activation
  same_users : w'.users ≡ w.users
  is_approved : IsApproved (filing_of user principal_id activation) w'.courier_applications
  is_answer : approval ≡ approval_of user principal_id activation

record_approved-users :
    (filing : CourierFiling) (w : World) → (record_approved filing w).1.users ≡ w.users
unfolding record_approved write
record_approved-users filing w = ground arith

fails-activation :
    (user : UserEntity) (principal_id : ℕ) (promoted : Bool) (failure : FleetFailure)
    (activation : FleetActivation) (w : World)
    → (activation_or_refusal user principal_id promoted (failed_with failure) w).0 ≢ ok activation
unfolding activation_or_refusal
fails-activation user principal_id promoted failure activation w h =
    elim (Outcome-cases
      (restore_if (promoted && definitely_did_nothing failure.kind) user principal_id w).0) [
        | inl (done, e) ↦ ground arith
        | inr (f, e) ↦ ground arith
      ]

activate_in_fleet-ok :
    (fleet : FleetRegistry) (user : UserEntity) (principal_id : ℕ) (promoted : Bool)
    (activation : FleetActivation) (w : World)
    → (activate_in_fleet fleet user principal_id promoted w).0 ≡ ok activation
    → (fleet.activate_driver principal_id w ≡ answered activation)
      × ((activate_in_fleet fleet user principal_id promoted w).1 ≡ w)
unfolding activate_in_fleet activation_or_refusal
activate_in_fleet-ok fleet user principal_id promoted activation w h =
    elim (FleetAnswer-cases (fleet.activate_driver principal_id w)) [
      | inl (a, e) ↦ ground (arith, e)
      | inr (inl (f, e)) ↦
          ground (arith, e, fails-activation user principal_id promoted f activation w)
      | inr (inr (f, e)) ↦ ground (arith, e)
    ]

activate_and_record-Activates :
    (fleet : FleetRegistry) (user : UserEntity) (principal_id : ℕ) (promoted : Bool)
    (approval : CourierApproval) (w : World)
    → (activate_and_record fleet user principal_id promoted w).0 ≡ ok approval
    → Activates fleet user principal_id approval w
        (activate_and_record fleet user principal_id promoted w).1
unfolding activate_and_record record_approval
activate_and_record-Activates fleet user principal_id promoted approval w h =
    elim (Outcome-cases (activate_in_fleet fleet user principal_id promoted w).0) [
      | inl (activation, e) ↦
          let asked = activate_in_fleet-ok fleet user principal_id promoted activation w e in
          let filing = filing_of user principal_id activation in
          elim (Outcome-cases (record_approved filing w).0) [
            | inl (done, e') ↦
                let run : activate_and_record fleet user principal_id promoted w ≡ (
                  ok (approval_of user principal_id activation),
                  (record_approved filing w).1,
                ) =
                  ground (arith, asked.1) in
                rw run (record {
                  activation = activation;
                  is_activated = asked.0;
                  same_users = record_approved-users filing w;
                  is_approved = record_approved-IsApproved filing w (ground (arith, e'));
                  is_answer = ground (arith, run, h);
                })
            | inr (failure, e') ↦ ground (arith, asked.1)
          ]
      | inr (failure, e) ↦ ground arith
    ]

opens :
    (user : UserEntity) (w : World)
    → entity_found (find_where (with_id user.id) w.users) ≡ some user
    → rejected_before
        (joined_found w.users (find_where (application_of user.id) w.courier_applications))
      ≡ false
    → may_move (status_at user.id w) (some status_approved) ≡ true
opens user w stored r =
    elim (Option-cases (find_where (application_of user.id) w.courier_applications)) [
      | inl e ↦ rw e refl
      | inr (row, e) ↦ rw e (
          approved_over-move row.status
            (unrejected user w.users w.courier_applications stored r row e))
    ]

approve_as-Approves :
    (fleet : FleetRegistry) (user : UserEntity) (principal_id : ℕ) (approval : CourierApproval)
    (role : UserRole) (w : World)
    → user.role ≡ role
    → 0 < user.id
    → (account_of principal_id w).0 ≡ ok user
    → may_move (status_at user.id w) (some status_approved) ≡ true
    → (approve_as fleet user principal_id role w).0 ≡ ok approval
    → Approves fleet principal_id approval w (approve_as fleet user principal_id role w).1
unfolding approve_as sync_kind
approve_as-Approves fleet user principal_id approval courier w role pos found may h =
    let done = activate_and_record-Activates fleet user principal_id false approval w h in
    let same : with_role courier user ≡ user =
      subst (λ (r : UserRole). with_role r user ≡ user) role refl in
    record {
      user = user;
      activation = done.activation;
      asked = w;
      is_account = found;
      may_drive = inr role;
      is_open = may;
      is_activated = done.is_activated;
      is_courier = ground (arith, done.same_users, account_of-ok principal_id user w found, same);
      is_approved = done.is_approved;
      is_answer = ground (arith, done.is_answer, same);
    }
approve_as-Approves fleet user principal_id approval customer w role pos found may h =
    let promoted = with_role courier user in
    let stored = account_of-ok principal_id user w found in
    let there = (any-found user.id user w.users stored).1 in
    let saved = save-stored promoted w pos there in
    elim (Bool-cases (any_where (takes_email promoted) w.users)) [
      | inl t ↦ ground (arith, saved)
      | inr f ↦
          let w1 = (sync_kind principal_id courier (save promoted w).1).1 in
          let users1 : w1.users ≡ as_courier user w.users = ground (arith, saved) in
          let run : approve_as fleet user principal_id customer w
              ≡ activate_and_record fleet promoted principal_id true w1 =
            ground (arith, saved) in
          let done =
            activate_and_record-Activates fleet promoted principal_id true approval w1
              (ground (arith, run, h)) in
          rw run (record {
            user = user;
            activation = done.activation;
            asked = w1;
            is_account = found;
            may_drive = inl role;
            is_open = may;
            is_activated = done.is_activated;
            is_courier =
                ground (arith, done.same_users, users1, find-saved_over promoted w.users there);
            is_approved = done.is_approved;
            is_answer = done.is_answer;
          })
    ]
approve_as-Approves fleet user principal_id approval seller w role pos found may h = ground arith
approve_as-Approves fleet user principal_id approval admin w role pos found may h = ground arith

-- An approval that succeeds is of an account that was a customer or a courier and whose application
-- was not rejected; the fleet answered that the driver is active; and it leaves the account a courier,
-- with its application approved for that driver and no rejection. The account's id is not 0.
pub approve_courier-Approves :
    (fleet : FleetRegistry) (principal_id : ℕ) (approval : CourierApproval) (w : World)
    → ((user : UserEntity) → (account_of principal_id w).0 ≡ ok user → 0 < user.id)
    → (approve_courier fleet principal_id w).0 ≡ ok approval
    → Approves fleet principal_id approval w (approve_courier fleet principal_id w).1
unfolding approve_courier find_by_user
approve_courier-Approves fleet principal_id approval w pos h =
    let clean = account_of-pure principal_id w in
    elim (Outcome-cases (account_of principal_id w).0) [
      | inl (user, e) ↦
          let stored = account_of-ok principal_id user w e in
          let view =
            joined_found w.users (find_where (application_of user.id) w.courier_applications) in
          elim (Bool-cases (rejected_before view)) [
            | inl r ↦ ground (arith, clean)
            | inr r ↦
                let run : approve_courier fleet principal_id w
                    ≡ approve_as fleet user principal_id user.role w =
                  ground (arith, clean) in
                rw run (
                  approve_as-Approves fleet user principal_id approval user.role w refl (pos user e)
                    e (opens user w stored r) (ground (arith, run, h)))
          ]
      | inr (failure, e) ↦ ground (arith, clean)
    ]
