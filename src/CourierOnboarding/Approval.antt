-- ===== src/CourierOnboarding/Approval.antt =====
-- What an approval and a rejection do to applications, whatever they answer.
use kinetix_identity_service.Prelude.{
  ℕ, Bool, true, false, some, List, ◌≡◌, refl, arith, inl, inr, Option-cases, Bool-cases, subst,
  ==_iff, sym,
}
use kinetix_identity_service.Prelude.Tables.{find_where}
use kinetix_identity_service.Prelude.Counts.{find_where-any}
use kinetix_identity_service.CourierApplications.{
  CourierFiling, application_of, is_rejected, joined_found, find_by_user, record_rejected, view_of,
}
use kinetix_identity_service.CourierApplications.Filing.{
  status_at, may_move, may_move_same, record_approved-moves, record_rejected-moves,
}
use kinetix_identity_service.CourierOnboarding.{
  account_of, approved, activate_and_record, approve_as, approve_courier, activate_in_fleet,
  activation_or_refusal, restore_if, restore_customer, rejected_before, with_role, reject_courier,
  pending_application_of, insist_rejected, is_courier, reject_pending,
}
use kinetix_identity_service.Domain.{UserEntity, UserRole, customer, seller, courier, admin}
use kinetix_identity_service.Fleet.{FleetRegistry}
use kinetix_identity_service.Principals.{user_id_for_principal, sync_kind, alias_of}
use kinetix_identity_service.Users.{
  entity_of, entity_found, with_id, find_by_id, save, save_checked, insert_user,
}
use kinetix_identity_service.World.{World, UserRow, CourierApplication, Outcome-cases, ok}

pub account_of-pure : (principal_id : ℕ) (w : World) → (account_of principal_id w).1 ≡ w
unfolding account_of user_id_for_principal find_by_id
account_of-pure principal_id w = ground arith

pub find-own_id :
    (id : ℕ) (user : UserEntity) (rows : List UserRow)
    → entity_found (find_where (with_id id) rows) ≡ some user
    → entity_found (find_where (with_id user.id) rows) ≡ some user
unfolding entity_of
find-own_id id user rows h = elim (Option-cases (find_where (with_id id) rows)) [
  | inl e ↦ ground arith
  | inr (row, e) ↦
      let same : id ≡ user.id =
        ground (arith, find_where-any (with_id id) rows row e, (==_iff row.id id)) in
      subst (λ (k : ℕ). entity_found (find_where (with_id k) rows) ≡ some user) same h
]

pub account_of-ok :
    (principal_id : ℕ) (user : UserEntity) (w : World)
    → (account_of principal_id w).0 ≡ ok user
    → entity_found (find_where (with_id user.id) w.users) ≡ some user
unfolding account_of user_id_for_principal find_by_id
account_of-ok principal_id user w h =
    elim (Option-cases (find_where (alias_of "identity" principal_id) w.aliases)) [
      | inl e ↦ ground arith
      | inr (row, e) ↦ ground (arith, find-own_id row.local_id user w.users)
    ]

-- The application that the listing joins with a stored account.
pub unrejected :
    (user : UserEntity) (users : List UserRow) (rows : List CourierApplication)
    → entity_found (find_where (with_id user.id) users) ≡ some user
    → rejected_before (joined_found users (find_where (application_of user.id) rows)) ≡ false
    → (row : CourierApplication) → find_where (application_of user.id) rows ≡ some row
    → is_rejected row.status ≡ false
unfolding view_of
unrejected user users rows stored open_before row found =
    let same : row.user_id ≡ user.id =
      (==_iff row.user_id user.id).0 (find_where-any (application_of user.id) rows row found) in
    ground (arith, stored, same, open_before, found)

save-applications :
    (user : UserEntity) (w : World) → (save user w).1.courier_applications ≡ w.courier_applications
unfolding save save_checked insert_user
save-applications user w = ground arith

activate_in_fleet-applications :
    (fleet : FleetRegistry) (user : UserEntity) (principal_id : ℕ) (promoted : Bool) (w : World)
    → (activate_in_fleet fleet user principal_id promoted w).1.courier_applications
      ≡ w.courier_applications
unfolding activate_in_fleet activation_or_refusal restore_if restore_customer sync_kind
activate_in_fleet-applications fleet user principal_id promoted w =
    ground (arith, save-applications (with_role customer user) w)

-- An approval after the account was promoted, or of an account that is a courier.
activate_and_record-moves :
    (user_id : ℕ) (fleet : FleetRegistry) (user : UserEntity) (principal_id : ℕ) (promoted : Bool)
    (w : World)
    → ((row : CourierApplication)
        → find_where (application_of user.id) w.courier_applications ≡ some row
        → is_rejected row.status ≡ false)
    → may_move
        (status_at user_id w)
        (status_at user_id (activate_and_record fleet user principal_id promoted w).1)
      ≡ true
unfolding activate_and_record approved
activate_and_record-moves user_id fleet user principal_id promoted w unrejected_rows =
    let same = activate_in_fleet-applications fleet user principal_id promoted w in
    let w1 = (activate_in_fleet fleet user principal_id promoted w).1 in
    elim (Outcome-cases (activate_in_fleet fleet user principal_id promoted w).0) [
      | inl (activation, e) ↦
          let filing : CourierFiling = record {
            user_id = user.id;
            principal_id = principal_id;
            driver_id = activation.driver_id;
          } in
          ground (
            arith,
            same,
            record_approved-moves user_id filing w1
                (λ row found. unrejected_rows row (rw (sym same) found)),
          )
      | inr (failure, e) ↦ ground (arith, same, may_move_same (status_at user_id w))
    ]

sync_save-applications :
    (user : UserEntity) (principal_id : ℕ) (role : UserRole) (w : World)
    → (sync_kind principal_id role (save user w).1).1.courier_applications ≡ w.courier_applications
unfolding sync_kind
sync_save-applications user principal_id role w = ground (arith, save-applications user w)

approve_as-moves :
    (user_id : ℕ) (fleet : FleetRegistry) (user : UserEntity) (principal_id : ℕ) (role : UserRole)
    (w : World)
    → ((row : CourierApplication)
        → find_where (application_of user.id) w.courier_applications ≡ some row
        → is_rejected row.status ≡ false)
    → may_move
        (status_at user_id w)
        (status_at user_id (approve_as fleet user principal_id role w).1)
      ≡ true
unfolding approve_as
approve_as-moves user_id fleet user principal_id courier w unrejected_rows =
    activate_and_record-moves user_id fleet user principal_id false w unrejected_rows
approve_as-moves user_id fleet user principal_id customer w unrejected_rows =
    elim (Outcome-cases (save (with_role courier user) w).0) [
      | inl (saved, e) ↦
          let w1 = (sync_kind principal_id courier (save (with_role courier user) w).1).1 in
          let same = sync_save-applications (with_role courier user) principal_id courier w in
          ground (
            arith,
            same,
            activate_and_record-moves user_id fleet (with_role courier user) principal_id true w1
                (λ row found. unrejected_rows row (rw (sym same) found)),
          )
      | inr (failure, e) ↦
          ground (
            arith,
            save-applications (with_role courier user) w,
            may_move_same (status_at user_id w),
          )
    ]
approve_as-moves user_id fleet user principal_id seller w unrejected_rows =
    may_move_same (status_at user_id w)
approve_as-moves user_id fleet user principal_id admin w unrejected_rows =
    may_move_same (status_at user_id w)

pub approve_courier-moves :
    (user_id : ℕ) (fleet : FleetRegistry) (principal_id : ℕ) (w : World)
    → may_move (status_at user_id w) (status_at user_id (approve_courier fleet principal_id w).1)
      ≡ true
unfolding approve_courier find_by_user
approve_courier-moves user_id fleet principal_id w =
    let clean = account_of-pure principal_id w in
    elim (Outcome-cases (account_of principal_id w).0) [
      | inl (user, e) ↦
          let rows = w.courier_applications in
          let found = joined_found w.users (find_where (application_of user.id) rows) in
          elim (Bool-cases (rejected_before found)) [
            | inl r ↦ ground (arith, clean, may_move_same (status_at user_id w))
            | inr r ↦ ground (
              arith,
              clean,
              approve_as-moves user_id fleet user principal_id user.role w
                  (unrejected user w.users rows (account_of-ok principal_id user w e) r),
            )
          ]
      | inr (failure, e) ↦ ground (arith, clean, may_move_same (status_at user_id w))
    ]

pub pending_application_of-pure :
    (user_id : ℕ) (w : World) → (pending_application_of user_id w).1 ≡ w
unfolding pending_application_of find_by_user
pending_application_of-pure user_id w =
    elim (Option-cases
      (joined_found w.users (find_where (application_of user_id) w.courier_applications))) [
        | inl e ↦ ground arith
        | inr (view, e) ↦ ground arith
      ]

insist_rejected-pure : (user_id : ℕ) (b : Bool) (w : World) → (insist_rejected user_id b w).1 ≡ w
unfolding insist_rejected
insist_rejected-pure user_id true w = refl
insist_rejected-pure user_id false w = elim (Outcome-cases (pending_application_of user_id w).0) [
  | inl (view, e) ↦ ground (arith, pending_application_of-pure user_id w)
  | inr (failure, e) ↦ ground (arith, pending_application_of-pure user_id w)
]

find_by_user-pure : (user_id : ℕ) (w : World) → (find_by_user user_id w).1 ≡ w
unfolding find_by_user
find_by_user-pure user_id w = refl

-- The end of a rejection: what `recordRejected` answers is insisted on, and the row is read.
rejection-moves :
    (user_id target : ℕ) (w : World)
    → may_move (status_at user_id w) (status_at user_id (reject_pending target w).1) ≡ true
unfolding reject_pending
rejection-moves user_id target w = elim (Outcome-cases (record_rejected target w).0) [
  | inl (affected, e) ↦
      let w1 = (record_rejected target w).1 in
      elim (Outcome-cases (insist_rejected target affected w1).0) [
        | inl (done, e') ↦ ground (
          arith,
          record_rejected-moves user_id target w,
          insist_rejected-pure target affected w1,
          find_by_user-pure target w1,
        )
        | inr (failure, e') ↦
            ground (
              arith,
              record_rejected-moves user_id target w,
              insist_rejected-pure target affected w1,
            )
      ]
  | inr (failure, e) ↦ ground (arith, record_rejected-moves user_id target w)
]

pub reject_courier-moves :
    (user_id principal_id : ℕ) (w : World)
    → may_move (status_at user_id w) (status_at user_id (reject_courier principal_id w).1) ≡ true
unfolding reject_courier
reject_courier-moves user_id principal_id w =
    let clean = account_of-pure principal_id w in
    let same = may_move_same (status_at user_id w) in
    elim (Outcome-cases (account_of principal_id w).0) [
      | inl (user, e) ↦
          let kept = pending_application_of-pure user.id w in
          elim (Outcome-cases (pending_application_of user.id w).0) [
            | inl (view, e') ↦ elim (Bool-cases (is_courier user.role)) [
              | inl c ↦ ground (arith, clean, kept, same)
              | inr c ↦ ground (arith, clean, kept, rejection-moves user_id user.id w)
            ]
            | inr (failure, e') ↦ ground (arith, clean, kept, same)
          ]
      | inr (failure, e) ↦ ground (arith, clean, same)
    ]
