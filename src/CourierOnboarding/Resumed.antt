-- ===== src/CourierOnboarding/Resumed.antt =====
-- An approval whose outcome in the fleet is unknown, and the one that finishes it.
use kinetix_identity_service.Prelude.{
  ℕ, ◌<◌, true, false, Option, none, some, List, [], ◌∷◌, ◌≡◌, refl, arith, inl, inr, Option-cases,
  subst, ==_iff, sym,
}
use kinetix_identity_service.Prelude.Tables.{find_where, any_where, update_where}
use kinetix_identity_service.Prelude.Counts.{find_where-any}
use kinetix_identity_service.CourierApplications.{
  application_of, joined_found, find_by_user, record_approved, view_of, is_rejected,
}
use kinetix_identity_service.CourierApplications.Filing.{
  IsApproved, record_approved-stored, record_approved-IsApproved,
}
use kinetix_identity_service.CourierOnboarding.{
  account_of, approved as record_approval, activate_and_record, approve_as, approve_courier,
  activate_in_fleet, activation_or_refusal, restore_if, rejected_before, with_role, refusal_of,
}
use kinetix_identity_service.CourierOnboarding.Approval.{account_of-pure, account_of-ok, unrejected}
use kinetix_identity_service.CourierOnboarding.Undone.{as_courier}
use kinetix_identity_service.CourierOnboarding.Promotion.{filing_of, approval_of}
use kinetix_identity_service.Domain.{
  UserEntity, customer, courier, kind_driver, principal_kind_for_role,
}
use kinetix_identity_service.Fleet.{
  FleetFailure, FleetActivation, answered, failed_with, FleetRegistry, definitely_did_nothing,
}
use kinetix_identity_service.Principals.{sync_kind, user_id_for_principal, alias_of, with_principal}
use kinetix_identity_service.Users.{entity_found, entity_of, with_id, save, takes_email, find_by_id}
use kinetix_identity_service.Users.Saved.{find-saved_over, save-stored, any-saved_over, any-found}
use kinetix_identity_service.World.{World, UserRow, Principal, CourierApplication, ok, err}

-- Two states in which a principal has the same account.
account_of-same :
    (principal_id : ℕ) (user later : UserEntity) (w v : World)
    → (account_of principal_id w).0 ≡ ok user
    → v.aliases ≡ w.aliases
    → entity_found (find_where (with_id user.id) v.users) ≡ some later
    → account_of principal_id v ≡ (ok later, v)
unfolding account_of user_id_for_principal find_by_id entity_of
account_of-same principal_id user later w v found same stored =
    elim (Option-cases (find_where (alias_of "identity" principal_id) w.aliases)) [
      | inl e ↦ ground arith
      | inr (row, e) ↦ elim (Option-cases (find_where (with_id row.local_id) w.users)) [
        | inl e' ↦ ground arith
        | inr (r, e') ↦
            let own : row.local_id ≡ user.id = ground (
              arith,
              find_where-any (with_id row.local_id) w.users r e',
              (==_iff r.id row.local_id),
            ) in
            let there : entity_found (find_where (with_id row.local_id) v.users) ≡ some later =
              subst (λ (k : ℕ). entity_found (find_where (with_id k) v.users) ≡ some later)
                (ground (arith, own)) stored in
            ground (arith, same, there)
      ]
    ]

any-synced :
    (id : ℕ) (f : Principal → Principal) (rows : List Principal)
    → ((row : Principal) → (f row).id ≡ row.id)
    → any_where (with_principal id) (update_where (with_principal id) f rows)
      ≡ any_where (with_principal id) rows
any-synced id f [] keeps = refl
any-synced id f (row ∷ rows) keeps = ground (arith, keeps row, any-synced id f rows keeps)

not_rejected :
    (users : List UserRow) (found : Option CourierApplication)
    → ((row : CourierApplication) → found ≡ some row → is_rejected row.status ≡ false)
    → rejected_before (joined_found users found) ≡ false
unfolding view_of
not_rejected users none h = refl
not_rejected users (some row) h = elim (Option-cases (find_where (with_id row.user_id) users)) [
  | inl e ↦ rw e refl
  | inr (account, e) ↦ rw e (h row refl)
]

-- An approval of a courier that the fleet answers.
finishes :
    (fleet : FleetRegistry) (principal_id : ℕ) (user : UserEntity) (activation : FleetActivation)
    (v : World)
    → account_of principal_id v ≡ (ok user, v)
    → user.role ≡ courier
    → rejected_before
        (joined_found v.users (find_where (application_of user.id) v.courier_applications))
      ≡ false
    → any_where (with_id user.id) v.users ≡ true
    → any_where (with_principal principal_id) v.principals ≡ true
    → fleet.activate_driver principal_id v ≡ answered activation
    → approve_courier fleet principal_id v ≡ (
      ok (approval_of user principal_id activation),
      (record_approved (filing_of user principal_id activation) v).1,
    )
unfolding approve_courier find_by_user approve_as activate_and_record activate_in_fleet
    activation_or_refusal record_approval
finishes fleet principal_id user activation v found role fresh there principal answers = ground (
  arith,
  found,
  role,
  record_approved-stored (filing_of user principal_id activation) v there principal,
)

-- An approval of a customer that asks the fleet and is not told what it did.
interrupted :
    (fleet : FleetRegistry) (principal_id : ℕ) (user : UserEntity) (failure : FleetFailure)
    (w : World)
    → (account_of principal_id w).0 ≡ ok user
    → 0 < user.id
    → user.role ≡ customer
    → rejected_before
        (joined_found w.users (find_where (application_of user.id) w.courier_applications))
      ≡ false
    → any_where (takes_email user) w.users ≡ false
    → ((v : World) → fleet.activate_driver principal_id v ≡ failed_with failure)
    → definitely_did_nothing failure.kind ≡ false
    → let run = approve_courier fleet principal_id w in
      (run.0 ≡ err (refusal_of failure))
      × (run.1.users ≡ as_courier user w.users)
      × (run.1.aliases ≡ w.aliases)
      × (run.1.courier_applications ≡ w.courier_applications)
      × (any_where (with_principal principal_id) run.1.principals
          ≡ any_where (with_principal principal_id) w.principals)
unfolding approve_courier find_by_user approve_as activate_and_record activate_in_fleet
    activation_or_refusal restore_if sync_kind principal_kind_for_role
interrupted fleet principal_id user failure w found pos role fresh free fails unknown =
    let clean = account_of-pure principal_id w in
    let stored = account_of-ok principal_id user w found in
    let promoted = with_role courier user in
    let saved = save-stored promoted w pos (any-found user.id user w.users stored).1 in
    let w1 = (sync_kind principal_id courier (save promoted w).1).1 in
    let kept =
      any-synced principal_id (λ row. record row { kind = kind_driver }) w.principals
        (λ row. refl) in
    let run : approve_courier fleet principal_id w ≡ (err (refusal_of failure), w1) =
      ground (arith, clean, role, fresh, saved, free, fails w1) in
    rw run (
      refl,
      ground (arith, saved, free),
      ground (arith, saved, free),
      ground (arith, saved, free),
      ground (arith, saved, free, kept),
    )

-- When the fleet may or may not have activated the driver of a customer, the approval fails and the
-- account is left a courier; approving again, once the fleet answers, finishes it: the application
-- is then approved, for the driver that the fleet names. The account's id is not 0, its application is
-- not rejected, no other account has its address, and the principal is stored.
pub approve_courier-resumes :
    (fleet later : FleetRegistry) (principal_id : ℕ) (user : UserEntity) (failure : FleetFailure)
    (activation : FleetActivation) (w : World)
    → (account_of principal_id w).0 ≡ ok user
    → 0 < user.id
    → user.role ≡ customer
    → rejected_before
        (joined_found w.users (find_where (application_of user.id) w.courier_applications))
      ≡ false
    → any_where (takes_email user) w.users ≡ false
    → any_where (with_principal principal_id) w.principals ≡ true
    → ((v : World) → fleet.activate_driver principal_id v ≡ failed_with failure)
    → definitely_did_nothing failure.kind ≡ false
    → ((v : World) → later.activate_driver principal_id v ≡ answered activation)
    → let first = approve_courier fleet principal_id w in
      let second = approve_courier later principal_id first.1 in
      (first.0 ≡ err (refusal_of failure))
      × (entity_found (find_where (with_id user.id) first.1.users) ≡ some (with_role courier user))
      × (second.0 ≡ ok (approval_of (with_role courier user) principal_id activation))
      × IsApproved (filing_of user principal_id activation) second.1.courier_applications
approve_courier-resumes fleet later principal_id user failure activation w found pos role fresh free
      principal fails unknown answers =
    let stored = account_of-ok principal_id user w found in
    let there = (any-found user.id user w.users stored).1 in
    let promoted = with_role courier user in
    let v = (approve_courier fleet principal_id w).1 in
    let cut =
      interrupted fleet principal_id user failure w found pos role fresh free fails unknown in
    let stored1 : entity_found (find_where (with_id user.id) v.users) ≡ some promoted =
      ground (arith, cut.1, find-saved_over promoted w.users there) in
    let there1 : any_where (with_id user.id) v.users ≡ true =
      ground (arith, cut.1, any-saved_over user.id promoted w.users, there) in
    let filing = filing_of user principal_id activation in
    let done =
      finishes later principal_id promoted activation v
        (account_of-same principal_id user promoted w v found cut.2 stored1) refl
        (not_rejected v.users (find_where (application_of user.id) v.courier_applications) (λ row e.
          unrejected user w.users w.courier_applications stored fresh row (rw (sym cut.3) e)))
        there1 (ground (arith, cut.4, principal)) (answers v) in
    (
      cut.0,
      stored1,
      ground (arith, done),
      rw done (
          record_approved-IsApproved filing v
            (record_approved-stored filing v there1 (ground (arith, cut.4, principal)))),
    )
