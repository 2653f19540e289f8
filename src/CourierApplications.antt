-- ===== src/CourierApplications.antt =====
-- src/infrastructure/persistence/adapters/typeorm_courier_application_repository.adapter.ts: the
-- applications of couriers, one to an account.
pub mod Filing
use kinetix_identity_service.Prelude.{
  ℕ, ◌+◌, Bool, true, false, ◌&&◌, not, Option, none, some, List, [], ◌∷◌, ltb, leb, ◌==◌,
  if◌then◌else◌, map,
}
use kinetix_identity_service.Prelude.Tables.{
  find_where, any_where, count_where, update_where, filter_where, sort_by,
}
use kinetix_identity_service.Prelude.Text.{Text}
use kinetix_identity_service.Paging.{
  ApplicationQuery, ApplicationPage, ApplicationTally, page_of, last_of,
}
use kinetix_identity_service.Principals.{with_principal}
use kinetix_identity_service.Users.{with_id}
use kinetix_identity_service.World.{
  World, UserRow, CourierApplication, CourierApplicationStatus, pending, approved, rejected,
  Request, Done, missing_reference, internal, ◌>>=◌, ◌>>◌, pure, gets, modify, throw_if, or_throw,
  transaction,
}

-- `CourierFiling`
pub record CourierFiling : Type 0 where
  pub user_id : ℕ
  pub principal_id : ℕ
  pub driver_id : ℕ

-- `CourierApplicationView`
pub record CourierApplicationView : Type 0 where
  pub application_id : ℕ
  pub principal_id : ℕ
  pub user_id : ℕ
  pub email : Text
  pub driver_id : Option ℕ
  pub status : CourierApplicationStatus
  pub filed_at : ℕ
  pub approved_at : Option ℕ
  pub rejected_at : Option ℕ

abbrev pub is_rejected : CourierApplicationStatus → Bool
is_rejected rejected = true
is_rejected _ = false

abbrev pub is_pending : CourierApplicationStatus → Bool
is_pending pending = true
is_pending _ = false

abbrev pub is_approved : CourierApplicationStatus → Bool
is_approved approved = true
is_approved _ = false

abbrev pub application_of : ℕ → CourierApplication → Bool
application_of user_id row = row.user_id == user_id

-- The new row of a filing, and what the filing does to the row that the account has.
abbrev pub filed : ℕ → ℕ → CourierFiling → CourierApplication
filed id now filing = record {
  id = id;
  user_id = filing.user_id;
  principal_id = filing.principal_id;
  driver_id = some filing.driver_id;
  status = pending;
  filed_at = now;
  approved_at = none;
  rejected_at = none;
}

abbrev pub filed_over : ℕ → CourierFiling → CourierApplication → CourierApplication
filed_over now filing row = record row {
  principal_id = filing.principal_id;
  driver_id = some filing.driver_id;
  filed_at = if is_rejected row.status then now else row.filed_at;
  rejected_at = if is_rejected row.status then none else row.rejected_at;
  status = if is_rejected row.status then pending else row.status;
}

abbrev pub filed_approved : ℕ → ℕ → CourierFiling → CourierApplication
filed_approved id now filing = record (filed id now filing) {
  status = approved;
  approved_at = some now;
}

-- `COALESCE`
abbrev pub coalesce : Option ℕ → ℕ → Option ℕ
coalesce none now = some now
coalesce (some at) now = some at

abbrev pub approved_over : ℕ → CourierFiling → CourierApplication → CourierApplication
approved_over now filing row = record row {
  principal_id = filing.principal_id;
  driver_id = some filing.driver_id;
  status = approved;
  approved_at = coalesce row.approved_at now;
  rejected_at = none;
}

-- `INSERT … ON CONFLICT ("userId") DO UPDATE`, which takes an id of the sequence either way.
abbrev pub upserted :
    ℕ
    → CourierApplication
    → (CourierApplication → CourierApplication)
    → List CourierApplication
    → List CourierApplication
upserted user_id fresh over rows =
    if any_where (application_of user_id) rows
    then update_where (application_of user_id) over rows
    else fresh ∷ rows

-- `write`: the account and the principal are references.
unfoldable pub write :
    CourierFiling
    → (ℕ → ℕ → CourierFiling → CourierApplication)
    → (ℕ → CourierFiling → CourierApplication → CourierApplication)
    → Request Done
write filing fresh over w =
    let id = w.next_application_id in
    let drawn : World = record w { next_application_id = id + 1 } in
    if any_where (with_id filing.user_id) w.users
      && any_where (with_principal filing.principal_id) w.principals
    then modify
        (λ w. record w {
          courier_applications =
              upserted filing.user_id (fresh id w.db_now filing) (over w.db_now filing)
                w.courier_applications;
        })
        drawn
    else throw_if true (missing_reference "No account to file a courier application for") drawn

unfoldable pub record_filed : CourierFiling → Request Done
record_filed filing = write filing filed filed_over

unfoldable pub record_approved : CourierFiling → Request Done
record_approved filing = write filing filed_approved approved_over

abbrev pub is_pending_of : ℕ → CourierApplication → Bool
is_pending_of user_id row = (row.user_id == user_id) && is_pending row.status

abbrev pub rejected_at_now : ℕ → CourierApplication → CourierApplication
rejected_at_now now row = record row { status = rejected; rejected_at = some now }

unfoldable pub record_rejected : ℕ → Request Bool
record_rejected user_id = do
  affected ← gets (λ w. any_where (is_pending_of user_id) w.courier_applications)
  modify (λ w. record w {
    courier_applications =
        update_where (is_pending_of user_id) (rejected_at_now w.db_now) w.courier_applications;
  })
  pure affected

unfoldable pub view_of : CourierApplication → Text → CourierApplicationView
view_of row email = record {
  application_id = row.id;
  principal_id = row.principal_id;
  user_id = row.user_id;
  email = email;
  driver_id = row.driver_id;
  status = row.status;
  filed_at = row.filed_at;
  approved_at = row.approved_at;
  rejected_at = row.rejected_at;
}

-- `innerJoinAndSelect("application.user", "account")`
abbrev pub joined : CourierApplication → Option UserRow → Option CourierApplicationView
joined row none = none
joined row (some account) = some (view_of row account.email)

abbrev pub joined_found : List UserRow → Option CourierApplication → Option CourierApplicationView
joined_found users none = none
joined_found users (some row) = joined row (find_where (with_id row.user_id) users)

unfoldable pub find_by_user : ℕ → Request (Option CourierApplicationView)
find_by_user user_id =
    gets (λ w. joined_found w.users (find_where (application_of user_id) w.courier_applications))

abbrev pub has_status : Option CourierApplicationStatus → CourierApplication → Bool
has_status none row = true
has_status (some pending) row = is_pending row.status
has_status (some approved) row = is_approved row.status
has_status (some rejected) row = is_rejected row.status

-- The rows that a listing ranges over, the joined account's being stored.
abbrev pub is_listed : List UserRow → Option CourierApplicationStatus → CourierApplication → Bool
is_listed users status row = any_where (with_id row.user_id) users && has_status status row

abbrev pub comes_before : CourierApplication → CourierApplication → Bool
comes_before a b = ltb a.id b.id

unfoldable pub listed :
    List UserRow
    → Option CourierApplicationStatus
    → ℕ
    → List CourierApplication
    → List CourierApplication
listed users status after_id rows =
    sort_by comes_before
      (filter_where (λ row. ltb after_id row.id && is_listed users status row) rows)

abbrev pub email_in : List UserRow → ℕ → Text
email_in users id = elim (find_where (with_id id) users) [
  | none ↦ []
  | some account ↦ account.email
]

abbrev pub page_views : List UserRow → List CourierApplication → List CourierApplicationView
page_views users rows = map (λ row. view_of row (email_in users row.user_id)) rows

-- With a limit of 0, `page[page.length - 1]` has no id.
unfoldable pub next_after : List CourierApplication → Bool → Request (Option ℕ)
next_after page false = pure none
next_after page true = do last ← or_throw (last_of page) (internal "TypeError"); pure (some last.id)

unfoldable pub list :
    ApplicationQuery CourierApplicationStatus → Request (ApplicationPage CourierApplicationView)
list query = do
  users ← gets (λ w. w.users)
  rows ← gets (λ w. listed w.users query.status query.after_id w.courier_applications)
  next ← next_after (page_of query.limit rows).0 (page_of query.limit rows).1
  pure (record {
    applications = page_views users (page_of query.limit rows).0;
    next_after_id = next;
  })

abbrev pub is_since : ℕ → Option ℕ → Bool
is_since since none = false
is_since since (some at) = leb since at

unfoldable pub tally : ℕ → Request ApplicationTally
tally since = gets (λ w. record {
  since = since;
  approved =
      count_where (λ row. is_approved row.status && is_since since row.approved_at)
        w.courier_applications;
  rejected =
      count_where (λ row. is_rejected row.status && is_since since row.rejected_at)
        w.courier_applications;
})
