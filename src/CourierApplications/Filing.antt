-- ===== src/CourierApplications/Filing.antt =====
-- The states of an account's application, and which changes of state a filing and an approval make.
use kinetix_identity_service.Prelude.{
  ℕ, Bool, true, false, Option, none, some, List, [], ◌∷◌, ◌≡◌, refl, arith, inl, inr, ◌==◌,
  Option-cases, Bool-cases, if◌then◌else◌, ◌&&◌, subst, ==_iff, ==_refl,
}
use kinetix_identity_service.Prelude.Tables.{find_where, any_where, update_where}
use kinetix_identity_service.Prelude.Counts.{find_where-any, any_where-find}
use kinetix_identity_service.Principals.{with_principal}
use kinetix_identity_service.Users.{with_id}
use kinetix_identity_service.World.{
  World, CourierApplication, CourierApplicationStatus, pending, approved, rejected, ok,
}
use kinetix_identity_service.CourierApplications.{
  CourierFiling, application_of, upserted, filed, filed_over, approved_over, filed_approved, write,
  record_filed, record_approved, record_rejected, is_pending, is_pending_of, is_rejected,
  rejected_at_now,
}

abbrev pub status_of : Option CourierApplication → Option CourierApplicationStatus
status_of none = none
status_of (some row) = some row.status

-- The state of an account's application, which it may not have.
abbrev pub status_at : ℕ → World → Option CourierApplicationStatus
status_at user_id w = status_of (find_where (application_of user_id) w.courier_applications)

-- An application is filed, and filed again after a rejection; it is approved or rejected while it is
-- pending, and an approval may file it. An approved one stays approved.
abbrev pub may_move : Option CourierApplicationStatus → Option CourierApplicationStatus → Bool
may_move none none = true
may_move none (some pending) = true
may_move none (some approved) = true
may_move (some pending) (some _) = true
may_move (some approved) (some approved) = true
may_move (some rejected) (some rejected) = true
may_move (some rejected) (some pending) = true
may_move _ _ = false

pub may_move_same : (s : Option CourierApplicationStatus) → may_move s s ≡ true
may_move_same none = refl
may_move_same (some pending) = refl
may_move_same (some approved) = refl
may_move_same (some rejected) = refl

filed_over-move :
    (s : CourierApplicationStatus)
    → may_move (some s) (some (if is_rejected s then pending else s)) ≡ true
filed_over-move pending = refl
filed_over-move approved = refl
filed_over-move rejected = refl

-- A lookup after an update of one account's rows that keeps the account.
find-updated :
    (j : ℕ) (which : CourierApplication → Bool) (over : CourierApplication → CourierApplication)
    (rows : List CourierApplication)
    → ((row : CourierApplication) → (over row).user_id ≡ row.user_id)
    → find_where (application_of j) (update_where which over rows)
      ≡ elim (find_where (application_of j) rows) [
        | none ↦ none
        | some row ↦ some (if which row then over row else row)
      ]
find-updated j which over [] keeps = refl
find-updated j which over (row ∷ rows) keeps =
    ground (arith, keeps row, find-updated j which over rows keeps)

updated-moves :
    (j : ℕ) (which : CourierApplication → Bool) (over : CourierApplication → CourierApplication)
    (rows : List CourierApplication)
    → ((row : CourierApplication) → (over row).user_id ≡ row.user_id)
    → ((row : CourierApplication)
        → find_where (application_of j) rows ≡ some row
        → which row ≡ true
        → may_move (some row.status) (some (over row).status) ≡ true)
    → may_move
        (status_of (find_where (application_of j) rows))
        (status_of (find_where (application_of j) (update_where which over rows)))
      ≡ true
updated-moves j which over rows keeps moves =
    rw (find-updated j which over rows keeps)
      (elim (Option-cases (find_where (application_of j) rows)) [
        | inl e ↦ rw e refl
        | inr (row, e) ↦ rw e (elim (Bool-cases (which row)) [
          | inl t ↦ rw t (moves row e t)
          | inr f ↦ rw f (may_move_same (some row.status))
        ])
      ])

any-find_none :
    (j : ℕ) (rows : List CourierApplication)
    → any_where (application_of j) rows ≡ false
    → find_where (application_of j) rows ≡ none
any-find_none j [] h = refl
any-find_none j (row ∷ rows) h = ground (arith, any-find_none j rows)

upserted-moves :
    (j : ℕ) (fresh : CourierApplication) (over : CourierApplication → CourierApplication)
    (rows : List CourierApplication)
    → ((row : CourierApplication) → (over row).user_id ≡ row.user_id)
    → ((row : CourierApplication)
        → find_where (application_of j) rows ≡ some row
        → application_of fresh.user_id row ≡ true
        → may_move (some row.status) (some (over row).status) ≡ true)
    → may_move none (some fresh.status) ≡ true
    → may_move
        (status_of (find_where (application_of j) rows))
        (status_of (find_where (application_of j) (upserted fresh.user_id fresh over rows)))
      ≡ true
upserted-moves j fresh over rows keeps moves new =
    elim (Bool-cases (any_where (application_of fresh.user_id) rows)) [
      | inl t ↦ rw t (updated-moves j (application_of fresh.user_id) over rows keeps moves)
      | inr f ↦ rw f (elim (Bool-cases (fresh.user_id == j)) [
        | inl e ↦
            let missing : find_where (application_of j) rows ≡ none =
              any-find_none j rows (ground (arith, f)) in
            rw e (rw missing new)
        | inr e ↦ rw e (may_move_same (status_of (find_where (application_of j) rows)))
      ])
    ]

-- A filing moves the application of every account as an application may move.
pub record_filed-moves :
    (user_id : ℕ) (filing : CourierFiling) (w : World)
    → may_move (status_at user_id w) (status_at user_id (record_filed filing w).1) ≡ true
unfolding record_filed write
record_filed-moves user_id filing w =
    elim (Bool-cases (
      any_where (with_id filing.user_id) w.users
      && any_where (with_principal filing.principal_id) w.principals)) [
        | inl t ↦ rw t (
            upserted-moves user_id (filed w.next_application_id w.db_now filing)
              (filed_over w.db_now filing) w.courier_applications (λ row. refl)
              (λ row found own. filed_over-move row.status) refl)
        | inr f ↦ rw f (may_move_same (status_at user_id w))
      ]

pub approved_over-move :
    (s : CourierApplicationStatus)
    → is_rejected s ≡ false
    → may_move (some s) (some approved) ≡ true
approved_over-move pending h = refl
approved_over-move approved h = refl
approved_over-move rejected h = cc

pub record_approved-moves :
    (user_id : ℕ) (filing : CourierFiling) (w : World)
    → ((row : CourierApplication)
        → find_where (application_of filing.user_id) w.courier_applications ≡ some row
        → is_rejected row.status ≡ false)
    → may_move (status_at user_id w) (status_at user_id (record_approved filing w).1) ≡ true
unfolding record_approved write
record_approved-moves user_id filing w unrejected =
    elim (Bool-cases (
      any_where (with_id filing.user_id) w.users
      && any_where (with_principal filing.principal_id) w.principals)) [
        | inl t ↦ rw t (
            upserted-moves user_id (filed_approved w.next_application_id w.db_now filing)
              (approved_over w.db_now filing) w.courier_applications (λ row. refl)
              (λ row found own.
                let same : user_id ≡ filing.user_id = omega (
                  arith,
                  (==_iff row.user_id user_id).0
                      (find_where-any (application_of user_id) w.courier_applications row found),
                  (==_iff row.user_id filing.user_id).0 own,
                ) in
                approved_over-move row.status (
                  unrejected row (
                    subst
                      (λ (k : ℕ). find_where (application_of k) w.courier_applications ≡ some row)
                      same found)))
              refl)
        | inr f ↦ rw f (may_move_same (status_at user_id w))
      ]

rejected_over-move :
    (s : CourierApplicationStatus) → is_pending s ≡ true → may_move (some s) (some rejected) ≡ true
rejected_over-move pending h = refl
rejected_over-move approved h = cc
rejected_over-move rejected h = cc

pub record_rejected-moves :
    (user_id : ℕ) (target : ℕ) (w : World)
    → may_move (status_at user_id w) (status_at user_id (record_rejected target w).1) ≡ true
unfolding record_rejected
record_rejected-moves user_id target w =
    updated-moves user_id (is_pending_of target) (rejected_at_now w.db_now) w.courier_applications
      (λ row. refl) (λ row found own. rejected_over-move row.status (ground (arith, own)))

-- The row of an account once its approval is recorded.
pub record IsApproved (filing : CourierFiling) (rows : List CourierApplication) : Type 0 where
  pub row : CourierApplication
  pub is_found : find_where (application_of filing.user_id) rows ≡ some row
  pub is_approved : row.status ≡ approved
  pub has_driver : row.driver_id ≡ some filing.driver_id
  pub is_not_rejected : row.rejected_at ≡ none

any-find_some :
    (j : ℕ) (rows : List CourierApplication)
    → any_where (application_of j) rows ≡ true
    → (row : CourierApplication) × (find_where (application_of j) rows ≡ some row)
      × (application_of j row ≡ true)
any-find_some j rows h = elim (Option-cases (find_where (application_of j) rows)) [
  | inl e ↦ ground (arith, any_where-find (application_of j) rows)
  | inr (row, e) ↦ (row, e, find_where-any (application_of j) rows row e)
]

pub record_approved-IsApproved :
    (filing : CourierFiling) (w : World)
    → (record_approved filing w).0 ≡ ok tt
    → IsApproved filing (record_approved filing w).1.courier_applications
unfolding record_approved write
record_approved-IsApproved filing w h =
    let rows = w.courier_applications in
    let over = approved_over w.db_now filing in
    let fresh = filed_approved w.next_application_id w.db_now filing in
    let written : (record_approved filing w).1.courier_applications
        ≡ upserted filing.user_id fresh over rows =
      ground arith in
    rw written (elim (Bool-cases (any_where (application_of filing.user_id) rows)) [
      | inl t ↦
          let held = any-find_some filing.user_id rows t in
          rw t (record {
            row = over held.0;
            is_found = ground (
              arith,
              find-updated filing.user_id (application_of filing.user_id) over rows (λ row. refl),
              held.1,
              held.2,
            );
            is_approved = refl;
            has_driver = refl;
            is_not_rejected = refl;
          })
      | inr f ↦ rw f (record {
        row = fresh;
        is_found = ground (arith, ==_refl filing.user_id);
        is_approved = refl;
        has_driver = refl;
        is_not_rejected = refl;
      })
    ])

pub record_approved-stored :
    (filing : CourierFiling) (w : World)
    → any_where (with_id filing.user_id) w.users ≡ true
    → any_where (with_principal filing.principal_id) w.principals ≡ true
    → (record_approved filing w).0 ≡ ok tt
unfolding record_approved write
record_approved-stored filing w known principal = ground arith

-- The row of an account once a filing is recorded.
pub record IsFiled (filing : CourierFiling) (rows : List CourierApplication) : Type 0 where
  pub row : CourierApplication
  pub is_found : find_where (application_of filing.user_id) rows ≡ some row
  pub is_unrejected : is_rejected row.status ≡ false
  pub has_principal : row.principal_id ≡ filing.principal_id
  pub has_driver : row.driver_id ≡ some filing.driver_id

filed_over-unrejected :
    (s : CourierApplicationStatus) → is_rejected (if is_rejected s then pending else s) ≡ false
filed_over-unrejected pending = refl
filed_over-unrejected approved = refl
filed_over-unrejected rejected = refl

pub record_filed-IsFiled :
    (filing : CourierFiling) (w : World)
    → (record_filed filing w).0 ≡ ok tt
    → IsFiled filing (record_filed filing w).1.courier_applications
unfolding record_filed write
record_filed-IsFiled filing w h =
    let rows = w.courier_applications in
    let over = filed_over w.db_now filing in
    let fresh = filed w.next_application_id w.db_now filing in
    let written : (record_filed filing w).1.courier_applications
        ≡ upserted filing.user_id fresh over rows =
      ground arith in
    rw written (elim (Bool-cases (any_where (application_of filing.user_id) rows)) [
      | inl t ↦
          let held = any-find_some filing.user_id rows t in
          rw t (record {
            row = over held.0;
            is_found = ground (
              arith,
              find-updated filing.user_id (application_of filing.user_id) over rows (λ row. refl),
              held.1,
              held.2,
            );
            is_unrejected = filed_over-unrejected held.0.status;
            has_principal = refl;
            has_driver = refl;
          })
      | inr f ↦ rw f (record {
        row = fresh;
        is_found = ground (arith, ==_refl filing.user_id);
        is_unrejected = refl;
        has_principal = refl;
        has_driver = refl;
      })
    ])
