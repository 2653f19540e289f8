-- ===== src/MerchantVerifications.antt =====
-- src/infrastructure/persistence/adapters/typeorm_merchant_verification_repository.adapter.ts: the
-- applications of sellers, one to an account.
use kinetix_identity_service.Prelude.{
  ℕ, ◌+◌, Bool, true, false, ◌&&◌, not, Option, none, some, List, ◌∷◌, ltb, ◌==◌, if◌then◌else◌,
  map,
}
use kinetix_identity_service.Prelude.Tables.{
  find_where, any_where, count_where, update_where, filter_where, sort_by,
}
use kinetix_identity_service.Prelude.Text.{Text}
use kinetix_identity_service.CourierApplications.{email_in, is_since}
use kinetix_identity_service.Merchants.{or_kept}
use kinetix_identity_service.Paging.{
  ApplicationQuery, ApplicationPage, ApplicationTally, page_of, last_of,
}
use kinetix_identity_service.Principals.{alias_for}
use kinetix_identity_service.Users.{with_id}
use kinetix_identity_service.World.{
  UserRow, PrincipalAlias, MerchantVerification, SellerApplicationStatus, seller_pending,
  seller_verified, seller_rejected, Request, missing_reference, record_conflict, internal, ◌>>=◌,
  ◌>>◌, pure, gets, modify, throw_if, or_throw,
}

abbrev pub verification_of : ℕ → MerchantVerification → Bool
verification_of user_id row = row.user_id == user_id

abbrev pub has_id : ℕ → MerchantVerification → Bool
has_id id row = row.id == id

unfoldable pub find_by_user_id : ℕ → Request (Option MerchantVerification)
find_by_user_id user_id = gets (λ w. find_where (verification_of user_id) w.merchant_verifications)

-- An `undefined` date of verification leaves the column as it is; one of rejection empties it.
abbrev pub saved_over : MerchantVerification → MerchantVerification → MerchantVerification
saved_over verification row = record verification {
  verified_at = or_kept verification.verified_at row.verified_at;
}

-- Another row has the account.
abbrev pub takes_user : MerchantVerification → MerchantVerification → Bool
takes_user verification row =
    not (row.id == verification.id) && (row.user_id == verification.user_id)

unfoldable pub insert_verification : ℕ → MerchantVerification → Request MerchantVerification
insert_verification id verification = do
  modify (λ w. record w {
    merchant_verifications = record verification { id = id } ∷ w.merchant_verifications;
  })
  pure (record verification { id = id })

unfoldable pub save_checked : MerchantVerification → Request MerchantVerification
save_checked verification w =
    if ltb 0 verification.id
    then if any_where (has_id verification.id) w.merchant_verifications
      then (modify (λ w. record w {
        merchant_verifications =
            update_where (has_id verification.id) (saved_over verification)
              w.merchant_verifications;
      })
            >> pure verification)
          w
      else insert_verification verification.id verification w
    else insert_verification w.next_verification_id verification
        (record w { next_verification_id = w.next_verification_id + 1 })

unfoldable pub save : MerchantVerification → Request MerchantVerification
save verification = do
  taken ← gets (λ w. any_where (takes_user verification) w.merchant_verifications)
  throw_if taken (record_conflict "A seller application was filed by another request")
  owned ← gets (λ w. any_where (with_id verification.user_id) w.users)
  throw_if (not owned) (missing_reference "No account with that ID")
  save_checked verification

-- `SellerApplicationView`
pub record SellerApplicationView : Type 0 where
  pub application : MerchantVerification
  pub principal_id : Option ℕ
  pub email : Text

abbrev pub is_pending : SellerApplicationStatus → Bool
is_pending seller_pending = true
is_pending _ = false

abbrev pub is_verified : SellerApplicationStatus → Bool
is_verified seller_verified = true
is_verified _ = false

abbrev pub is_rejected : SellerApplicationStatus → Bool
is_rejected seller_rejected = true
is_rejected _ = false

abbrev pub has_status : Option SellerApplicationStatus → MerchantVerification → Bool
has_status none row = true
has_status (some seller_pending) row = is_pending row.status
has_status (some seller_verified) row = is_verified row.status
has_status (some seller_rejected) row = is_rejected row.status

abbrev pub is_listed : List UserRow → Option SellerApplicationStatus → MerchantVerification → Bool
is_listed users status row = any_where (with_id row.user_id) users && has_status status row

abbrev pub comes_before : MerchantVerification → MerchantVerification → Bool
comes_before a b = ltb a.id b.id

unfoldable pub listed :
    List UserRow
    → Option SellerApplicationStatus
    → ℕ
    → List MerchantVerification
    → List MerchantVerification
listed users status after_id rows =
    sort_by comes_before
      (filter_where (λ row. ltb after_id row.id && is_listed users status row) rows)

-- `principalsOf`: the principal that each account's alias names.
abbrev pub principal_in : List PrincipalAlias → ℕ → Option ℕ
principal_in aliases user_id = elim (find_where (alias_for "identity" user_id) aliases) [
  | none ↦ none
  | some row ↦ some row.principal_id
]

abbrev pub page_views :
    List UserRow → List PrincipalAlias → List MerchantVerification → List SellerApplicationView
page_views users aliases rows =
    map
      (λ row. record {
        application = row;
        principal_id = principal_in aliases row.user_id;
        email = email_in users row.user_id;
      })
      rows

-- With a limit of 0, `page[page.length - 1]` has no id.
unfoldable pub next_after : List MerchantVerification → Bool → Request (Option ℕ)
next_after page false = pure none
next_after page true = do last ← or_throw (last_of page) (internal "TypeError"); pure (some last.id)

unfoldable pub list :
    ApplicationQuery SellerApplicationStatus → Request (ApplicationPage SellerApplicationView)
list query = do
  users ← gets (λ w. w.users)
  aliases ← gets (λ w. w.aliases)
  rows ← gets (λ w. listed w.users query.status query.after_id w.merchant_verifications)
  next ← next_after (page_of query.limit rows).0 (page_of query.limit rows).1
  pure (record {
    applications = page_views users aliases (page_of query.limit rows).0;
    next_after_id = next;
  })

unfoldable pub tally : ℕ → Request ApplicationTally
tally since = gets (λ w. record {
  since = since;
  approved =
      count_where (λ row. is_verified row.status && is_since since row.verified_at)
        w.merchant_verifications;
  rejected =
      count_where (λ row. is_rejected row.status && is_since since row.rejected_at)
        w.merchant_verifications;
})
