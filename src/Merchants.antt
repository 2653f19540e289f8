-- ===== src/Merchants.antt =====
-- src/infrastructure/persistence/adapters/typeorm_merchant_repository.adapter.ts: the merchants, one to
-- an account, with a slug that no other merchant has.
pub mod Feed
use kinetix_identity_service.Prelude.{
  ℕ, ◌+◌, String, Bool, true, false, ◌&&◌, ◌||◌, not, Option, none, some, List, ◌∷◌, ltb, ◌==◌,
  if◌then◌else◌, str_eq, map,
}
use kinetix_identity_service.Prelude.Tables.{
  find_where, any_where, update_where, filter_where, sort_by,
}
use kinetix_identity_service.Prelude.Text.{Text, text_eq}
use kinetix_identity_service.Paging.{page_of}
use kinetix_identity_service.Users.{with_id}
use kinetix_identity_service.World.{
  World, Merchant, MerchantRow, MerchantStatus, merchant_pending, merchant_verified,
  merchant_active, merchant_suspended, Request, Done, missing_reference, record_conflict, ◌>>=◌,
  ◌>>◌, pure, gets, modify, throw_if,
}

abbrev pub has_id : ℕ → MerchantRow → Bool
has_id id row = row.merchant.id == id

abbrev pub merchant_of : ℕ → MerchantRow → Bool
merchant_of user_id row = row.merchant.user_id == user_id

abbrev pub has_slug : Text → MerchantRow → Bool
has_slug slug row = text_eq row.merchant.slug slug

abbrev pub merchant_found : Option MerchantRow → Option Merchant
merchant_found none = none
merchant_found (some row) = some row.merchant

unfoldable pub find_by_id : ℕ → Request (Option Merchant)
find_by_id id = gets (λ w. merchant_found (find_where (has_id id) w.merchants))

unfoldable pub find_by_user_id : ℕ → Request (Option Merchant)
find_by_user_id user_id = gets (λ w. merchant_found (find_where (merchant_of user_id) w.merchants))

unfoldable pub find_by_slug : Text → Request (Option Merchant)
find_by_slug slug = gets (λ w. merchant_found (find_where (has_slug slug) w.merchants))

-- An `undefined` date leaves the column as it is.
abbrev pub or_kept : Option ℕ → Option ℕ → Option ℕ
or_kept none kept = kept
or_kept (some at) kept = some at

unfoldable pub same_status : MerchantStatus → MerchantStatus → Bool
same_status merchant_pending merchant_pending = true
same_status merchant_verified merchant_verified = true
same_status merchant_active merchant_active = true
same_status merchant_suspended merchant_suspended = true
same_status _ _ = false

unfoldable pub same_string : Option String → Option String → Bool
same_string none none = true
same_string (some a) (some b) = str_eq a b
same_string _ _ = false

unfoldable pub same_date : Option ℕ → Option ℕ → Bool
same_date none none = true
same_date (some a) (some b) = a == b
same_date _ _ = false

-- Whether an update has no column to write.
unfoldable pub same_columns : Merchant → Merchant → Bool
same_columns a b =
    (a.user_id == b.user_id)
    && text_eq a.store_name b.store_name
    && text_eq a.slug b.slug
    && same_string a.description b.description
    && str_eq a.business_registration_number b.business_registration_number
    && str_eq a.tax_id b.tax_id
    && same_status a.status b.status
    && same_date a.verified_at b.verified_at
    && text_eq a.street_address b.street_address
    && text_eq a.city b.city
    && text_eq a.postal_code b.postal_code
    && same_string a.latitude b.latitude
    && same_string a.longitude b.longitude
    && same_date a.geocoded_at b.geocoded_at

abbrev pub written_over : Merchant → Merchant → Merchant
written_over merchant kept = record merchant {
  verified_at = or_kept merchant.verified_at kept.verified_at;
}

-- `UpdateDateColumn` moves when a column is written.
unfoldable pub saved_over : ℕ → Merchant → MerchantRow → MerchantRow
saved_over now merchant row = record {
  merchant = written_over merchant row.merchant;
  updated_at =
      if same_columns (written_over merchant row.merchant) row.merchant
      then row.updated_at
      else now;
}

-- Another merchant has the account or the slug.
abbrev pub takes_unique : Merchant → MerchantRow → Bool
takes_unique merchant row =
    not (row.merchant.id == merchant.id)
    && (merchant_of merchant.user_id row || has_slug merchant.slug row)

unfoldable pub insert_merchant : ℕ → Merchant → Request Merchant
insert_merchant id merchant = do
  modify (λ w. record w {
    merchants =
        record { merchant = record merchant { id = id }; updated_at = w.db_now } ∷ w.merchants;
  })
  pure (record merchant { id = id })

unfoldable pub save_checked : Merchant → Request Merchant
save_checked merchant w =
    if ltb 0 merchant.id
    then if any_where (has_id merchant.id) w.merchants
      then (modify (λ w. record w {
        merchants = update_where (has_id merchant.id) (saved_over w.db_now merchant) w.merchants;
      })
            >> pure merchant)
          w
      else insert_merchant merchant.id merchant w
    else insert_merchant w.next_merchant_id merchant
        (record w { next_merchant_id = w.next_merchant_id + 1 })

unfoldable pub save : Merchant → Request Merchant
save merchant = do
  taken ← gets (λ w. any_where (takes_unique merchant) w.merchants)
  throw_if taken (record_conflict "The merchant or its store slug was written by another request")
  owned ← gets (λ w. any_where (with_id merchant.user_id) w.users)
  throw_if (not owned) (missing_reference "No account with that ID")
  save_checked merchant

-- The cursor of the feed: the last change that a reader has seen.
pub record ChangeCursor : Type 0 where
  pub updated_through : ℕ
  pub last_id : ℕ

-- `MerchantChange` is a row; `MerchantChangePage`
pub record MerchantChangePage : Type 0 where
  pub changes : List MerchantRow
  pub has_more : Bool

abbrev pub changed_before : MerchantRow → MerchantRow → Bool
changed_before a b =
    ltb a.updated_at b.updated_at
    || ((a.updated_at == b.updated_at) && ltb a.merchant.id b.merchant.id)

abbrev pub is_after : Option ChangeCursor → MerchantRow → Bool
is_after none row = true
is_after (some cursor) row =
    ltb cursor.updated_through row.updated_at
    || ((row.updated_at == cursor.updated_through) && ltb cursor.last_id row.merchant.id)

unfoldable pub changed_rows : Option ChangeCursor → List MerchantRow → List MerchantRow
changed_rows cursor rows = sort_by changed_before (filter_where (is_after cursor) rows)

unfoldable pub find_changed_since : Option ChangeCursor → ℕ → Request MerchantChangePage
find_changed_since cursor limit = gets (λ w.
    let page = page_of limit (changed_rows cursor w.merchants) in
    record { changes = page.0; has_more = page.1 })
