-- ===== src/SellerOnboarding.antt =====
-- src/application/services/seller_onboarding_usecase.service.ts and src/domain/merchant_standing.ts: an
-- account applies to sell, and its application is approved, which makes it a seller with a merchant,
-- or rejected.
pub mod Approved
pub mod Placed
pub mod Approval
use kinetix_identity_service.Prelude.{
  ℕ, String, Bool, true, false, ◌&&◌, ◌||◌, not, Option, none, some, List, [], ◌∷◌, ◌++◌, ◌==◌, leb,
  if◌then◌else◌,
}
use kinetix_identity_service.Prelude.Text.{Text, to_lower_case, is_blank, decimal}
use kinetix_identity_service.Auth.{subject_of}
use kinetix_identity_service.Domain.{UserEntity, UserRole, customer, seller, courier, admin}
use kinetix_identity_service.Geocoding.{
  GeocodingProvider, GeocodeOutcome, geocoded, not_geocoded, geocode,
}
use kinetix_identity_service.Merchants
use kinetix_identity_service.MerchantVerifications
use kinetix_identity_service.MerchantVerifications.{is_pending, is_verified, SellerApplicationView}
use kinetix_identity_service.Paging.{ApplicationQuery, ApplicationPage, ApplicationTally}
use kinetix_identity_service.Principals.{
  resolve_or_mint_for_user, principal_id_for_user, sync_kind, register_alias,
}
use kinetix_identity_service.Users
use kinetix_identity_service.World.{
  World, Merchant, MerchantVerification, MerchantStatus, merchant_pending, merchant_verified,
  merchant_active, merchant_suspended, SellerApplicationStatus, seller_pending, seller_verified,
  seller_rejected, Request, Done, not_found, conflict, ◌>>=◌, ◌>>◌, pure, throw, gets, throw_if,
  or_throw, try_catch,
}

-- `maySell`
unfoldable pub may_sell : MerchantStatus → Bool
may_sell merchant_verified = true
may_sell merchant_active = true
may_sell _ = false

-- `UNTOUCHED_BY_APPROVAL`
abbrev pub is_untouched_by_approval : MerchantStatus → Bool
is_untouched_by_approval merchant_active = true
is_untouched_by_approval merchant_suspended = true
is_untouched_by_approval _ = false

-- `OnboardSellerInputDto`
pub record OnboardSellerInput : Type 0 where
  pub store_name : Text
  pub business_registration_number : String
  pub tax_id : String
  pub street_address : Text
  pub city : Text
  pub postal_code : Text

-- `SellerApplication` and `ApprovedMerchant`
abbrev pub SellerApplication : Type 0
SellerApplication = MerchantVerification × Option ℕ

abbrev pub ApprovedMerchant : Type 0
ApprovedMerchant = Merchant × ℕ

unfoldable pub require_may_become_seller : UserRole → Request Done
require_may_become_seller customer = pure tt
require_may_become_seller seller = pure tt
require_may_become_seller _ = throw (conflict "Making the account a seller would revoke its role")

abbrev pub new_application : ℕ → OnboardSellerInput → MerchantVerification
new_application user_id dto = record {
  id = 0;
  user_id = user_id;
  store_name = dto.store_name;
  business_registration_number = dto.business_registration_number;
  tax_id = dto.tax_id;
  street_address = dto.street_address;
  city = dto.city;
  postal_code = dto.postal_code;
  status = seller_pending;
  verified_at = none;
  rejected_at = none;
}

abbrev pub filed_again : OnboardSellerInput → MerchantVerification → MerchantVerification
filed_again dto existing = record existing {
  store_name = dto.store_name;
  business_registration_number = dto.business_registration_number;
  tax_id = dto.tax_id;
  street_address = dto.street_address;
  city = dto.city;
  postal_code = dto.postal_code;
  status = seller_pending;
  rejected_at = none;
}

unfoldable pub file_application :
    ℕ → OnboardSellerInput → Option MerchantVerification → Request MerchantVerification
file_application user_id dto none = MerchantVerifications.save (new_application user_id dto)
file_application user_id dto (some existing) = do
  throw_if (is_verified existing.status) (conflict "This account is already a verified merchant")
  MerchantVerifications.save (filed_again dto existing)

unfoldable pub onboard_seller : ℕ → OnboardSellerInput → Request MerchantVerification
onboard_seller user_id dto = do
  found ← Users.find_by_id user_id
  user ← or_throw found (not_found "User not found")
  require_may_become_seller user.role
  existing ← MerchantVerifications.find_by_user_id user_id
  file_application user_id dto existing

unfoldable pub find_application : ℕ → Request MerchantVerification
find_application user_id = do
  found ← MerchantVerifications.find_by_user_id user_id
  or_throw found (not_found "No seller application found")

unfoldable pub with_principal : MerchantVerification → Request SellerApplication
with_principal verification = do
  principal ← principal_id_for_user verification.user_id
  pure (verification, principal)

unfoldable pub application_of : ℕ → Request SellerApplication
application_of user_id = do verification ← find_application user_id; with_principal verification

unfoldable pub tally : ℕ → Request ApplicationTally
tally since = MerchantVerifications.tally since

unfoldable pub list_applications :
    ApplicationQuery SellerApplicationStatus → Request (ApplicationPage SellerApplicationView)
list_applications query = MerchantVerifications.list query

unfoldable pub pending_application_of : ℕ → Request MerchantVerification
pending_application_of user_id = do
  verification ← find_application user_id
  throw_if (not (is_pending verification.status)) (conflict "The seller application is not pending")
  pure verification

unfoldable pub reject_verification : ℕ → Request SellerApplication
reject_verification user_id = do
  verification ← pending_application_of user_id
  now ← gets (λ w. w.app_now)
  saved ←
      MerchantVerifications.save
        (record verification { status = seller_rejected; rejected_at = some now })
  with_principal saved

-- `[^a-z0-9]`
unfoldable pub is_slug_character : ℕ → Bool
is_slug_character c = (leb b'a' c && leb c b'z') || (leb b'0' c && leb c b'9')

-- `.replace(/[^a-z0-9]+/g, "-")`; the flag says that the run before is written already.
unfoldable pub dashed : Text → Bool → Text
dashed [] written = []
dashed (c ∷ s) written =
    let on = dashed s true in
    let off = dashed s false in
    if is_slug_character c then c ∷ off else if written then on else b'-' ∷ on

-- `.replace(/^-|-$/g, "")`
abbrev pub without_first_dash : Text → Text
without_first_dash [] = []
without_first_dash (c ∷ s) = if c == b'-' then s else c ∷ s

abbrev pub without_last_dash : Text → Text
without_last_dash [] = []
without_last_dash (c ∷ []) = if c == b'-' then [] else c ∷ []
without_last_dash (c ∷ d ∷ s) = c ∷ without_last_dash (d ∷ s)

abbrev pub or_merchant : Text → Text
or_merchant [] = b'm' ∷ b'e' ∷ b'r' ∷ b'c' ∷ b'h' ∷ b'a' ∷ b'n' ∷ b't' ∷ []
or_merchant (c ∷ s) = c ∷ s

unfoldable pub slug_base : Text → Text
slug_base store_name =
    or_merchant (without_last_dash (without_first_dash (dashed (to_lower_case store_name) false)))

-- An account's id has at most ten digits.
abbrev pub slug_for : Text → ℕ → Option Merchant → Text
slug_for base user_id none = base
slug_for base user_id (some taken) =
    if taken.user_id == user_id then base else base ++ (b'-' ∷ decimal 10 user_id)

unfoldable pub unique_slug : Text → ℕ → Request Text
unique_slug store_name user_id = do
  taken ← Merchants.find_by_slug (slug_base store_name)
  pure (slug_for (slug_base store_name) user_id taken)

unfoldable pub placed_at : Merchant → GeocodeOutcome → Merchant
placed_at merchant (geocoded point) = record merchant {
  latitude = some point.latitude;
  longitude = some point.longitude;
}
placed_at merchant (not_geocoded failure) = merchant

unfoldable pub place_unless_blank : GeocodingProvider → Merchant → Bool → Request Merchant
place_unless_blank provider merchant true = pure merchant
place_unless_blank provider merchant false =
    try_catch
      (do
        outcome ← geocode provider (record {
          street_address = merchant.street_address;
          city = merchant.city;
          postal_code = merchant.postal_code;
        })
        pure (placed_at merchant outcome))
      (λ cause. pure merchant)

unfoldable pub place_on_map : GeocodingProvider → Merchant → Request Merchant
place_on_map provider merchant = do
  now ← gets (λ w. w.app_now)
  place_unless_blank provider
      (record merchant { latitude = none; longitude = none; geocoded_at = some now })
      (is_blank merchant.street_address)

-- The merchant that an approval saves.
unfoldable pub merchant_to_save : MerchantVerification → ℕ → ℕ → Option Merchant → Request Merchant
merchant_to_save verification user_id verified_at (some merchant) = pure (record merchant {
  status = merchant_verified;
  verified_at = some verified_at;
  street_address = verification.street_address;
  city = verification.city;
  postal_code = verification.postal_code;
})
merchant_to_save verification user_id verified_at none = do
  slug ← unique_slug verification.store_name user_id
  pure (record {
    id = 0;
    user_id = user_id;
    store_name = verification.store_name;
    slug = slug;
    description = none;
    business_registration_number = verification.business_registration_number;
    tax_id = verification.tax_id;
    status = merchant_verified;
    verified_at = some verified_at;
    street_address = verification.street_address;
    city = verification.city;
    postal_code = verification.postal_code;
    latitude = none;
    longitude = none;
    geocoded_at = none;
  })

abbrev pub is_untouched : Option Merchant → Bool
is_untouched none = false
is_untouched (some merchant) = is_untouched_by_approval merchant.status

abbrev pub is_seller : UserRole → Bool
is_seller seller = true
is_seller _ = false

unfoldable pub save_unless_seller : UserEntity → Bool → Request UserEntity
save_unless_seller user true = pure user
save_unless_seller user false = do
  Users.save (record user { role = seller })
  pure (record user { role = seller })

-- The role, the principal and its alias, and the application, once the merchant is saved.
unfoldable pub finish_approval :
    MerchantVerification → ℕ → UserEntity → Merchant → Request ApprovedMerchant
finish_approval verification verified_at user merchant = do
  promoted ← save_unless_seller user (is_seller user.role)
  principal ← resolve_or_mint_for_user (subject_of promoted)
  sync_kind principal promoted.role
  register_alias principal "identity-merchant" merchant.id
  MerchantVerifications.save
      (record verification { status = seller_verified; verified_at = some verified_at })
  pure (merchant, principal)

-- The merchant is placed and saved, and the approval ends.
unfoldable pub place_and_finish :
    GeocodingProvider → MerchantVerification → ℕ → UserEntity → Merchant → Request ApprovedMerchant
place_and_finish provider verification verified_at user merchant = do
  placed ← place_on_map provider merchant
  saved ← Merchants.save placed
  finish_approval verification verified_at user saved

-- What follows the checks of the application and the account.
unfoldable pub approve_checked :
    GeocodingProvider → MerchantVerification → ℕ → UserEntity → Request ApprovedMerchant
approve_checked provider verification user_id user = do
  verified_at ← gets (λ w. w.app_now)
  existing ← Merchants.find_by_user_id user_id
  throw_if (is_untouched existing) (conflict "An approval does not change the merchant")
  merchant ← merchant_to_save verification user_id verified_at existing
  place_and_finish provider verification verified_at user merchant

unfoldable pub approve_verification : GeocodingProvider → ℕ → Request ApprovedMerchant
approve_verification provider user_id = do
  verification ← pending_application_of user_id
  found ← Users.find_by_id user_id
  user ← or_throw found (not_found "User not found")
  require_may_become_seller user.role
  approve_checked provider verification user_id user
