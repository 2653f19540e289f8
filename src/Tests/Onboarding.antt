-- ===== src/Tests/Onboarding.antt =====
-- Examples of the theorems on registering a courier and approving a seller.
use kinetix_identity_service.Prelude.{◌<◌, ◌≡◌, refl, arith, none, some, [], ◌∷◌}
use kinetix_identity_service.Prelude.Tables.{find_where}
use kinetix_identity_service.Prelude.Text.{
  codes, text_eq, lower, to_lower_case, is_space, drop_spaces, trim, is_blank, not_blank,
  collapse_spaces,
}
use kinetix_identity_service.Domain.{principal_kind_for_role}
use kinetix_identity_service.Domain.SessionClient.{unnamed}
use kinetix_identity_service.CourierRegistration.{
  RegisterCourierInput, CourierSession, register_courier,
}
use kinetix_identity_service.Geocoding.{
  GeocodingProvider, placed, geocode, normalise, look_up_unless, look_up, find_by_query,
  remember_answer, remember,
}
use kinetix_identity_service.MerchantVerifications
use kinetix_identity_service.Merchants
use kinetix_identity_service.Principals.{
  find_alias, resolve_existing, resolve_or_mint_for_user, sync_kind, register_alias,
  register_new_alias, insert_alias,
}
use kinetix_identity_service.Profiles
use kinetix_identity_service.SellerOnboarding
use kinetix_identity_service.SellerOnboarding.{ApprovedMerchant, approve_verification}
use kinetix_identity_service.SellerOnboarding.Approval.{Approves, approve_verification-Approves}
use kinetix_identity_service.Users
use kinetix_identity_service.World.{
  World, Merchant, MerchantVerification, ProviderPoint, seller_pending, rooftop, merchant_pending,
  ok, try_catch, catch_outcome,
}
use kinetix_identity_service.Tests.{Signed, service, crypto, world}
use kinetix_identity_service.Tests.Couriers.{ready_fleet}
use kinetix_identity_service.Tests.SignIn.{no_tokens, answer_of}

abbrev pub point_7 : ProviderPoint
point_7 = record {
  latitude = "-7.25";
  longitude = "112.75";
  precision = rooftop;
  display_name = none;
}

abbrev pub provider : GeocodingProvider
provider = record { name = "Maps"; lookup = λ query w. placed point_7 }

abbrev vehicle_7 : RegisterCourierInput
vehicle_7 = record {
  email = codes " Ann@X.io";
  password = "secret";
  full_name = "Ann";
  phone_number = "+6281234567";
  vehicle_plate = "L 1234 AB";
  capacity_kg = 40;
}

abbrev registered_7 : CourierSession Signed
registered_7 =
    answer_of (record { session = no_tokens; driver_id = 0 })
      (register_courier crypto service provider ready_fleet vehicle_7 (some unnamed) world).0

abbrev application_7 : MerchantVerification
application_7 = record {
  id = 4;
  user_id = 7;
  store_name = codes "Ann's Food";
  business_registration_number = "123";
  tax_id = "T1";
  street_address = codes "1 Main St";
  city = codes "Town";
  postal_code = [];
  status = seller_pending;
  verified_at = none;
  rejected_at = none;
}

abbrev applied_world : World
applied_world = record world { merchant_verifications = application_7 ∷ [] }

abbrev pub no_merchant : Merchant
no_merchant = record {
  id = 0;
  user_id = 0;
  store_name = [];
  slug = [];
  description = none;
  business_registration_number = "";
  tax_id = "";
  status = merchant_pending;
  verified_at = none;
  street_address = [];
  city = [];
  postal_code = [];
  latitude = none;
  longitude = none;
  geocoded_at = none;
}

abbrev approved_7 : ApprovedMerchant
approved_7 = answer_of (no_merchant, 0) (approve_verification provider 7 applied_world).0

approval_runs : (approve_verification provider 7 applied_world).0 ≡ ok approved_7
unfolding approve_verification SellerOnboarding.pending_application_of
    SellerOnboarding.find_application MerchantVerifications.find_by_user_id Users.find_by_id
    Users.entity_of SellerOnboarding.require_may_become_seller SellerOnboarding.approve_checked
    Merchants.find_by_user_id SellerOnboarding.merchant_to_save SellerOnboarding.unique_slug
    Merchants.find_by_slug SellerOnboarding.slug_base SellerOnboarding.dashed
    SellerOnboarding.is_slug_character SellerOnboarding.place_and_finish
    SellerOnboarding.place_on_map SellerOnboarding.place_unless_blank SellerOnboarding.placed_at
    geocode normalise look_up_unless look_up find_by_query remember_answer remember Merchants.save
    Merchants.save_checked Merchants.insert_merchant SellerOnboarding.finish_approval
    SellerOnboarding.save_unless_seller Users.save Users.save_checked Users.saved_over
    resolve_or_mint_for_user find_alias resolve_existing sync_kind principal_kind_for_role
    register_alias register_new_alias insert_alias MerchantVerifications.save
    MerchantVerifications.save_checked try_catch catch_outcome text_eq lower to_lower_case is_space
    drop_spaces trim is_blank not_blank collapse_spaces
approval_runs = refl

application_7_positive :
    (v : MerchantVerification)
    → find_where (MerchantVerifications.verification_of 7) applied_world.merchant_verifications
      ≡ some v
    → 0 < v.id
application_7_positive v h = ground arith

approve_verification-Approves_example :
    Approves 7 approved_7 applied_world (approve_verification provider 7 applied_world).1
approve_verification-Approves_example =
    approve_verification-Approves provider 7 approved_7 applied_world (omega arith)
      application_7_positive approval_runs
