-- ===== src/SellerOnboarding/Approval.antt =====
-- `approveVerification` as a whole.
use kinetix_identity_service.Prelude.{
  ℕ, ◌<◌, true, false, Option, none, some, ◌≡◌, ◌⊎◌, refl, arith, inl, inr, Option-cases,
  Bool-cases, subst, sym, ==_iff,
}
use kinetix_identity_service.Prelude.Tables.{find_where}
use kinetix_identity_service.Prelude.Counts.{find_where-any}
use kinetix_identity_service.Domain.{UserEntity, UserRole, customer, seller, courier, admin}
use kinetix_identity_service.Geocoding.{GeocodingProvider}
use kinetix_identity_service.MerchantVerifications.{verification_of, find_by_user_id, is_pending}
use kinetix_identity_service.Merchants
use kinetix_identity_service.Merchants.{
  has_id, merchant_of, merchant_found, saved_over, save_checked, insert_merchant, find_by_slug,
}
use kinetix_identity_service.SellerOnboarding.{
  ApprovedMerchant, find_application, pending_application_of, require_may_become_seller,
  merchant_to_save, unique_slug, place_on_map, is_untouched, finish_approval, place_and_finish,
  approve_checked, approve_verification,
}
use kinetix_identity_service.SellerOnboarding.Approved.{Finishes, finish_approval-Finishes}
use kinetix_identity_service.Users
use kinetix_identity_service.Users.{entity_found, with_id}
use kinetix_identity_service.Users.Saved.{any-found}
use kinetix_identity_service.World.{
  World, Merchant, MerchantRow, MerchantVerification, merchant_verified, Outcome-cases, ok,
}
use kinetix_identity_service.SellerOnboarding.Placed.{place_on_map-Places, save-Stores}

-- The merchant that an approval makes or changes is verified, at the address of the application.
abbrev Verifies : MerchantVerification → ℕ → Merchant → Type 0
Verifies application t merchant =
    (merchant.street_address ≡ application.street_address)
    × (merchant.city ≡ application.city)
    × (merchant.postal_code ≡ application.postal_code)
    × (merchant.status ≡ merchant_verified)
    × (merchant.verified_at ≡ some t)

merchant_to_save-ok :
    (application : MerchantVerification) (user_id t : ℕ) (existing : Option Merchant)
    (merchant : Merchant) (w : World)
    → (merchant_to_save application user_id t existing w).0 ≡ ok merchant
    → Verifies application t merchant × ((merchant_to_save application user_id t existing w).1 ≡ w)
unfolding merchant_to_save unique_slug find_by_slug
merchant_to_save-ok application user_id t none merchant w h = ground arith
merchant_to_save-ok application user_id t (some m) merchant w h = ground arith

-- The end of an approval, from the state in which its checks passed.
record Completes (user_id : ℕ) (application : MerchantVerification) (user : UserEntity) (t : ℕ)
    (answer : ApprovedMerchant) (w' : World) : Type 0 where
  verifies : Verifies application t answer.0
  row : MerchantRow
  is_stored : find_where (has_id answer.0.id) w'.merchants ≡ some row
  is_answer : row.merchant ≡ answer.0
  before_end : World
  finishes : Finishes user_id application t user answer.0 answer.1 before_end w'

place_and_finish-Completes :
    (provider : GeocodingProvider) (user_id : ℕ) (application : MerchantVerification)
    (user : UserEntity) (t : ℕ) (merchant : Merchant) (answer : ApprovedMerchant) (w : World)
    → 0 < user.id
    → 0 < application.id
    → application.user_id ≡ user_id
    → entity_found (find_where (with_id user.id) w.users) ≡ some user
    → find_where (verification_of user_id) w.merchant_verifications ≡ some application
    → Verifies application t merchant
    → (place_and_finish provider application t user merchant w).0 ≡ ok answer
    → Completes user_id application user t answer
        (place_and_finish provider application t user merchant w).1
unfolding place_and_finish
place_and_finish-Completes provider user_id application user t merchant answer w pos filed own
      stored found verified h =
    elim (Outcome-cases (place_on_map provider merchant w).0) [
      | inr (failure, e) ↦ ground arith
      | inl (put, e) ↦
          let w1 = (place_on_map provider merchant w).1 in
          let places = place_on_map-Places provider merchant put w e in
          elim (Outcome-cases (Merchants.save put w1).0) [
            | inr (failure, e') ↦ ground arith
            | inl (saved, e') ↦
                let w2 = (Merchants.save put w1).1 in
                let stores = save-Stores put saved t w1 (ground (arith, places, verified)) e' in
                let run : place_and_finish provider application t user merchant w
                    ≡ finish_approval application t user saved w2 =
                  ground arith in
                let done =
                  finish_approval-Finishes user_id application t user saved answer w2 pos filed own
                    (ground (arith, stores.2, places, stored))
                    (ground (arith, stores.3, places, found)) (ground (arith, run, h)) in
                rw run (record {
                  verifies = ground (arith, done.0, stores.1, places, verified);
                  row = stores.0.0;
                  is_stored = ground (arith, done.0, done.1.same_merchants, stores.0.1);
                  is_answer = ground (arith, done.0, stores.0.2);
                  before_end = w2;
                  finishes = rw done.0 done.1;
                })
          ]
    ]

-- What an approval shows of the account and of its application, and what it leaves.
pub record Approves (user_id : ℕ) (answer : ApprovedMerchant) (w w' : World) : Type 0 where
  pub application : MerchantVerification
  pub user : UserEntity
  pub is_filed : find_where (verification_of user_id) w.merchant_verifications ≡ some application
  pub was_pending : is_pending application.status ≡ true
  pub is_account : entity_found (find_where (with_id user_id) w.users) ≡ some user
  pub may_become : (user.role ≡ customer) ⊎ (user.role ≡ seller)
  pub was_touchable :
      is_untouched (merchant_found (find_where (merchant_of user_id) w.merchants)) ≡ false
  pub verifies : Verifies application w.app_now answer.0
  pub row : MerchantRow
  pub is_stored : find_where (has_id answer.0.id) w'.merchants ≡ some row
  pub is_answer : row.merchant ≡ answer.0
  pub before_end : World
  pub finishes : Finishes user_id application w.app_now user answer.0 answer.1 before_end w'

may_become_seller :
    (role : UserRole) (w : World)
    → (require_may_become_seller role w).0 ≡ ok tt
    → ((role ≡ customer) ⊎ (role ≡ seller)) × ((require_may_become_seller role w).1 ≡ w)
unfolding require_may_become_seller
may_become_seller customer w h = (inl refl, refl)
may_become_seller seller w h = (inr refl, refl)
may_become_seller courier w h = ground arith
may_become_seller admin w h = ground arith

pending_application_of-ok :
    (user_id : ℕ) (application : MerchantVerification) (w : World)
    → (pending_application_of user_id w).0 ≡ ok application
    → (find_where (verification_of user_id) w.merchant_verifications ≡ some application)
      × (is_pending application.status ≡ true)
      × ((pending_application_of user_id w).1 ≡ w)
unfolding pending_application_of find_application find_by_user_id
pending_application_of-ok user_id application w h = ground arith

approve_checked-Completes :
    (provider : GeocodingProvider) (user_id : ℕ) (application : MerchantVerification)
    (user : UserEntity) (answer : ApprovedMerchant) (w : World)
    → 0 < user.id
    → 0 < application.id
    → application.user_id ≡ user_id
    → entity_found (find_where (with_id user.id) w.users) ≡ some user
    → find_where (verification_of user_id) w.merchant_verifications ≡ some application
    → (approve_checked provider application user_id user w).0 ≡ ok answer
    → (is_untouched (merchant_found (find_where (merchant_of user_id) w.merchants)) ≡ false)
      × Completes user_id application user w.app_now answer
          (approve_checked provider application user_id user w).1
unfolding approve_checked Merchants.find_by_user_id
approve_checked-Completes provider user_id application user answer w pos filed own stored found h =
    let existing = merchant_found (find_where (merchant_of user_id) w.merchants) in
    let t = w.app_now in
    elim (Bool-cases (is_untouched existing)) [
      | inl e ↦ ground arith
      | inr e ↦ elim (Outcome-cases (merchant_to_save application user_id t existing w).0) [
        | inr (failure, e') ↦ ground arith
        | inl (merchant, e') ↦
            let made = merchant_to_save-ok application user_id t existing merchant w e' in
            let run : approve_checked provider application user_id user w
                ≡ place_and_finish provider application t user merchant w =
              ground (arith, made.1) in
            (
              e,
              rw run (
                  place_and_finish-Completes provider user_id application user t merchant answer w
                    pos filed own stored found made.0 (ground (arith, run, h))),
            )
      ]
    ]

-- An approval of a seller that succeeds is of an account with a pending application, that is a
-- customer or a seller and whose merchant, if it has one, is neither active nor suspended. It leaves
-- a stored merchant that is verified at the application's address, the account a seller, the
-- application verified at the time of the approval, and the merchant's alias naming the principal
-- that it answers. The ids of the account and of its application are not 0.
pub approve_verification-Approves :
    (provider : GeocodingProvider) (user_id : ℕ) (answer : ApprovedMerchant) (w : World)
    → 0 < user_id
    → ((v : MerchantVerification)
        → find_where (verification_of user_id) w.merchant_verifications ≡ some v
        → 0 < v.id)
    → (approve_verification provider user_id w).0 ≡ ok answer
    → Approves user_id answer w (approve_verification provider user_id w).1
unfolding approve_verification Users.find_by_id
approve_verification-Approves provider user_id answer w pos ids h =
    elim (Outcome-cases (pending_application_of user_id w).0) [
      | inr (failure, e) ↦ ground arith
      | inl (application, e) ↦
          let filed = pending_application_of-ok user_id application w e in
          elim (Option-cases (entity_found (find_where (with_id user_id) w.users))) [
            | inl n ↦ ground (arith, filed.2)
            | inr (user, u) ↦ elim (Outcome-cases (require_may_become_seller user.role w).0) [
              | inr (failure, e') ↦ ground (arith, filed.2)
              | inl (done, e') ↦
                  let may = may_become_seller user.role w e' in
                  let run : approve_verification provider user_id w
                      ≡ approve_checked provider application user_id user w =
                    ground (arith, filed.2, may.1) in
                  let same = (any-found user_id user w.users u).0 in
                  let own : application.user_id ≡ user_id = (==_iff application.user_id user_id).0 (
                    find_where-any (verification_of user_id) w.merchant_verifications application
                      filed.0) in
                  let stored : entity_found (find_where (with_id user.id) w.users) ≡ some user =
                    subst (λ (k : ℕ). entity_found (find_where (with_id k) w.users) ≡ some user)
                      (sym same) u in
                  let ended =
                    approve_checked-Completes provider user_id application user answer w
                      (omega (arith, same, pos)) (ids application filed.0) own stored filed.0
                      (ground (arith, run, h)) in
                  rw run (record {
                    application = application;
                    user = user;
                    is_filed = filed.0;
                    was_pending = filed.1;
                    is_account = u;
                    may_become = may.0;
                    was_touchable = ended.0;
                    verifies = ended.1.verifies;
                    row = ended.1.row;
                    is_stored = ended.1.is_stored;
                    is_answer = ended.1.is_answer;
                    before_end = ended.1.before_end;
                    finishes = ended.1.finishes;
                  })
            ]
          ]
    ]
