-- ===== src/World/Rows.antt =====
-- The rows of the tables: src/infrastructure/persistence/entities.
use kinetix_identity_service.Prelude.{ℕ, String, Bool, Option, List}
use kinetix_identity_service.Prelude.Text.{Text}
use kinetix_identity_service.Domain.{UserRole, PrincipalKind}
use kinetix_identity_service.Domain.SignInPolicy.{AttemptState}

-- `UserTypeormEntity`
pub record UserRow : Type 0 where
  pub id : ℕ
  pub email : Text
  pub password_hash : String
  pub role : UserRole
  pub is_two_factor_enabled : Bool
  pub two_factor_secret : Option Text
  pub two_factor_last_step : Option ℕ

-- `RefreshTokenTypeormEntity`, keyed by its unique `jti`. A UUID is the number that it writes.
pub record RefreshToken : Type 0 where
  pub jti : ℕ
  pub family_id : ℕ
  pub principal_id : ℕ
  pub user_id : ℕ
  pub client : Option String
  pub expires_at : ℕ
  pub used_at : Option ℕ
  pub revoked_at : Option ℕ
  pub revoked_reason : Option String
  pub replaced_by_jti : Option ℕ

-- `RevokedAccessTokenTypeormEntity`
pub record RevokedAccessToken : Type 0 where
  pub jti : ℕ
  pub expires_at : ℕ
  pub reason : String

-- `AccountSignInAttemptTypeormEntity`
pub record AccountAttempts : Type 0 where
  pub account_key : String
  pub state : AttemptState

-- `TwoFactorChallengeAttemptTypeormEntity`
pub record ChallengeAttempts : Type 0 where
  pub jti : ℕ
  pub attempts : ℕ
  pub expires_at : ℕ

-- `PrincipalTypeormEntity`
pub record Principal : Type 0 where
  pub id : ℕ
  pub kind : PrincipalKind
  pub display_name : Text

-- `PrincipalAliasTypeormEntity`. The local id is the number that the column spells in decimal.
pub record PrincipalAlias : Type 0 where
  pub principal_id : ℕ
  pub service : String
  pub local_id : ℕ

pub data PasskeyDeviceType : Type 0 where
  single_device multi_device : PasskeyDeviceType

-- `PasskeyTypeormEntity`, less its transports
pub record Passkey : Type 0 where
  pub id : ℕ
  pub user_id : ℕ
  pub credential_id : String
  pub public_key : List ℕ
  pub sign_count : ℕ
  pub device_type : PasskeyDeviceType
  pub backed_up : Bool
  pub name : Text
  pub created_at : ℕ
  pub last_used_at : Option ℕ

-- `PasskeyChallengeTypeormEntity`: a row of purpose `sign_in` is one with an `mfa_jti`, by the
-- table's check.
pub record PasskeyChallenge : Type 0 where
  pub id : ℕ
  pub user_id : ℕ
  pub challenge : String
  pub mfa_jti : Option ℕ
  pub expires_at : ℕ
  pub used_at : Option ℕ

pub data CourierApplicationStatus : Type 0 where
  pending approved rejected : CourierApplicationStatus

-- `CourierApplicationTypeormEntity`
pub record CourierApplication : Type 0 where
  pub id : ℕ
  pub user_id : ℕ
  pub principal_id : ℕ
  pub driver_id : Option ℕ
  pub status : CourierApplicationStatus
  pub filed_at : ℕ
  pub approved_at : Option ℕ
  pub rejected_at : Option ℕ

pub data SellerApplicationStatus : Type 0 where
  seller_pending seller_verified seller_rejected : SellerApplicationStatus

-- `MerchantVerificationTypeormEntity`
pub record MerchantVerification : Type 0 where
  pub id : ℕ
  pub user_id : ℕ
  pub store_name : Text
  pub business_registration_number : String
  pub tax_id : String
  pub street_address : Text
  pub city : Text
  pub postal_code : Text
  pub status : SellerApplicationStatus
  pub verified_at : Option ℕ
  pub rejected_at : Option ℕ

pub data MerchantStatus : Type 0 where
  merchant_pending merchant_verified merchant_active merchant_suspended : MerchantStatus

-- `MerchantTypeormEntity`. A coordinate is the text that writes its number.
pub record Merchant : Type 0 where
  pub id : ℕ
  pub user_id : ℕ
  pub store_name : Text
  pub slug : Text
  pub description : Option String
  pub business_registration_number : String
  pub tax_id : String
  pub status : MerchantStatus
  pub verified_at : Option ℕ
  pub street_address : Text
  pub city : Text
  pub postal_code : Text
  pub latitude : Option String
  pub longitude : Option String
  pub geocoded_at : Option ℕ

-- A merchant's row, with the column that `UpdateDateColumn` keeps.
pub record MerchantRow : Type 0 where
  pub merchant : Merchant
  pub updated_at : ℕ

-- `ProfileTypeormEntity`
pub record Profile : Type 0 where
  pub id : ℕ
  pub user_id : ℕ
  pub full_name : String
  pub phone_number : String
  pub street_address : Text
  pub city : Text
  pub postal_code : Text
  pub avatar_url : Option String
  pub latitude : Option String
  pub longitude : Option String
  pub geocoded_at : Option ℕ

pub data GeocodePrecision : Type 0 where
  unspecified rooftop street suburb city_wide : GeocodePrecision

-- `ProviderPoint`
pub record ProviderPoint : Type 0 where
  pub latitude : String
  pub longitude : String
  pub precision : GeocodePrecision
  pub display_name : Option String

-- `GeocodedAddressTypeormEntity`, less its id
pub record GeocodedAddress : Type 0 where
  pub query : Text
  pub provider : String
  pub point : ProviderPoint
