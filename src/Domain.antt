-- ===== src/Domain.antt =====
-- The domain types and rules: src/domain/entities/user.entity.ts, src/domain/two_factor_required.ts,
-- src/domain/principal_kind.ts, src/domain/email_address.ts and src/types/principal.type.ts.
pub mod SessionClient
pub mod SignInPolicy
use kinetix_identity_service.Prelude.{ℕ, String, Bool, true, false, Option}
use kinetix_identity_service.Prelude.Text.{Text, trim, to_lower_case}

pub data UserRole : Type 0 where
  customer seller courier admin : UserRole

abbrev pub is_admin : UserRole → Bool
is_admin admin = true
is_admin _ = false

-- `UserEntity`, less the two dates that no rule reads.
pub record UserEntity : Type 0 where
  pub id : ℕ
  pub email : Text
  pub password_hash : String
  pub role : UserRole
  pub is_two_factor_enabled : Bool
  pub two_factor_secret : Option Text

unfoldable pub requires_two_factor : UserRole → Bool
requires_two_factor role = is_admin role

pub data PrincipalKind : Type 0 where
  kind_customer kind_merchant kind_driver kind_staff kind_service : PrincipalKind

unfoldable pub principal_kind_for_role : UserRole → PrincipalKind
principal_kind_for_role customer = kind_customer
principal_kind_for_role seller = kind_merchant
principal_kind_for_role courier = kind_driver
principal_kind_for_role admin = kind_staff

unfoldable pub normalised_email : Text → Text
normalised_email email = to_lower_case (trim email)
