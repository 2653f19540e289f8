-- ===== src/Guards.antt =====
-- src/adapters/guards: the guards of a route. JwtAuthGuard guards every route; a route names the others
-- that it uses, and the framework runs them in that order until one refuses. The guard that admits the
-- client of a request is in ClientGate.antt, and the framework's own limits of requests are left out.
pub mod Bearer
pub mod Entitled
use kinetix_identity_service.Prelude.{
  ℕ, Bool, true, false, ◌&&◌, ◌||◌, not, Option, none, some, List, [], ◌∷◌, holds, if◌then◌else◌,
}
use kinetix_identity_service.Prelude.Tables.{find_where, any_where}
use kinetix_identity_service.Prelude.Text.{Text, text_eq, decimal}
use kinetix_identity_service.Domain.{UserRole, customer, seller, courier, admin, is_admin}
use kinetix_identity_service.Guards.Bearer.{AuthorizationHeader, bearer_token}
use kinetix_identity_service.Jwt.{Claims}
use kinetix_identity_service.Tokens.{TokenService, is_access, is_enrolment}
use kinetix_identity_service.Tokens.Issue.{verify_session}
use kinetix_identity_service.World.{
  Request, Done, unauthorized, forbidden, ◌>>=◌, ◌>>◌, pure, throw, throw_if, or_throw,
}

pub data RouteGuard : Type 0 where
  roles_guard self_or_staff_guard : RouteGuard

-- What the decorators say of a route's handler and of its class.
pub record Route : Type 0 where
  pub is_public : Bool
  pub accepts_enrolment : Bool
  pub required_roles : List UserRole
  pub self_param : Option Text
  pub owner_only : Bool
  pub use_guards : List RouteGuard

-- A request of a route, over HTTP or over the mesh.
pub record ExecutionContext : Type 0 where
  pub is_http : Bool
  pub route : Route
  pub authorization : AuthorizationHeader
  pub params : List (Text × Text)

abbrev pub is_role : UserRole → UserRole → Bool
is_role customer customer = true
is_role seller seller = true
is_role courier courier = true
is_role admin admin = true
is_role _ _ = false

-- `claims?.token_use === "access" ? claims.role : undefined`
abbrev pub role_of : Option Claims → Option UserRole
role_of none = none
role_of (some claims) = if is_access claims.token_use then claims.role else none

abbrev pub is_required : List UserRole → UserRole → Bool
is_required required role = any_where (is_role role) required

-- `RolesGuard`
unfoldable pub check_role : List UserRole → Option Claims → Request Done
check_role [] user = pure tt
check_role (role ∷ required) user =
    throw_if (not (holds (is_required (role ∷ required)) (role_of user)))
      (forbidden "This account does not have access to this resource")

-- `request.params?.[param] ?? ""`
abbrev pub param_or_empty : Option (Text × Text) → Text
param_or_empty none = []
param_or_empty (some entry) = entry.1

abbrev pub is_named : Text → Text × Text → Bool
is_named param entry = text_eq entry.0 param

abbrev pub requested_id : Text → List (Text × Text) → Text
requested_id param params = param_or_empty (find_where (is_named param) params)

-- `claims.token_use === "access" && claims.role === "admin"`
abbrev pub is_staff : Claims → Bool
is_staff claims = is_access claims.token_use && holds is_admin claims.role

-- `String(claims.uid)`: an account's id is a 32-bit integer, which has at most ten digits.
abbrev pub own_id : Claims → Text
own_id claims = decimal 10 claims.uid

-- `SelfOrStaffGuard`
unfoldable pub check_caller : Bool → Text → Option Claims → Request Done
check_caller owner_only requested none = throw (forbidden "This route requires a verified caller")
check_caller owner_only requested (some claims) =
    throw_if (not ((is_staff claims && not owner_only) || text_eq requested (own_id claims)))
      (forbidden "This account may only act on its own resources")

unfoldable pub check_self : Option Text → Bool → List (Text × Text) → Option Claims → Request Done
check_self none owner_only params user = pure tt
check_self (some []) owner_only params user = pure tt
check_self (some (c ∷ param)) owner_only params user =
    check_caller owner_only (requested_id (c ∷ param) params) user

unfoldable pub run_guard : ExecutionContext → Option Claims → RouteGuard → Request Done
run_guard context user roles_guard =
    if context.is_http then check_role context.route.required_roles user else pure tt
run_guard context user self_or_staff_guard =
    if context.is_http
    then check_self context.route.self_param context.route.owner_only context.params user
    else pure tt

unfoldable pub run_guards : ExecutionContext → Option Claims → List RouteGuard → Request Done
run_guards context user [] = pure tt
run_guards context user (guard ∷ guards) =
    run_guard context user guard >> run_guards context user guards

module _ {Token : Type 0} (service : TokenService Token) (token_of : Text → Token) where
  -- `JwtAuthGuard`, on a route that is not public: the claims are those it puts on the request.
  unfoldable pub authenticate : ExecutionContext → Request Claims
  authenticate context = do
    token ←
        or_throw (bearer_token context.authorization) (unauthorized "A Bearer token is required")
    claims ← verify_session service (token_of token)
    throw_if (is_enrolment claims.token_use && not context.route.accepts_enrolment)
        (forbidden "TWO_FACTOR_ENROLMENT_ONLY")
    pure claims

  unfoldable pub jwt_auth_guard : ExecutionContext → Request (Option Claims)
  jwt_auth_guard context =
      if not context.is_http || context.route.is_public
      then pure none
      else do claims ← authenticate context; pure (some claims)

  -- The guards of a route: what they come to is the `user` of the request that reaches the handler.
  unfoldable pub pass_guards : ExecutionContext → Request (Option Claims)
  pass_guards context = do
    user ← jwt_auth_guard context
    run_guards context user context.route.use_guards
    pure user
