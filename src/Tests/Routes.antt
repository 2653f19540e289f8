-- ===== src/Tests/Routes.antt =====
-- Examples of the theorems on the guards of a route and on the peers' allow list.
use kinetix_identity_service.Prelude.{true, false, none, some, [], ◌∷◌, ◌≡◌, refl, if◌then◌else◌}
use kinetix_identity_service.Prelude.Text.{
  Text, codes, text_eq, to_lower_case, lower, decimal, split_on, trim, drop_spaces, is_space,
}
use kinetix_identity_service.Domain.{admin}
use kinetix_identity_service.Guards.{
  Route, roles_guard, self_or_staff_guard, ExecutionContext, check_role, check_caller, check_self,
  run_guard, run_guards, authenticate, jwt_auth_guard, pass_guards,
}
use kinetix_identity_service.Guards.Bearer.{one_header, is_bearer, token_part, bearer_token}
use kinetix_identity_service.Guards.Entitled.{Entitled, pass_guards-Entitled}
use kinetix_identity_service.Jwt.{Claims, access, verification_key}
use kinetix_identity_service.Tokens.{refuse_revoked}
use kinetix_identity_service.Tokens.Issue.{verify_signature, payload_claims, verify_session}
use kinetix_identity_service.Tests.{Signed, service, world}
use kinetix_identity_service.PeerAllowList.{
  PeerAllowList, entry_of, entry_named, cut_at, drop_slashes, get_scopes, add_entry, add_entries,
  filled, parse_peer_allow_list, permits,
}
use kinetix_identity_service.PeerAllowList.Grants.{grants_it, permits_any}
use kinetix_identity_service.Prelude.Tables.{any_where}
use kinetix_identity_service.World.{ok}

abbrev staff_claims : Claims
staff_claims = record {
  sub = 3;
  jti = 22;
  iss = "identity";
  aud = "kinetix";
  iat = 80;
  exp = 980;
  token_use = access;
  fam = some 5;
  azp = none;
  uid = 7;
  email = none;
  role = some admin;
}

-- One text is the token of a staff session; every other has another signer.
abbrev token_of : Text → Signed
token_of text = if text_eq text (codes "t1") then ("k1", staff_claims) else ("k9", staff_claims)

-- A route of staff on another account's data.
abbrev staff_route : Route
staff_route = record {
  is_public = false;
  accepts_enrolment = false;
  required_roles = admin ∷ [];
  self_param = some (codes "id");
  owner_only = false;
  use_guards = roles_guard ∷ self_or_staff_guard ∷ [];
}

abbrev request : ExecutionContext
request = record {
  is_http = true;
  route = staff_route;
  authorization = one_header (codes "Bearer t1");
  params = (codes "id", codes "12") ∷ [];
}

staff_passes : (pass_guards service token_of request world).0 ≡ ok (some staff_claims)
unfolding pass_guards jwt_auth_guard authenticate run_guards run_guard check_self check_caller
    check_role bearer_token token_part is_bearer split_on text_eq to_lower_case lower decimal
    verify_session verify_signature verification_key payload_claims refuse_revoked
staff_passes = refl

pass_guards-Entitled_example : Entitled service token_of request (some staff_claims) world
pass_guards-Entitled_example =
    pass_guards-Entitled service token_of request world (some staff_claims) refl refl staff_passes

-- The orders service may call one method, and the gateway everything.
abbrev callers : Text
callers = codes "orders@geo.Places/Find, gateway"

abbrev grants : PeerAllowList
grants = (codes "gateway", none) ∷ (codes "orders", some (codes "geo.Places/Find" ∷ [])) ∷ []

callers_parsed : parse_peer_allow_list callers ≡ some grants
unfolding parse_peer_allow_list add_entries add_entry entry_of entry_named cut_at drop_slashes
    filled split_on trim drop_spaces is_space get_scopes text_eq
callers_parsed = refl

permits_any_example :
    permits grants (codes "orders") (codes "/geo.Places/Find")
    ≡ any_where
        (λ entry.
          grants_it (codes "orders") (drop_slashes (codes "/geo.Places/Find")) (entry_of entry))
        (filled (split_on b',' callers))
permits_any_example =
    permits_any callers (codes "orders") (codes "/geo.Places/Find") grants callers_parsed
