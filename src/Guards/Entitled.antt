-- ===== src/Guards/Entitled.antt =====
-- What the guards of a route ask of a request that they let through.
use kinetix_identity_service.Prelude.{
  Bool, true, false, Option, none, some, List, [], ◌∷◌, ◌≡◌, refl, arith, ◌⊎◌, inl, inr, Bool-cases,
  Option-cases, holds, ap, subst, sym, ◌∙◌,
}
use kinetix_identity_service.Prelude.Tables.{All}
use kinetix_identity_service.Prelude.Text.{Text, text_eq}
use kinetix_identity_service.Domain.{UserRole}
use kinetix_identity_service.Guards.{
  RouteGuard, roles_guard, self_or_staff_guard, ExecutionContext, is_required, role_of, is_staff,
  own_id, requested_id, check_role, check_caller, check_self, run_guard, run_guards, authenticate,
  jwt_auth_guard, pass_guards,
}
use kinetix_identity_service.Guards.Bearer.{bearer_token}
use kinetix_identity_service.Jwt.{Claims}
use kinetix_identity_service.Tokens.{TokenService, is_enrolment}
use kinetix_identity_service.Tokens.Issue.{verify_session}
use kinetix_identity_service.World.{World, Outcome-cases, ok}

-- A caller has one of the roles, or none is required.
pub HasRole : List UserRole → Claims → Type 0
HasRole required claims =
    (required ≡ []) ⊎ (holds (is_required required) (role_of (some claims)) ≡ true)

-- A caller is staff where staff may act for others, or asks for what is the caller's own.
pub IsEntitled : ExecutionContext → Claims → Text → Type 0
IsEntitled context claims param =
    ((is_staff claims ≡ true) × (context.route.owner_only ≡ false))
    ⊎ (text_eq (requested_id param context.params) (own_id claims) ≡ true)

-- The parameter that a route names is of no account's, or the caller is entitled to it.
pub Owns : ExecutionContext → Claims → Option Text → Type 0
Owns context claims none = Unit
Owns context claims (some []) = Unit
Owns context claims (some (c ∷ param)) = IsEntitled context claims (c ∷ param)

-- What a guard that passes has seen.
pub Passed : ExecutionContext → Claims → RouteGuard → Type 0
Passed context claims roles_guard = HasRole context.route.required_roles claims
Passed context claims self_or_staff_guard = Owns context claims context.route.self_param

check_role-HasRole :
    (required : List UserRole) (claims : Claims) (w : World)
    → (check_role required (some claims) w).0 ≡ ok tt
    → HasRole required claims
unfolding check_role HasRole
check_role-HasRole [] claims w h = inl refl
check_role-HasRole (role ∷ required) claims w h = inr (ground arith)

check_caller-ok :
    (owner_only : Bool) (requested : Text) (claims : Claims) (w : World)
    → (check_caller owner_only requested (some claims) w).0 ≡ ok tt
    → ((is_staff claims ≡ true) × (owner_only ≡ false)) ⊎ (text_eq requested (own_id claims) ≡ true)
unfolding check_caller
check_caller-ok owner_only requested claims w h =
    elim (Bool-cases (text_eq requested (own_id claims))) [
      | inl e ↦ inr e
      | inr e ↦ inl (ground (arith, e))
    ]

check_self-Owns :
    (context : ExecutionContext) (claims : Claims) (self : Option Text) (w : World)
    → (check_self self context.route.owner_only context.params (some claims) w).0 ≡ ok tt
    → Owns context claims self
unfolding check_self Owns IsEntitled
check_self-Owns context claims none w h = tt
check_self-Owns context claims (some []) w h = tt
check_self-Owns context claims (some (c ∷ param)) w h =
    check_caller-ok context.route.owner_only (requested_id (c ∷ param) context.params) claims w h

run_guard-Passed :
    (context : ExecutionContext) (claims : Claims) (guard : RouteGuard) (w : World)
    → context.is_http ≡ true
    → (run_guard context (some claims) guard w).0 ≡ ok tt
    → Passed context claims guard
unfolding run_guard Passed
run_guard-Passed context claims roles_guard w http h =
    check_role-HasRole context.route.required_roles claims w (ground (arith, http))
run_guard-Passed context claims self_or_staff_guard w http h =
    check_self-Owns context claims context.route.self_param w (ground (arith, http))

run_guards-Passed :
    (context : ExecutionContext) (claims : Claims) (guards : List RouteGuard) (w : World)
    → context.is_http ≡ true
    → (run_guards context (some claims) guards w).0 ≡ ok tt
    → All (Passed context claims) guards
unfolding run_guards
run_guards-Passed context claims [] w http h = tt
run_guards-Passed context claims (guard ∷ guards) w http h =
    elim (Outcome-cases (run_guard context (some claims) guard w).0) [
      | inr (failure, e) ↦ ground (arith, e)
      | inl (done, e) ↦ (
        run_guard-Passed context claims guard w http (ground (arith, e)),
        run_guards-Passed context claims guards (run_guard context (some claims) guard w).1 http
            (ground (arith, e)),
      )
    ]

-- What a request that reaches a handler shows: its header holds a token that verifies as a signed-in
-- caller's, who has not the session of an enrolment unless the route accepts one, and every guard of
-- the route has passed.
pub record Entitled {Token : Type 0} (service : TokenService Token) (token_of : Text → Token)
    (context : ExecutionContext) (user : Option Claims) (w : World) : Type 0 where
  pub token : Text
  pub is_token : bearer_token context.authorization ≡ some token
  pub claims : Claims
  pub is_user : user ≡ some claims
  pub is_verified : (verify_session service (token_of token) w).0 ≡ ok claims
  pub may_enrol : (is_enrolment claims.token_use ≡ false) ⊎ (context.route.accepts_enrolment ≡ true)
  pub has_passed : All (Passed context claims) context.route.use_guards

module _ {Token : Type 0} (service : TokenService Token) (token_of : Text → Token) where
  authenticate-ok :
      (context : ExecutionContext) (w : World) (claims : Claims)
      → (authenticate service token_of context w).0 ≡ ok claims
      → (token : Text) × (bearer_token context.authorization ≡ some token)
        × ((verify_session service (token_of token) w).0 ≡ ok claims)
        × ((is_enrolment claims.token_use ≡ false) ⊎ (context.route.accepts_enrolment ≡ true))
  unfolding authenticate
  authenticate-ok context w claims h = elim (Option-cases (bearer_token context.authorization)) [
    | inl e ↦ ground (arith, e)
    | inr (token, e) ↦ elim (Outcome-cases (verify_session service (token_of token) w).0) [
      | inr (failure, v) ↦ ground (arith, e, v)
      | inl (read, v) ↦ elim (Bool-cases context.route.accepts_enrolment) [
        | inl a ↦ (token, e, ground (arith, e, v, a), inr a)
        | inr a ↦ elim (Bool-cases (is_enrolment read.token_use)) [
          | inl i ↦ ground (arith, e, v, a, i)
          | inr i ↦
              let same : read ≡ claims = ground (arith, e, v, a, i) in
              (token, e, v ∙ ap ok same, inl (subst (λ c. is_enrolment c.token_use ≡ false) same i))
        ]
      ]
    ]
  ]

  jwt_auth_guard-ok :
      (context : ExecutionContext) (w : World) (user : Option Claims)
      → context.is_http ≡ true
      → context.route.is_public ≡ false
      → (jwt_auth_guard service token_of context w).0 ≡ ok user
      → (claims : Claims) × (user ≡ some claims)
        × ((authenticate service token_of context w).0 ≡ ok claims)
  unfolding jwt_auth_guard
  jwt_auth_guard-ok context w user http closed h =
      elim (Outcome-cases (authenticate service token_of context w).0) [
        | inr (failure, e) ↦ ground (arith, http, closed, e)
        | inl (claims, e) ↦ (claims, ground (arith, http, closed, e), e)
      ]

  -- A request over HTTP reaches the handler of a route that is not public only as a caller whose
  -- bearer token `verify_session` accepts, and with the session of an enrolment only where the route
  -- accepts one. Where the route uses the roles guard, the caller has one of the roles that it
  -- requires, if it requires any. Where the route uses the self-or-staff guard and names a parameter,
  -- the parameter is the caller's own id, or the caller is staff and the route is not its owner's only.
  pub pass_guards-Entitled :
      (context : ExecutionContext) (w : World) (user : Option Claims)
      → context.is_http ≡ true
      → context.route.is_public ≡ false
      → (pass_guards service token_of context w).0 ≡ ok user
      → Entitled service token_of context user w
  unfolding pass_guards
  pass_guards-Entitled context w user http closed h =
      let auth = jwt_auth_guard service token_of context w in
      elim (Outcome-cases auth.0) [
        | inr (failure, e) ↦ ground (arith, e)
        | inl (given, e) ↦
            let passed = run_guards context given context.route.use_guards auth.1 in
            elim (Outcome-cases passed.0) [
              | inr (failure, p) ↦ ground (arith, e, p)
              | inl (done, p) ↦
                  let same : given ≡ user = ground (arith, e, p) in
                  let (claims, is_user, run) =
                    jwt_auth_guard-ok context w user http closed (e ∙ ap ok same) in
                  let (token, is_token, verified, enrol) = authenticate-ok context w claims run in
                  let ran : (run_guards context (some claims) context.route.use_guards auth.1).0
                      ≡ ok tt =
                    rw (sym (same ∙ is_user)) (ground (arith, p)) in
                  record {
                    token = token;
                    is_token = is_token;
                    claims = claims;
                    is_user = is_user;
                    is_verified = verified;
                    may_enrol = enrol;
                    has_passed =
                        run_guards-Passed context claims context.route.use_guards auth.1 http ran;
                  }
            ]
      ]
