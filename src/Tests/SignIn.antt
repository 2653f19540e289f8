-- ===== src/Tests/SignIn.antt =====
-- Examples of the theorems on signing in and on the second factor.
use kinetix_identity_service.Prelude.{ℕ, ◌≡◌, refl, arith, true, false, none, some, [], ◌∷◌}
use kinetix_identity_service.Prelude.Tables.{find_where}
use kinetix_identity_service.Prelude.Text.{codes}
use kinetix_identity_service.Domain.{UserEntity, admin, requires_two_factor, normalised_email}
use kinetix_identity_service.Domain.SessionClient.{unnamed, session_client_decision}
use kinetix_identity_service.Jwt.{Claims, access, refresh, mfa_challenge}
use kinetix_identity_service.World.{World, Outcome, ok, err, unauthorized}
use kinetix_identity_service.Totp.{accepted_step}
use kinetix_identity_service.Tokens.Issue.{peek_refresh}
use kinetix_identity_service.Tokens.Replay.{IsEnded}
use kinetix_identity_service.Users.{entity_of, entity_found, with_email}
use kinetix_identity_service.Auth.{AuthTokens, usable_secret}
use kinetix_identity_service.Auth.SignIn.{
  SignInResult, challenge, OpenChallenge, login, verify_two_factor, secret_in_use,
}
use kinetix_identity_service.Auth.Password.{refusal_line, verify_password-err}
use kinetix_identity_service.Auth.{bad_credentials}
use kinetix_identity_service.Auth.Login.{LetsIn, login-LetsIn}
use kinetix_identity_service.Auth.Challenge.{Opens, Taken}
use kinetix_identity_service.Auth.Answer.{verify_two_factor-Taken, verify_two_factor_twice}
use kinetix_identity_service.Auth.Guard.{Renews, refresh-Renews, refresh-IsEnded}
use kinetix_identity_service.Auth.Proved.{Proved}
use kinetix_identity_service.Auth.Proved.Enabling.{confirms}
use kinetix_identity_service.Auth.Switch.{
  Leaves, enable_two_factor-Leaves, disable_two_factor-Leaves,
}
use kinetix_identity_service.Auth.TwoFactor.{enable_two_factor, disable_two_factor}
use kinetix_identity_service.Prelude.Text.{
  text_eq, is_space, drop_spaces, trim, lower, to_lower_case,
}
use kinetix_identity_service.Domain.{principal_kind_for_role}
use kinetix_identity_service.Domain.SessionClient.{client_name_of}
use kinetix_identity_service.Domain.SignInPolicy.{
  delay_seconds_after, admit_first, admit_next, admit_attempt,
}
use kinetix_identity_service.World.{
  transaction, random_uuid, random_bytes, catch_outcome, try_catch,
}
use kinetix_identity_service.Attempts.{
  insert_account, lock_account, record_account_attempt, record_if_admitted, claim_account_attempt,
  clear_account_attempts, claim_challenge, claim_admitted, claim_challenge_attempt,
}
use kinetix_identity_service.SignInAttempts.{
  account_key_of, admitted_attempts, admit, answer_attempts, admit_challenge_attempt, failed,
  succeeded,
}
use kinetix_identity_service.Jwt.{verification_key}
use kinetix_identity_service.Tokens.{
  revoke_where, revoke_family, revoke_all_families_for_principal, revoke_other_sessions,
  record_revoked_jti, revoke_access_jti, end_enrolment, consume_mfa_challenge,
  refuse_spent_mfa_challenge,
}
use kinetix_identity_service.Tokens.Issue.{
  insert_refresh, access_claims, refresh_claims, enrolment_claims, challenge_claims, sign_claims,
  refresh_row, mint_pair, issue_pair, issue_enrolment, issue_mfa_challenge, payload_claims,
  verify_signature, peek_mfa_challenge,
}
use kinetix_identity_service.Tokens.Rotation.{
  mark_used, renew, decide_rotation, rotate_stored, rotate_found, rotate_jti, rotation_result,
  rotate,
}
use kinetix_identity_service.Totp.{
  letter_index, upper, drop_equals, cleaned, decode_from, base32_decode, big_endian, truncated,
  six_digits, is_six_digits, code_at, try_step, matched_step,
}
use kinetix_identity_service.Users.{
  find_by_email, find_by_id, row_of, saved_over, insert_user, save_checked, save,
  accept_two_factor_step,
}
use kinetix_identity_service.Principals.{
  find_alias, insert_principal, insert_alias, mint_principal, winner_or_rethrow, resolve_existing,
  resolve_or_mint_for_user, sync_kind,
}
use kinetix_identity_service.Auth.{
  checked_client, own_account, asked_password, password_to_confirm, check_password, check_found,
  verify_password, confirm_password, step_of, accept_fresh, accept_step, accept_code, signed_in,
  start_session, start_enrolment,
}
use kinetix_identity_service.Auth.SignIn.{
  start_challenge, admitted_by_password, open_challenge, admit_answer, answer_step,
  let_in as admit_further,
}
use kinetix_identity_service.Auth.Renewal.{
  end_owing, rotate_for, refresh_for, refresh as renew_session,
}
use kinetix_identity_service.Auth.TwoFactor.{
  end_on_enable, end_on_disable, check_if_given, proved_to_enable, proved_to_disable,
}
use kinetix_identity_service.Tests.{Signed, service, crypto, ann, subject, world}

abbrev claims_7 : Claims
claims_7 = record {
  sub = 3;
  jti = 21;
  iss = "identity";
  aud = "kinetix";
  iat = 80;
  exp = 980;
  token_use = access;
  fam = some 5;
  azp = none;
  uid = 7;
  email = none;
  role = none;
}

abbrev pub challenge_7 : Signed
challenge_7 = ("k1", record claims_7 { token_use = mfa_challenge; fam = none; jti = 31 })

abbrev refresh_7 : Signed
refresh_7 = ("k1", record claims_7 { token_use = refresh; jti = 11 })

abbrev pub no_tokens : AuthTokens Signed
no_tokens = record {
  access_token = challenge_7;
  refresh_token = challenge_7;
  expires_in = 0;
  user = subject;
  principal_id = 0;
}

-- The answer of a run that succeeds.
abbrev pub answer_of : {A : Type 0} → A → Outcome A → A
answer_of other (ok a) = a
answer_of other (err e) = other

abbrev pub protected_world : World
protected_world = record world { users = record ann { is_two_factor_enabled = true } ∷ [] }

abbrev let_in_7 : SignInResult Signed
let_in_7 =
    answer_of (challenge challenge_7 0 false)
      (login crypto service (codes " Ann@X.io") "secret" (some unnamed) world).0

abbrev verified_7 : AuthTokens Signed
verified_7 =
    answer_of no_tokens
      (verify_two_factor crypto service challenge_7 (codes "000003") (some unnamed)
        protected_world).0

abbrev renewed_7 : AuthTokens Signed
renewed_7 = answer_of no_tokens (renew_session service refresh_7 (some unnamed) world).0

abbrev admin_world : World
admin_world = record world { users = record ann { role = admin } ∷ [] }

-- What the operations answer here.
login_runs :
    (login crypto service (codes " Ann@X.io") "secret" (some unnamed) world).0 ≡ ok let_in_7
unfolding text_eq is_space drop_spaces trim lower to_lower_case principal_kind_for_role
    client_name_of delay_seconds_after admit_first admit_next admit_attempt transaction random_uuid
    random_bytes catch_outcome try_catch insert_account lock_account record_account_attempt
    record_if_admitted claim_account_attempt clear_account_attempts claim_challenge claim_admitted
    claim_challenge_attempt account_key_of admitted_attempts admit answer_attempts
    admit_challenge_attempt failed succeeded verification_key revoke_where revoke_family
    revoke_all_families_for_principal revoke_other_sessions record_revoked_jti revoke_access_jti
    end_enrolment consume_mfa_challenge refuse_spent_mfa_challenge insert_refresh access_claims
    refresh_claims enrolment_claims challenge_claims sign_claims refresh_row mint_pair issue_pair
    issue_enrolment issue_mfa_challenge payload_claims verify_signature peek_mfa_challenge mark_used
    renew decide_rotation rotate_stored rotate_found rotate_jti rotation_result rotate letter_index
    upper drop_equals cleaned decode_from base32_decode big_endian truncated six_digits
    is_six_digits code_at try_step matched_step find_by_email find_by_id row_of saved_over
    insert_user save_checked save accept_two_factor_step find_alias insert_principal insert_alias
    mint_principal winner_or_rethrow resolve_existing resolve_or_mint_for_user sync_kind
    checked_client own_account asked_password password_to_confirm check_password check_found
    verify_password confirm_password step_of accept_fresh accept_step accept_code signed_in
    start_session start_enrolment start_challenge admitted_by_password open_challenge admit_answer
    answer_step admit_further end_owing rotate_for refresh_for renew_session end_on_enable
    end_on_disable check_if_given proved_to_enable proved_to_disable requires_two_factor
    normalised_email session_client_decision accepted_step entity_of peek_refresh login
    verify_two_factor enable_two_factor disable_two_factor
login_runs = refl

verify_runs :
    (verify_two_factor crypto service challenge_7 (codes "000003") (some unnamed) protected_world).0
    ≡ ok verified_7
unfolding text_eq is_space drop_spaces trim lower to_lower_case principal_kind_for_role
    client_name_of delay_seconds_after admit_first admit_next admit_attempt transaction random_uuid
    random_bytes catch_outcome try_catch insert_account lock_account record_account_attempt
    record_if_admitted claim_account_attempt clear_account_attempts claim_challenge claim_admitted
    claim_challenge_attempt account_key_of admitted_attempts admit answer_attempts
    admit_challenge_attempt failed succeeded verification_key revoke_where revoke_family
    revoke_all_families_for_principal revoke_other_sessions record_revoked_jti revoke_access_jti
    end_enrolment consume_mfa_challenge refuse_spent_mfa_challenge insert_refresh access_claims
    refresh_claims enrolment_claims challenge_claims sign_claims refresh_row mint_pair issue_pair
    issue_enrolment issue_mfa_challenge payload_claims verify_signature peek_mfa_challenge mark_used
    renew decide_rotation rotate_stored rotate_found rotate_jti rotation_result rotate letter_index
    upper drop_equals cleaned decode_from base32_decode big_endian truncated six_digits
    is_six_digits code_at try_step matched_step find_by_email find_by_id row_of saved_over
    insert_user save_checked save accept_two_factor_step find_alias insert_principal insert_alias
    mint_principal winner_or_rethrow resolve_existing resolve_or_mint_for_user sync_kind
    checked_client own_account asked_password password_to_confirm check_password check_found
    verify_password confirm_password step_of accept_fresh accept_step accept_code signed_in
    start_session start_enrolment start_challenge admitted_by_password open_challenge admit_answer
    answer_step admit_further end_owing rotate_for refresh_for renew_session end_on_enable
    end_on_disable check_if_given proved_to_enable proved_to_disable requires_two_factor
    normalised_email session_client_decision accepted_step entity_of peek_refresh login
    verify_two_factor enable_two_factor disable_two_factor
verify_runs = refl

renewal_runs : (renew_session service refresh_7 (some unnamed) world).0 ≡ ok renewed_7
unfolding text_eq is_space drop_spaces trim lower to_lower_case principal_kind_for_role
    client_name_of delay_seconds_after admit_first admit_next admit_attempt transaction random_uuid
    random_bytes catch_outcome try_catch insert_account lock_account record_account_attempt
    record_if_admitted claim_account_attempt clear_account_attempts claim_challenge claim_admitted
    claim_challenge_attempt account_key_of admitted_attempts admit answer_attempts
    admit_challenge_attempt failed succeeded verification_key revoke_where revoke_family
    revoke_all_families_for_principal revoke_other_sessions record_revoked_jti revoke_access_jti
    end_enrolment consume_mfa_challenge refuse_spent_mfa_challenge insert_refresh access_claims
    refresh_claims enrolment_claims challenge_claims sign_claims refresh_row mint_pair issue_pair
    issue_enrolment issue_mfa_challenge payload_claims verify_signature peek_mfa_challenge mark_used
    renew decide_rotation rotate_stored rotate_found rotate_jti rotation_result rotate letter_index
    upper drop_equals cleaned decode_from base32_decode big_endian truncated six_digits
    is_six_digits code_at try_step matched_step find_by_email find_by_id row_of saved_over
    insert_user save_checked save accept_two_factor_step find_alias insert_principal insert_alias
    mint_principal winner_or_rethrow resolve_existing resolve_or_mint_for_user sync_kind
    checked_client own_account asked_password password_to_confirm check_password check_found
    verify_password confirm_password step_of accept_fresh accept_step accept_code signed_in
    start_session start_enrolment start_challenge admitted_by_password open_challenge admit_answer
    answer_step admit_further end_owing rotate_for refresh_for renew_session end_on_enable
    end_on_disable check_if_given proved_to_enable proved_to_disable requires_two_factor
    normalised_email session_client_decision accepted_step entity_of peek_refresh login
    verify_two_factor enable_two_factor disable_two_factor
renewal_runs = refl

refresh_7_runs : (peek_refresh service refresh_7 admin_world).0 ≡ ok refresh_7.1
unfolding text_eq is_space drop_spaces trim lower to_lower_case principal_kind_for_role
    client_name_of delay_seconds_after admit_first admit_next admit_attempt transaction random_uuid
    random_bytes catch_outcome try_catch insert_account lock_account record_account_attempt
    record_if_admitted claim_account_attempt clear_account_attempts claim_challenge claim_admitted
    claim_challenge_attempt account_key_of admitted_attempts admit answer_attempts
    admit_challenge_attempt failed succeeded verification_key revoke_where revoke_family
    revoke_all_families_for_principal revoke_other_sessions record_revoked_jti revoke_access_jti
    end_enrolment consume_mfa_challenge refuse_spent_mfa_challenge insert_refresh access_claims
    refresh_claims enrolment_claims challenge_claims sign_claims refresh_row mint_pair issue_pair
    issue_enrolment issue_mfa_challenge payload_claims verify_signature peek_mfa_challenge mark_used
    renew decide_rotation rotate_stored rotate_found rotate_jti rotation_result rotate letter_index
    upper drop_equals cleaned decode_from base32_decode big_endian truncated six_digits
    is_six_digits code_at try_step matched_step find_by_email find_by_id row_of saved_over
    insert_user save_checked save accept_two_factor_step find_alias insert_principal insert_alias
    mint_principal winner_or_rethrow resolve_existing resolve_or_mint_for_user sync_kind
    checked_client own_account asked_password password_to_confirm check_password check_found
    verify_password confirm_password step_of accept_fresh accept_step accept_code signed_in
    start_session start_enrolment start_challenge admitted_by_password open_challenge admit_answer
    answer_step admit_further end_owing rotate_for refresh_for renew_session end_on_enable
    end_on_disable check_if_given proved_to_enable proved_to_disable requires_two_factor
    normalised_email session_client_decision accepted_step entity_of peek_refresh login
    verify_two_factor enable_two_factor disable_two_factor
refresh_7_runs = refl

enable_runs : (enable_two_factor crypto claims_7 7 (some "secret") (codes "000003") world).0 ≡ ok tt
unfolding text_eq is_space drop_spaces trim lower to_lower_case principal_kind_for_role
    client_name_of delay_seconds_after admit_first admit_next admit_attempt transaction random_uuid
    random_bytes catch_outcome try_catch insert_account lock_account record_account_attempt
    record_if_admitted claim_account_attempt clear_account_attempts claim_challenge claim_admitted
    claim_challenge_attempt account_key_of admitted_attempts admit answer_attempts
    admit_challenge_attempt failed succeeded verification_key revoke_where revoke_family
    revoke_all_families_for_principal revoke_other_sessions record_revoked_jti revoke_access_jti
    end_enrolment consume_mfa_challenge refuse_spent_mfa_challenge insert_refresh access_claims
    refresh_claims enrolment_claims challenge_claims sign_claims refresh_row mint_pair issue_pair
    issue_enrolment issue_mfa_challenge payload_claims verify_signature peek_mfa_challenge mark_used
    renew decide_rotation rotate_stored rotate_found rotate_jti rotation_result rotate letter_index
    upper drop_equals cleaned decode_from base32_decode big_endian truncated six_digits
    is_six_digits code_at try_step matched_step find_by_email find_by_id row_of saved_over
    insert_user save_checked save accept_two_factor_step find_alias insert_principal insert_alias
    mint_principal winner_or_rethrow resolve_existing resolve_or_mint_for_user sync_kind
    checked_client own_account asked_password password_to_confirm check_password check_found
    verify_password confirm_password step_of accept_fresh accept_step accept_code signed_in
    start_session start_enrolment start_challenge admitted_by_password open_challenge admit_answer
    answer_step admit_further end_owing rotate_for refresh_for renew_session end_on_enable
    end_on_disable check_if_given proved_to_enable proved_to_disable requires_two_factor
    normalised_email session_client_decision accepted_step entity_of peek_refresh login
    verify_two_factor enable_two_factor disable_two_factor
enable_runs = refl

disable_runs :
    (disable_two_factor crypto claims_7 7 "secret" (codes "000003") protected_world).0 ≡ ok tt
unfolding text_eq is_space drop_spaces trim lower to_lower_case principal_kind_for_role
    client_name_of delay_seconds_after admit_first admit_next admit_attempt transaction random_uuid
    random_bytes catch_outcome try_catch insert_account lock_account record_account_attempt
    record_if_admitted claim_account_attempt clear_account_attempts claim_challenge claim_admitted
    claim_challenge_attempt account_key_of admitted_attempts admit answer_attempts
    admit_challenge_attempt failed succeeded verification_key revoke_where revoke_family
    revoke_all_families_for_principal revoke_other_sessions record_revoked_jti revoke_access_jti
    end_enrolment consume_mfa_challenge refuse_spent_mfa_challenge insert_refresh access_claims
    refresh_claims enrolment_claims challenge_claims sign_claims refresh_row mint_pair issue_pair
    issue_enrolment issue_mfa_challenge payload_claims verify_signature peek_mfa_challenge mark_used
    renew decide_rotation rotate_stored rotate_found rotate_jti rotation_result rotate letter_index
    upper drop_equals cleaned decode_from base32_decode big_endian truncated six_digits
    is_six_digits code_at try_step matched_step find_by_email find_by_id row_of saved_over
    insert_user save_checked save accept_two_factor_step find_alias insert_principal insert_alias
    mint_principal winner_or_rethrow resolve_existing resolve_or_mint_for_user sync_kind
    checked_client own_account asked_password password_to_confirm check_password check_found
    verify_password confirm_password step_of accept_fresh accept_step accept_code signed_in
    start_session start_enrolment start_challenge admitted_by_password open_challenge admit_answer
    answer_step admit_further end_owing rotate_for refresh_for renew_session end_on_enable
    end_on_disable check_if_given proved_to_enable proved_to_disable requires_two_factor
    normalised_email session_client_decision accepted_step entity_of peek_refresh login
    verify_two_factor enable_two_factor disable_two_factor
disable_runs = refl

login-LetsIn_example :
    (user : UserEntity) × (entity_found
        (find_where (with_email (normalised_email (codes " Ann@X.io"))) world.users)
      ≡ some user)
    × (crypto.bcrypt_compare "secret" user.password_hash ≡ true)
    × LetsIn user let_in_7
login-LetsIn_example =
    login-LetsIn crypto service (codes " Ann@X.io") "secret" (some unnamed) let_in_7 world
      login_runs

verify_two_factor-Taken_example :
    let run =
      verify_two_factor crypto service challenge_7
        (codes "000003")
        (some unnamed)
        protected_world in
    (opened : OpenChallenge) × (step : ℕ) × Opens service challenge_7 protected_world opened
    × (accepted_step crypto opened.two_factor_secret (codes "000003") 90000 ≡ some (some step))
    × Taken opened step verified_7 protected_world run.1
verify_two_factor-Taken_example =
    verify_two_factor-Taken crypto service challenge_7 (codes "000003") (some unnamed) verified_7
      protected_world verify_runs

verify_two_factor_twice_example :
    let run =
      verify_two_factor crypto service challenge_7
        (codes "000003")
        (some unnamed)
        protected_world in
    (verify_two_factor crypto service challenge_7 (codes "000004") (some unnamed) run.1).0
    ≡ err (unauthorized "CHALLENGE_SPENT")
verify_two_factor_twice_example =
    verify_two_factor_twice crypto service challenge_7 (codes "000003") (some unnamed) verified_7
      protected_world (codes "000004") (some unnamed) verify_runs

refresh-Renews_example :
    (claims : Claims) × (user : UserEntity) × Renews service refresh_7
      (some unnamed)
      world
      renewed_7
      claims
      user
refresh-Renews_example =
    refresh-Renews service refresh_7 (some unnamed) renewed_7 world renewal_runs

refresh-IsEnded_example :
    let (answer, w') = renew_session service refresh_7 (some unnamed) admin_world in
    (answer ≡ err (unauthorized "TWO_FACTOR_REQUIRED")) × IsEnded 5 w'.refresh_tokens
unfolding entity_of requires_two_factor session_client_decision
refresh-IsEnded_example =
    refresh-IsEnded service refresh_7 unnamed refresh_7.1 (entity_of (record ann { role = admin }))
      5 admin_world refresh_7_runs refl refl refl refl

enable_two_factor-Leaves_example :
    let w' : World =
      (enable_two_factor crypto claims_7 7 (some "secret") (codes "000003") world).1 in
    (user : UserEntity) × (w1 : World) × (confirms crypto claims_7
        (some "secret")
        user.password_hash
      ≡ true)
    × Proved crypto claims_7 7
        (λ (u : UserEntity). usable_secret u.two_factor_secret)
        (codes "000003")
        user
        world
        w1
    × Leaves false claims_7 7 (record user { is_two_factor_enabled = true }) world w'
enable_two_factor-Leaves_example =
    enable_two_factor-Leaves crypto claims_7 7 (some "secret") (codes "000003") world (omega arith)
      enable_runs

disable_two_factor-Leaves_example :
    let w' : World =
      (disable_two_factor crypto claims_7 7 "secret" (codes "000003") protected_world).1 in
    (user : UserEntity) × (w1 : World) × (crypto.bcrypt_compare "secret" user.password_hash ≡ true)
    × Proved crypto claims_7 7 secret_in_use (codes "000003") user protected_world w1
    × Leaves
        (requires_two_factor user.role)
        claims_7
        7
        (record user { is_two_factor_enabled = false; two_factor_secret = none })
        protected_world
        w'
disable_two_factor-Leaves_example =
    disable_two_factor-Leaves crypto claims_7 7 "secret" (codes "000003") protected_world
      (omega arith) disable_runs

-- A wrong password on the fourth attempt in a row
abbrev tried_world : World
tried_world = record world {
  account_attempts =
      record {
        account_key = "ann";
        state = record { attempts = 3; last_attempt_at = 88000; delayed_until = 88000 };
      }
      ∷ [];
}

fourth_attempt : (admit crypto (normalised_email (codes "ann@x.io")) tried_world).0 ≡ ok 4
unfolding text_eq is_space drop_spaces trim lower to_lower_case principal_kind_for_role
    client_name_of delay_seconds_after admit_first admit_next admit_attempt transaction random_uuid
    random_bytes catch_outcome try_catch insert_account lock_account record_account_attempt
    record_if_admitted claim_account_attempt clear_account_attempts claim_challenge claim_admitted
    claim_challenge_attempt account_key_of admitted_attempts admit answer_attempts
    admit_challenge_attempt failed succeeded verification_key revoke_where revoke_family
    revoke_all_families_for_principal revoke_other_sessions record_revoked_jti revoke_access_jti
    end_enrolment consume_mfa_challenge refuse_spent_mfa_challenge insert_refresh access_claims
    refresh_claims enrolment_claims challenge_claims sign_claims refresh_row mint_pair issue_pair
    issue_enrolment issue_mfa_challenge payload_claims verify_signature peek_mfa_challenge mark_used
    renew decide_rotation rotate_stored rotate_found rotate_jti rotation_result rotate letter_index
    upper drop_equals cleaned decode_from base32_decode big_endian truncated six_digits
    is_six_digits code_at try_step matched_step find_by_email find_by_id row_of saved_over
    insert_user save_checked save accept_two_factor_step find_alias insert_principal insert_alias
    mint_principal winner_or_rethrow resolve_existing resolve_or_mint_for_user sync_kind
    checked_client own_account asked_password password_to_confirm check_password check_found
    verify_password confirm_password step_of accept_fresh accept_step accept_code signed_in
    start_session start_enrolment start_challenge admitted_by_password open_challenge admit_answer
    answer_step admit_further end_owing rotate_for refresh_for renew_session end_on_enable
    end_on_disable check_if_given proved_to_enable proved_to_disable requires_two_factor
    normalised_email session_client_decision accepted_step entity_of peek_refresh login
    verify_two_factor enable_two_factor disable_two_factor
fourth_attempt = refl

wrong_password_runs :
    (verify_password crypto (codes "ann@x.io") "guess" tried_world).0
    ≡ err (unauthorized "Invalid email or password credentials")
unfolding text_eq is_space drop_spaces trim lower to_lower_case principal_kind_for_role
    client_name_of delay_seconds_after admit_first admit_next admit_attempt transaction random_uuid
    random_bytes catch_outcome try_catch insert_account lock_account record_account_attempt
    record_if_admitted claim_account_attempt clear_account_attempts claim_challenge claim_admitted
    claim_challenge_attempt account_key_of admitted_attempts admit answer_attempts
    admit_challenge_attempt failed succeeded verification_key revoke_where revoke_family
    revoke_all_families_for_principal revoke_other_sessions record_revoked_jti revoke_access_jti
    end_enrolment consume_mfa_challenge refuse_spent_mfa_challenge insert_refresh access_claims
    refresh_claims enrolment_claims challenge_claims sign_claims refresh_row mint_pair issue_pair
    issue_enrolment issue_mfa_challenge payload_claims verify_signature peek_mfa_challenge mark_used
    renew decide_rotation rotate_stored rotate_found rotate_jti rotation_result rotate letter_index
    upper drop_equals cleaned decode_from base32_decode big_endian truncated six_digits
    is_six_digits code_at try_step matched_step find_by_email find_by_id row_of saved_over
    insert_user save_checked save accept_two_factor_step find_alias insert_principal insert_alias
    mint_principal winner_or_rethrow resolve_existing resolve_or_mint_for_user sync_kind
    checked_client own_account asked_password password_to_confirm check_password check_found
    verify_password confirm_password step_of accept_fresh accept_step accept_code signed_in
    start_session start_enrolment start_challenge admitted_by_password open_challenge admit_answer
    answer_step admit_further end_owing rotate_for refresh_for renew_session end_on_enable
    end_on_disable check_if_given proved_to_enable proved_to_disable requires_two_factor
    normalised_email session_client_decision accepted_step entity_of peek_refresh login
    verify_two_factor enable_two_factor disable_two_factor
wrong_password_runs = refl

verify_password-err_example :
    (unauthorized "Invalid email or password credentials" ≡ bad_credentials)
    × ((verify_password crypto (codes "ann@x.io") "guess" tried_world).1.failures
        ≡ refusal_line crypto (normalised_email (codes "ann@x.io")) 4 (some (entity_of ann)) ∷ [])
unfolding entity_of normalised_email text_eq is_space drop_spaces trim lower to_lower_case
verify_password-err_example =
    verify_password-err crypto (codes "ann@x.io") "guess" 4
      (unauthorized "Invalid email or password credentials") tried_world fourth_attempt
      wrong_password_runs
