-- ===== src/Tests/Rules.antt =====
-- Examples of the theorems on attempts, codes, principals and accounts.
use kinetix_identity_service.Prelude.{
  none, Option, ◌<◌, ◌≤◌, ◌≡◌, refl, arith, true, false, some, [], ◌∷◌,
}
use kinetix_identity_service.Prelude.Tables.{find_where}
use kinetix_identity_service.Prelude.Text.{codes, text_eq, is_space, drop_spaces, trim}
use kinetix_identity_service.Domain.SignInPolicy.{
  AttemptState, admit_attempt, admit_next, delayed, is_admitted,
}
use kinetix_identity_service.Domain.SignInPolicy.Delay.{retry_after_exact}
use kinetix_identity_service.World.{
  World, PrincipalAlias, ok, transaction, try_catch, catch_outcome, random_uuid,
}
use kinetix_identity_service.Attempts.{
  ChallengeAttempt, claim_account_attempt, claim_challenge_attempt, sweep,
}
use kinetix_identity_service.Attempts.Rows.{state_at}
use kinetix_identity_service.Attempts.Account.{ClaimedAs, claim_account_attempt-refines}
use kinetix_identity_service.Attempts.Pace.{claims, claims-le}
use kinetix_identity_service.Attempts.Challenge.{Counted, claim_challenge_attempt-Counted}
use kinetix_identity_service.Attempts.Sweep.{admit_attempt-sweep}
use kinetix_identity_service.Users.{accept_two_factor_step}
use kinetix_identity_service.Users.Steps.{accept_two_factor_step_once}
use kinetix_identity_service.Principals.{
  alias_for, find_alias, resolve_existing, resolve_or_mint_for_user, register_alias,
  register_new_alias, insert_alias, insert_principal, mint_principal,
}
use kinetix_identity_service.Principals.Resolve.{resolve_twice, register_alias-keeps}
use kinetix_identity_service.Totp.{
  code_at, accepted_step, matched_step, try_step, is_six_digits, base32_decode, cleaned,
  drop_equals, upper, decode_from, letter_index, big_endian, truncated, six_digits,
}
use kinetix_identity_service.Totp.Window.{LatestMatch, accepted_step-LatestMatch}
use kinetix_identity_service.Prelude.Tables.{count_where}
use kinetix_identity_service.Domain.SessionClient.{named}
use kinetix_identity_service.World.{single_device}
use kinetix_identity_service.Passkeys.{NewPasskey, of_user, add, spend_sign_in}
use kinetix_identity_service.Passkeys.Challenges.{add-within, spend_sign_in_once}
use kinetix_identity_service.ClientGate
use kinetix_identity_service.ClientGate.{
  ClientRegistry, ClientHeaders, Verifier, attested, single, valid,
}
use kinetix_identity_service.ClientGate.Admitted.{Shows, admit-Shows}
use kinetix_identity_service.Tests.{crypto, subject, world}

abbrev tried : AttemptState
tried = record { attempts = 6; last_attempt_at = 88000; delayed_until = 90000 }

abbrev tried_world : World
tried_world = record world { account_attempts = record { account_key = "ann"; state = tried } ∷ [] }

claims-le_example : claims "ann" (0 ∷ 0 ∷ 500 ∷ 70000 ∷ []) world ≤ 69
claims-le_example = claims-le "ann" 0 (0 ∷ 0 ∷ 500 ∷ 70000 ∷ []) world (
  omega arith,
  omega arith,
  (omega arith, omega arith, (omega arith, omega arith, (omega arith, omega arith, tt))),
)

claim_account_attempt-refines_example :
    let admission = admit_attempt (state_at "ann" tried_world.account_attempts) 90000 in
    let (answer, w') = claim_account_attempt "ann" admit_attempt tried_world in
    (answer ≡ ok admission)
    × ClaimedAs "ann" 90000 admission tried_world.account_attempts w'.account_attempts
claim_account_attempt-refines_example = claim_account_attempt-refines "ann" tried_world

abbrev answer_31 : ChallengeAttempt
answer_31 = record { jti = 31; expires_at = 980000; limit = 5 }

claim_challenge_attempt-Counted_example :
    let (answer, w') = claim_challenge_attempt "ann" admit_attempt answer_31 tried_world in
    Counted answer_31 [] answer w'.challenge_attempts
claim_challenge_attempt-Counted_example =
    claim_challenge_attempt-Counted "ann" admit_attempt answer_31 tried_world

admit_attempt-sweep_example :
    admit_attempt (state_at "ann" (sweep 3600 tried_world).1.account_attempts) 95000
    ≡ admit_attempt (state_at "ann" tried_world.account_attempts) 95000
admit_attempt-sweep_example = admit_attempt-sweep "ann" tried_world 95000 (refl, tt) (omega arith)

tried_too_soon : admit_attempt (some tried) 88500 ≡ delayed 2
unfolding admit_attempt admit_next
tried_too_soon = refl

retry_after_exact_example :
    (88500 < 90000)
    × (1 ≤ 2)
    × (is_admitted (admit_attempt (some tried) 90500) ≡ true)
    × (is_admitted (admit_attempt (some tried) 89500) ≡ false)
retry_after_exact_example =
    retry_after_exact tried 88500 2 90500 89500 tried_too_soon (omega arith) (omega arith)

accept_two_factor_step_once_example :
    (accept_two_factor_step 7 3 (accept_two_factor_step 7 3 world).1).0 ≡ ok false
accept_two_factor_step_once_example = accept_two_factor_step_once 7 3 3 world (omega arith)

abbrev new_world : World
new_world = record world { aliases = [] }

minted : (resolve_or_mint_for_user subject new_world).0 ≡ ok 100
unfolding resolve_or_mint_for_user resolve_existing find_alias mint_principal insert_principal
    insert_alias transaction try_catch catch_outcome random_uuid
minted = refl

resolve_twice_example :
    let w' : World = (resolve_or_mint_for_user subject new_world).1 in
    resolve_or_mint_for_user subject w' ≡ (ok 100, w')
resolve_twice_example = resolve_twice subject subject 100 new_world refl minted

abbrev identity_alias : PrincipalAlias
identity_alias = record { principal_id = 3; service = "identity"; local_id = 7 }

register_alias-keeps_example :
    find_where (alias_for "identity" 7) (register_alias 3 "orders" 7 world).1.aliases
    ≡ some identity_alias
register_alias-keeps_example =
    register_alias-keeps 3 "orders" 7 identity_alias "identity" 7 world refl

registered : (register_alias 3 "orders" 7 world).0 ≡ ok tt
unfolding register_alias register_new_alias find_alias insert_alias try_catch catch_outcome
registered = refl

code_of_3 : accepted_step crypto (codes "MFRGG") (codes " 000003") 90000 ≡ some (some 3)
unfolding text_eq is_space drop_spaces trim code_at accepted_step matched_step try_step
    is_six_digits base32_decode cleaned drop_equals upper decode_from letter_index big_endian
    truncated six_digits
code_of_3 = refl

accepted_step-LatestMatch_example :
    (is_six_digits (trim (codes " 000003")) ≡ true)
    × LatestMatch crypto (codes "MFRGG") (trim (codes " 000003")) 3 3
accepted_step-LatestMatch_example =
    accepted_step-LatestMatch crypto (codes "MFRGG") (codes " 000003") 90000 3 code_of_3

abbrev passkey_7 : NewPasskey
passkey_7 = record {
  user_id = 7;
  credential_id = "cred";
  public_key = [];
  sign_count = 0;
  device_type = single_device;
  backed_up = false;
  name = [];
}

add-within_example : count_where (of_user 7) (add passkey_7 10 world).1.passkeys ≤ 10
add-within_example = add-within passkey_7 10 7 world (omega arith)

abbrev asked_world : World
asked_world = record world {
  passkey_challenges =
      record {
        id = 1;
        user_id = 7;
        challenge = "c";
        mfa_jti = some 31;
        expires_at = 200000;
        used_at = none;
      }
      ∷ [];
}

spend_sign_in_once_example :
    (spend_sign_in 31 7 (record (spend_sign_in 31 7 asked_world).1 { db_now = 91000 })).0 ≡ ok none
spend_sign_in_once_example = spend_sign_in_once 31 7 91000 asked_world (omega arith)

abbrev gate : ClientRegistry
gate = record { clients = attested "app" ("id" ∷ []) ∷ []; refuses_unnamed = true }

abbrev verifier : Option Verifier
verifier = some (λ shown app_ids w. (ok valid, w))

abbrev headers : ClientHeaders
headers = record { client = single "app"; app_check = single "token" }

admitted_as_app : (ClientGate.admit gate verifier headers world).0 ≡ ok (named "app")
unfolding ClientGate.admit ClientGate.admit_presented ClientGate.admit_registered ClientGate.prove
    ClientGate.accept_verdict is_space drop_spaces trim
admitted_as_app = refl

admit-Shows_example : Shows gate verifier headers world (named "app")
admit-Shows_example = admit-Shows gate verifier headers (named "app") world admitted_as_app
