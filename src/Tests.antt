-- ===== src/Tests.antt =====
-- Concrete data: a signing package, a service, an account and a state, for the examples.
pub mod Sessions
pub mod SignIn
pub mod Rules
pub mod Couriers
pub mod Onboarding
pub mod Stores
pub mod Routes
pub mod Attestation
use kinetix_identity_service.Prelude.{
  ℕ, ◌+◌, ◌<◌, ◌++◌, String, Bool, true, false, ◌&&◌, Option, none, some, List, [], ◌∷◌, ltb,
  if◌then◌else◌, str_eq, str_eq_refl, ◌≡◌, refl, arith,
}
use kinetix_identity_service.Prelude.Text.{Text, text_eq, codes}
use kinetix_identity_service.Crypto.{Crypto}
use kinetix_identity_service.Domain.{customer, kind_customer}
use kinetix_identity_service.Jwt.{Jwt, JwtLaws, Claims, Payload, object, refused}
use kinetix_identity_service.Tokens.{TokenService, TokenSubject}
use kinetix_identity_service.World.{
  World, UserRow, RefreshToken, RevokedAccessToken, PrincipalAlias,
}

-- A token is the key that signed it and its claims.
abbrev pub Signed : Type 0
Signed = String × Claims

abbrev pub verify_signed : String → String → String → ℕ → Signed → Payload
verify_signed key iss aud now (kid, c) =
    if str_eq key kid && str_eq iss c.iss && str_eq aud c.aud && ltb now c.exp
    then object c
    else refused

abbrev pub signing : Jwt Signed
signing = record {
  sign = λ key c. (key, c);
  header_kid = λ token. some token.0;
  decode = λ token. some token.1;
  verify = verify_signed;
}

pub signing-JwtLaws : JwtLaws signing
signing-JwtLaws = record {
  header_kid-sign = λ key c. refl;
  decode-sign = λ key c. refl;
  verify-sign =
      λ key now c h. ground (arith, str_eq_refl key, str_eq_refl c.iss, str_eq_refl c.aud);
  verify-exp = λ key iss aud now token c h. ground arith;
}

abbrev pub service : TokenService Signed
service = record {
  jwt = signing;
  keys = record { kid = "k1"; previous = [] };
  issuer = "identity";
  audience = "kinetix";
  access_ttl_seconds = 900;
  refresh_ttl_seconds = 3600;
}

-- The code of a counter is the counter, and a password is its own hash.
abbrev pub crypto : Crypto
crypto = record {
  bcrypt_compare = λ secret hash. str_eq secret hash;
  bcrypt_hash = λ secret rounds salt. secret;
  sha256_hex = λ email. if text_eq email (codes "ann@x.io") then "ann" else "other";
  hmac_sha1 = λ key message. message ++ (4 ∷ []);
}

abbrev pub ann : UserRow
ann = record {
  id = 7;
  email = codes "ann@x.io";
  password_hash = "secret";
  role = customer;
  is_two_factor_enabled = false;
  two_factor_secret = some (codes "MFRGG");
  two_factor_last_step = none;
}

abbrev pub subject : TokenSubject
subject = record { id = 7; email = codes "ann@x.io"; role = customer }

abbrev pub stored : RefreshToken
stored = record {
  jti = 11;
  family_id = 5;
  principal_id = 3;
  user_id = 7;
  client = none;
  expires_at = 9000000;
  used_at = none;
  revoked_at = none;
  revoked_reason = none;
  replaced_by_jti = none;
}

abbrev pub world : World
world = record {
  app_now = 90000;
  db_now = 90000;
  entropy = record { uuid = λ n. 100 + n; bytes = λ n. 1 ∷ 2 ∷ 3 ∷ [] };
  draws = 0;
  users = ann ∷ [];
  next_user_id = 8;
  refresh_tokens = stored ∷ [];
  revoked_tokens = [];
  account_attempts = [];
  challenge_attempts = [];
  principals = record { id = 3; kind = kind_customer; display_name = codes "Ann" } ∷ [];
  aliases = record { principal_id = 3; service = "identity"; local_id = 7 } ∷ [];
  passkeys = [];
  passkey_challenges = [];
  courier_applications = [];
  next_application_id = 1;
  merchant_verifications = [];
  next_verification_id = 1;
  merchants = [];
  next_merchant_id = 1;
  profiles = [];
  next_profile_id = 1;
  geocoded_addresses = [];
  failures = [];
}
