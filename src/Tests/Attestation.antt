-- ===== src/Tests/Attestation.antt =====
-- An example of the theorem on App Check.
use kinetix_identity_service.Prelude.{
  ℕ, String, ◌≡◌, refl, false, none, some, List, [], ◌∷◌, if◌then◌else◌, str_eq,
}
use kinetix_identity_service.AppCheckKeys.{
  KeySet, live_keys, fresh_keys, fetch_keys, refetch, lookup_in, key_or_refetch, key_for,
}
use kinetix_identity_service.AppCheck.{
  AppCheckClaims, checked, refused_signature, ProofLibrary, AppCheckProject, judge_app, judge_times,
  judge_dated, judge, judge_check, judge_lookup, verify_named, verify,
}
use kinetix_identity_service.AppCheck.Valid.{Proves, verify-Proves}
use kinetix_identity_service.ClientGate.{valid}
use kinetix_identity_service.World.{ok}

abbrev project : AppCheckProject
project = record { issuer = "issuer/7"; audience = "projects/7" }

abbrev app_claims : AppCheckClaims
app_claims = record {
  iss = some "issuer/7";
  aud = "projects/7" ∷ [];
  exp = some 90;
  iat = some 80;
  nbf = none;
  sub = some "id";
}

abbrev library : ProofLibrary String ℕ
library = record {
  header = λ given. some (record { alg = some "RS256"; typ = some "JWT"; kid = some "k" });
  verify = λ given key. if str_eq given "signed" then checked app_claims else refused_signature;
}

-- No key has been fetched yet: the first look-up downloads the one key there is.
abbrev no_keys : KeySet ℕ
no_keys = record {
  keys = none;
  fetched_at_ms = 0;
  last_attempt_at_ms = none;
  last_attempt_failed = false;
}

abbrev downloaded : List (String × ℕ)
downloaded = ("k", 5) ∷ []

signed_is_valid :
    (verify library project "signed" ("id" ∷ []) 85000 (some downloaded) no_keys).0 ≡ ok valid
unfolding verify verify_named judge_lookup judge_check judge judge_dated judge_times judge_app
    key_for key_or_refetch lookup_in refetch fetch_keys fresh_keys live_keys
signed_is_valid = refl

verify-Proves_example :
    Proves library project "signed"
      ("id" ∷ [])
      85000
      (verify library project "signed" ("id" ∷ []) 85000 (some downloaded) no_keys).1
verify-Proves_example =
    verify-Proves library project "signed" ("id" ∷ []) 85000 (some downloaded) no_keys
      signed_is_valid
