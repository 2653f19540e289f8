-- ===== src/AppCheck.antt =====
-- src/infrastructure/attestation/firebase_app_check_verifier.ts: the verdict on a client's proof, with the
-- keys of AppCheckKeys.antt.
pub mod Valid
use kinetix_identity_service.Prelude.{
  ℕ, ◌+◌, ◌/◌, String, Bool, true, false, ◌&&◌, ◌||◌, not, Option, none, some, List, ltb, leb,
  if◌then◌else◌, str_eq, holds,
}
use kinetix_identity_service.Prelude.Tables.{any_where}
use kinetix_identity_service.AppCheckKeys.{
  Keys, KeySet, SigningKeyLookup, key_found, key_unknown, lookup_unavailable, key_for, is_text,
}
use kinetix_identity_service.ClientGate.{
  ProofVerdict, valid, invalid, verdict_unavailable, malformed, invalid_signature, expired,
  not_yet_valid, wrong_project, wrong_app_id,
}
use kinetix_identity_service.World.{Outcome, ok, err, Failure}

abbrev pub clock_leeway_seconds : ℕ
clock_leeway_seconds = 60

-- The claims of a proof: a claim of another type than the program reads is none.
pub record AppCheckClaims : Type 0 where
  pub iss : Option String
  pub aud : List String
  pub exp : Option ℕ
  pub iat : Option ℕ
  pub nbf : Option ℕ
  pub sub : Option String

pub record ProofHeader : Type 0 where
  pub alg : Option String
  pub typ : Option String
  pub kid : Option String

-- `jwt.verify` with a key: claims, a text, a `JsonWebTokenError`, or another error.
pub data SignatureCheck : Type 0 where
  checked : AppCheckClaims → SignatureCheck
  checked_text refused_signature : SignatureCheck
  check_broke : Failure → SignatureCheck

-- `jsonwebtoken`, on the proofs of clients
pub record ProofLibrary (Proof Key : Type 0) : Type 0 where
  pub header : Proof → Option ProofHeader
  pub verify : Proof → Key → SignatureCheck

-- The issuer and the audience that the project's number makes.
pub record AppCheckProject : Type 0 where
  pub issuer : String
  pub audience : String

abbrev pub is_among : List String → String → Bool
is_among names name = any_where (str_eq name) names

unfoldable pub judge_app : Option String → List String → ProofVerdict
judge_app sub app_ids = if holds (is_among app_ids) sub then valid else invalid wrong_app_id

unfoldable pub judge_times : ℕ → ℕ → ℕ → ℕ → Option String → List String → ProofVerdict
judge_times now exp iat not_before sub app_ids =
    if leb exp now
    then invalid expired
    else if ltb (now + clock_leeway_seconds) iat || ltb (now + clock_leeway_seconds) not_before
    then invalid not_yet_valid
    else judge_app sub app_ids

abbrev pub or_number : Option ℕ → ℕ → ℕ
or_number none other = other
or_number (some n) other = n

unfoldable pub judge_dated :
    ℕ → Option ℕ → Option ℕ → Option ℕ → Option String → List String → ProofVerdict
judge_dated now (some exp) (some iat) nbf sub app_ids =
    judge_times now exp iat (or_number nbf iat) sub app_ids
judge_dated now _ _ nbf sub app_ids = invalid malformed

unfoldable pub judge : AppCheckProject → ℕ → AppCheckClaims → List String → ProofVerdict
judge project now_ms claims app_ids =
    if is_text project.issuer claims.iss && is_among claims.aud project.audience
    then judge_dated (now_ms / 1000) claims.exp claims.iat claims.nbf claims.sub app_ids
    else invalid wrong_project

-- The id of the key that the header names, if the header is one of App Check.
abbrev pub kid_of : Option ProofHeader → Option String
kid_of none = none
kid_of (some header) =
    if is_text "RS256" header.alg && is_text "JWT" header.typ && not (is_text "" header.kid)
    then header.kid
    else none

module _ {Proof Key : Type 0} (library : ProofLibrary Proof Key) (project : AppCheckProject) where
  unfoldable pub judge_check : ℕ → List String → SignatureCheck → Outcome ProofVerdict
  judge_check now app_ids (checked claims) = ok (judge project now claims app_ids)
  judge_check now app_ids checked_text = ok (invalid malformed)
  judge_check now app_ids refused_signature = ok (invalid invalid_signature)
  judge_check now app_ids (check_broke failure) = err failure

  unfoldable pub judge_lookup :
      Proof → ℕ → List String → SigningKeyLookup Key → Outcome ProofVerdict
  judge_lookup given now app_ids lookup_unavailable = ok verdict_unavailable
  judge_lookup given now app_ids key_unknown = ok (invalid invalid_signature)
  judge_lookup given now app_ids (key_found key) =
      judge_check now app_ids (library.verify given key)

  unfoldable pub verify_named :
      Proof
      → List String
      → ℕ
      → Option (Keys Key)
      → KeySet Key
      → Option String
      → Outcome ProofVerdict × KeySet Key
  verify_named given app_ids now download set none = (ok (invalid malformed), set)
  verify_named given app_ids now download set (some kid) =
      let lookup = key_for kid now download set in
      (judge_lookup given now app_ids lookup.0, lookup.1)

  unfoldable pub verify :
      Proof → List String → ℕ → Option (Keys Key) → KeySet Key → Outcome ProofVerdict × KeySet Key
  verify given app_ids now download set =
      verify_named given app_ids now download set (kid_of (library.header given))
