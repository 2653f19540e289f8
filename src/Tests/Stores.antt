-- ===== src/Tests/Stores.antt =====
-- Examples of the theorems on passkeys, addresses, base32 and the feed of merchants.
use kinetix_identity_service.Prelude.{
  ℕ, ◌+◌, ◌<◌, String, ◌≡◌, refl, arith, false, none, some, List, [], ◌∷◌,
}
use kinetix_identity_service.Prelude.Tables.{sort_by, All}
use kinetix_identity_service.Prelude.Text.{
  codes, text_eq, lower, to_lower_case, is_space, drop_spaces, trim, is_blank, not_blank,
  collapse_spaces,
}
use kinetix_identity_service.Domain.SessionClient.{unnamed}
use kinetix_identity_service.Auth.{AuthTokens}
use kinetix_identity_service.Geocoding.{
  GeocodeQuery, geocoded, geocode, normalise, look_up_unless, look_up, find_by_query,
  remember_answer, remember, GeocodingProvider, provider_unavailable, unplaced,
}
use kinetix_identity_service.Geocoding.Cache.{geocode_twice}
use kinetix_identity_service.Merchants.{changed_before}
use kinetix_identity_service.Merchants.Feed.{read_changes, read_changes-all}
use kinetix_identity_service.PasskeyUsecases.{
  WebAuthn, RelyingParty, verified, not_verified, verify_sign_in,
}
use kinetix_identity_service.Totp.{base32_encode, base32_decode}
use kinetix_identity_service.Totp.RoundTrip.{base32_decode-encode}
use kinetix_identity_service.Users
use kinetix_identity_service.World.{World, MerchantRow, Passkey, single_device, ok}
use kinetix_identity_service.Tests.{Signed, service, crypto, world}
use kinetix_identity_service.Tests.Onboarding.{provider, point_7, no_merchant}
use kinetix_identity_service.Tests.SignIn.{no_tokens, answer_of, challenge_7, protected_world}

abbrev party : RelyingParty
party = record { name = "Kinetix"; id = "kinetix.io"; origin = "https://kinetix.io" }

-- A credential is its id, and every answer verifies with the next counter.
abbrev webauthn : WebAuthn String String
webauthn = record {
  registration_options = λ party principal name held timeout drawn. "options";
  authentication_options = λ party held timeout drawn. "options";
  challenge_in = λ options. options;
  id_of = λ credential. credential;
  verify_registration = λ party credential expected. not_verified;
  verify_authentication = λ party credential expected row.
      verified (record { new_counter = row.sign_count + 1; backed_up = false });
}

abbrev key_7 : Passkey
key_7 = record {
  id = 51;
  user_id = 7;
  credential_id = "credential";
  public_key = [];
  sign_count = 4;
  device_type = single_device;
  backed_up = false;
  name = codes "Key";
  created_at = 0;
  last_used_at = none;
}

abbrev passkey_world : World
passkey_world = record protected_world {
  passkeys = key_7 ∷ [];
  passkey_challenges =
      record {
        id = 61;
        user_id = 7;
        challenge = "options";
        mfa_jti = some 31;
        expires_at = 100000;
        used_at = none;
      }
      ∷ [];
}

abbrev signed_7 : AuthTokens Signed
signed_7 =
    answer_of no_tokens
      (verify_sign_in crypto service webauthn party challenge_7 "credential" (some unnamed)
        passkey_world).0

abbrev address_7 : GeocodeQuery
address_7 = record { street_address = codes "1  Main St"; city = codes "Town"; postal_code = [] }

-- Another spelling, with blanks inside and none after.
abbrev spelt_address : GeocodeQuery
spelt_address = record {
  street_address = codes " 1 main   ST";
  city = codes "TOWN";
  postal_code = codes " ";
}

spelt_the_same : normalise spelt_address ≡ normalise address_7
unfolding normalise text_eq lower to_lower_case is_space drop_spaces trim is_blank not_blank
    collapse_spaces
spelt_the_same = refl

geocode_runs : (geocode provider address_7 world).0 ≡ ok (geocoded point_7)
unfolding geocode normalise look_up_unless look_up find_by_query remember_answer remember text_eq
    lower to_lower_case is_space drop_spaces trim is_blank not_blank collapse_spaces
geocode_runs = refl

abbrev closed_provider : GeocodingProvider
closed_provider = record { name = "None"; lookup = λ query w. unplaced provider_unavailable }

geocode_twice_example :
    geocode closed_provider spelt_address (geocode provider address_7 world).1
    ≡ (ok (geocoded point_7), (geocode provider address_7 world).1)
geocode_twice_example =
    geocode_twice provider closed_provider address_7 spelt_address point_7 world spelt_the_same
      geocode_runs

abbrev bytes_3 : List ℕ
bytes_3 = 255 ∷ 0 ∷ 129 ∷ []

bytes_3_below : All (λ byte. byte < 256) bytes_3
bytes_3_below = (omega arith, (omega arith, (omega arith, tt)))

base32_decode-encode_example : base32_decode (base32_encode (255 ∷ 0 ∷ 129 ∷ [])) ≡ some bytes_3
base32_decode-encode_example = base32_decode-encode bytes_3 bytes_3_below

abbrev merchant_at : ℕ → ℕ → MerchantRow
merchant_at id at = record { merchant = record no_merchant { id = id }; updated_at = at }

abbrev merchants_3 : List MerchantRow
merchants_3 = merchant_at 3 20 ∷ merchant_at 2 10 ∷ merchant_at 1 20 ∷ []

abbrev selling_world : World
selling_world = record world { merchants = merchants_3 }

read_changes-all_example :
    read_changes 1 5 none selling_world
    ≡ (ok (sort_by changed_before selling_world.merchants), selling_world)
read_changes-all_example =
    read_changes-all 1 5 selling_world ((refl, (refl, tt)), ((refl, tt), (tt, tt))) (omega arith)
      (omega arith)
