-- ===== src/Lib.antt =====
-- The identity service: sign-in, sessions and their tokens, second factors, principals, passkeys, the
-- gate that names a request's client, the onboarding of couriers and sellers, profiles and addresses.
--
-- A request handler is an action over one state (World.antt): the tables of the database, the two
-- clocks, the source of randomness and the log of refused sign-ins. It answers a value or a failure,
-- and what it wrote before it failed stays written, except in a transaction. The rows (World/Rows.antt) are those
-- of src/infrastructure/persistence/entities, the failures the exceptions of the services.
--
-- - Prelude.antt and its folder: tests, tables as lists of rows, counts of rows, texts.
-- - Domain.antt, Domain/SessionClient.antt and Domain/SignInPolicy.antt: src/domain, with the user
--   roles (`requiresTwoFactor`, `principalKindForRole`, `normalisedEmail`), which client may renew a
--   session (`sessionClientDecision`), and the delay that attempts earn (`admitAttempt`).
-- - Attempts.antt: src/infrastructure/persistence/adapters/typeorm_sign_in_attempt_repository.adapter.ts.
--   Its children prove what a claim does to an account and to a challenge, how many attempts an hour
--   can hold, what a sweep changes, and what a claim leaves alone.
-- - SignInAttempts.antt: src/application/services/sign_in_attempts.service.ts, over Attempts.antt.
-- - Jwt.antt: the claims of a token, the keys of src/infrastructure/crypto/jwt_key_provider.ts, and
--   `jsonwebtoken` as a record of operations (`Jwt`) with what it documents (`JwtLaws`).
-- - Tokens.antt, Tokens/Issue.antt and Tokens/Rotation.antt: src/application/services/token.service.ts,
--   one definition to a method (`mintPair` is `mint_pair`, `rotate` is `rotate`). The other children
--   are proofs: Live and Sessions on the tokens that can still be renewed, Replay on what
--   the transaction of a renewal does, Renewed on `rotate` as a whole, Revoked and Verified on revoked
--   and verified tokens.
-- - Totp.antt: src/infrastructure/crypto/totp.ts, with Totp/Window.antt on the accepted step and
--   Totp/RoundTrip.antt on base32.
-- - Users.antt: src/infrastructure/persistence/adapters/typeorm_user_repository.adapter.ts.
-- - Principals.antt: src/application/services/principal_resolver.service.ts.
-- - Auth.antt, Auth/SignIn.antt, Auth/Renewal.antt and Auth/TwoFactor.antt:
--   src/application/services/auth_usecase.service.ts, which calls all of the above; the other children
--   are its proofs.
-- - ClientGate.antt: src/application/services/client_gate.service.ts, over an argument that verifies.
-- - AppCheck.antt: src/infrastructure/attestation/firebase_app_check_verifier.ts, the verdict on a
--   client's proof, and AppCheckKeys.antt: app_check_key_set.ts there, the keys it uses. Valid is proofs.
-- - Guards.antt: src/adapters/guards, the guards of HTTP routes; a text that stands for a token is read
--   by an argument. Bearer.antt is the `Authorization` header, and Entitled is proofs.
-- - PeerAllowList.antt: src/infrastructure/mesh/peer_allow_list.ts, and Grants is its proofs.
-- - Sweeper.antt: src/application/services/expired_record_sweeper.service.ts. Harmless is proofs.
-- - Passkeys.antt: the two passkey repositories of src/infrastructure/persistence/adapters.
-- - PasskeyUsecases.antt: src/application/services/passkey_usecase.service.ts, over those repositories and
--   the ceremony of src/infrastructure/webauthn; PasskeyUsecases/SignIn.antt is its proof.
-- - Paging.antt: the pages of a listing, with Paging/Sorted.antt on the rows that follow a page.
-- - Fleet.antt: the port of the fleet, another service, and Fleet/Grpc.antt its adapter,
--   src/infrastructure/mesh/fleet_registry_grpc.adapter.ts.
-- - CourierApplications.antt: typeorm_courier_application_repository.adapter.ts of the same folder of
--   adapters, with CourierApplications/Filing.antt on the states of an application.
-- - CourierOnboarding.antt: src/application/services/courier_onboarding_usecase.service.ts. Its children
--   prove what each request does to applications (Approval, Lifecycle), and what an approval does when
--   the fleet answers (Promotion), refuses (Undone) or is not heard of (Resumed).
-- - CourierRegistration.antt: src/application/services/courier_registration_usecase.service.ts, which signs
--   in or registers by Auth, updates a profile, and files with the fleet and with CourierApplications.
-- - Geocoding.antt: src/application/services/geocoding_usecase.service.ts and its table of addresses.
-- - Profiles.antt: src/application/services/user_profile_usecase.service.ts and its table;
--   Profiles/Frame.antt is what an update leaves alone.
-- - Merchants.antt and MerchantVerifications.antt: the two repositories of merchants, with
--   Merchants/Feed.antt on the feed of changes.
-- - SellerOnboarding.antt: src/application/services/seller_onboarding_usecase.service.ts, over both, Users,
--   Principals and Geocoding; Placed, Approved and Approval are the proof about an approval.
-- - Tests.antt and its folder: concrete data, and an example of each theorem.
--
-- A UUID is the number that it writes, and a `Date` its milliseconds since the epoch. One request sees
-- one instant on each clock: `app_now` is `Date.now()` and `db_now` the database's. A transaction that
-- takes a lock is one step. An e-mail address, a secret and a code are lists of code units, with the
-- case mapping of ASCII; a text that the program only compares is a string. What the runtime draws is
-- read from an oracle (`Entropy`), so that theorems hold for every draw. bcrypt, SHA-256, HMAC
-- (`Crypto`) and `jsonwebtoken` are parameters. An HTTP exception is a failure with the `error` code of
-- its body, or with its message where it has no code. Loops are structural recursion, or written out
-- where the program runs them a fixed number of times: the inner loop of `base32Encode` empties its at
-- most 12 bits in two rounds, and ten rounds write an account's id, which is a 32-bit integer. Only the
-- reader of the change feed, who is outside the program, counts its requests.
--
-- The tables refuse a second row with a unique key, and an alias of a principal that is not stored.
-- That a refresh token's principal and a passkey challenge's account are stored is not checked again:
-- the callers have just resolved the one and found the other.
--
-- The fleet, the geocoding provider and `@simplewebauthn/server` are records of functions: what a call
-- comes to may depend on the whole state in which it is made, and the theorems assume nothing of it but
-- what they name. A coordinate is the text that writes its number.
--
-- Not modelled: the order of requests that interleave inside an operation, other than through the
-- tables; dates of creation and change, but of a merchant; a passkey's transports; metrics and log lines
-- other than those of refused sign-ins; the URL of a QR code; the check that a coordinate is on earth;
-- the feed by transaction ids (`findChangedAfter`), which reads a view of the database; the nominatim
-- adapter; a fetch of App Check's keys that another request has in flight; the parsing of the registry
-- of clients; the names in the peers' certificates. Controllers are not part of it.
pub mod Prelude
pub mod Domain
pub mod World
pub mod Crypto
pub mod Attempts
pub mod SignInAttempts
pub mod Jwt
pub mod Totp
pub mod Tokens
pub mod Users
pub mod Principals
pub mod Auth
pub mod Tests
pub mod ClientGate
pub mod Guards
pub mod PeerAllowList
pub mod Sweeper
pub mod AppCheckKeys
pub mod AppCheck
pub mod Passkeys
pub mod Paging
pub mod Fleet
pub mod Geocoding
pub mod Merchants
pub mod MerchantVerifications
pub mod SellerOnboarding
pub mod Profiles
pub mod CourierRegistration
pub mod CourierApplications
pub mod CourierOnboarding
pub mod PasskeyUsecases
