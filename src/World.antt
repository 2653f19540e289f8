-- ===== src/World.antt =====
-- The state that the services share: the tables of the database, the two clocks, the source of
-- randomness and the log of refused sign-ins; and a request handler as an action over it. The rows
-- are those of src/infrastructure/persistence/entities.
mod Rows
pub use Rows.*
use kinetix_identity_service.Prelude.{
  ℕ, ◌+◌, ◌≡◌, refl, ◌⊎◌, inl, inr, String, Bool, true, false, Option, none, some, List,
}

pub data SignInStage : Type 0 where
  password two_factor passkey : SignInStage

pub data SignInFailureReason : Type 0 where
  unknown_account wrong_password wrong_code code_reused unknown_passkey : SignInFailureReason
  passkey_refused no_passkey_challenge sign_count_regressed : SignInFailureReason

-- One line of the log of refused sign-ins, with what it says of the account.
pub record SignInFailure : Type 0 where
  pub stage : SignInStage
  pub reason : SignInFailureReason
  pub account_key : String
  pub user_id : Option ℕ
  pub is_admin : Bool
  pub attempts : ℕ

-- What the runtime draws: `randomUUID()` and the UUIDs that the database generates, and
-- `randomBytes`. Each draw takes the next value.
pub record Entropy : Type 0 where
  pub uuid : ℕ → ℕ
  pub bytes : ℕ → List ℕ

pub record World : Type 0 where
  -- `Date.now()`, and the database's `now()`, in milliseconds.
  pub app_now : ℕ
  pub db_now : ℕ
  pub entropy : Entropy
  pub draws : ℕ
  pub users : List UserRow
  pub next_user_id : ℕ
  pub refresh_tokens : List RefreshToken
  pub revoked_tokens : List RevokedAccessToken
  pub account_attempts : List AccountAttempts
  pub challenge_attempts : List ChallengeAttempts
  pub principals : List Principal
  pub aliases : List PrincipalAlias
  pub passkeys : List Passkey
  pub passkey_challenges : List PasskeyChallenge
  pub courier_applications : List CourierApplication
  pub next_application_id : ℕ
  pub merchant_verifications : List MerchantVerification
  pub next_verification_id : ℕ
  pub merchants : List MerchantRow
  pub next_merchant_id : ℕ
  pub profiles : List Profile
  pub next_profile_id : ℕ
  pub geocoded_addresses : List GeocodedAddress
  pub failures : List SignInFailure

-- An exception that leaves a handler. The text is the `error` code of the response's body, or its
-- message where it has no code.
pub data Failure : Type 0 where
  unauthorized forbidden not_found conflict bad_request unprocessable unavailable bad_gateway :
      String → Failure
  sign_in_delayed : ℕ → Failure
  client_mismatch : Option String → Failure
  record_conflict missing_reference internal : String → Failure

pub data Outcome (A : Type 0) : Type 0 where
  ok : A → Outcome A
  err : Failure → Outcome A

pub Outcome-cases :
    {A : Type 0} (r : Outcome A) → ((a : A) × (r ≡ ok a)) ⊎ ((e : Failure) × (r ≡ err e))
Outcome-cases (ok a) = inl (a, refl)
Outcome-cases (err e) = inr (e, refl)

-- What a handler wrote before it failed stays written, outside a transaction.
abbrev pub Request : Type 0 → Type 0
Request A = World → Outcome A × World

module _ {A B : Type 0} where
  abbrev pub follow : Outcome A → (A → Request B) → Request B
  follow (ok a) k w = k a w
  follow (err e) k w = (err e, w)

  infixl 5 ◌>>=◌ ◌>>◌
  abbrev pub ◌>>=◌ : Request A → (A → Request B) → Request B
  ◌>>=◌ m k w = let (r, w') = m w in follow r k w'

  abbrev pub ◌>>◌ : Request A → Request B → Request B
  m >> k = m >>= λ _. k

module _ {A : Type 0} where
  abbrev pub pure : A → Request A
  pure a w = (ok a, w)

  abbrev pub throw : Failure → Request A
  throw e w = (err e, w)

  abbrev pub gets : (World → A) → Request A
  gets f w = (ok (f w), w)

abbrev pub Done : Type 0
Done = Unit {0}

abbrev pub modify : (World → World) → Request Done
modify f w = (ok tt, f w)

-- `if (b) throw e`
abbrev pub throw_if : Bool → Failure → Request Done
throw_if true e w = (err e, w)
throw_if false e w = (ok tt, w)

-- `x ?? throw e`
abbrev pub or_throw : {A : Type 0} → Option A → Failure → Request A
or_throw none e w = (err e, w)
or_throw (some a) e w = (ok a, w)

-- `manager.transaction(…)`: what it wrote is undone if it throws. Draws and log lines stay.
abbrev pub commit_or_undo : {A : Type 0} → World → Outcome A × World → Outcome A × World
commit_or_undo w (ok a, w') = (ok a, w')
commit_or_undo w (err e, w') = (err e, record w { draws = w'.draws; failures = w'.failures })

unfoldable pub transaction : {A : Type 0} → Request A → Request A
transaction m w = commit_or_undo w (m w)

-- The next UUID.
unfoldable pub random_uuid : Request ℕ
random_uuid w = (ok (w.entropy.uuid w.draws), record w { draws = w.draws + 1 })

-- `randomBytes(…)`, and the salt of `bcrypt.hash`
unfoldable pub random_bytes : Request (List ℕ)
random_bytes w = (ok (w.entropy.bytes w.draws), record w { draws = w.draws + 1 })

-- `try { … } catch (cause) { … }`
unfoldable pub catch_outcome :
    {A : Type 0} → Outcome A × World → (Failure → Request A) → Outcome A × World
catch_outcome (ok a, w') handler = (ok a, w')
catch_outcome (err e, w') handler = handler e w'

unfoldable pub try_catch : {A : Type 0} → Request A → (Failure → Request A) → Request A
try_catch m handler w = catch_outcome (m w) handler
