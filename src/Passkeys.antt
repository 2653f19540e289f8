-- ===== src/Passkeys.antt =====
-- src/infrastructure/persistence/adapters/typeorm_passkey_repository.adapter.ts and
-- src/infrastructure/persistence/adapters/typeorm_passkey_challenge_repository.adapter.ts: the
-- passkeys of the accounts, and the challenges that they answer.
pub mod Challenges
use kinetix_identity_service.Prelude.{
  ℕ, ◌+◌, ◌*◌, String, Bool, true, false, ◌&&◌, ◌||◌, not, Option, none, some, List, [], ◌∷◌, ltb,
  leb, ◌==◌, if◌then◌else◌, str_eq, is_none, is_some,
}
use kinetix_identity_service.Prelude.Tables.{
  find_where, any_where, count_where, update_where, delete_where, filter_where, sort_by,
}
use kinetix_identity_service.Prelude.Text.{Text}
use kinetix_identity_service.Users.{with_id}
use kinetix_identity_service.World.{
  World, Passkey, PasskeyChallenge, PasskeyDeviceType, Request, Done, missing_reference, ◌>>=◌,
  ◌>>◌, pure, gets, modify, throw_if, random_uuid, transaction, ok,
}

-- `NewPasskey`, less its transports
pub record NewPasskey : Type 0 where
  pub user_id : ℕ
  pub credential_id : String
  pub public_key : List ℕ
  pub sign_count : ℕ
  pub device_type : PasskeyDeviceType
  pub backed_up : Bool
  pub name : Text

pub data PasskeyAddition : Type 0 where
  limit duplicate : PasskeyAddition
  added : Passkey → PasskeyAddition

abbrev pub of_user : ℕ → Passkey → Bool
of_user user_id row = row.user_id == user_id

abbrev pub with_credential : String → Passkey → Bool
with_credential credential row = str_eq row.credential_id credential

unfoldable pub exists_for_user : ℕ → Request Bool
exists_for_user user_id = gets (λ w. any_where (of_user user_id) w.passkeys)

-- `order: { createdAt: "ASC", id: "ASC" }`
abbrev pub is_older : Passkey → Passkey → Bool
is_older a b = ltb a.created_at b.created_at || ((a.created_at == b.created_at) && ltb a.id b.id)

unfoldable pub list_for_user : ℕ → Request (List Passkey)
list_for_user user_id = gets (λ w. sort_by is_older (filter_where (of_user user_id) w.passkeys))

abbrev pub stored_passkey : ℕ → ℕ → NewPasskey → Passkey
stored_passkey id now passkey = record {
  id = id;
  user_id = passkey.user_id;
  credential_id = passkey.credential_id;
  public_key = passkey.public_key;
  sign_count = passkey.sign_count;
  device_type = passkey.device_type;
  backed_up = passkey.backed_up;
  name = passkey.name;
  created_at = now;
  last_used_at = none;
}

-- `ON CONFLICT ("credentialId") DO NOTHING`
unfoldable pub insert_passkey : NewPasskey → Request PasskeyAddition
insert_passkey passkey w =
    if any_where (with_credential passkey.credential_id) w.passkeys
    then (ok duplicate, w)
    else let row = stored_passkey (w.entropy.uuid w.draws) w.db_now passkey in
      (ok (added row), record w { draws = w.draws + 1; passkeys = row ∷ w.passkeys })

unfoldable pub add_within : NewPasskey → Bool → Request PasskeyAddition
add_within passkey true = pure limit
add_within passkey false = insert_passkey passkey

unfoldable pub add : NewPasskey → ℕ → Request PasskeyAddition
add passkey most = transaction (do
  owned ← gets (λ w. any_where (with_id passkey.user_id) w.users)
  throw_if (not owned) (missing_reference "User not found")
  held ← gets (λ w. count_where (of_user passkey.user_id) w.passkeys)
  add_within passkey (leb most held))

abbrev pub is_own : ℕ → ℕ → Passkey → Bool
is_own user_id passkey_id row = (row.id == passkey_id) && (row.user_id == user_id)

-- The `id` is the primary key, so a row that is selected is the only one.
unfoldable pub remove : ℕ → ℕ → Request Bool
remove user_id passkey_id = do
  affected ← gets (λ w. any_where (is_own user_id passkey_id) w.passkeys)
  modify (λ w. record w { passkeys = delete_where (is_own user_id passkey_id) w.passkeys })
  pure affected

-- A counter that stays at 0 is one that the authenticator does not keep.
abbrev pub advances : ℕ → ℕ → Passkey → Bool
advances passkey_id sign_count row =
    (row.id == passkey_id)
    && (if sign_count == 0 then row.sign_count == 0 else ltb row.sign_count sign_count)

abbrev pub used_with : ℕ → Bool → ℕ → Passkey → Passkey
used_with sign_count backed_up now row = record row {
  sign_count = sign_count;
  backed_up = backed_up;
  last_used_at = some now;
}

unfoldable pub record_use : ℕ → ℕ → Bool → Request Bool
record_use passkey_id sign_count backed_up = do
  affected ← gets (λ w. any_where (advances passkey_id sign_count) w.passkeys)
  modify (λ w. record w {
    passkeys =
        update_where (advances passkey_id sign_count) (used_with sign_count backed_up w.db_now)
          w.passkeys;
  })
  pure affected

-- `spend`: an open challenge of the account, which becomes used.
abbrev pub is_open : (PasskeyChallenge → Bool) → ℕ → ℕ → PasskeyChallenge → Bool
is_open which user_id now row =
    which row && (row.user_id == user_id) && is_none row.used_at && ltb now row.expires_at

abbrev pub spent_at : ℕ → PasskeyChallenge → PasskeyChallenge
spent_at now row = record row { used_at = some now }

abbrev pub challenge_of : Option PasskeyChallenge → Option String
challenge_of none = none
challenge_of (some row) = some row.challenge

unfoldable pub spend : (PasskeyChallenge → Bool) → ℕ → Request (Option String)
spend which user_id = do
  row ← gets (λ w. find_where (is_open which user_id w.db_now) w.passkey_challenges)
  modify (λ w. record w {
    passkey_challenges =
        update_where (is_open which user_id w.db_now) (spent_at w.db_now) w.passkey_challenges;
  })
  pure (challenge_of row)

abbrev pub is_registration : ℕ → PasskeyChallenge → Bool
is_registration id row = (row.id == id) && is_none row.mfa_jti

abbrev pub is_sign_in : ℕ → PasskeyChallenge → Bool
is_sign_in jti row = elim row.mfa_jti [ none ↦ false | some j ↦ j == jti ]

unfoldable pub spend_registration : ℕ → ℕ → Request (Option String)
spend_registration challenge_id user_id = spend (is_registration challenge_id) user_id

unfoldable pub spend_sign_in : ℕ → ℕ → Request (Option String)
spend_sign_in jti user_id = spend (is_sign_in jti) user_id

unfoldable pub issue_registration : ℕ → String → ℕ → Request ℕ
issue_registration user_id challenge lifetime_seconds = do
  id ← random_uuid
  modify (λ w. record w {
    passkey_challenges =
        record {
          id = id;
          user_id = user_id;
          challenge = challenge;
          mfa_jti = none;
          expires_at = w.db_now + lifetime_seconds * 1000;
          used_at = none;
        }
        ∷ w.passkey_challenges;
  })
  pure id

abbrev pub is_reopened : ℕ → ℕ → PasskeyChallenge → Bool
is_reopened jti user_id row = is_sign_in jti row && (row.user_id == user_id)

abbrev pub reopened : String → ℕ → PasskeyChallenge → PasskeyChallenge
reopened challenge expires_at row = record row {
  challenge = challenge;
  expires_at = expires_at;
  used_at = none;
}

-- `ON CONFLICT ("mfaJti") DO UPDATE … WHERE` the row is the account's. The row's id is drawn either
-- way.
unfoldable pub issue_sign_in : ℕ → ℕ → String → ℕ → Request Done
issue_sign_in user_id jti challenge lifetime_seconds = do
  id ← random_uuid
  modify (λ w.
      let expires_at = w.db_now + lifetime_seconds * 1000 in
      record w {
        passkey_challenges =
            if any_where (is_sign_in jti) w.passkey_challenges
            then update_where (is_reopened jti user_id) (reopened challenge expires_at)
                w.passkey_challenges
            else record {
              id = id;
              user_id = user_id;
              challenge = challenge;
              mfa_jti = some jti;
              expires_at = expires_at;
              used_at = none;
            }
              ∷ w.passkey_challenges;
      })

abbrev pub is_over : ℕ → PasskeyChallenge → Bool
is_over now row = ltb row.expires_at now

unfoldable pub sweep : Request ℕ
sweep = do
  affected ← gets (λ w. count_where (is_over w.db_now) w.passkey_challenges)
  modify
      (λ w. record w { passkey_challenges = delete_where (is_over w.db_now) w.passkey_challenges })
  pure affected
