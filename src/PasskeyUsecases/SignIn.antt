-- ===== src/PasskeyUsecases/SignIn.antt =====
-- What a sign-in with a passkey shows, and what it uses up.
use kinetix_identity_service.Prelude.{true, none, some, List, ◌≡◌, ◌∷◌, ◌*◌}
use mathlib.Core.List.{Mem}
use kinetix_identity_service.Prelude.Tables.{find_where, any_where, update_where}
use kinetix_identity_service.Crypto.{Crypto}
use kinetix_identity_service.Passkeys.{
  of_user, with_credential, advances, used_with, is_open, is_sign_in,
}
use kinetix_identity_service.Tokens.{TokenService, revokes}
use kinetix_identity_service.World.{World, Passkey, PasskeyChallenge}
use kinetix_identity_service.Auth.{AuthTokens, subject_of}
use kinetix_identity_service.Auth.Challenge.{Opens}
use kinetix_identity_service.Auth.Keeps.{Keeps}
use kinetix_identity_service.Auth.SignIn.{OpenChallenge}
use kinetix_identity_service.PasskeyUsecases.{WebAuthn, RelyingParty, AuthenticationInfo, verified}

-- A passkey of the account that signed the challenge it was asked, and what the sign-in has used in
-- the state that it leaves.
pub record Signs {Token Credential Options : Type 0} (service : TokenService Token)
    (webauthn : WebAuthn Credential Options) (party : RelyingParty) (token : Token)
    (credential : Credential) (tokens : AuthTokens Token) (w w' : World) : Type 0 where
  pub opened : OpenChallenge
  pub opens : Opens service token w opened
  pub asked : PasskeyChallenge
  pub is_asked :
      find_where
        (is_open (is_sign_in opened.claims.jti) opened.user.id w.db_now)
        w.passkey_challenges
      ≡ some asked
  pub key : Passkey
  pub info : AuthenticationInfo
  pub is_stored : Mem key w.passkeys
  pub is_own : of_user opened.user.id key ≡ true
  pub is_named : with_credential (webauthn.id_of credential) key ≡ true
  pub is_signed :
      webauthn.verify_authentication party credential asked.challenge key ≡ verified info
  pub is_newer : any_where (advances key.id info.new_counter) w.passkeys ≡ true
  pub is_answered :
      find_where
        (is_open (is_sign_in opened.claims.jti) opened.user.id w.db_now)
        w'.passkey_challenges
      ≡ none
  pub is_spent : any_where (revokes opened.claims.jti) w'.revoked_tokens ≡ true
  pub is_for : tokens.user ≡ subject_of opened.user

module _ (crypto : Crypto) {Token : Type 0} (service : TokenService Token)
    {Credential Options : Type 0} (webauthn : WebAuthn Credential Options)
    (party : RelyingParty) where
  -- The state in which the session of an accepted passkey starts.
  abbrev accepted : OpenChallenge → Passkey → AuthenticationInfo → World → World
  accepted opened key info w = record w {
    revoked_tokens =
        record {
          jti = opened.claims.jti;
          expires_at = opened.claims.exp * 1000;
          reason = "mfa_challenge_used";
        }
        ∷ w.revoked_tokens;
    passkeys =
        update_where (advances key.id info.new_counter)
          (used_with info.new_counter info.backed_up w.db_now) w.passkeys;
  }
