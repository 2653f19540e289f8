-- ===== src/Jwt.antt =====
-- Tokens: the claims of src/types/token.type.ts and src/types/two_factor.type.ts, the keys of
-- src/infrastructure/crypto/jwt_key_provider.ts, and what the services use of `jsonwebtoken`, which
-- is not part of the repository.
use kinetix_identity_service.Prelude.{
  ℕ, ◌<◌, ◌≡◌, String, Option, none, some, List, [], ◌∷◌, if◌then◌else◌, str_eq,
}
use kinetix_identity_service.Prelude.Text.{Text}
use kinetix_identity_service.Domain.{UserRole}

pub data TokenUse : Type 0 where
  access refresh mfa_challenge mfa_enrolment other_use : TokenUse

-- The payload of a token. A claim that only some tokens carry is optional; `other_use` is any other
-- `token_use`.
pub record Claims : Type 0 where
  pub sub : ℕ
  pub jti : ℕ
  pub iss : String
  pub aud : String
  pub iat : ℕ
  pub exp : ℕ
  pub token_use : TokenUse
  pub fam : Option ℕ
  pub azp : Option String
  pub uid : ℕ
  pub email : Option Text
  pub role : Option UserRole

-- What `jwt.verify` answers: it throws, or the payload is a text or an object.
pub data Payload : Type 0 where
  refused text_payload : Payload
  object : Claims → Payload

-- A key is named by its thumbprint, as the provider names it.
pub record Jwt (Token : Type 0) : Type 0 where
  pub sign : String → Claims → Token
  -- `jwt.decode(token, { complete: true })?.header?.kid`
  pub header_kid : Token → Option String
  -- `jwt.decode(token)`, if it is an object
  pub decode : Token → Option Claims
  -- `jwt.verify(token, key, { algorithms, issuer, audience })` at a time in seconds
  pub verify : String → String → String → ℕ → Token → Payload

-- What the package documents: a signed token names its key and decodes to its claims; it verifies
-- under its key, its issuer and its audience until it expires; and what verifies has the expected
-- issuer and audience and has not expired.
pub record JwtLaws {Token : Type 0} (jwt : Jwt Token) : Type 0 where
  pub header_kid-sign : (key : String) (c : Claims) → jwt.header_kid (jwt.sign key c) ≡ some key
  pub decode-sign : (key : String) (c : Claims) → jwt.decode (jwt.sign key c) ≡ some c
  pub verify-sign :
      (key : String) (now : ℕ) (c : Claims)
      → now < c.exp
      → jwt.verify key c.iss c.aud now (jwt.sign key c) ≡ object c
  pub verify-exp :
      (key iss aud : String) (now : ℕ) (token : Token) (c : Claims)
      → jwt.verify key iss aud now token ≡ object c
      → now < c.exp

-- `JwtKeyProvider`: the id of the current key, and the keys that signed before it.
pub record JwtKeys : Type 0 where
  pub kid : String
  pub previous : List String

abbrev pub find_kid : String → List String → Option String
find_kid kid [] = none
find_kid kid (k ∷ keys) = if str_eq k kid then some k else find_kid kid keys

unfoldable pub verification_key : JwtKeys → Option String → Option String
verification_key keys none = none
verification_key keys (some kid) =
    if str_eq kid keys.kid then some keys.kid else find_kid kid keys.previous
