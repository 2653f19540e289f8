-- ===== src/Crypto.antt =====
-- What the services use of `crypto` and `bcrypt`, which are not part of the repository.
use kinetix_identity_service.Prelude.{ℕ, String, Bool, List}
use kinetix_identity_service.Prelude.Text.{Text}

pub record Crypto : Type 0 where
  -- `bcrypt.compare(password, hash)`, and `bcrypt.hash(password, rounds)` with the salt it draws.
  pub bcrypt_compare : String → String → Bool
  pub bcrypt_hash : String → ℕ → List ℕ → String
  -- `createHash("sha256").update(text, "utf8").digest("hex")`
  pub sha256_hex : Text → String
  -- `createHmac("sha1", key).update(message).digest()`
  pub hmac_sha1 : List ℕ → List ℕ → List ℕ
