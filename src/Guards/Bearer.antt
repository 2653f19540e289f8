-- ===== src/Guards/Bearer.antt =====
-- src/adapters/guards/jwt_auth.guard.ts: the token of an `Authorization` header.
use kinetix_identity_service.Prelude.{
  ℕ, Bool, true, false, Option, none, some, List, [], ◌∷◌, ◌++◌, ◌≡◌, refl, arith, ◌==◌,
  if◌then◌else◌,
}
use kinetix_identity_service.Prelude.Tables.{All}
use kinetix_identity_service.Prelude.Text.{Text, codes, text_eq, to_lower_case, split_on}

-- `string | string[] | undefined`
pub data AuthorizationHeader : Type 0 where
  no_header : AuthorizationHeader
  one_header : Text → AuthorizationHeader
  many_headers : List Text → AuthorizationHeader

abbrev pub raw_header : AuthorizationHeader → Text
raw_header no_header = []
raw_header (one_header raw) = raw
raw_header (many_headers []) = []
raw_header (many_headers (raw ∷ raws)) = raw

-- `raw.split(" ")`
abbrev pub split_spaces : Text → List Text
split_spaces = split_on 32

unfoldable pub is_bearer : Text → Bool
is_bearer scheme = text_eq (to_lower_case scheme) (codes "bearer")

unfoldable pub token_part : List Text → Option Text
token_part (scheme ∷ (c ∷ token) ∷ []) = if is_bearer scheme then some (c ∷ token) else none
token_part _ = none

unfoldable pub bearer_token : AuthorizationHeader → Option Text
bearer_token header = token_part (split_spaces (raw_header header))

abbrev pub NoSpace : ℕ → Type 0
NoSpace c = (c == 32) ≡ false

split_spaces-word : (s : Text) → All NoSpace s → split_spaces s ≡ s ∷ []
unfolding split_on
split_spaces-word [] h = refl
split_spaces-word (c ∷ s) h = ground (arith, h.0, split_spaces-word s h.1)

split_spaces-append : (s t : Text) → All NoSpace s → split_spaces (s ++ 32 ∷ t) ≡ s ∷ split_spaces t
unfolding split_on
split_spaces-append [] t h = refl
split_spaces-append (c ∷ s) t h = ground (arith, h.0, split_spaces-append s t h.1)

-- A header of the scheme `Bearer`, in any case, a space and a token without spaces holds that token.
pub bearer_token-word :
    (scheme token : Text) (c : ℕ)
    → All NoSpace scheme
    → All NoSpace (c ∷ token)
    → is_bearer scheme ≡ true
    → bearer_token (one_header (scheme ++ 32 ∷ c ∷ token)) ≡ some (c ∷ token)
unfolding bearer_token token_part
bearer_token-word scheme token c hs ht named =
    rw (split_spaces-append scheme (c ∷ token) hs)
      (rw (split_spaces-word (c ∷ token) ht) (rw named refl))
