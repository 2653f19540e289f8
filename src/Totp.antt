-- ===== src/Totp.antt =====
-- src/infrastructure/crypto/totp.ts: base32, and the codes of an authenticator. A text is its code
-- units and a buffer its bytes; a function that may throw answers an option. JavaScript's 32-bit
-- `value` is kept modulo 2 ^ 32, and `|` is a sum, since the bits that it joins are disjoint.
pub mod Window
pub mod RoundTrip
use Prim.Native.Nat.{min}
use mathlib.Core.List.{reverse}
use kinetix_identity_service.Prelude.{
  ℕ, zero, suc, ◌+◌, ◌-◌, ◌*◌, ◌/◌, ◌%◌, ◌^◌, String, Bool, true, false, ◌&&◌, ◌||◌, Option, none,
  some, List, [], ◌∷◌, ◌++◌, map, ltb, leb, ◌==◌, if◌then◌else◌,
}
use kinetix_identity_service.Prelude.Tables.{length, delete_where}
use kinetix_identity_service.Prelude.Text.{Text, codes, text_eq, trim, is_space}
use kinetix_identity_service.Crypto.{Crypto}

abbrev pub period_seconds : ℕ
period_seconds = 30

abbrev pub window_steps : ℕ
window_steps = 1

-- The letter of a value below 32, `A` to `Z` and then `2` to `7`, and the value of a letter.
unfoldable pub letter : ℕ → ℕ
letter n = if ltb n 26 then n + 65 else n + 24

unfoldable pub letter_index : ℕ → Option ℕ
letter_index c =
    if leb b'A' c && leb c b'Z'
    then some (c - 65)
    else if leb b'2' c && leb c b'7'
    then some (c - 24)
    else none

-- `value >>> (bits - n)`, then the low `n` bits
abbrev pub top_bits : ℕ → ℕ → ℕ → ℕ
top_bits value bits n = value / 2 ^ (bits - n) % 2 ^ n

-- The inner loop: at most 12 bits are held, so two rounds empty them.
unfoldable pub emit : ℕ → ℕ → ℕ → Text × ℕ
emit zero value bits = ([], bits)
emit (suc rounds) value bits =
    let more = emit rounds value (bits - 5) in
    if leb 5 bits then (letter (top_bits value bits 5) ∷ more.0, more.1) else ([], bits)

unfoldable pub encode_from : List ℕ → ℕ → ℕ → Text
encode_from [] bits value = if ltb 0 bits then letter (value * 2 ^ (5 - bits) % 32) ∷ [] else []
encode_from (byte ∷ bytes) bits value =
    let value' = (value * 256 + byte) % 2 ^ 32 in
    let emitted = emit 2 value' (bits + 8) in emitted.0 ++ encode_from bytes emitted.1 value'

unfoldable pub base32_encode : List ℕ → Text
base32_encode bytes = encode_from bytes 0 0

unfoldable pub upper : ℕ → ℕ
upper c = if leb b'a' c && leb c b'z' then c - 32 else c

unfoldable pub drop_equals : Text → Text
drop_equals [] = []
drop_equals (c ∷ s) = let rest = drop_equals s in if c == b'=' then rest else c ∷ s

-- `.toUpperCase().replace(/=+$/, "").replace(/\s/g, "")`
unfoldable pub cleaned : Text → Text
cleaned encoded = delete_where is_space (reverse (drop_equals (reverse (map upper encoded))))

unfoldable pub decode_from : Text → ℕ → ℕ → Option (List ℕ)
decode_from [] bits value = some []
decode_from (c ∷ s) bits value = elim (letter_index c) [
  | none ↦ none
  | some index ↦
      let value' = (value * 32 + index) % 2 ^ 32 in
      if leb 8 (bits + 5)
      then elim (decode_from s (bits + 5 - 8) value') [
        | none ↦ none
        | some bytes ↦ some (top_bits value' (bits + 5) 8 ∷ bytes)
      ]
      else decode_from s (bits + 5) value'
]

unfoldable pub base32_decode : Text → Option (List ℕ)
base32_decode encoded = decode_from (cleaned encoded) 0 0

unfoldable pub generate_secret : List ℕ → Text
generate_secret random_bytes = base32_encode random_bytes

-- `digest[i]`, and 0 past the end, as the bit operations read `undefined`
abbrev pub byte_at : List ℕ → ℕ → ℕ
byte_at [] i = 0
byte_at (b ∷ bs) zero = b
byte_at (b ∷ bs) (suc i) = byte_at bs i

unfoldable pub big_endian : ℕ → List ℕ
big_endian n = (n / 2 ^ 24 % 256) ∷ (n / 2 ^ 16 % 256) ∷ (n / 2 ^ 8 % 256) ∷ (n % 256) ∷ []

unfoldable pub truncated : List ℕ → ℕ
truncated digest =
    let offset = byte_at digest (length digest - 1) % 16 in
    byte_at digest offset % 128 * 2 ^ 24
    + byte_at digest (offset + 1) % 256 * 2 ^ 16
    + byte_at digest (offset + 2) % 256 * 2 ^ 8
    + byte_at digest (offset + 3) % 256

-- `String(n).padStart(6, "0")` of a number below 10 ^ 6
unfoldable pub six_digits : ℕ → Text
six_digits n =
    (n / 100000 % 10 + 48)
    ∷ (n / 10000 % 10 + 48)
    ∷ (n / 1000 % 10 + 48)
    ∷ (n / 100 % 10 + 48)
    ∷ (n / 10 % 10 + 48)
    ∷ (n % 10 + 48)
    ∷ []

abbrev pub is_digit : ℕ → Bool
is_digit c = leb b'0' c && leb c b'9'

-- `/^\d{6}$/`
unfoldable pub is_six_digits : Text → Bool
is_six_digits (a ∷ b ∷ c ∷ d ∷ e ∷ f ∷ []) =
    is_digit a && is_digit b && is_digit c && is_digit d && is_digit e && is_digit f
is_six_digits _ = false

module _ (crypto : Crypto) where
  unfoldable pub code_at : Text → ℕ → Option Text
  code_at secret counter = elim (base32_decode secret) [
    | none ↦ none
    | some key ↦ some (
        six_digits (
          truncated
            (crypto.hmac_sha1 key (big_endian (counter / 2 ^ 32) ++ big_endian (counter % 2 ^ 32)))
          % 10 ^ 6))
  ]

  -- One round of the loop: the step that matched so far, or this one; `none` if a call throws.
  unfoldable pub try_step : Text → Text → ℕ → Option (Option ℕ) → Option (Option ℕ)
  try_step secret candidate step none = none
  try_step secret candidate step (some matched) = elim (code_at secret step) [
    | none ↦ none
    | some actual ↦ if text_eq actual candidate then some (some step) else some matched
  ]

  -- The steps from the one before to the one after; the counter before step 0 cannot be written.
  unfoldable pub matched_step : Text → Text → ℕ → Option (Option ℕ)
  matched_step secret candidate zero = none
  matched_step secret candidate (suc before) =
      try_step secret candidate (suc (suc before))
        (try_step secret candidate (suc before) (try_step secret candidate before (some none)))

  unfoldable pub accepted_step : Text → Text → ℕ → Option (Option ℕ)
  accepted_step secret code at_ms =
      if is_six_digits (trim code)
      then matched_step secret (trim code) (at_ms / 1000 / period_seconds)
      else some none
