-- ===== src/Totp/RoundTrip.antt =====
-- Base32: what is encoded is decoded to the same bytes.
use mathlib.Core.List.{reverse, reverse-cons, reverse-reverse}
use kinetix_identity_service.Prelude.{
  ℕ, ◌+◌, ◌-◌, ◌*◌, ◌/◌, ◌%◌, ◌^◌, ◌<◌, ◌≡◌, refl, arith, some, List, [], ◌∷◌, leb, true, false,
  ltb, Bool, ◌&&◌, ◌||◌, zero, suc, map, inl, inr, Bool-cases,
}
use kinetix_identity_service.Prelude.Tables.{All, All-append, delete_where}
use kinetix_identity_service.Prelude.Text.{Text, is_space}
use kinetix_identity_service.Totp.{
  letter, letter_index, top_bits, emit, encode_from, decode_from, base32_encode, base32_decode,
  upper, drop_equals, cleaned,
}

index-letter : (n : ℕ) → n < 32 → letter_index (letter n) ≡ some n
unfolding letter_index letter
index-letter n h = ground arith

-- A decoder that completes a byte, and one that does not.
completes :
    (n bits value byte : ℕ) (rest : Text) (bytes : List ℕ)
    → n < 32
    → leb 8 (bits + 5) ≡ true
    → top_bits ((value * 32 + n) % 2 ^ 32) (bits + 5) 8 ≡ byte
    → decode_from rest (bits + 5 - 8) ((value * 32 + n) % 2 ^ 32) ≡ some bytes
    → decode_from (letter n ∷ rest) bits value ≡ some (byte ∷ bytes)
unfolding decode_from
completes n bits value byte rest bytes h full eq more = ground (arith, index-letter n h)

holds_back :
    (n bits value : ℕ) (rest : Text) (bytes : List ℕ)
    → n < 32
    → leb 8 (bits + 5) ≡ false
    → decode_from rest (bits + 5) ((value * 32 + n) % 2 ^ 32) ≡ some bytes
    → decode_from (letter n ∷ rest) bits value ≡ some bytes
unfolding decode_from
holds_back n bits value rest bytes h short more = ground (arith, index-letter n h)

-- The encoder holds the low bits of a byte, and the decoder has read its high bits.
abbrev Stage : ℕ → List ℕ → Type 0
Stage b bytes =
    (x v u : ℕ)
    → x < 256
    → u % 2 ^ (8 - b) ≡ x / 2 ^ b
    → v % 2 ^ b ≡ x % 2 ^ b
    → decode_from (encode_from bytes b v) (8 - b) u ≡ some (x ∷ bytes)

ends_1 : Stage 1 []
unfolding encode_from decode_from
ends_1 x v u hx hu hv =
    completes (v * 16 % 32) 7 u x [] [] (omega arith) refl (omega (arith, hu, hv)) refl

ends_2 : Stage 2 []
unfolding encode_from decode_from
ends_2 x v u hx hu hv =
    completes (v * 8 % 32) 6 u x [] [] (omega arith) refl (omega (arith, hu, hv)) refl

ends_3 : Stage 3 []
unfolding encode_from decode_from
ends_3 x v u hx hu hv =
    completes (v * 4 % 32) 5 u x [] [] (omega arith) refl (omega (arith, hu, hv)) refl

ends_4 : Stage 4 []
unfolding encode_from decode_from
ends_4 x v u hx hu hv =
    completes (v * 2 % 32) 4 u x [] [] (omega arith) refl (omega (arith, hu, hv)) refl

-- The value after a byte, and the letters that it completes.
abbrev with_byte : ℕ → ℕ → ℕ
with_byte v y = (v * 256 + y) % 2 ^ 32

abbrev with_letter : ℕ → ℕ → ℕ
with_letter u n = (u * 32 + n) % 2 ^ 32

-- Neither holds a bit.
abbrev Aligned : List ℕ → Type 0
Aligned bytes = (v u : ℕ) → decode_from (encode_from bytes 0 v) 0 u ≡ some bytes

starts : (y : ℕ) (bytes : List ℕ) → y < 256 → Stage 3 bytes → Aligned (y ∷ bytes)
unfolding encode_from emit
starts y bytes hy next v u =
    let n = with_byte v y / 8 % 32 in
    holds_back n 0 u (encode_from bytes 3 (with_byte v y)) (y ∷ bytes) (omega arith) refl
      (next y (with_byte v y) (with_letter u n) hy (omega (arith, hy)) (omega (arith, hy)))

steps_3 : (y : ℕ) (bytes : List ℕ) → y < 256 → Stage 1 bytes → Stage 3 (y ∷ bytes)
unfolding encode_from emit
steps_3 y bytes hy next x v u hx hu hv =
    let v1 = with_byte v y in
    let n = v1 / 64 % 32 in
    let m = v1 / 2 % 32 in
    let u1 = with_letter u n in
    completes n 5 u x (letter m ∷ encode_from bytes 1 v1) (y ∷ bytes) (omega arith) refl
      (omega (arith, hu, hv, hx, hy))
      (holds_back m 2 u1 (encode_from bytes 1 v1) (y ∷ bytes) (omega arith) refl
        (next y v1 (with_letter u1 m) hy (omega (arith, hu, hv, hx, hy)) (omega (arith, hy))))

steps_1 : (y : ℕ) (bytes : List ℕ) → y < 256 → Stage 4 bytes → Stage 1 (y ∷ bytes)
unfolding encode_from emit
steps_1 y bytes hy next x v u hx hu hv =
    let v1 = with_byte v y in
    let n = v1 / 16 % 32 in
    let u1 = with_letter u n in
    completes n 7 u x (encode_from bytes 4 v1) (y ∷ bytes) (omega arith) refl
      (omega (arith, hu, hv, hx, hy))
      (next y v1 u1 hy (omega (arith, hu, hv, hx, hy)) (omega (arith, hy)))

steps_4 : (y : ℕ) (bytes : List ℕ) → y < 256 → Stage 2 bytes → Stage 4 (y ∷ bytes)
unfolding encode_from emit
steps_4 y bytes hy next x v u hx hu hv =
    let v1 = with_byte v y in
    let n = v1 / 128 % 32 in
    let m = v1 / 4 % 32 in
    let u1 = with_letter u n in
    completes n 4 u x (letter m ∷ encode_from bytes 2 v1) (y ∷ bytes) (omega arith) refl
      (omega (arith, hu, hv, hx, hy))
      (holds_back m 1 u1 (encode_from bytes 2 v1) (y ∷ bytes) (omega arith) refl
        (next y v1 (with_letter u1 m) hy (omega (arith, hu, hv, hx, hy)) (omega (arith, hy))))

steps_2 : (y : ℕ) (bytes : List ℕ) → y < 256 → Aligned bytes → Stage 2 (y ∷ bytes)
unfolding encode_from emit
steps_2 y bytes hy next x v u hx hu hv =
    let v1 = with_byte v y in
    let n = v1 / 32 % 32 in
    let m = v1 / 1 % 32 in
    let u1 = with_letter u n in
    completes n 6 u x (letter m ∷ encode_from bytes 0 v1) (y ∷ bytes) (omega arith) refl
      (omega (arith, hu, hv, hx, hy))
      (completes m 3 u1 y (encode_from bytes 0 v1) bytes (omega arith) refl
        (omega (arith, hu, hv, hx, hy)) (next v1 (with_letter u1 m)))

stages :
    (bytes : List ℕ)
    → All (λ y. y < 256) bytes
    → Aligned bytes × Stage 3 bytes × Stage 1 bytes × Stage 4 bytes × Stage 2 bytes
unfolding encode_from decode_from
stages [] h = (λ v u. refl, ends_3, ends_1, ends_4, ends_2)
stages (y ∷ bytes) h =
    let (aligned, stage_3, stage_1, stage_4, stage_2) = stages bytes h.1 in
    (
      starts y bytes h.0 stage_3,
      steps_3 y bytes h.0 stage_1,
      steps_1 y bytes h.0 stage_4,
      steps_4 y bytes h.0 stage_2,
      steps_2 y bytes h.0 aligned,
    )

-- The letters of base32, which the decoder's clean-up leaves alone.
abbrev is_letter : ℕ → Bool
is_letter c = (leb b'A' c && leb c b'Z') || (leb b'2' c && leb c b'7')

letter-is : (n : ℕ) → n < 32 → is_letter (letter n) ≡ true
unfolding letter
letter-is n h = ground arith

emit-letters : (rounds value bits : ℕ) → All (λ c. is_letter c ≡ true) (emit rounds value bits).0
unfolding emit
emit-letters zero value bits = tt
emit-letters (suc rounds) value bits = elim (Bool-cases (leb 5 bits)) [
  | inl e ↦
      rw e (letter-is (top_bits value bits 5) (omega arith), emit-letters rounds value (bits - 5))
  | inr e ↦ rw e tt
]

encode_from-letters :
    (bytes : List ℕ) (bits value : ℕ) → All (λ c. is_letter c ≡ true) (encode_from bytes bits value)
unfolding encode_from
encode_from-letters [] bits value = elim (Bool-cases (ltb 0 bits)) [
  | inl e ↦ rw e (letter-is (value * 2 ^ (5 - bits) % 32) (omega arith), tt)
  | inr e ↦ rw e tt
]
encode_from-letters (byte ∷ bytes) bits value =
    let value' = with_byte value byte in
    let emitted = emit 2 value' (bits + 8) in
    All-append (λ c. is_letter c ≡ true) emitted.0 (encode_from bytes emitted.1 value')
      (emit-letters 2 value' (bits + 8)) (encode_from-letters bytes emitted.1 value')

upper-letters : (s : Text) → All (λ c. is_letter c ≡ true) s → map upper s ≡ s
unfolding upper
upper-letters [] h = refl
upper-letters (c ∷ s) h = ground (arith, h.0, upper-letters s h.1)

drop_equals-letters : (s : Text) → All (λ c. is_letter c ≡ true) s → drop_equals s ≡ s
unfolding drop_equals
drop_equals-letters [] h = refl
drop_equals-letters (c ∷ s) h = ground (arith, h.0)

spaces-letters : (s : Text) → All (λ c. is_letter c ≡ true) s → delete_where is_space s ≡ s
unfolding is_space
spaces-letters [] h = refl
spaces-letters (c ∷ s) h = ground (arith, h.0, spaces-letters s h.1)

All-reverse :
    (s : Text) → All (λ c. is_letter c ≡ true) s → All (λ c. is_letter c ≡ true) (reverse s)
All-reverse [] h = tt
All-reverse (c ∷ s) h =
    rw (reverse-cons c s)
      (All-append (λ c. is_letter c ≡ true) (reverse s) (c ∷ []) (All-reverse s h.1) (h.0, tt))

cleaned-letters : (s : Text) → All (λ c. is_letter c ≡ true) s → cleaned s ≡ s
unfolding cleaned
cleaned-letters s h =
    rw (upper-letters s h, drop_equals-letters (reverse s) (All-reverse s h), reverse-reverse s)
      (spaces-letters s h)

-- Bytes that are encoded in base32 are decoded to the same bytes.
pub base32_decode-encode :
    (bytes : List ℕ)
    → All (λ byte. byte < 256) bytes
    → base32_decode (base32_encode bytes) ≡ some bytes
unfolding base32_decode base32_encode
base32_decode-encode bytes h =
    rw (cleaned-letters (encode_from bytes 0 0) (encode_from-letters bytes 0 0))
      ((stages bytes h).0 0 0)
