-- ===== src/AppCheckKeys.antt =====
-- src/infrastructure/attestation/app_check_key_set.ts: the published keys, which are kept for a while.
-- One request runs at a time, so no fetch is in flight when it starts, and it sees one instant.
use kinetix_identity_service.Prelude.{
  ℕ, ◌-◌, ◌*◌, String, Bool, true, false, ◌&&◌, ◌||◌, not, Option, none, some, List, [], ◌∷◌, ltb,
  leb, if◌then◌else◌, str_eq, holds,
}
use kinetix_identity_service.Prelude.Tables.{find_where}

abbrev pub keys_live_ms : ℕ
keys_live_ms = 6 * 60 * 60 * 1000

abbrev pub refetch_interval_ms : ℕ
refetch_interval_ms = 10 * 1000

abbrev pub shortest_modulus_bits : ℕ
shortest_modulus_bits = 2048

-- A field of a JWKS entry: left out, a text, or of another type.
pub data JsonField : Type 0 where
  left_out other_typed : JsonField
  text : String → JsonField

-- An entry of a JWKS document; where only a text counts, another field is none.
pub record JsonWebKey : Type 0 where
  pub kty : Option String
  pub use_for : JsonField
  pub alg : JsonField
  pub kid : Option String
  pub modulus : Option String
  pub exponent : Option String

-- `PublishedSigningKey | null`, or an error.
pub data Published (Key : Type 0) : Type 0 where
  broken skipped : Published Key
  published : String → Key → Published Key

-- `createPublicKey` of node's crypto: it answers the key and the length of its modulus, or throws.
abbrev pub KeyMaker : Type 0 → Type 0
KeyMaker Key = String → String → Option (Key × ℕ)

abbrev pub is_text : String → Option String → Bool
is_text wanted field = holds (str_eq wanted) field

abbrev pub absent_or : String → JsonField → Bool
absent_or wanted left_out = true
absent_or wanted other_typed = false
absent_or wanted (text given) = str_eq given wanted

abbrev pub Keys : Type 0 → Type 0
Keys Key = List (String × Key)

module _ {Key : Type 0} (make : KeyMaker Key) where
  unfoldable pub long_enough : String → Option (Key × ℕ) → Published Key
  long_enough kid none = broken
  long_enough kid (some (key, bits)) =
      if ltb bits shortest_modulus_bits then broken else published kid key

  unfoldable pub key_with : String → Option String → Option String → Published Key
  key_with kid (some n) (some e) = long_enough kid (make n e)
  key_with kid _ _ = broken

  unfoldable pub signing_key_named : JsonWebKey → Option String → Published Key
  signing_key_named jwk none = skipped
  signing_key_named jwk (some kid) =
      if str_eq kid ""
        || not (is_text "RSA" jwk.kty && absent_or "sig" jwk.use_for && absent_or "RS256" jwk.alg)
      then skipped
      else key_with kid jwk.modulus jwk.exponent

  -- An entry that is no object is none.
  unfoldable pub signing_key_of : Option JsonWebKey → Published Key
  signing_key_of none = broken
  signing_key_of (some jwk) = signing_key_named jwk jwk.kid

  unfoldable pub keep_key : Published Key → Keys Key → Option (Keys Key)
  keep_key broken keys = none
  keep_key skipped keys = some keys
  keep_key (published kid key) keys = some ((kid, key) ∷ keys)

  -- The loop over the entries; a later key of the same id is found first.
  unfoldable pub collect : List (Option JsonWebKey) → Option (Keys Key) → Option (Keys Key)
  collect [] kept = kept
  collect (jwk ∷ entries) none = none
  collect (jwk ∷ entries) (some keys) = collect entries (keep_key (signing_key_of jwk) keys)

  -- A document without an array of entries is none.
  unfoldable pub keys_of : Option (List (Option JsonWebKey)) → Option (Keys Key)
  keys_of none = none
  keys_of (some entries) = elim (collect entries (some [])) [
    | none ↦ none
    | some [] ↦ none
    | some (key ∷ keys) ↦ some (key ∷ keys)
  ]

-- `AppCheckKeySet`
pub record KeySet (Key : Type 0) : Type 0 where
  pub keys : Option (Keys Key)
  pub fetched_at_ms : ℕ
  pub last_attempt_at_ms : Option ℕ
  pub last_attempt_failed : Bool

-- `SigningKeyLookup`
pub data SigningKeyLookup (Key : Type 0) : Type 0 where
  key_found : Key → SigningKeyLookup Key
  key_unknown lookup_unavailable : SigningKeyLookup Key

abbrev pub is_recent : ℕ → Option ℕ → Bool
is_recent now none = false
is_recent now (some at) = ltb (now - at) refetch_interval_ms

module _ {Key : Type 0} where
  unfoldable pub live_keys : Option (Keys Key) → ℕ → Option (Keys Key)
  live_keys none age = none
  live_keys (some keys) age = if leb keys_live_ms age then none else some keys

  unfoldable pub fresh_keys : ℕ → KeySet Key → Option (Keys Key)
  fresh_keys now set = live_keys set.keys (now - set.fetched_at_ms)

  -- `keys.get(kid)`
  abbrev pub get_key : String → Keys Key → Option Key
  get_key kid keys = elim (find_where (λ entry. str_eq entry.0 kid) keys) [
    | none ↦ none
    | some entry ↦ some entry.1
  ]

  abbrev pub get_fresh : String → Option (Keys Key) → Option Key
  get_fresh kid none = none
  get_fresh kid (some keys) = get_key kid keys

  -- `fetchKeys`: what the download comes to, `none` where it throws.
  unfoldable pub fetch_keys : ℕ → Option (Keys Key) → KeySet Key → KeySet Key
  fetch_keys now none set = record set { last_attempt_failed = true }
  fetch_keys now (some keys) set = record set {
    keys = some keys;
    fetched_at_ms = now;
    last_attempt_failed = false;
  }

  unfoldable pub refetch : ℕ → Option (Keys Key) → KeySet Key → KeySet Key
  refetch now download set =
      if is_recent now set.last_attempt_at_ms
      then set
      else fetch_keys now download (record set { last_attempt_at_ms = some now })

  unfoldable pub lookup_in : String → Bool → Option (Keys Key) → SigningKeyLookup Key
  lookup_in kid failed none = lookup_unavailable
  lookup_in kid failed (some keys) = elim (get_key kid keys) [
    | none ↦ if failed then lookup_unavailable else key_unknown
    | some key ↦ key_found key
  ]

  unfoldable pub key_or_refetch :
      String → ℕ → Option (Keys Key) → KeySet Key → Option Key → SigningKeyLookup Key × KeySet Key
  key_or_refetch kid now download set (some key) = (key_found key, set)
  key_or_refetch kid now download set none =
      let set' = refetch now download set in
      (lookup_in kid set'.last_attempt_failed (fresh_keys now set'), set')

  unfoldable pub key_for :
      String → ℕ → Option (Keys Key) → KeySet Key → SigningKeyLookup Key × KeySet Key
  key_for kid now download set =
      key_or_refetch kid now download set (get_fresh kid (fresh_keys now set))
