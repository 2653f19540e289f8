-- ===== src/AppCheck/Valid.antt =====
-- What a valid proof shows, and how long a key is used.
use kinetix_identity_service.Prelude.{
  ℕ, ◌+◌, ◌-◌, ◌/◌, ◌≤◌, ◌<◌, String, Bool, true, Option, none, some, List, ◌≡◌, refl, arith, inl,
  inr, Option-cases, Bool-cases, holds, leb,
}
use kinetix_identity_service.ClientGate.{valid}
use kinetix_identity_service.AppCheck.{
  AppCheckClaims, SignatureCheck, checked, checked_text, refused_signature, check_broke,
  ProofLibrary, AppCheckProject, is_among, judge_app, judge_times, or_number, judge_dated, judge,
  judge_check, judge_lookup, kid_of, verify_named, verify, clock_leeway_seconds,
}
use kinetix_identity_service.AppCheckKeys.{
  Keys, KeySet, SigningKeyLookup, key_found, key_unknown, lookup_unavailable, keys_live_ms,
  live_keys, fresh_keys, get_key, get_fresh, refetch, lookup_in, key_or_refetch, key_for, is_text,
}
use kinetix_identity_service.World.{ok}

module _ {Key : Type 0} where
  -- A key that is found is one of a set that was fetched less than six hours ago.
  live_keys-found :
      (kid : String) (key : Key) (keys : Option (Keys Key)) (age : ℕ)
      → get_fresh kid (live_keys keys age) ≡ some key
      → (found : Keys Key) × (keys ≡ some found)
        × (get_key kid found ≡ some key)
        × (age < keys_live_ms)
  unfolding live_keys
  live_keys-found kid key none age h = ground arith
  live_keys-found kid key (some keys) age h = elim (Bool-cases (leb keys_live_ms age)) [
    | inl e ↦ ground arith
    | inr e ↦ (keys, refl, ground arith, ground (arith, e))
  ]

  lookup_in-found :
      (kid : String) (key : Key) (failed : Bool) (keys : Option (Keys Key))
      → lookup_in kid failed keys ≡ key_found key
      → get_fresh kid keys ≡ some key
  unfolding lookup_in
  lookup_in-found kid key failed none h = ground arith
  lookup_in-found kid key failed (some keys) h = elim (Option-cases (get_key kid keys)) [
    | inl e ↦ ground (arith, e)
    | inr (k, e) ↦ ground (arith, e)
  ]

  key_for-found :
      (kid : String) (now : ℕ) (download : Option (Keys Key)) (set : KeySet Key) (key : Key)
      → (key_for kid now download set).0 ≡ key_found key
      → get_fresh kid (fresh_keys now (key_for kid now download set).1) ≡ some key
  unfolding key_for key_or_refetch
  key_for-found kid now download set key h =
      elim (Option-cases (get_fresh kid (fresh_keys now set))) [
        | inr (k, e) ↦ ground (arith, e)
        | inl e ↦
            let set' = refetch now download set in
            ground
              (arith, e, lookup_in-found kid key set'.last_attempt_failed (fresh_keys now set'))
      ]

-- What the claims of a valid proof say.
pub record Judged (project : AppCheckProject) (now_ms : ℕ) (claims : AppCheckClaims)
    (app_ids : List String) : Type 0 where
  pub is_issuer : is_text project.issuer claims.iss ≡ true
  pub is_audience : is_among claims.aud project.audience ≡ true
  pub exp : ℕ
  pub iat : ℕ
  pub is_exp : claims.exp ≡ some exp
  pub is_iat : claims.iat ≡ some iat
  pub not_over : now_ms / 1000 < exp
  pub is_issued : iat ≤ now_ms / 1000 + clock_leeway_seconds
  pub has_begun : or_number claims.nbf iat ≤ now_ms / 1000 + clock_leeway_seconds
  pub is_app : holds (is_among app_ids) claims.sub ≡ true

judge_times-valid :
    (now exp iat not_before : ℕ) (sub : Option String) (app_ids : List String)
    → judge_times now exp iat not_before sub app_ids ≡ valid
    → (now < exp)
      × (iat ≤ now + clock_leeway_seconds)
      × (not_before ≤ now + clock_leeway_seconds)
      × (holds (is_among app_ids) sub ≡ true)
unfolding judge_times judge_app
judge_times-valid now exp iat not_before sub app_ids h = ground arith

judge-Judged :
    (project : AppCheckProject) (now_ms : ℕ) (claims : AppCheckClaims) (app_ids : List String)
    → judge project now_ms claims app_ids ≡ valid
    → Judged project now_ms claims app_ids
unfolding judge judge_dated
judge-Judged project now_ms claims app_ids h = elim (Option-cases claims.exp) [
  | inl e ↦ ground (arith, e)
  | inr (exp, e) ↦ elim (Option-cases claims.iat) [
    | inl i ↦ ground (arith, e, i)
    | inr (iat, i) ↦
        let now = now_ms / 1000 in
        let facts : (is_text project.issuer claims.iss ≡ true)
            × (is_among claims.aud project.audience ≡ true)
            × (judge_times now exp iat (or_number claims.nbf iat) claims.sub app_ids ≡ valid) =
          ground (arith, e, i) in
        let times =
          judge_times-valid now exp iat (or_number claims.nbf iat) claims.sub app_ids facts.2 in
        record {
          is_issuer = facts.0;
          is_audience = facts.1;
          exp = exp;
          iat = iat;
          is_exp = e;
          is_iat = i;
          not_over = times.0;
          is_issued = times.1;
          has_begun = times.2;
          is_app = times.3;
        }
  ]
]

-- What a valid proof shows: its header names a key of a set that was fetched less than six hours ago,
-- the library verified it with that key, and its claims are those of the project and of an app.
pub record Proves {Proof Key : Type 0} (library : ProofLibrary Proof Key)
    (project : AppCheckProject) (given : Proof) (app_ids : List String) (now : ℕ)
    (set' : KeySet Key) : Type 0 where
  pub kid : String
  pub is_kid : kid_of (library.header given) ≡ some kid
  pub keys : Keys Key
  pub is_held : set'.keys ≡ some keys
  pub is_live : now - set'.fetched_at_ms < keys_live_ms
  pub key : Key
  pub is_key : get_key kid keys ≡ some key
  pub claims : AppCheckClaims
  pub is_signed : library.verify given key ≡ checked claims
  pub is_judged : Judged project now claims app_ids

module _ {Proof Key : Type 0} (library : ProofLibrary Proof Key) (project : AppCheckProject) where
  judge_check-checked :
      (now : ℕ) (app_ids : List String) (check : SignatureCheck)
      → judge_check library project now app_ids check ≡ ok valid
      → (claims : AppCheckClaims) × (check ≡ checked claims)
        × (judge project now claims app_ids ≡ valid)
  unfolding judge_check
  judge_check-checked now app_ids (checked claims) h = (claims, refl, ground arith)
  judge_check-checked now app_ids checked_text h = ground arith
  judge_check-checked now app_ids refused_signature h = ground arith
  judge_check-checked now app_ids (check_broke failure) h = ground arith

  judge_lookup-found :
      (given : Proof) (now : ℕ) (app_ids : List String) (lookup : SigningKeyLookup Key)
      → judge_lookup library project given now app_ids lookup ≡ ok valid
      → (key : Key) × (lookup ≡ key_found key)
        × (judge_check library project now app_ids (library.verify given key) ≡ ok valid)
  unfolding judge_lookup
  judge_lookup-found given now app_ids (key_found key) h = (key, refl, h)
  judge_lookup-found given now app_ids key_unknown h = ground arith
  judge_lookup-found given now app_ids lookup_unavailable h = ground arith

  -- A client's proof is valid only if its header names a key of the published set, which was fetched
  -- less than six hours ago, and the library verified the proof with that key. Its claims are then
  -- those of the project, not over, issued and begun but for a minute of leeway, and of an app of the
  -- client.
  pub verify-Proves :
      (given : Proof) (app_ids : List String) (now : ℕ) (download : Option (Keys Key))
      (set : KeySet Key)
      → (verify library project given app_ids now download set).0 ≡ ok valid
      → Proves library project given app_ids now
          (verify library project given app_ids now download set).1
  unfolding verify verify_named fresh_keys
  verify-Proves given app_ids now download set h =
      elim (Option-cases (kid_of (library.header given))) [
        | inl e ↦ ground (arith, e)
        | inr (kid, e) ↦
            let lookup = key_for kid now download set in
            let run : verify library project given app_ids now download set
                ≡ (judge_lookup library project given now app_ids lookup.0, lookup.1) =
              rw e refl in
            let (key, found, judged) =
              judge_lookup-found given now app_ids lookup.0 (ground (arith, run, h)) in
            let (claims, signed, ok_claims) =
              judge_check-checked now app_ids (library.verify given key) judged in
            let live =
              live_keys-found kid key lookup.1.keys (now - lookup.1.fetched_at_ms)
                (key_for-found kid now download set key found) in
            rw run (record {
              kid = kid;
              is_kid = e;
              keys = live.0;
              is_held = live.1;
              is_live = live.3;
              key = key;
              is_key = live.2;
              claims = claims;
              is_signed = signed;
              is_judged = judge-Judged project now claims app_ids ok_claims;
            })
      ]
