-- ===== src/Passkeys/Challenges.antt =====
-- A challenge of a passkey is answered once, and the number of passkeys stays within its limit.
use kinetix_identity_service.Prelude.{
  ℕ, ◌≤◌, ◌<◌, ◌≡◌, refl, Bool, false, none, List, [], ◌∷◌, arith,
}
use kinetix_identity_service.Prelude.Tables.{find_where, any_where, count_where, update_where}
use kinetix_identity_service.World.{World, Passkey, PasskeyChallenge, ok, transaction}
use kinetix_identity_service.Passkeys.{
  NewPasskey, of_user, add, add_within, insert_passkey, is_open, spent_at, spend, spend_sign_in,
  is_sign_in, advances, used_with, record_use,
}

pub closed-update :
    (which : PasskeyChallenge → Bool) (user_id now later : ℕ) (rows : List PasskeyChallenge)
    → now ≤ later
    → ((row : PasskeyChallenge) → which (spent_at now row) ≡ which row)
    → find_where
        (is_open which user_id later)
        (update_where (is_open which user_id now) (spent_at now) rows)
      ≡ none
closed-update which user_id now later [] le same = refl
closed-update which user_id now later (row ∷ rows) le same =
    ground (arith, closed-update which user_id now later rows le same, same row)

spend_once :
    (which : PasskeyChallenge → Bool) (user_id later : ℕ) (w : World)
    → w.db_now ≤ later
    → ((row : PasskeyChallenge) → which (spent_at w.db_now row) ≡ which row)
    → (spend which user_id (record (spend which user_id w).1 { db_now = later })).0 ≡ ok none
unfolding spend
spend_once which user_id later w le same =
    ground (arith, closed-update which user_id w.db_now later w.passkey_challenges le same)

-- A sign-in's passkey challenge is spent by being asked for: in the state that this leaves, at the same time
-- or later, no challenge of that sign-in is open for the account.
pub spend_sign_in_once :
    (jti user_id later : ℕ) (w : World)
    → w.db_now ≤ later
    → (spend_sign_in jti user_id (record (spend_sign_in jti user_id w).1 { db_now = later })).0
      ≡ ok none
unfolding spend_sign_in
spend_sign_in_once jti user_id later w le =
    spend_once (is_sign_in jti) user_id later w le (λ row. refl)

-- An account that holds no more passkeys than the limit holds no more after an addition, whichever
-- account the addition is for.
pub add-within :
    (passkey : NewPasskey) (most user_id : ℕ) (w : World)
    → count_where (of_user user_id) w.passkeys ≤ most
    → count_where (of_user user_id) (add passkey most w).1.passkeys ≤ most
unfolding add add_within insert_passkey transaction
add-within passkey most user_id w h = ground arith

regressed-update :
    (passkey_id first second : ℕ) (backed_up : Bool) (now : ℕ) (rows : List Passkey)
    → second ≤ first
    → 0 < first
    → any_where
        (advances passkey_id second)
        (update_where (advances passkey_id first) (used_with first backed_up now) rows)
      ≡ false
regressed-update passkey_id first second backed_up now [] le pos = refl
regressed-update passkey_id first second backed_up now (row ∷ rows) le pos =
    ground (arith, regressed-update passkey_id first second backed_up now rows le pos)

-- Once a use of a passkey with a counter above 0 has been presented, a use whose counter is not above
-- it is refused in the state that this leaves.
pub record_use_once :
    (passkey_id first second : ℕ) (backed_up again : Bool) (w : World)
    → second ≤ first
    → 0 < first
    → (record_use passkey_id second again (record_use passkey_id first backed_up w).1).0 ≡ ok false
unfolding record_use
record_use_once passkey_id first second backed_up again w le pos =
    ground (arith, regressed-update passkey_id first second backed_up w.db_now w.passkeys le pos)
