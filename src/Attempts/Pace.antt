-- ===== src/Attempts/Pace.antt =====
-- How many attempts on one account an hour can hold.
use kinetix_identity_service.Prelude.{
  ℕ, zero, suc, ◌+◌, ◌*◌, ◌≤◌, ◌<◌, ◌≡◌, refl, String, Option, none, some, List, [], ◌∷◌, arith,
  str_eq_refl, inl, inr, ◌⊎◌,
}
use native.Mathlib.Nat.{add-zero, zero-add, add_assoc}
use native.Mathlib.Decide.{dec_le}
use native.Mathlib.Numerals.{add-one}
use kinetix_identity_service.World.{World, Outcome, ok, err}
use kinetix_identity_service.Domain.SignInPolicy.{
  AttemptState, AttemptAdmission, admitted, delayed, admit_attempt, delay_seconds_after,
}
use kinetix_identity_service.Domain.SignInPolicy.Delay.{delay_seconds_after_mono}
use kinetix_identity_service.Attempts.{claim_account_attempt}
use kinetix_identity_service.Attempts.Rows.{state_at}
use kinetix_identity_service.Attempts.Account.{after, claim_account_attempt-refines}

abbrev count_admitted : AttemptAdmission → ℕ
count_admitted (admitted attempts until) = 1
count_admitted (delayed retry) = 0

abbrev count_answer : Outcome AttemptAdmission → ℕ
count_answer (ok admission) = count_admitted admission
count_answer (err e) = 0

-- Of the attempts on an account that come when the database's clock shows `times`, how many are
-- admitted.
pub claims : String → List ℕ → World → ℕ
claims key [] w = 0
claims key (t ∷ times) w =
    let (answer, w') = claim_account_attempt key admit_attempt (record w { db_now = t }) in
    count_answer answer + claims key times w'

-- The same on the account's state.
admissions : Option AttemptState → List ℕ → ℕ
admissions o [] = 0
admissions o (t ∷ times) =
    let admission = admit_attempt o t in
    count_admitted admission + admissions (after admission t o) times

claims-eq-admissions :
    (key : String) (times : List ℕ) (w : World)
    → claims key times w ≡ admissions (state_at key w.account_attempts) times
unfolding claims admissions
claims-eq-admissions key [] w = refl
claims-eq-admissions key (t ∷ times) w =
    let v : World = record w { db_now = t } in
    let (answered, states) = claim_account_attempt-refines key v in
    let w' = (claim_account_attempt key admit_attempt v).1 in
    rw answered (rw (claims-eq-admissions key times w') (rw (states key) (rw str_eq_refl refl)))

-- The delays that the first `k` attempts earn, in seconds.
pub earned : ℕ → ℕ
earned zero = 0
earned (suc k) = earned k + delay_seconds_after k

-- The times rise from `lo` and stay below `end`.
abbrev pub Within : ℕ → ℕ → List ℕ → Type 0
Within lo end [] = Unit {0}
Within lo end (t ∷ times) = (lo ≤ t) × (t < end) × Within t end times

-- After `k` attempts since `start`: the account is held for the delay of `k` attempts at least.
abbrev Paced : ℕ → ℕ → ℕ → Option AttemptState → Type 0
Paced start lo zero o = Unit {0}
Paced start lo (suc k) none = ⊥
Paced start lo (suc k) (some s) =
    (suc k ≤ s.attempts)
    × (start + earned (suc k) * 1000 ≤ s.last_attempt_at)
    × (s.last_attempt_at + delay_seconds_after (suc k) * 1000 ≤ s.delayed_until)
    × (s.last_attempt_at ≤ lo)

delay-zero : delay_seconds_after 0 ≡ 0
unfolding delay_seconds_after
delay-zero = refl

admitted-Paced :
    (start lo t k : ℕ) (o : Option AttemptState) (n until : ℕ)
    → start ≤ lo
    → lo ≤ t
    → t < start + 3600000
    → Paced start lo k o
    → admit_attempt o t ≡ admitted n until
    → Paced start t
        (suc k)
        (some (record { attempts = n; last_attempt_at = t; delayed_until = until }))
unfolding admit_attempt earned
admitted-Paced start lo t zero none n until a b c p e = ground (arith, delay-zero)
admitted-Paced start lo t zero (some s) n until a b c p e =
    ground (arith, delay-zero, delay_seconds_after_mono 1 n)
admitted-Paced start lo t (suc k) none n until a b c p e = elim p [ ]
admitted-Paced start lo t (suc k) (some s) n until a b c p e =
    ground (arith, delay_seconds_after_mono (suc (suc k)) n)

Paced-bound :
    (start lo k : ℕ) (o : Option AttemptState)
    → start ≤ lo
    → lo < start + 3600000
    → Paced start lo k o
    → earned k * 1000 < 3600000
unfolding earned
Paced-bound start lo zero o a b p = omega arith
Paced-bound start lo (suc k) none a b p = elim p [ ]
Paced-bound start lo (suc k) (some s) a b p = omega arith

Paced-later :
    (start lo t k : ℕ) (o : Option AttemptState) → lo ≤ t → Paced start lo k o → Paced start t k o
Paced-later start lo t zero o h p = tt
Paced-later start lo t (suc k) none h p = p
Paced-later start lo t (suc k) (some s) h p = (p.0, p.1, p.2, omega arith)

Admission-cases :
    (a : AttemptAdmission)
    → ((n : ℕ) × (until : ℕ) × (a ≡ admitted n until)) ⊎ ((r : ℕ) × (a ≡ delayed r))
Admission-cases (admitted n until) = inl (n, until, refl)
Admission-cases (delayed r) = inr (r, refl)

admissions-Paced :
    (start lo k : ℕ) (o : Option AttemptState) (times : List ℕ)
    → start ≤ lo
    → lo < start + 3600000
    → Within lo (start + 3600000) times
    → Paced start lo k o
    → earned (k + admissions o times) * 1000 < 3600000
unfolding admissions
admissions-Paced start lo k o [] a b w p = rw add-zero (Paced-bound start lo k o a b p)
admissions-Paced start lo k o (t ∷ times) a b w p = elim (Admission-cases (admit_attempt o t)) [
  | inl (n, until, e) ↦
      rw (e, count_admitted, after)
        (rw (← add_assoc k 1) (
          rw (add-one k) (
            admissions-Paced start t (suc k) _ times (omega arith) w.1 w.2
              (admitted-Paced start lo t k o n until a w.0 w.1 p e))))
  | inr (retry, e) ↦
      rw (e, count_admitted, after)
        (rw zero-add (
          admissions-Paced start t k o times (omega arith) w.1 w.2
            (Paced-later start lo t k o w.0 p)))
]

-- The delays that 70 attempts earn are longer than an hour.
earned-seventy : earned 70 ≡ 3603
unfolding earned delay_seconds_after
earned-seventy = refl

earned_mono : (m n : ℕ) → m ≤ n → earned m ≤ earned n
unfolding earned
earned_mono zero n h = omega arith
earned_mono (suc m) zero h = elim h [ ]
earned_mono (suc m) (suc n) h =
    omega (arith, earned_mono m n (omega arith), delay_seconds_after_mono m n (omega arith))

earned-long : (k : ℕ) → 70 ≤ k → 3603 ≤ earned k
earned-long k h = omega (arith, earned_mono 70 k h, earned-seventy)

few : (k : ℕ) → earned k * 1000 < 3600000 → k ≤ 69
few k h = elim (dec_le k 69) [ yes small ↦ small | no big ↦ absurd (omega (arith, earned-long k)) ]

-- Whatever an account's state, of the claims on it that come within an hour of each other, in order
-- of time and with nothing else done to its attempts among them, at most 69 are admitted.
pub claims-le :
    (key : String) (start : ℕ) (times : List ℕ) (w : World)
    → Within start (start + 3600000) times
    → claims key times w ≤ 69
claims-le key start times w h =
    let o = state_at key w.account_attempts in
    let paced = admissions-Paced start start 0 o times (omega arith) (omega arith) h tt in
    rw claims-eq-admissions (few (admissions o times) (rw zero-add at paced))
