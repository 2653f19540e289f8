-- ===== src/Domain/SignInPolicy/Delay.antt =====
-- The delay: its bounds and growth, and what an attempt that comes too early is told.
use Prim.Native.Nat.{min}
use native.Mathlib.Nat.{pow-le-pow_right}
use kinetix_identity_service.Prelude.{
  ℕ, ◌+◌, ◌-◌, ◌*◌, ◌^◌, ◌≤◌, ◌<◌, ◌≡◌, arith, some, true, false, ltb, if◌then◌else◌, Bool-cases,
  inl, inr,
}
use kinetix_identity_service.Domain.SignInPolicy.{
  AttemptState, delayed, is_admitted, delay_seconds_after, admit_attempt,
}

pow_mono : (m n : ℕ) → m ≤ n → 2 ^ m ≤ 2 ^ n
pow_mono m n h = pow-le-pow_right (omega arith) h

-- The delay never falls as the attempts grow.
pub delay_seconds_after_mono : (m n : ℕ) → m ≤ n → delay_seconds_after m ≤ delay_seconds_after n
unfolding delay_seconds_after
delay_seconds_after_mono m n h = ground (arith, pow_mono (min (m - 5) 30) (min (n - 5) 30))

-- Fewer than five attempts earn no delay; the fifth earns one second, and each one more, up to the
-- tenth, doubles it; from the eleventh on it is a minute.
pub delay_seconds_after_cases :
    (n : ℕ) → delay_seconds_after n ≡ (if ltb n 5 then 0 else if ltb n 11 then 2 ^ (n - 5) else 60)
unfolding delay_seconds_after
delay_seconds_after_cases n = elim (Bool-cases (ltb n 11)) [
  | inl few ↦
      let few' : min (n - 5) 30 ≡ n - 5 = ground arith in
      rw few' (ground (arith, pow_mono (n - 5) 5))
  | inr many ↦ ground (arith, pow_mono 6 (min (n - 5) 30))
]

-- An attempt that is refused comes while the delay runs. It is told the least whole number of
-- seconds, one or more, after which the account is let in again: an attempt at that instant or later
-- is admitted, and one that comes a second earlier than that, or before, is refused.
pub retry_after_exact :
    (state : AttemptState) (now r until early : ℕ)
    → admit_attempt (some state) now ≡ delayed r
    → now + r * 1000 ≤ until
    → early + 1000 ≤ now + r * 1000
    → (now < state.delayed_until)
      × (1 ≤ r)
      × (is_admitted (admit_attempt (some state) until) ≡ true)
      × (is_admitted (admit_attempt (some state) early) ≡ false)
unfolding admit_attempt
retry_after_exact state now r until early h k l =
    (ground arith, ground arith, ground arith, ground arith)
