-- ===== src/Domain/SignInPolicy.antt =====
-- src/domain/sign_in_attempt_policy.ts: the delay that an account's attempts earn. A `Date` is its
-- milliseconds since the epoch.
pub mod Delay
use Prim.Native.Nat.{min, max}
use kinetix_identity_service.Prelude.{
  ℕ, ◌+◌, ◌-◌, ◌*◌, ◌/◌, ◌^◌, Bool, true, false, Option, none, some, ltb, leb, if◌then◌else◌,
}

abbrev pub attempts_before_delay : ℕ
attempts_before_delay = 5

abbrev pub first_delay_seconds : ℕ
first_delay_seconds = 1

abbrev pub longest_delay_seconds : ℕ
longest_delay_seconds = 60

abbrev pub forget_after_seconds : ℕ
forget_after_seconds = 3600

abbrev pub attempts_per_challenge : ℕ
attempts_per_challenge = 5

pub record AttemptState : Type 0 where
  pub attempts : ℕ
  pub last_attempt_at : ℕ
  pub delayed_until : ℕ

pub data AttemptAdmission : Type 0 where
  admitted : (attempts delayed_until : ℕ) → AttemptAdmission
  delayed : (retry_after_seconds : ℕ) → AttemptAdmission

abbrev pub is_admitted : AttemptAdmission → Bool
is_admitted (admitted attempts delayed_until) = true
is_admitted (delayed retry_after_seconds) = false

unfoldable pub delay_seconds_after : ℕ → ℕ
delay_seconds_after attempts =
    if ltb attempts attempts_before_delay
    then 0
    else min longest_delay_seconds
        (first_delay_seconds * 2 ^ min (attempts - attempts_before_delay) 30)

-- `Math.ceil(ms / 1000)`
abbrev pub seconds_up : ℕ → ℕ
seconds_up ms = (ms + 999) / 1000

unfoldable pub admit_first : ℕ → AttemptAdmission
admit_first now = admitted 1 (now + delay_seconds_after 1 * 1000)

-- A difference of instants is compared with a positive number only, so stopping at 0 is exact.
unfoldable pub admit_next : AttemptState → ℕ → AttemptAdmission
admit_next state now =
    if ltb now state.delayed_until
    then delayed (max 1 (seconds_up (state.delayed_until - now)))
    else let attempts =
        if leb (forget_after_seconds * 1000) (now - state.last_attempt_at)
        then 1
        else state.attempts + 1 in
      admitted attempts (now + delay_seconds_after attempts * 1000)

unfoldable pub admit_attempt : Option AttemptState → ℕ → AttemptAdmission
unfolding admit_first admit_next
admit_attempt none now = admit_first now
admit_attempt (some state) now = admit_next state now
