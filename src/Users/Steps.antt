-- ===== src/Users/Steps.antt =====
-- The time steps of the codes that an account has used.
use kinetix_identity_service.Prelude.{ℕ, ◌≤◌, false, List, [], ◌∷◌, ◌≡◌, refl, arith}
use kinetix_identity_service.Prelude.Tables.{any_where, update_where}
use kinetix_identity_service.Users.{accepts_step, stepped, accept_two_factor_step}
use kinetix_identity_service.World.{World, UserRow, ok}

pub accepts_step-stepped :
    (id step later : ℕ) (rows : List UserRow)
    → step ≤ later
    → any_where (accepts_step id step) (update_where (accepts_step id later) (stepped later) rows)
      ≡ false
accepts_step-stepped id step later [] le = refl
accepts_step-stepped id step later (row ∷ rows) le =
    ground (arith, accepts_step-stepped id step later rows le)

-- Once an account has been asked for the step of a code, each step up to that one is refused.
pub accept_two_factor_step_once :
    (id step later : ℕ) (w : World)
    → step ≤ later
    → (accept_two_factor_step id step (accept_two_factor_step id later w).1).0 ≡ ok false
unfolding accept_two_factor_step
accept_two_factor_step_once id step later w le =
    ground (arith, accepts_step-stepped id step later w.users le)
