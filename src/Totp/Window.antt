-- ===== src/Totp/Window.antt =====
-- Which codes an account's secret accepts.
use kinetix_identity_service.Prelude.{
  ℕ, zero, suc, ◌+◌, ◌/◌, ◌≤◌, ◌<◌, ◌≡◌, ◌≢◌, ◌⊎◌, refl, true, Option, none, some, [], ◌∷◌, arith,
  inl, inr, Option-cases, Bool-cases, ◌==◌, subst, sym,
}
use kinetix_identity_service.Prelude.Text.{Text, text_eq, trim}
use kinetix_identity_service.Crypto.{Crypto}
use kinetix_identity_service.Totp.{
  period_seconds, code_at, try_step, matched_step, accepted_step, is_six_digits,
}

text_eq-≡ : (s t : Text) → text_eq s t ≡ true → s ≡ t
unfolding text_eq
text_eq-≡ [] [] h = refl
text_eq-≡ [] (d ∷ t) h = ground arith
text_eq-≡ (c ∷ s) [] h = ground arith
text_eq-≡ (c ∷ s) (d ∷ t) h = ground (arith, text_eq-≡ s t)

text_eq_refl : (s : Text) → text_eq s s ≡ true
unfolding text_eq
text_eq_refl [] = refl
text_eq_refl (c ∷ s) = ground (arith, text_eq_refl s)

module _ (crypto : Crypto) where
  -- What one round of the loop makes of the step that matched so far.
  try_step_cases :
      (secret candidate : Text) (step : ℕ) (before : Option (Option ℕ)) (found : ℕ)
      → try_step crypto secret candidate step before ≡ some (some found)
      → ((found ≡ step) × (code_at crypto secret step ≡ some candidate))
        ⊎ ((before ≡ some (some found)) × (code_at crypto secret step ≢ some candidate))
  unfolding try_step
  try_step_cases secret candidate step none found h = ground arith
  try_step_cases secret candidate step (some matched) found h =
      elim (Option-cases (code_at crypto secret step)) [
        | inl e ↦ ground arith
        | inr (actual, e) ↦ elim (Bool-cases (text_eq actual candidate)) [
          | inl same ↦ inl (ground arith, ground (arith, text_eq-≡ actual candidate same))
          | inr other ↦ inr (ground arith, λ f. ground (arith, text_eq_refl candidate))
        ]
      ]

  -- The step is one of the three around the current one, the code is the one of that step, and of no
  -- later one of the three.
  abbrev pub LatestMatch : Text → Text → ℕ → ℕ → Type 0
  LatestMatch secret candidate current step =
      (step ≤ current + 1)
      × (current ≤ step + 1)
      × (code_at crypto secret step ≡ some candidate)
      × ((later : ℕ)
          → step < later
          → later ≤ current + 1
          → code_at crypto secret later ≢ some candidate)

  later_is :
      (n m : ℕ) (candidate : Option Text) (secret : Text)
      → n ≡ m
      → code_at crypto secret n ≢ candidate
      → code_at crypto secret m ≢ candidate
  later_is n m candidate secret e h = subst (λ (k : ℕ). code_at crypto secret k ≢ candidate) e h

  matched_step-LatestMatch :
      (secret candidate : Text) (current step : ℕ)
      → matched_step crypto secret candidate current ≡ some (some step)
      → LatestMatch secret candidate current step
  unfolding matched_step
  matched_step-LatestMatch secret candidate zero step h = ground arith
  matched_step-LatestMatch secret candidate (suc b) step h =
      let first = try_step crypto secret candidate b (some none) in
      let second = try_step crypto secret candidate (suc b) first in
      elim (try_step_cases secret candidate (suc (suc b)) second step h) [
        | inl (e, found) ↦ (
          omega arith,
          omega arith,
          subst (λ (k : ℕ). code_at crypto secret k ≡ some candidate) (sym e) found,
          λ later lt le. absurd (omega arith),
        )
        | inr (h2, not2) ↦ elim (try_step_cases secret candidate (suc b) first step h2) [
          | inl (e, found) ↦ (
            omega arith,
            omega arith,
            subst (λ (k : ℕ). code_at crypto secret k ≡ some candidate) (sym e) found,
            λ later lt le. later_is (suc (suc b)) later (some candidate) secret (omega arith) not2,
          )
          | inr (h1, not1) ↦ elim (try_step_cases secret candidate b (some none) step h1) [
            | inl (e, found) ↦ (
              omega arith,
              omega arith,
              subst (λ (k : ℕ). code_at crypto secret k ≡ some candidate) (sym e) found,
              λ later lt le. elim (Bool-cases (later == suc b)) [
                | inl is1 ↦ later_is (suc b) later (some candidate) secret (ground arith) not1
                | inr is2 ↦ later_is (suc (suc b)) later (some candidate) secret (ground arith) not2
              ],
            )
            | inr (h0, not0) ↦ absurd (ground arith)
          ]
        ]
      ]

  -- A code that is accepted has six digits once it is trimmed; it is the code of the accepted step,
  -- which is the current one, the one before or the one after, and it is the code of no later one of
  -- the three.
  pub accepted_step-LatestMatch :
      (secret code : Text) (at_ms step : ℕ)
      → accepted_step crypto secret code at_ms ≡ some (some step)
      → (is_six_digits (trim code) ≡ true)
        × LatestMatch secret (trim code) (at_ms / 1000 / period_seconds) step
  unfolding accepted_step
  accepted_step-LatestMatch secret code at_ms step h =
      elim (Bool-cases (is_six_digits (trim code))) [
        | inl six ↦ (
          six,
          matched_step-LatestMatch secret (trim code) (at_ms / 1000 / period_seconds) step
              (ground arith),
        )
        | inr other ↦ ground arith
      ]
