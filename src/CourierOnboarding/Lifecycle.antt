-- ===== src/CourierOnboarding/Lifecycle.antt =====
-- The course of an application over any sequence of requests.
use kinetix_identity_service.Prelude.{ℕ, true, Option, none, some, ◌≡◌, refl, subst}
use kinetix_identity_service.CourierApplications.{CourierFiling, record_filed}
use kinetix_identity_service.CourierApplications.Filing.{status_at, may_move, record_filed-moves}
use kinetix_identity_service.CourierOnboarding.{approve_courier, reject_courier}
use kinetix_identity_service.CourierOnboarding.Approval.{
  approve_courier-moves, reject_courier-moves,
}
use kinetix_identity_service.Fleet.{FleetRegistry}
use kinetix_identity_service.World.{World, CourierApplicationStatus, pending, approved, rejected}

-- The states that requests lead to: approvals, rejections, filings, and whatever leaves the
-- applications alone. Each may succeed or fail.
pub data Course (fleet : FleetRegistry) (w : World) : World → Type 0 where
  starts : Course fleet w w
  approves :
      {w' : World}
      → Course fleet w w'
      → (principal_id : ℕ) → Course fleet w (approve_courier fleet principal_id w').1
  rejects :
      {w' : World}
      → Course fleet w w'
      → (principal_id : ℕ) → Course fleet w (reject_courier principal_id w').1
  files :
      {w' : World}
      → Course fleet w w'
      → (filing : CourierFiling) → Course fleet w (record_filed filing w').1
  passes :
      {w' : World}
      → Course fleet w w'
      → (w'' : World) → w''.courier_applications ≡ w'.courier_applications
      → Course fleet w w''

approved-moves :
    (s : Option CourierApplicationStatus) → may_move (some approved) s ≡ true → s ≡ some approved
approved-moves none h = cc
approved-moves (some pending) h = cc
approved-moves (some approved) h = refl
approved-moves (some rejected) h = cc

stays :
    (user_id : ℕ) (w w' : World)
    → status_at user_id w ≡ some approved
    → may_move (status_at user_id w) (status_at user_id w') ≡ true
    → status_at user_id w' ≡ some approved
stays user_id w w' h moves = approved-moves (status_at user_id w') (
    subst (λ (s : Option CourierApplicationStatus). may_move s (status_at user_id w') ≡ true) h
      moves)

-- An account whose courier application is approved keeps it approved, whatever approvals, rejections
-- and filings of any account follow, whether they succeed or fail and whatever the fleet answers.
pub approved_stays :
    (fleet : FleetRegistry) (user_id : ℕ) (w w' : World)
    → Course fleet w w'
    → status_at user_id w ≡ some approved
    → status_at user_id w' ≡ some approved
approved_stays fleet user_id w _ starts h = h
approved_stays fleet user_id w _ (approves {w' = v} course principal_id) h =
    stays user_id v (approve_courier fleet principal_id v).1
      (approved_stays fleet user_id w v course h)
      (approve_courier-moves user_id fleet principal_id v)
approved_stays fleet user_id w _ (rejects {w' = v} course principal_id) h =
    stays user_id v (reject_courier principal_id v).1 (approved_stays fleet user_id w v course h)
      (reject_courier-moves user_id principal_id v)
approved_stays fleet user_id w _ (files {w' = v} course filing) h =
    stays user_id v (record_filed filing v).1 (approved_stays fleet user_id w v course h)
      (record_filed-moves user_id filing v)
approved_stays fleet user_id w w' (passes {w' = v} course _ same) h =
    rw same (approved_stays fleet user_id w v course h)
