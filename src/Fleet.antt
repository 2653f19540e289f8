-- ===== src/Fleet.antt =====
-- src/domain/ports/fleet_registry.port.ts, src/types/fleet.type.ts and
-- src/domain/errors/fleet_registry.error.ts: the registry of drivers, which is another service.
pub mod Grpc
use kinetix_identity_service.Prelude.{ℕ, String, Bool, true, false, ◌≡◌, refl, ◌⊎◌, inl, inr}
use kinetix_identity_service.World.{World, Failure}

pub data FleetFailureKind : Type 0 where
  fleet_refused fleet_fault fleet_unknown : FleetFailureKind

-- `FleetFailure`, less its message
pub record FleetFailure : Type 0 where
  pub kind : FleetFailureKind
  pub code : String

unfoldable pub definitely_did_nothing : FleetFailureKind → Bool
definitely_did_nothing fleet_unknown = false
definitely_did_nothing _ = true

unfoldable pub is_fault : FleetFailureKind → Bool
is_fault fleet_fault = true
is_fault _ = false

pub record FleetActivation : Type 0 where
  pub driver_id : ℕ
  pub already_active : Bool

pub record FleetRegistration : Type 0 where
  pub driver_id : ℕ
  pub already_registered : Bool

pub record RegisterDriverCommand : Type 0 where
  pub principal_id : ℕ
  pub vehicle_plate : String
  pub capacity_kg : ℕ

-- A call answers, fails with a `FleetRegistryError`, or throws another error.
pub data FleetAnswer (A : Type 0) : Type 0 where
  answered : A → FleetAnswer A
  failed_with : FleetFailure → FleetAnswer A
  broke : Failure → FleetAnswer A

pub FleetAnswer-cases :
    {A : Type 0} (a : FleetAnswer A)
    → ((answer : A) × (a ≡ answered answer))
      ⊎ (((failure : FleetFailure) × (a ≡ failed_with failure))
          ⊎ ((failure : Failure) × (a ≡ broke failure)))
FleetAnswer-cases (answered a) = inl (a, refl)
FleetAnswer-cases (failed_with f) = inr (inl (f, refl))
FleetAnswer-cases (broke f) = inr (inr (f, refl))

-- `FleetRegistryPort`. The fleet keeps its own state, so its answer may depend on when it is asked.
pub record FleetRegistry : Type 0 where
  pub register_driver : RegisterDriverCommand → World → FleetAnswer FleetRegistration
  pub activate_driver : ℕ → World → FleetAnswer FleetActivation
