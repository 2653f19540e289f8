-- ===== src/Fleet/Grpc.antt =====
-- src/infrastructure/mesh/fleet_registry_grpc.adapter.ts: what a call of the fleet comes to.
use kinetix_identity_service.Prelude.{
  ℕ, String, Bool, true, false, Option, none, some, if◌then◌else◌, ◌≡◌, refl, arith, inl, inr,
  Bool-cases,
}
use kinetix_identity_service.World.{World, Failure}
use kinetix_identity_service.Fleet.{
  fleet_refused, fleet_fault, fleet_unknown, definitely_did_nothing, FleetFailure, FleetAnswer,
  answered, failed_with, broke, FleetActivation, FleetRegistration, RegisterDriverCommand,
  FleetRegistry,
}

-- `status` of `@grpc/grpc-js`
pub data GrpcStatus : Type 0 where
  status_ok cancelled unknown invalid_argument deadline_exceeded not_found : GrpcStatus
  already_exists permission_denied resource_exhausted failed_precondition aborted : GrpcStatus
  out_of_range unimplemented internal unavailable data_loss unauthenticated : GrpcStatus

-- `FLEET_${status[code]}`
unfoldable pub failure_code : GrpcStatus → String
failure_code status_ok = "FLEET_OK"
failure_code cancelled = "FLEET_CANCELLED"
failure_code unknown = "FLEET_UNKNOWN"
failure_code invalid_argument = "FLEET_INVALID_ARGUMENT"
failure_code deadline_exceeded = "FLEET_DEADLINE_EXCEEDED"
failure_code not_found = "FLEET_NOT_FOUND"
failure_code already_exists = "FLEET_ALREADY_EXISTS"
failure_code permission_denied = "FLEET_PERMISSION_DENIED"
failure_code resource_exhausted = "FLEET_RESOURCE_EXHAUSTED"
failure_code failed_precondition = "FLEET_FAILED_PRECONDITION"
failure_code aborted = "FLEET_ABORTED"
failure_code out_of_range = "FLEET_OUT_OF_RANGE"
failure_code unimplemented = "FLEET_UNIMPLEMENTED"
failure_code internal = "FLEET_INTERNAL"
failure_code unavailable = "FLEET_UNAVAILABLE"
failure_code data_loss = "FLEET_DATA_LOSS"
failure_code unauthenticated = "FLEET_UNAUTHENTICATED"

-- `certainlyUntouched.includes(error.code)`
unfoldable pub is_certainly_untouched : GrpcStatus → Bool
is_certainly_untouched invalid_argument = true
is_certainly_untouched permission_denied = true
is_certainly_untouched unauthenticated = true
is_certainly_untouched unimplemented = true
is_certainly_untouched _ = false

unfoldable pub transport_failure : GrpcStatus → FleetFailure
transport_failure status = record {
  kind = if is_certainly_untouched status then fleet_fault else fleet_unknown;
  code = failure_code status;
}

-- `RegisterReply` and `ActivateReply`: the last flag is `already_registered` or `already_active`, and
-- `error_code` is that of the error, if there is one.
pub record FleetReply : Type 0 where
  pub success : Bool
  pub driver_id : ℕ
  pub already : Bool
  pub error_code : Option String

unfoldable pub refusal : Option String → FleetFailure
refusal none = record { kind = fleet_refused; code = "FLEET_REFUSED" }
refusal (some code) = record { kind = fleet_refused; code = code }

-- What the generated client does with a call; `connection_broke` is an error of `connect` that is not
-- the adapter's own.
pub data FleetCall : Type 0 where
  contract_missing method_missing : FleetCall
  transport_failed : GrpcStatus → FleetCall
  connection_broke : Failure → FleetCall
  replied : FleetReply → FleetCall

pub record FleetClient : Type 0 where
  pub register_driver : RegisterDriverCommand → World → FleetCall
  pub activate_driver : ℕ → World → FleetCall

module _ {A : Type 0} (answer_of : FleetReply → A) where
  unfoldable pub reply_answer : FleetReply → FleetAnswer A
  reply_answer reply =
      if reply.success then answered (answer_of reply) else failed_with (refusal reply.error_code)

  unfoldable pub call : FleetCall → FleetAnswer A
  call contract_missing =
      failed_with (record { kind = fleet_fault; code = "FLEET_CONTRACT_MISSING" })
  call method_missing = failed_with (record { kind = fleet_fault; code = "FLEET_METHOD_MISSING" })
  call (transport_failed status) = failed_with (transport_failure status)
  call (connection_broke failure) = broke failure
  call (replied reply) = reply_answer reply

abbrev pub registration_of : FleetReply → FleetRegistration
registration_of reply = record { driver_id = reply.driver_id; already_registered = reply.already }

abbrev pub activation_of : FleetReply → FleetActivation
activation_of reply = record { driver_id = reply.driver_id; already_active = reply.already }

unfoldable pub fleet_registry : FleetClient → FleetRegistry
fleet_registry client = record {
  register_driver = λ command w. call registration_of (client.register_driver command w);
  activate_driver = λ principal_id w. call activation_of (client.activate_driver principal_id w);
}

refusal-known : (code : Option String) → definitely_did_nothing (refusal code).kind ≡ true
unfolding refusal definitely_did_nothing
refusal-known none = refl
refusal-known (some code) = refl

reply_answer-known :
    {A : Type 0} (answer_of : FleetReply → A) (reply : FleetReply) (failure : FleetFailure)
    → reply_answer answer_of reply ≡ failed_with failure
    → definitely_did_nothing failure.kind ≡ true
unfolding reply_answer
reply_answer-known answer_of reply failure h = ground (arith, refusal-known reply.error_code)

-- The adapter says that the fleet may have done something only when the transport failed, with a
-- status that is not one of those that leave it certainly untouched.
pub call-unknown :
    {A : Type 0} (answer_of : FleetReply → A) (made : FleetCall) (failure : FleetFailure)
    → call answer_of made ≡ failed_with failure
    → definitely_did_nothing failure.kind ≡ false
    → (status : GrpcStatus) × (made ≡ transport_failed status)
      × (is_certainly_untouched status ≡ false)
unfolding call transport_failure definitely_did_nothing refusal
call-unknown answer_of contract_missing failure h k = ground arith
call-unknown answer_of method_missing failure h k = ground arith
call-unknown answer_of (connection_broke f) failure h k = ground arith
call-unknown answer_of (replied reply) failure h k =
    ground (arith, reply_answer-known answer_of reply failure h)
call-unknown answer_of (transport_failed status) failure h k = (
  status,
  refl,
  elim (Bool-cases (is_certainly_untouched status)) [ inl e ↦ ground (arith, e) | inr e ↦ e ],
)
