-- ===== src/ClientGate.antt =====
-- src/application/services/client_gate.service.ts: which client a request comes from. The verifier of
-- a client's proof is an argument; what the service counts and logs is left out.
pub mod Admitted
use kinetix_identity_service.Prelude.{
  String, Bool, true, false, Option, none, some, List, [], ◌∷◌, str_eq, if◌then◌else◌,
}
use kinetix_identity_service.Prelude.Tables.{find_where}
use kinetix_identity_service.Prelude.Text.{Text, codes, trim}
use kinetix_identity_service.Domain.SessionClient.{RequestClient, named, unnamed}
use kinetix_identity_service.World.{
  Request, Done, Failure, bad_request, unauthorized, unavailable, internal, ◌>>=◌, ◌>>◌, pure,
  throw,
}

pub data RegisteredClient : Type 0 where
  unproved : (name : String) → RegisteredClient
  attested : (name : String) → (app_ids : List String) → RegisteredClient

abbrev pub name_of : RegisteredClient → String
name_of (unproved name) = name
name_of (attested name app_ids) = name

-- The clients by name, and whether a request that names none is refused; the project's number is the
-- verifier's.
pub record ClientRegistry : Type 0 where
  pub clients : List RegisteredClient
  pub refuses_unnamed : Bool

pub data ProofRefusalReason : Type 0 where
  missing malformed invalid_signature expired not_yet_valid wrong_project : ProofRefusalReason
  wrong_app_id keys_unavailable : ProofRefusalReason

pub data ClientRefusalReason : Type 0 where
  proof : ProofRefusalReason → ClientRefusalReason
  unknown_client client_required client_mismatch : ClientRefusalReason

pub data ProofVerdict : Type 0 where
  valid verdict_unavailable : ProofVerdict
  invalid : ProofRefusalReason → ProofVerdict

-- `ClientProofVerifierPort.verify`
abbrev pub Verifier : Type 0
Verifier = Text → List String → Request ProofVerdict

-- `string | string[] | undefined`
pub data HeaderValue : Type 0 where
  absent several : HeaderValue
  single : String → HeaderValue

pub record ClientHeaders : Type 0 where
  pub client : HeaderValue
  pub app_check : HeaderValue

unfoldable pub refusal_of : ClientRefusalReason → Failure
refusal_of unknown_client = bad_request "UNKNOWN_CLIENT"
refusal_of client_required = bad_request "CLIENT_REQUIRED"
refusal_of (proof missing) = unauthorized "CLIENT_PROOF_REQUIRED"
refusal_of (proof keys_unavailable) = unavailable "CLIENT_PROOF_UNAVAILABLE"
refusal_of client_mismatch = unauthorized "CLIENT_MISMATCH"
refusal_of (proof reason) = unauthorized "CLIENT_PROOF_INVALID"

abbrev pub proof_text : HeaderValue → Text
proof_text (single header) = trim (codes header)
proof_text _ = []

unfoldable pub accept_verdict : ProofVerdict → Request Done
accept_verdict valid = pure tt
accept_verdict verdict_unavailable = throw (refusal_of (proof keys_unavailable))
accept_verdict (invalid reason) = throw (refusal_of (proof reason))

unfoldable pub prove : Option Verifier → List String → Text → Request Done
prove verifier app_ids [] = throw (refusal_of (proof missing))
prove none app_ids (c ∷ s) =
    throw (internal "the client uses app_check, and no App Check verifier was given")
prove (some verify) app_ids (c ∷ s) = do verdict ← verify (c ∷ s) app_ids; accept_verdict verdict

module _ (registry : ClientRegistry) (verifier : Option Verifier) where
  abbrev pub is_named : String → RegisteredClient → Bool
  is_named name client = str_eq (name_of client) name

  -- `this.registry.clients.get(presented)`
  abbrev pub registered : HeaderValue → Option RegisteredClient
  registered (single presented) = find_where (is_named presented) registry.clients
  registered _ = none

  unfoldable pub admit_registered : Option RegisteredClient → HeaderValue → Request RequestClient
  admit_registered none header = throw (refusal_of unknown_client)
  admit_registered (some (unproved name)) header = pure (named name)
  admit_registered (some (attested name app_ids)) header = do
    prove verifier app_ids (proof_text header)
    pure (named name)

  unfoldable pub admit_unnamed : Bool → Request RequestClient
  admit_unnamed true = throw (refusal_of client_required)
  admit_unnamed false = pure unnamed

  unfoldable pub admit_presented : HeaderValue → HeaderValue → Request RequestClient
  admit_presented absent header = admit_unnamed registry.refuses_unnamed
  admit_presented presented header = admit_registered (registered presented) header

  unfoldable pub admit : ClientHeaders → Request RequestClient
  admit headers = admit_presented headers.client headers.app_check
