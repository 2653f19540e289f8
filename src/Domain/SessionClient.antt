-- ===== src/Domain/SessionClient.antt =====
-- src/domain/session_client.ts: which client may renew a session.
use kinetix_identity_service.Prelude.{String, Option, none, some, if◌then◌else◌, str_eq}

pub data RequestClient : Type 0 where
  named : String → RequestClient
  unnamed : RequestClient

pub data SessionClientDecision : Type 0 where
  continues bind mismatch : SessionClientDecision

unfoldable pub session_client_decision : Option String → RequestClient → SessionClientDecision
session_client_decision none (named name) = bind
session_client_decision none unnamed = continues
session_client_decision (some session_client) (named name) =
    if str_eq name session_client then continues else mismatch
session_client_decision (some session_client) unnamed = mismatch

unfoldable pub client_name_of : RequestClient → Option String
client_name_of (named name) = some name
client_name_of unnamed = none
