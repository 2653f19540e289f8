-- ===== src/ClientGate/Admitted.antt =====
-- Whom the gate lets through, and as which client.
use kinetix_identity_service.Prelude.{
  String, Bool, true, false, Option, none, some, List, [], ◌∷◌, ◌≡◌, refl, arith, inl, inr, subst,
}
use kinetix_identity_service.Prelude.Text.{Text}
use kinetix_identity_service.Domain.SessionClient.{RequestClient, named, unnamed}
use kinetix_identity_service.World.{World, ok, Outcome-cases}
use kinetix_identity_service.ClientGate.{
  RegisteredClient, unproved, attested, name_of, ClientRegistry, Verifier, valid,
  verdict_unavailable, invalid, HeaderValue, absent, several, single, ClientHeaders, proof_text,
  accept_verdict, prove, registered, admit_registered, admit_unnamed, admit_presented, admit,
}

-- The proof that a client needs was accepted by the verifier.
abbrev pub IsProved : Option Verifier → RegisteredClient → Text → World → Type 0
IsProved verifier (unproved name) shown w = Unit
IsProved verifier (attested name app_ids) shown w =
    (verify : Verifier) × (verifier ≡ some verify) × ((verify shown app_ids w).0 ≡ ok valid)

module _ (registry : ClientRegistry) (verifier : Option Verifier) where
  -- What a request shows of the client that it is admitted as.
  abbrev pub Shows : ClientHeaders → World → RequestClient → Type 0
  Shows headers w unnamed = (headers.client ≡ absent) × (registry.refuses_unnamed ≡ false)
  Shows headers w (named name) =
      (client : RegisteredClient) × (registered registry verifier headers.client ≡ some client)
      × (name_of client ≡ name)
      × IsProved verifier client (proof_text headers.app_check) w

  prove-IsProved :
      (v : Option Verifier) (name : String) (app_ids : List String) (shown : Text) (w : World)
      → (prove v app_ids shown w).0 ≡ ok tt
      → IsProved v (attested name app_ids) shown w
  unfolding prove accept_verdict
  prove-IsProved v name app_ids [] w h = ground arith
  prove-IsProved none name app_ids (c ∷ s) w h = ground arith
  prove-IsProved (some verify) name app_ids (c ∷ s) w h =
      elim (Outcome-cases (verify (c ∷ s) app_ids w).0) [
        | inl (valid, e) ↦ (verify, refl, e)
        | inl (verdict_unavailable, e) ↦ ground arith
        | inl (invalid reason, e) ↦ ground arith
        | inr (failure, e) ↦ ground arith
      ]

  admit_registered-Shows :
      (found : Option RegisteredClient) (headers : ClientHeaders) (request : RequestClient)
      (w : World)
      → registered registry verifier headers.client ≡ found
      → (admit_registered registry verifier found headers.app_check w).0 ≡ ok request
      → Shows headers w request
  unfolding admit_registered
  admit_registered-Shows none headers request w e h = ground arith
  admit_registered-Shows (some (unproved name)) headers unnamed w e h = ground arith
  admit_registered-Shows (some (unproved name)) headers (named n) w e h =
      (unproved name, e, ground arith, tt)
  admit_registered-Shows (some (attested name app_ids)) headers request w e h =
      let shown = proof_text headers.app_check in
      elim (Outcome-cases (prove verifier app_ids shown w).0) [
        | inl (done, p) ↦
            let same : named name ≡ request = ground arith in
            subst (λ (r : RequestClient). Shows headers w r) same
              (attested name app_ids, e, refl, prove-IsProved verifier name app_ids shown w p)
        | inr (failure, p) ↦ ground arith
      ]

  admit_unnamed-ok :
      (refuses : Bool) (request : RequestClient) (w : World)
      → (admit_unnamed registry verifier refuses w).0 ≡ ok request
      → (refuses ≡ false) × (request ≡ unnamed)
  unfolding admit_unnamed
  admit_unnamed-ok true request w h = ground arith
  admit_unnamed-ok false request w h = ground arith

  admit_presented-Shows :
      (presented header : HeaderValue) (request : RequestClient) (w : World)
      → (admit_presented registry verifier presented header w).0 ≡ ok request
      → Shows (record { client = presented; app_check = header }) w request
  unfolding admit_presented
  admit_presented-Shows absent header unnamed w h =
      (refl, (admit_unnamed-ok registry.refuses_unnamed unnamed w h).0)
  admit_presented-Shows absent header (named n) w h =
      ground (arith, admit_unnamed-ok registry.refuses_unnamed (named n) w h)
  admit_presented-Shows several header request w h =
      admit_registered-Shows none (record { client = several; app_check = header }) request w refl h
  admit_presented-Shows (single name) header request w h =
      admit_registered-Shows (registered registry verifier (single name))
        (record { client = single name; app_check = header }) request w refl h

  -- A request is admitted as no client only if it names none and such requests are let in, and as a
  -- named client only if it names that client, the client is registered, and, where the client has
  -- to prove itself, there is a verifier that finds the proof of the request valid.
  pub admit-Shows :
      (headers : ClientHeaders) (request : RequestClient) (w : World)
      → (admit registry verifier headers w).0 ≡ ok request
      → Shows headers w request
  unfolding admit
  admit-Shows headers request w h =
      admit_presented-Shows headers.client headers.app_check request w h
