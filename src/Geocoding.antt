-- ===== src/Geocoding.antt =====
-- src/application/services/geocoding_usecase.service.ts and
-- src/infrastructure/persistence/adapters/typeorm_geocoded_address_repository.adapter.ts: where an
-- address is, and the table that remembers it.
pub mod Cache
use kinetix_identity_service.Prelude.{
  String, Bool, true, false, Option, none, some, List, [], ◌∷◌, if◌then◌else◌,
}
use kinetix_identity_service.Prelude.Tables.{find_where, any_where, delete_where}
use kinetix_identity_service.Prelude.Text.{
  Text, text_eq, trim, to_lower_case, join_parts, not_blank, collapse_spaces, is_blank,
}
use kinetix_identity_service.World.{
  World, GeocodedAddress, ProviderPoint, GeocodePrecision, Request, Done, Failure, ◌>>=◌, ◌>>◌,
  pure, throw, gets, modify,
}

pub data GeocodeFailure : Type 0 where
  address_not_found ambiguous provider_unavailable : GeocodeFailure
  out_of_service_area insufficient_address : GeocodeFailure

-- `GeocodeQuery`, whose missing parts are empty
pub record GeocodeQuery : Type 0 where
  pub street_address : Text
  pub city : Text
  pub postal_code : Text

-- `GeocodeOutcome`
pub data GeocodeOutcome : Type 0 where
  geocoded : ProviderPoint → GeocodeOutcome
  not_geocoded : GeocodeFailure → GeocodeOutcome

-- What the provider answers; it may also throw.
pub data ProviderAnswer : Type 0 where
  placed : ProviderPoint → ProviderAnswer
  unplaced : GeocodeFailure → ProviderAnswer
  provider_broke : Failure → ProviderAnswer

-- `GeocodingProviderPort`, another service, and the name of its class.
pub record GeocodingProvider : Type 0 where
  pub name : String
  pub lookup : Text → World → ProviderAnswer

abbrev pub with_query : Text → GeocodedAddress → Bool
with_query query row = text_eq row.query query

abbrev pub point_of : Option GeocodedAddress → Option ProviderPoint
point_of none = none
point_of (some row) = some row.point

unfoldable pub find_by_query : Text → Request (Option ProviderPoint)
find_by_query query = gets (λ w. point_of (find_where (with_query query) w.geocoded_addresses))

-- `orIgnore`
unfoldable pub remember : Text → String → ProviderPoint → Request Done
remember query provider point = modify (λ w. record w {
  geocoded_addresses =
      if any_where (with_query query) w.geocoded_addresses
      then w.geocoded_addresses
      else record { query = query; provider = provider; point = point } ∷ w.geocoded_addresses;
})

unfoldable pub forget_query : Text → Request Done
forget_query query =
    modify
      (λ w. record w { geocoded_addresses = delete_where (with_query query) w.geocoded_addresses })

unfoldable pub normalise : GeocodeQuery → Text
normalise query =
    collapse_spaces
      (to_lower_case (
        trim (join_parts (not_blank (query.street_address ∷ query.city ∷ query.postal_code ∷ [])))))
      false

abbrev pub is_empty : Text → Bool
is_empty [] = true
is_empty (c ∷ s) = false

module _ (provider : GeocodingProvider) where
  unfoldable pub remember_answer : Text → ProviderAnswer → Request GeocodeOutcome
  remember_answer query (placed point) = do
    remember query provider.name point
    pure (geocoded point)
  remember_answer query (unplaced failure) = pure (not_geocoded failure)
  remember_answer query (provider_broke failure) = throw failure

  unfoldable pub look_up : Text → Option ProviderPoint → Request GeocodeOutcome
  look_up query (some point) = pure (geocoded point)
  look_up query none = do answer ← gets (provider.lookup query); remember_answer query answer

  unfoldable pub look_up_unless : Bool → Text → Request GeocodeOutcome
  look_up_unless true query = pure (not_geocoded insufficient_address)
  look_up_unless false query = do remembered ← find_by_query query; look_up query remembered

  unfoldable pub geocode : GeocodeQuery → Request GeocodeOutcome
  geocode query = look_up_unless (is_empty (normalise query)) (normalise query)

unfoldable pub forget : GeocodeQuery → Request Done
forget query = forget_query (normalise query)
