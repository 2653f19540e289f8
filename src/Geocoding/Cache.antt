-- ===== src/Geocoding/Cache.antt =====
-- An address that was placed is not looked up again.
use kinetix_identity_service.Prelude.{
  Bool, true, false, none, some, ◌≡◌, refl, arith, inl, inr, Option-cases,
}
use kinetix_identity_service.Prelude.Counts.{any_where-find}
use kinetix_identity_service.Prelude.Tables.{find_where}
use kinetix_identity_service.Prelude.Text.{Text, text_eq_refl}
use kinetix_identity_service.Geocoding.{
  GeocodeQuery, geocoded, ProviderAnswer, placed, unplaced, provider_broke, GeocodingProvider,
  with_query, point_of, find_by_query, remember, remember_answer, look_up, look_up_unless, geocode,
  normalise, is_empty,
}
use kinetix_identity_service.World.{World, ProviderPoint, ok}

remember_answer-remembers :
    (provider : GeocodingProvider) (query : Text) (answer : ProviderAnswer) (point : ProviderPoint)
    (w : World)
    → find_where (with_query query) w.geocoded_addresses ≡ none
    → (remember_answer provider query answer w).0 ≡ ok (geocoded point)
    → point_of (
        find_where
          (with_query query)
          (remember_answer provider query answer w).1.geocoded_addresses)
      ≡ some point
unfolding remember_answer remember
remember_answer-remembers provider query (placed found) point w missing h =
    ground
      (arith, missing, text_eq_refl query, any_where-find (with_query query) w.geocoded_addresses)
remember_answer-remembers provider query (unplaced failure) point w missing h = ground arith
remember_answer-remembers provider query (provider_broke failure) point w missing h = ground arith

look_up_unless-remembers :
    (provider : GeocodingProvider) (blank : Bool) (query : Text) (point : ProviderPoint) (w : World)
    → (look_up_unless provider blank query w).0 ≡ ok (geocoded point)
    → (blank ≡ false)
      × (point_of (
            find_where
              (with_query query)
              (look_up_unless provider blank query w).1.geocoded_addresses)
          ≡ some point)
unfolding look_up_unless look_up find_by_query
look_up_unless-remembers provider true query point w h = ground arith
look_up_unless-remembers provider false query point w h =
    elim (Option-cases (find_where (with_query query) w.geocoded_addresses)) [
      | inl e ↦ (
        refl,
        ground
            (arith, e, remember_answer-remembers provider query (provider.lookup query w) point w),
      )
      | inr (row, e) ↦ (refl, ground (arith, e))
    ]

-- Once an address is placed, every later query that is the same when normalised gets the same point in
-- the state that this leaves, whatever provider it asks: the table answers, and nothing changes.
pub geocode_twice :
    (provider later : GeocodingProvider) (query again : GeocodeQuery) (point : ProviderPoint)
    (w : World)
    → normalise again ≡ normalise query
    → (geocode provider query w).0 ≡ ok (geocoded point)
    → let w' = (geocode provider query w).1 in geocode later again w' ≡ (ok (geocoded point), w')
unfolding geocode look_up_unless look_up find_by_query
geocode_twice provider later query again point w same h =
    let known =
      look_up_unless-remembers provider (is_empty (normalise query)) (normalise query) point w h in
    ground (arith, same, known)
