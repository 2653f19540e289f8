-- ===== src/Profiles/Frame.antt =====
-- What an update of a profile leaves alone: the accounts.
use kinetix_identity_service.Prelude.{
  ℕ, Bool, true, false, not, ◌&&◌, ◌||◌, Option, none, some, ◌≡◌, refl, arith, inl, inr,
}
use kinetix_identity_service.Prelude.Text.{Text, text_eq}
use kinetix_identity_service.Geocoding.{
  GeocodeQuery, ProviderAnswer, placed, unplaced, provider_broke, GeocodingProvider, remember,
  remember_answer, look_up, look_up_unless, geocode, find_by_query, normalise, is_empty,
}
use kinetix_identity_service.Profiles.{
  UpdateProfileInput, insert_profile, save_checked, save, ask_place, place_on_map, place_if,
  update_found, update_profile, find_by_user_id, updated, address_of, address_before, never_placed,
}
use kinetix_identity_service.World.{
  World, Profile, ProviderPoint, Outcome-cases, try_catch, catch_outcome,
}

save-users : (profile : Profile) (w : World) → (save profile w).1.users ≡ w.users
unfolding save save_checked insert_profile
save-users profile w = ground arith

module _ (provider : GeocodingProvider) where
  remember_answer-users :
      (query : Text) (answer : ProviderAnswer) (w : World)
      → (remember_answer provider query answer w).1.users ≡ w.users
  unfolding remember_answer remember
  remember_answer-users query (placed point) w = refl
  remember_answer-users query (unplaced failure) w = refl
  remember_answer-users query (provider_broke failure) w = refl

  look_up-users :
      (query : Text) (found : Option ProviderPoint) (w : World)
      → (look_up provider query found w).1.users ≡ w.users
  unfolding look_up
  look_up-users query (some point) w = refl
  look_up-users query none w = remember_answer-users query (provider.lookup query w) w

  look_up_unless-users :
      (is_blank : Bool) (query : Text) (w : World)
      → (look_up_unless provider is_blank query w).1.users ≡ w.users
  unfolding look_up_unless find_by_query
  look_up_unless-users true query w = refl
  look_up_unless-users false query w = look_up-users query _ w

  geocode-users : (query : GeocodeQuery) (w : World) → (geocode provider query w).1.users ≡ w.users
  unfolding geocode
  geocode-users query w = look_up_unless-users (is_empty (normalise query)) (normalise query) w

  ask_place-users :
      (profile : Profile) (w : World) → (ask_place provider profile w).1.users ≡ w.users
  unfolding ask_place try_catch catch_outcome
  ask_place-users profile w =
      let query : GeocodeQuery = record {
        street_address = profile.street_address;
        city = profile.city;
        postal_code = profile.postal_code;
      } in
      elim (Outcome-cases (geocode provider query w).0) [
        | inl (outcome, e) ↦ ground (arith, e, geocode-users query w)
        | inr (failure, e) ↦ ground (arith, e, geocode-users query w)
      ]

  place_if-users :
      (places : Bool) (profile : Profile) (changed : Bool) (w : World)
      → (place_if provider places profile changed w).1.users ≡ w.users
  unfolding place_if place_on_map
  place_if-users true profile changed w = ask_place-users _ w
  place_if-users false profile changed w = refl

  update_found-users :
      (user_id : ℕ) (dto : UpdateProfileInput) (found : Option Profile) (w : World)
      → (update_found provider user_id dto found w).1.users ≡ w.users
  unfolding update_found
  update_found-users user_id dto found w =
      let profile = updated user_id dto found in
      let changed = not (text_eq (address_of profile) (address_before found)) in
      let places = not (is_empty (address_of profile)) && (changed || never_placed profile) in
      let run = place_if provider places profile changed w in
      elim (Outcome-cases run.0) [
        | inl (row, e) ↦
            ground (arith, e, place_if-users places profile changed w, save-users row run.1)
        | inr (failure, e) ↦ ground (arith, e, place_if-users places profile changed w)
      ]

  pub update_profile-users :
      (user_id : ℕ) (dto : UpdateProfileInput) (w : World)
      → (update_profile provider user_id dto w).1.users ≡ w.users
  unfolding update_profile find_by_user_id
  update_profile-users user_id dto w = update_found-users user_id dto _ w
