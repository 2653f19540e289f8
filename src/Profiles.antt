-- ===== src/Profiles.antt =====
-- src/application/services/user_profile_usecase.service.ts and
-- src/infrastructure/persistence/adapters/typeorm_profile_repository.adapter.ts: the profiles, one to an
-- account, and the point of their address.
pub mod Frame
use kinetix_identity_service.Prelude.{
  ℕ, ◌+◌, String, Bool, true, false, ◌&&◌, ◌||◌, not, Option, none, some, [], ◌∷◌, ltb, ◌==◌,
  if◌then◌else◌, is_none,
}
use kinetix_identity_service.Prelude.Tables.{find_where, any_where, update_where}
use kinetix_identity_service.Prelude.Text.{Text, text_eq, trim, join_parts, not_blank}
use kinetix_identity_service.Geocoding.{
  GeocodingProvider, GeocodeOutcome, geocoded, not_geocoded, geocode, is_empty,
}
use kinetix_identity_service.Users.{with_id}
use kinetix_identity_service.World.{
  Profile, Request, not_found, missing_reference, record_conflict, ◌>>=◌, ◌>>◌, pure, gets, modify,
  throw_if, or_throw, try_catch,
}

-- `UpdateProfileInputDto`: a field that is `undefined` is none.
pub record UpdateProfileInput : Type 0 where
  pub full_name : Option String
  pub phone_number : Option String
  pub street_address : Option Text
  pub city : Option Text
  pub postal_code : Option Text
  pub avatar_url : Option String

abbrev pub profile_of : ℕ → Profile → Bool
profile_of user_id row = row.user_id == user_id

abbrev pub has_id : ℕ → Profile → Bool
has_id id row = row.id == id

unfoldable pub find_by_user_id : ℕ → Request (Option Profile)
find_by_user_id user_id = gets (λ w. find_where (profile_of user_id) w.profiles)

abbrev pub or_else : {A : Type 0} → Option A → A → A
or_else none a = a
or_else (some b) a = b

-- An `undefined` URL leaves the column as it is.
abbrev pub url_or_kept : Option String → Option String → Option String
url_or_kept none kept = kept
url_or_kept (some url) kept = some url

abbrev pub saved_over : Profile → Profile → Profile
saved_over profile row = record profile {
  avatar_url = url_or_kept profile.avatar_url row.avatar_url;
}

abbrev pub takes_user : Profile → Profile → Bool
takes_user profile row = not (row.id == profile.id) && (row.user_id == profile.user_id)

unfoldable pub insert_profile : ℕ → Profile → Request Profile
insert_profile id profile = do
  modify (λ w. record w { profiles = record profile { id = id } ∷ w.profiles })
  pure (record profile { id = id })

unfoldable pub save_checked : Profile → Request Profile
save_checked profile w =
    if ltb 0 profile.id
    then if any_where (has_id profile.id) w.profiles
      then (modify (λ w. record w {
        profiles = update_where (has_id profile.id) (saved_over profile) w.profiles;
      })
            >> pure profile)
          w
      else insert_profile profile.id profile w
    else insert_profile w.next_profile_id profile
        (record w { next_profile_id = w.next_profile_id + 1 })

unfoldable pub save : Profile → Request Profile
save profile = do
  taken ← gets (λ w. any_where (takes_user profile) w.profiles)
  throw_if taken (record_conflict "The profile was created by another request")
  owned ← gets (λ w. any_where (with_id profile.user_id) w.users)
  throw_if (not owned) (missing_reference "No account with that ID")
  save_checked profile

unfoldable pub get_profile : ℕ → Request Profile
get_profile user_id = do
  found ← find_by_user_id user_id
  or_throw found (not_found "Profile not found")

unfoldable pub address_of : Profile → Text
address_of profile =
    trim (join_parts (not_blank (profile.street_address ∷ profile.city ∷ profile.postal_code ∷ [])))

abbrev pub address_before : Option Profile → Text
address_before none = []
address_before (some profile) = address_of profile

-- A new profile, and what the fields that were sent change of a stored one.
unfoldable pub updated : ℕ → UpdateProfileInput → Option Profile → Profile
updated user_id dto none = record {
  id = 0;
  user_id = user_id;
  full_name = or_else dto.full_name "";
  phone_number = or_else dto.phone_number "";
  street_address = or_else dto.street_address [];
  city = or_else dto.city [];
  postal_code = or_else dto.postal_code [];
  avatar_url = dto.avatar_url;
  latitude = none;
  longitude = none;
  geocoded_at = none;
}
updated user_id dto (some profile) = record profile {
  full_name = or_else dto.full_name profile.full_name;
  phone_number = or_else dto.phone_number profile.phone_number;
  street_address = or_else dto.street_address profile.street_address;
  city = or_else dto.city profile.city;
  postal_code = or_else dto.postal_code profile.postal_code;
  avatar_url = url_or_kept dto.avatar_url profile.avatar_url;
}

unfoldable pub placed_at : Profile → GeocodeOutcome → Profile
placed_at profile (geocoded point) = record profile {
  latitude = some point.latitude;
  longitude = some point.longitude;
}
placed_at profile (not_geocoded failure) = profile

unfoldable pub unplaced_if : Bool → Profile → Profile
unplaced_if true profile = record profile { latitude = none; longitude = none }
unplaced_if false profile = profile

-- `neverPlaced`
abbrev pub never_placed : Profile → Bool
never_placed profile = is_none profile.latitude || is_none profile.longitude

module _ (provider : GeocodingProvider) where
  unfoldable pub ask_place : Profile → Request Profile
  ask_place profile =
      try_catch
        (do
          outcome ← geocode provider (record {
            street_address = profile.street_address;
            city = profile.city;
            postal_code = profile.postal_code;
          })
          pure (placed_at profile outcome))
        (λ cause. pure profile)

  unfoldable pub place_on_map : Profile → Bool → Request Profile
  place_on_map profile address_changed = do
    now ← gets (λ w. w.app_now)
    ask_place (record (unplaced_if address_changed profile) { geocoded_at = some now })

  unfoldable pub place_if : Bool → Profile → Bool → Request Profile
  place_if true profile address_changed = place_on_map profile address_changed
  place_if false profile address_changed = pure profile

  unfoldable pub update_found : ℕ → UpdateProfileInput → Option Profile → Request Profile
  update_found user_id dto found = do
    let profile = updated user_id dto found
    let changed = not (text_eq (address_of profile) (address_before found))
    placed ←
        place_if (not (is_empty (address_of profile)) && (changed || never_placed profile)) profile
          changed
    save placed

  unfoldable pub update_profile : ℕ → UpdateProfileInput → Request Profile
  update_profile user_id dto = do found ← find_by_user_id user_id; update_found user_id dto found
