-- ===== src/SellerOnboarding/Placed.antt =====
-- Placing and saving the merchant of an approval.
use kinetix_identity_service.Prelude.{
  ℕ, ◌+◌, ltb, Bool, true, false, none, some, List, [], ◌∷◌, ◌≡◌, refl, arith, inl, inr, Bool-cases,
  ==_refl,
}
use kinetix_identity_service.Prelude.Tables.{find_where, any_where, update_where}
use kinetix_identity_service.Prelude.Text.{is_blank}
use kinetix_identity_service.Geocoding.{
  GeocodingProvider, GeocodeQuery, GeocodeOutcome, geocoded, not_geocoded, geocode, normalise,
  is_empty, look_up_unless, look_up, find_by_query, remember_answer, remember,
}
use kinetix_identity_service.Merchants
use kinetix_identity_service.Merchants.{
  has_id, merchant_of, merchant_found, saved_over, save_checked, insert_merchant, find_by_slug,
}
use kinetix_identity_service.SellerOnboarding.{place_on_map, place_unless_blank, placed_at}
use kinetix_identity_service.Users.{with_id}
use kinetix_identity_service.World.{
  World, Merchant, MerchantRow, Outcome-cases, ok, try_catch, catch_outcome,
}

look_up_unless-frame :
    (provider : GeocodingProvider) (blank : Bool) (query : List ℕ) (w : World)
    → let w' = (look_up_unless provider blank query w).1 in
      w' ≡ record w { geocoded_addresses = w'.geocoded_addresses }
unfolding look_up_unless look_up find_by_query remember_answer remember
look_up_unless-frame provider true query w = refl
look_up_unless-frame provider false query w = ground arith

-- What placing a merchant keeps.
abbrev Places : Merchant → Merchant → World → World → Type 0
Places merchant put w w' =
    (put.street_address ≡ merchant.street_address)
    × (put.city ≡ merchant.city)
    × (put.postal_code ≡ merchant.postal_code)
    × (put.status ≡ merchant.status)
    × (put.verified_at ≡ merchant.verified_at)
    × (put.user_id ≡ merchant.user_id)
    × (w'.users ≡ w.users)
    × (w'.merchant_verifications ≡ w.merchant_verifications)

placed_at-Places :
    (merchant : Merchant) (outcome : GeocodeOutcome) (w : World)
    → Places merchant (placed_at merchant outcome) w w
unfolding placed_at
placed_at-Places merchant (geocoded point) w = (refl, refl, refl, refl, refl, refl, refl, refl)
placed_at-Places merchant (not_geocoded failure) w =
    (refl, refl, refl, refl, refl, refl, refl, refl)

place_unless_blank-Places :
    (provider : GeocodingProvider) (merchant put : Merchant) (blank : Bool) (w : World)
    → (place_unless_blank provider merchant blank w).0 ≡ ok put
    → Places merchant put w (place_unless_blank provider merchant blank w).1
unfolding place_unless_blank try_catch catch_outcome geocode
place_unless_blank-Places provider merchant put true w h = ground arith
place_unless_blank-Places provider merchant put false w h =
    let query : GeocodeQuery = record {
      street_address = merchant.street_address;
      city = merchant.city;
      postal_code = merchant.postal_code;
    } in
    let blank = is_empty (normalise query) in
    let frame = look_up_unless-frame provider blank (normalise query) w in
    elim (Outcome-cases (look_up_unless provider blank (normalise query) w).0) [
      | inl (outcome, e) ↦ ground (arith, frame, placed_at-Places merchant outcome w)
      | inr (failure, e) ↦ ground (arith, frame)
    ]

pub place_on_map-Places :
    (provider : GeocodingProvider) (merchant put : Merchant) (w : World)
    → (place_on_map provider merchant w).0 ≡ ok put
    → Places merchant put w (place_on_map provider merchant w).1
unfolding place_on_map
place_on_map-Places provider merchant put w h =
    place_unless_blank-Places provider
      (record merchant { latitude = none; longitude = none; geocoded_at = some w.app_now }) put
      (is_blank merchant.street_address) w h

merchant-saved :
    (id : ℕ) (merchant : Merchant) (t now : ℕ) (rows : List MerchantRow)
    → merchant.verified_at ≡ some t
    → merchant.id ≡ id
    → any_where (has_id id) rows ≡ true
    → (row : MerchantRow) × (find_where
          (has_id id)
          (update_where (has_id id) (saved_over now merchant) rows)
        ≡ some row)
      × (row.merchant ≡ merchant)
unfolding saved_over
merchant-saved id merchant t now [] dated same h = ground arith
merchant-saved id merchant t now (x ∷ rows) dated same h = elim (Bool-cases (has_id id x)) [
  | inl e ↦ (saved_over now merchant x, ground (arith, same, ==_refl id), ground (arith, dated))
  | inr e ↦
      let rest = merchant-saved id merchant t now rows dated same (ground (arith, e)) in
      (rest.0, ground (arith, rest.1), rest.2)
]

-- What a save that succeeds stores.
abbrev Stores : Merchant → Merchant → World → World → Type 0
Stores merchant saved w w' =
    ((row : MerchantRow) × (find_where (has_id saved.id) w'.merchants ≡ some row)
      × (row.merchant ≡ saved))
    × (saved ≡ record merchant { id = saved.id })
    × (w'.users ≡ w.users)
    × (w'.merchant_verifications ≡ w.merchant_verifications)

insert_merchant-Stores :
    (id : ℕ) (merchant : Merchant) (w : World)
    → Stores merchant (record merchant { id = id }) w (insert_merchant id merchant w).1
unfolding insert_merchant
insert_merchant-Stores id merchant w = (
  (
    record { merchant = record merchant { id = id }; updated_at = w.db_now },
    ground (arith, ==_refl id),
    refl,
  ),
  refl,
  refl,
  refl,
)

insert_merchant-ok :
    (id : ℕ) (merchant : Merchant) (w : World)
    → (insert_merchant id merchant w).0 ≡ ok (record merchant { id = id })
unfolding insert_merchant
insert_merchant-ok id merchant w = refl

save_checked-Stores :
    (merchant saved : Merchant) (t : ℕ) (w : World)
    → merchant.verified_at ≡ some t
    → (save_checked merchant w).0 ≡ ok saved
    → Stores merchant saved w (save_checked merchant w).1
unfolding save_checked
save_checked-Stores merchant saved t w dated h =
    let w1 = record w { next_merchant_id = w.next_merchant_id + 1 } in
    elim (Bool-cases (ltb 0 merchant.id)) [
      | inr e ↦
          let id = w.next_merchant_id in
          let run : save_checked merchant w ≡ insert_merchant id merchant w1 = rw e refl in
          let eq : saved ≡ record merchant { id = id } =
            ground (arith, run, insert_merchant-ok id merchant w1, h) in
          rw (run, eq) (insert_merchant-Stores id merchant w1)
      | inl e ↦ elim (Bool-cases (any_where (has_id merchant.id) w.merchants)) [
        | inl there ↦
            let stored =
              merchant-saved merchant.id merchant t w.db_now w.merchants dated refl there in
            let eq : saved ≡ merchant = ground (arith, h) in
            rw (e, there, eq) (stored, refl, refl, refl)
        | inr there ↦
            let run : save_checked merchant w ≡ insert_merchant merchant.id merchant w =
              rw (e, there) refl in
            let eq : saved ≡ record merchant { id = merchant.id } =
              ground (arith, run, insert_merchant-ok merchant.id merchant w, h) in
            rw (run, eq) (insert_merchant-Stores merchant.id merchant w)
      ]
    ]

pub save-Stores :
    (merchant saved : Merchant) (t : ℕ) (w : World)
    → merchant.verified_at ≡ some t
    → (Merchants.save merchant w).0 ≡ ok saved
    → Stores merchant saved w (Merchants.save merchant w).1
unfolding Merchants.save
save-Stores merchant saved t w dated h =
    elim (Bool-cases (any_where (Merchants.takes_unique merchant) w.merchants)) [
      | inl e ↦ ground arith
      | inr e ↦ elim (Bool-cases (any_where (with_id merchant.user_id) w.users)) [
        | inr f ↦ ground arith
        | inl f ↦
            let run : Merchants.save merchant w ≡ save_checked merchant w = rw (e, f) refl in
            rw run (save_checked-Stores merchant saved t w dated (ground (arith, run, h)))
      ]
    ]
