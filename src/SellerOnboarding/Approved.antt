-- ===== src/SellerOnboarding/Approved.antt =====
-- What an approval of a seller shows of the account, and what it leaves.
use kinetix_identity_service.Prelude.{
  ℕ, ◌<◌, String, Bool, true, some, List, [], ◌∷◌, ◌≡◌, refl, arith, inl, inr, Bool-cases, subst,
  ==_iff, ==_refl,
}
use kinetix_identity_service.Prelude.Tables.{find_where, any_where, update_where}
use kinetix_identity_service.Auth.{subject_of}
use kinetix_identity_service.Auth.Frame.{resolve_or_mint_for_user-frame}
use kinetix_identity_service.Auth.Keeps.{resolve_or_mint_for_user-Keeps}
use kinetix_identity_service.Domain.{UserEntity, UserRole, customer, seller, courier, admin}
use kinetix_identity_service.MerchantVerifications
use kinetix_identity_service.MerchantVerifications.{
  verification_of, has_id, saved_over, save_checked, insert_verification, is_pending,
}
use kinetix_identity_service.Principals.{
  resolve_or_mint_for_user, sync_kind, register_alias, register_new_alias, insert_alias,
  alias_or_refuse, find_alias, alias_for,
}
use kinetix_identity_service.Principals.Resolve.{register_alias-names}
use kinetix_identity_service.SellerOnboarding.{
  ApprovedMerchant, is_seller, save_unless_seller, finish_approval,
}
use kinetix_identity_service.Users
use kinetix_identity_service.Users.{entity_found, with_id}
use kinetix_identity_service.Users.Saved.{save-find, any-found}
use kinetix_identity_service.World.{
  World, Merchant, MerchantVerification, PrincipalAlias, seller_verified, Outcome-cases, ok,
  try_catch, catch_outcome,
}

-- The row of the account after the save of an application that was found.
find-saved :
    (user_id : ℕ) (v row : MerchantVerification) (rows : List MerchantVerification)
    → v.user_id ≡ user_id
    → row.id ≡ v.id
    → find_where (verification_of user_id) rows ≡ some row
    → (r : MerchantVerification) × (find_where
          (verification_of user_id)
          (update_where (has_id v.id) (saved_over v) rows)
        ≡ some (saved_over v r))
find-saved user_id v row [] own same h = ground arith
find-saved user_id v row (x ∷ rows) own same h = elim (Bool-cases (has_id v.id x)) [
  | inl e ↦ (x, ground (arith, (==_iff v.user_id user_id).1 own))
  | inr e ↦
      let rest =
        find-saved user_id v row rows own same (ground (arith, same, ==_iff row.id v.id)) in
      (rest.0, ground (arith, rest.1))
]

abbrev pub seller_of : UserEntity → UserEntity
seller_of user = record user { role = seller }

any-has_id :
    (p : MerchantVerification → Bool) (row : MerchantVerification) (id : ℕ)
    (rows : List MerchantVerification)
    → row.id ≡ id
    → find_where p rows ≡ some row
    → any_where (has_id id) rows ≡ true
any-has_id p row id [] same h = ground arith
any-has_id p row id (x ∷ rows) same h = ground (arith, any-has_id p row id rows same, ==_refl id)

save-found :
    (user_id : ℕ) (v row saved : MerchantVerification) (w : World)
    → 0 < v.id
    → v.user_id ≡ user_id
    → row.id ≡ v.id
    → find_where (verification_of user_id) w.merchant_verifications ≡ some row
    → (MerchantVerifications.save v w).0 ≡ ok saved
    → let w' = (MerchantVerifications.save v w).1 in
      ((r : MerchantVerification) × (find_where (verification_of user_id) w'.merchant_verifications
          ≡ some (saved_over v r)))
      × (w'.users ≡ w.users)
      × (w'.aliases ≡ w.aliases)
      × (w'.merchants ≡ w.merchants)
unfolding MerchantVerifications.save save_checked
save-found user_id v row saved w pos own same h e =
    let there = any-has_id (verification_of user_id) row v.id w.merchant_verifications same h in
    let kept = find-saved user_id v row w.merchant_verifications own same h in
    (
      (kept.0, ground (arith, there, kept.1)),
      ground (arith, there),
      ground (arith, there),
      ground (arith, there),
    )

register_alias-frame :
    (principal : ℕ) (service : String) (local_id : ℕ) (w : World)
    → let w' = (register_alias principal service local_id w).1 in
      (w'.users ≡ w.users)
      × (w'.merchant_verifications ≡ w.merchant_verifications)
      × (w'.merchants ≡ w.merchants)
unfolding register_alias register_new_alias insert_alias try_catch catch_outcome alias_or_refuse
    find_alias
register_alias-frame principal service local_id w = ground arith

Users_save-verifications :
    (user : UserEntity) (w : World)
    → let w' = (Users.save user w).1 in
      (w'.merchant_verifications ≡ w.merchant_verifications) × (w'.merchants ≡ w.merchants)
unfolding Users.save Users.save_checked Users.insert_user
Users_save-verifications user w = ground arith

is_seller-eq : (role : UserRole) → is_seller role ≡ true → role ≡ seller
is_seller-eq customer h = cc
is_seller-eq seller h = refl
is_seller-eq courier h = cc
is_seller-eq admin h = cc

save_unless_seller-ok :
    (user promoted : UserEntity) (w : World)
    → 0 < user.id
    → entity_found (find_where (with_id user.id) w.users) ≡ some user
    → (save_unless_seller user (is_seller user.role) w).0 ≡ ok promoted
    → let w' = (save_unless_seller user (is_seller user.role) w).1 in
      (promoted ≡ seller_of user)
      × (entity_found (find_where (with_id user.id) w'.users) ≡ some (seller_of user))
      × (w'.merchant_verifications ≡ w.merchant_verifications)
      × (w'.merchants ≡ w.merchants)
unfolding save_unless_seller
save_unless_seller-ok user promoted w pos stored h = elim (Bool-cases (is_seller user.role)) [
  | inl e ↦
      let same : seller_of user ≡ user =
        subst (λ (r : UserRole). record user { role = r } ≡ user) (is_seller-eq user.role e) refl in
      ground (arith, same, stored)
  | inr e ↦
      let there = (any-found user.id user w.users stored).1 in
      elim (Outcome-cases (Users.save (seller_of user) w).0) [
        | inl (saved, e') ↦ ground (
          arith,
          save-find (seller_of user) saved w pos there e',
          Users_save-verifications (seller_of user) w,
        )
        | inr (failure, e') ↦ ground arith
      ]
]

-- What the end of an approval leaves.
pub record Finishes (user_id : ℕ) (application : MerchantVerification) (verified_at : ℕ)
    (user : UserEntity) (merchant : Merchant) (principal : ℕ) (w w' : World) : Type 0 where
  pub same_merchants : w'.merchants ≡ w.merchants
  pub is_seller : entity_found (find_where (with_id user.id) w'.users) ≡ some (seller_of user)
  pub row : MerchantVerification
  pub is_row : find_where (verification_of user_id) w'.merchant_verifications ≡ some row
  pub is_verified : row.status ≡ seller_verified
  pub is_dated : row.verified_at ≡ some verified_at
  pub alias : PrincipalAlias
  pub is_alias : find_where (alias_for "identity-merchant" merchant.id) w'.aliases ≡ some alias
  pub names_principal : alias.principal_id ≡ principal

-- The alias and the application, once the principal is known.
abbrev verified_of : MerchantVerification → ℕ → MerchantVerification
verified_of application verified_at = record application {
  status = seller_verified;
  verified_at = some verified_at;
}

pub finish_approval-Finishes :
    (user_id : ℕ) (application : MerchantVerification) (verified_at : ℕ) (user : UserEntity)
    (merchant : Merchant) (answer : ApprovedMerchant) (w : World)
    → 0 < user.id
    → 0 < application.id
    → application.user_id ≡ user_id
    → entity_found (find_where (with_id user.id) w.users) ≡ some user
    → find_where (verification_of user_id) w.merchant_verifications ≡ some application
    → (finish_approval application verified_at user merchant w).0 ≡ ok answer
    → (answer.0 ≡ merchant)
      × Finishes user_id application verified_at user merchant answer.1 w
          (finish_approval application verified_at user merchant w).1
unfolding finish_approval sync_kind
finish_approval-Finishes user_id application verified_at user merchant answer w pos filed own stored
      found h =
    elim (Outcome-cases (save_unless_seller user (is_seller user.role) w).0) [
      | inr (failure, e) ↦ ground arith
      | inl (promoted, e) ↦
          let w1 = (save_unless_seller user (is_seller user.role) w).1 in
          let made = save_unless_seller-ok user promoted w pos stored e in
          elim (Outcome-cases (resolve_or_mint_for_user (subject_of promoted) w1).0) [
            | inr (failure, e1) ↦ ground arith
            | inl (principal, e1) ↦
                let w2 = (resolve_or_mint_for_user (subject_of promoted) w1).1 in
                let frame = resolve_or_mint_for_user-frame (subject_of promoted) w1 in
                let keeps = resolve_or_mint_for_user-Keeps (subject_of promoted) w1 in
                let w3 = (sync_kind principal promoted.role w2).1 in
                elim (Outcome-cases
                  (register_alias principal "identity-merchant" merchant.id w3).0) [
                    | inr (failure, e2) ↦ ground arith
                    | inl (done, e2) ↦
                        let w4 = (register_alias principal "identity-merchant" merchant.id w3).1 in
                        let aliased =
                          register_alias-frame principal "identity-merchant" merchant.id w3 in
                        let named =
                          register_alias-names principal "identity-merchant" merchant.id w3 e2 in
                        let v = verified_of application verified_at in
                        elim (Outcome-cases (MerchantVerifications.save v w4).0) [
                          | inr (failure, e3) ↦ ground arith
                          | inl (saved, e3) ↦
                              let kept =
                                save-found user_id v application saved w4 filed own refl
                                  (ground (arith, aliased.1, keeps, made.2, found)) e3 in
                              let run : finish_approval application verified_at user merchant w ≡ (
                                ok (merchant, principal),
                                (MerchantVerifications.save v w4).1,
                              ) =
                                ground arith in
                              let eq : answer ≡ (merchant, principal) = ground (arith, run, h) in
                              rw (run, eq)
                                (
                                  refl,
                                  record {
                                    same_merchants =
                                        ground (arith, kept.3, aliased.2, keeps, made.3);
                                    is_seller = ground (arith, kept.1, aliased.0, frame, made.1);
                                    row = saved_over v kept.0.0;
                                    is_row = kept.0.1;
                                    is_verified = refl;
                                    is_dated = refl;
                                    alias = named.0;
                                    is_alias = ground (arith, kept.2, named.1);
                                    names_principal = named.2;
                                  },
                                )
                        ]
                  ]
          ]
    ]
