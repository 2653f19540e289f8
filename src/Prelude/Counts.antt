-- ===== src/Prelude/Counts.antt =====
-- How many rows a condition selects, before and after an update, and what holds of the rows that a
-- lookup finds.
use Prim.Native.Nat.{◌+◌, ◌≤◌}
use mathlib.Core.Path.{◌≡◌, refl}
use mathlib.Core.Logic.{inl, inr}
use mathlib.Core.Bool.{Bool, true, false}
use mathlib.Core.Option.{some}
use mathlib.Core.List.{List, [], ◌∷◌}
use native.Mathlib.Omega.{arith}
use kinetix_identity_service.Prelude.Tests.{is_some, Bool-cases}
use kinetix_identity_service.Prelude.Tables.{
  All, find_where, any_where, count_where, update_where, delete_where,
}

module _ {A : Type 0} where
  -- A row that is updated is not selected any more.
  pub count_where-update_le :
      (p which : A → Bool) (f : A → A) (xs : List A)
      → ((a : A) → p (f a) ≡ false)
      → count_where p (update_where which f xs) ≤ count_where p xs
  count_where-update_le p which f [] h = omega arith
  count_where-update_le p which f (x ∷ xs) h =
      ground (arith, h x, count_where-update_le p which f xs h)

  pub count_where-update_lt :
      (p which : A → Bool) (f : A → A) (xs : List A) (a : A)
      → ((a : A) → p (f a) ≡ false)
      → find_where which xs ≡ some a
      → p a ≡ true
      → count_where p (update_where which f xs) + 1 ≤ count_where p xs
  count_where-update_lt p which f [] a h e t = cc
  count_where-update_lt p which f (x ∷ xs) a h e t =
      ground
        (arith, h x, count_where-update_lt p which f xs a h, count_where-update_le p which f xs h)

  pub find_where-any : (p : A → Bool) (xs : List A) (a : A) → find_where p xs ≡ some a → p a ≡ true
  find_where-any p [] a e = cc
  find_where-any p (x ∷ xs) a e = ground (arith, find_where-any p xs a)

  pub All-update {κ} :
      (P : A → Type κ) (which : A → Bool) (f : A → A) (xs : List A)
      → ((a : A) → which a ≡ true → P (f a))
      → ((a : A) → which a ≡ false → P a)
      → All P (update_where which f xs)
  All-update P which f [] h k = tt
  All-update P which f (x ∷ xs) h k = elim (Bool-cases (which x)) [
    | inl e ↦ rw e (h x e, All-update P which f xs h k)
    | inr e ↦ rw e (k x e, All-update P which f xs h k)
  ]

  -- What is deleted is nothing that is looked for.
  pub any-delete :
      (p gone : A → Bool) (xs : List A)
      → All (λ a. p a ≡ true → gone a ≡ false) xs
      → any_where p (delete_where gone xs) ≡ any_where p xs
  any-delete p gone [] h = refl
  any-delete p gone (x ∷ xs) h = ground (arith, h.0, any-delete p gone xs h.1)

  -- An update that keeps what rows are found by.
  pub find_where-update :
      (p : A → Bool) (f : A → A) (xs : List A) (a : A)
      → ((a : A) → p (f a) ≡ p a)
      → find_where p xs ≡ some a
      → find_where p (update_where p f xs) ≡ some (f a)
  find_where-update p f [] a h e = cc
  find_where-update p f (x ∷ xs) a h e = ground (arith, h x, find_where-update p f xs a h)

  pub any_where-find : (p : A → Bool) (xs : List A) → any_where p xs ≡ is_some (find_where p xs)
  any_where-find p [] = refl
  any_where-find p (x ∷ xs) = ground (arith, any_where-find p xs)

  pub find_where-any_where :
      (p : A → Bool) (xs : List A) (a : A) → find_where p xs ≡ some a → any_where p xs ≡ true
  find_where-any_where p [] a e = cc
  find_where-any_where p (x ∷ xs) a e = ground (arith, find_where-any_where p xs a)

  pub find-delete :
      (p gone : A → Bool) (xs : List A)
      → All (λ x. p x ≡ true → gone x ≡ false) xs
      → find_where p (delete_where gone xs) ≡ find_where p xs
  find-delete p gone [] h = refl
  find-delete p gone (x ∷ xs) h = elim (Bool-cases (p x)) [
    | inl e ↦ ground (arith, e, h.0 e, find-delete p gone xs h.1)
    | inr e ↦ ground (arith, e, find-delete p gone xs h.1)
  ]

  -- What is left after a deletion is what the condition does not select.
  pub All-delete {κ} :
      (P : A → Type κ) (gone : A → Bool) (xs : List A)
      → ((a : A) → gone a ≡ false → P a)
      → All P (delete_where gone xs)
  All-delete P gone [] f = tt
  All-delete P gone (x ∷ xs) f = elim (Bool-cases (gone x)) [
    | inl e ↦ rw e (All-delete P gone xs f)
    | inr e ↦ rw e (f x e, All-delete P gone xs f)
  ]
