-- ===== src/Paging/Sorted.antt =====
-- Sorted rows, and what comes after the last row of a page of them.
use kinetix_identity_service.Prelude.{
  ℕ, zero, suc, ◌≤◌, ◌<◌, Bool, true, false, ◌||◌, List, [], ◌∷◌, ◌≡◌, refl, ap, arith, inl, inr,
  Bool-cases, if◌then◌else◌,
}
use kinetix_identity_service.Prelude.Tables.{
  length, All, filter_where, insert_by, sort_by, All-insert_by, All-sort_by,
}
use kinetix_identity_service.Paging.{take, last_or, page_of}

-- A strict order.
pub record StrictOrder {A : Type 0} (before : A → A → Bool) : Type 0 where
  pub irreflexive : (a : A) → before a a ≡ false
  pub transitive : (a b c : A) → before a b ≡ true → before b c ≡ true → before a c ≡ true

module _ {A : Type 0} (before : A → A → Bool) where
  -- Each row comes before all that follow it.
  abbrev pub Sorted : List A → Type 0
  Sorted [] = Unit {0}
  Sorted (x ∷ xs) = All (λ y. before x y ≡ true) xs × Sorted xs

  -- Of any two rows, one comes before the other.
  abbrev pub Apart : List A → Type 0
  Apart [] = Unit {0}
  Apart (x ∷ xs) = All (λ y. before x y || before y x ≡ true) xs × Apart xs

  abbrev pub drop : ℕ → List A → List A
  drop zero xs = xs
  drop (suc n) [] = []
  drop (suc n) (x ∷ xs) = drop n xs

module _ {A : Type 0} (before : A → A → Bool) (order : StrictOrder before) where
  All-after :
      (a b : A) (xs : List A)
      → before a b ≡ true
      → All (λ y. before b y ≡ true) xs
      → All (λ y. before a y ≡ true) xs
  All-after a b [] h k = tt
  All-after a b (x ∷ xs) h k = (order.transitive a b x h k.0, All-after a b xs h k.1)

  insert_by-Sorted :
      (x : A) (xs : List A)
      → All (λ y. before x y || before y x ≡ true) xs
      → Sorted before xs
      → Sorted before (insert_by before x xs)
  insert_by-Sorted x [] apart sorted = (tt, tt)
  insert_by-Sorted x (y ∷ ys) apart sorted = elim (Bool-cases (before x y)) [
    | inl e ↦ rw e ((e, All-after x y ys e sorted.0), sorted)
    | inr e ↦ rw e (
      All-insert_by (λ z. before y z ≡ true) before x ys (ground (arith, e, apart.0)) sorted.0,
      insert_by-Sorted x ys apart.1 sorted.1,
    )
  ]

  pub sort_by-Sorted : (xs : List A) → Apart before xs → Sorted before (sort_by before xs)
  sort_by-Sorted [] apart = tt
  sort_by-Sorted (x ∷ xs) apart =
      insert_by-Sorted x (sort_by before xs)
        (All-sort_by (λ y. before x y || before y x ≡ true) before xs apart.0)
        (sort_by-Sorted xs apart.1)

  -- What is selected of rows that are apart is apart.
  All-filtered {κ} :
      (P : A → Type κ) (p : A → Bool) (xs : List A) → All P xs → All P (filter_where p xs)
  All-filtered P p [] h = tt
  All-filtered P p (x ∷ xs) h = elim (Bool-cases (p x)) [
    | inl e ↦ rw e (h.0, All-filtered P p xs h.1)
    | inr e ↦ rw e (All-filtered P p xs h.1)
  ]

  insert-first :
      (x : A) (xs : List A) → All (λ y. before x y ≡ true) xs → insert_by before x xs ≡ x ∷ xs
  insert-first x [] h = refl
  insert-first x (y ∷ ys) h = rw h.0 refl

  filter-insert_by :
      (p : A → Bool) (x : A) (xs : List A)
      → Sorted before xs
      → filter_where p (insert_by before x xs)
        ≡ (if p x then insert_by before x (filter_where p xs) else filter_where p xs)
  filter-insert_by p x [] sorted = elim (Bool-cases (p x)) [ inl e ↦ rw e refl | inr e ↦ rw e refl ]
  filter-insert_by p x (y ∷ ys) sorted = elim (Bool-cases (before x y)) [
    | inl e ↦
        let after =
          All-filtered (λ z. before x z ≡ true) p (y ∷ ys) (e, All-after x y ys e sorted.0) in
        ground (arith, e, insert-first x (filter_where p (y ∷ ys)) after)
    | inr e ↦ ground (arith, e, filter-insert_by p x ys sorted.1)
  ]

  pub filter-sort_by :
      (p : A → Bool) (xs : List A)
      → Apart before xs
      → sort_by before (filter_where p xs) ≡ filter_where p (sort_by before xs)
  filter-sort_by p [] apart = refl
  filter-sort_by p (x ∷ xs) apart = ground (
    arith,
    filter-insert_by p x (sort_by before xs) (sort_by-Sorted xs apart.1),
    filter-sort_by p xs apart.1,
  )

  pub filter-Apart :
      (p : A → Bool) (xs : List A) → Apart before xs → Apart before (filter_where p xs)
  filter-Apart p [] apart = tt
  filter-Apart p (x ∷ xs) apart = elim (Bool-cases (p x)) [
    | inl e ↦ rw e (
      All-filtered (λ y. before x y || before y x ≡ true) p xs apart.0,
      filter-Apart p xs apart.1,
    )
    | inr e ↦ rw e (filter-Apart p xs apart.1)
  ]

  filter-kept : (p : A → Bool) (xs : List A) → All (λ y. p y ≡ true) xs → filter_where p xs ≡ xs
  filter-kept p [] h = refl
  filter-kept p (x ∷ xs) h = ground (arith, h.0, filter-kept p xs h.1)

  pub All-last_or {κ} :
      (P : A → Type κ) (n : ℕ) (x : A) (xs : List A) → P x → All P xs → P (last_or x (take n xs))
  All-last_or P zero x xs h k = h
  All-last_or P (suc n) x [] h k = h
  All-last_or P (suc n) x (y ∷ ys) h k = All-last_or P n y ys k.0 k.1

  asymmetric : (a b : A) → before a b ≡ true → before b a ≡ false
  asymmetric a b h = elim (Bool-cases (before b a)) [
    | inl e ↦ ground (arith, order.transitive a b a h e, order.irreflexive a)
    | inr e ↦ e
  ]

  -- What comes after the last row of a page is what the page leaves.
  pub filter-last :
      (n : ℕ) (x : A) (xs : List A)
      → Sorted before (x ∷ xs)
      → filter_where (before (last_or x (take n xs))) (x ∷ xs) ≡ drop before n xs
  filter-last zero x xs sorted =
      ground (arith, order.irreflexive x, filter-kept (before x) xs sorted.0)
  filter-last (suc n) x [] sorted = ground (arith, order.irreflexive x)
  filter-last (suc n) x (y ∷ ys) sorted =
      let last = last_or y (take n ys) in
      let later = All-last_or (λ z. before x z ≡ true) n y ys sorted.0.0 sorted.0.1 in
      ground (arith, asymmetric x last later, filter-last n y ys sorted.1)

module _ {A : Type 0} where
  take-all : (n : ℕ) (xs : List A) → length xs ≤ n → take n xs ≡ xs
  take-all zero [] h = refl
  take-all zero (x ∷ xs) h = ground arith
  take-all (suc n) [] h = refl
  take-all (suc n) (x ∷ xs) h = ap (λ ys. x ∷ ys) (take-all n xs (omega (arith, h)))

  length-take : (n : ℕ) (xs : List A) → n ≤ length xs → length (take n xs) ≡ n
  length-take zero xs h = refl
  length-take (suc n) [] h = ground arith
  length-take (suc n) (x ∷ xs) h = omega (arith, length-take n xs (omega (arith, h)))

  take_twice : (n : ℕ) (xs : List A) → take n (take (suc n) xs) ≡ take n xs
  take_twice zero xs = refl
  take_twice (suc n) [] = refl
  take_twice (suc n) (x ∷ xs) = ap (λ ys. x ∷ ys) (take_twice n xs)

  -- A page holds everything, or as much as its limit with more to come.
  pub page_of-last : (n : ℕ) (xs : List A) → length xs ≤ n → page_of n xs ≡ (xs, false)
  unfolding page_of
  page_of-last n xs h = ground (arith, take-all (suc n) xs (omega (arith, h)))

  pub page_of-more : (n : ℕ) (xs : List A) → n < length xs → page_of n xs ≡ (take n xs, true)
  unfolding page_of
  page_of-more n xs h = ground (arith, take_twice n xs, length-take (suc n) xs (omega (arith, h)))
