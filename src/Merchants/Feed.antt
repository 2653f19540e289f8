-- ===== src/Merchants/Feed.antt =====
-- A reader of the feed who asks again after the last change of each page.
use kinetix_identity_service.Prelude.{
  ℕ, zero, suc, ◌≤◌, ◌<◌, Bool, true, false, Option, none, some, List, [], ◌∷◌, ◌++◌, ◌≡◌, refl, ap,
  subst, ◌∙◌, arith, inl, inr, Bool-cases, ltb,
}
use kinetix_identity_service.Prelude.Tables.{
  length, All, filter_where, sort_by, insert_by, All-sort_by, All-filter_where,
}
use kinetix_identity_service.Paging.{take, last_or, last_of}
use kinetix_identity_service.Paging.Sorted.{
  StrictOrder, Sorted, Apart, drop, sort_by-Sorted, filter-sort_by, filter-Apart, All-last_or,
  filter-last, page_of-last, page_of-more,
}
use kinetix_identity_service.Merchants.{
  ChangeCursor, changed_before, is_after, changed_rows, find_changed_since,
}
use kinetix_identity_service.World.{World, MerchantRow, Request, ok, internal, ◌>>=◌, pure, throw}

abbrev pub cursor_at : MerchantRow → ChangeCursor
cursor_at row = record { updated_through = row.updated_at; last_id = row.merchant.id }

abbrev cursor_after : Option ChangeCursor → Option MerchantRow → Option ChangeCursor
cursor_after cursor none = cursor
cursor_after cursor (some row) = some (cursor_at row)

abbrev read_on : List MerchantRow → Bool → Request (List MerchantRow) → Request (List MerchantRow)
read_on changes true rest = do more ← rest; pure (changes ++ more)
read_on changes false rest = pure changes

-- The pages from a cursor on, one after another, within so many requests.
unfoldable pub read_changes : ℕ → ℕ → Option ChangeCursor → Request (List MerchantRow)
read_changes limit zero cursor = throw (internal "more pages are left")
read_changes limit (suc requests) cursor = do
  page ← find_changed_since cursor limit
  read_on page.changes page.has_more
      (read_changes limit requests (cursor_after cursor (last_of page.changes)))

changed_before-StrictOrder : StrictOrder changed_before
changed_before-StrictOrder = record {
  irreflexive = λ a. ground arith;
  transitive = λ a b c h k. ground arith;
}

is_after-before :
    (row later : MerchantRow) → is_after (some (cursor_at row)) later ≡ changed_before row later
is_after-before row later = ground arith

-- What comes after a row that comes after the cursor comes after the cursor.
after_later :
    (cursor : Option ChangeCursor) (row : MerchantRow) (rows : List MerchantRow)
    → is_after cursor row ≡ true
    → filter_where (is_after (some (cursor_at row))) rows
      ≡ filter_where (changed_before row) (filter_where (is_after cursor) rows)
after_later cursor row [] h = refl
after_later none row (x ∷ rows) h =
    ground (arith, is_after-before row x, after_later none row rows h)
after_later (some k) row (x ∷ rows) h =
    ground (arith, is_after-before row x, after_later (some k) row rows h)

-- The changes after the last one of a page.
rest_of :
    (cursor : Option ChangeCursor) (n : ℕ) (x : MerchantRow) (xs rows : List MerchantRow)
    → Apart changed_before rows
    → changed_rows cursor rows ≡ x ∷ xs
    → changed_rows (some (cursor_at (last_or x (take n xs)))) rows ≡ drop changed_before n xs
unfolding changed_rows
rest_of cursor n x xs rows apart h =
    let last = last_or x (take n xs) in
    let order = changed_before-StrictOrder in
    let kept = filter_where (is_after cursor) rows in
    let fresh = filter-Apart changed_before order (is_after cursor) rows apart in
    let after : All (λ row. is_after cursor row ≡ true) (x ∷ xs) =
      subst (λ (l : List MerchantRow). All (λ row. is_after cursor row ≡ true) l) h
        (All-sort_by (λ row. is_after cursor row ≡ true) changed_before kept
          (All-filter_where (is_after cursor) rows)) in
    let sorted : Sorted changed_before (x ∷ xs) =
      subst (λ (l : List MerchantRow). Sorted changed_before l) h
        (sort_by-Sorted changed_before order kept fresh) in
    let is_last : is_after cursor last ≡ true =
      All-last_or changed_before order (λ row. is_after cursor row ≡ true) n x xs after.0 after.1 in
    ap (sort_by changed_before) (after_later cursor last rows is_last)
    ∙ filter-sort_by changed_before order (changed_before last) kept fresh
    ∙ ap (filter_where (changed_before last)) h
    ∙ filter-last changed_before order n x xs sorted

take-drop : (n : ℕ) (xs : List MerchantRow) → take n xs ++ drop changed_before n xs ≡ xs
take-drop zero xs = refl
take-drop (suc n) [] = refl
take-drop (suc n) (x ∷ xs) = ap (λ ys. x ∷ ys) (take-drop n xs)

length-drop : (n : ℕ) (xs : List MerchantRow) → length (drop changed_before n xs) ≤ length xs
length-drop zero xs = omega arith
length-drop (suc n) [] = omega arith
length-drop (suc n) (x ∷ xs) = omega (arith, length-drop n xs)

reads :
    (n requests : ℕ) (cursor : Option ChangeCursor) (rows : List MerchantRow) (w : World)
    → Apart changed_before w.merchants
    → changed_rows cursor w.merchants ≡ rows
    → length rows < requests
    → read_changes (suc n) requests cursor w ≡ (ok rows, w)
unfolding read_changes find_changed_since
reads n zero cursor rows w apart h fuel = ground (arith, fuel)
reads n (suc requests) cursor [] w apart h fuel =
    ground (arith, h, page_of-last {A = MerchantRow} (suc n) [] (omega arith))
reads n (suc requests) cursor (x ∷ xs) w apart h fuel =
    elim (Bool-cases (ltb (suc n) (length (x ∷ xs)))) [
      | inr e ↦ ground (arith, h, page_of-last (suc n) (x ∷ xs) (ground (arith, e)))
      | inl e ↦
          let page = page_of-more (suc n) (x ∷ xs) (ground (arith, e)) in
          let more =
            reads n requests (some (cursor_at (last_or x (take n xs)))) (drop changed_before n xs) w
              apart (rest_of cursor n x xs w.merchants apart h)
              (omega (arith, fuel, length-drop n xs)) in
          ground (arith, h, page, more, take-drop n xs)
    ]

is_after-none : (rows : List MerchantRow) → filter_where (is_after none) rows ≡ rows
is_after-none [] = refl
is_after-none (x ∷ xs) = ap (λ ys. x ∷ ys) (is_after-none xs)

length-insert_by :
    (x : MerchantRow) (xs : List MerchantRow)
    → length (insert_by changed_before x xs) ≡ suc (length xs)
length-insert_by x [] = refl
length-insert_by x (y ∷ ys) = elim (Bool-cases (changed_before x y)) [
  | inl e ↦ rw e refl
  | inr e ↦ rw e (ap suc (length-insert_by x ys))
]

length-sort_by : (xs : List MerchantRow) → length (sort_by changed_before xs) ≡ length xs
length-sort_by [] = refl
length-sort_by (x ∷ xs) =
    length-insert_by x (sort_by changed_before xs) ∙ ap suc (length-sort_by xs)

-- A reader of the change feed that asks, with a limit above 0, for what follows the last change of
-- each page ends within one request more than there are merchants, with every merchant once, in the
-- order of the feed. Any two merchants differ in the time of their change or in their id.
pub read_changes-all :
    (limit requests : ℕ) (w : World)
    → Apart changed_before w.merchants
    → 0 < limit
    → length w.merchants < requests
    → read_changes limit requests none w ≡ (ok (sort_by changed_before w.merchants), w)
unfolding changed_rows
read_changes-all zero requests w apart pos fuel = ground arith
read_changes-all (suc n) requests w apart pos fuel =
    reads n requests none (sort_by changed_before w.merchants) w apart
      (ap (sort_by changed_before) (is_after-none w.merchants))
      (omega (arith, fuel, length-sort_by w.merchants))
