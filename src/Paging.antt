-- ===== src/Paging.antt =====
-- A page of a listing: `limit(query.limit + 1)`, `hasMore` and `nextAfterId`, as the repositories of
-- src/infrastructure/persistence/adapters compute them.
pub mod Sorted
use kinetix_identity_service.Prelude.{
  ℕ, zero, suc, ◌+◌, Bool, true, false, ◌&&◌, Option, none, some, List, [], ◌∷◌, ltb, if◌then◌else◌,
}
use kinetix_identity_service.Prelude.Tables.{length, filter_where, sort_by}

-- `ApplicationQuery`
pub record ApplicationQuery (S : Type 0) : Type 0 where
  pub status : Option S
  pub after_id : ℕ
  pub limit : ℕ

-- `ApplicationPage`
pub record ApplicationPage (V : Type 0) : Type 0 where
  pub applications : List V
  pub next_after_id : Option ℕ

-- `ApplicationTally`
pub record ApplicationTally : Type 0 where
  pub since : ℕ
  pub approved : ℕ
  pub rejected : ℕ

module _ {A : Type 0} where
  abbrev pub take : ℕ → List A → List A
  take zero xs = []
  take (suc n) [] = []
  take (suc n) (x ∷ xs) = x ∷ take n xs

  abbrev pub last_or : A → List A → A
  last_or a [] = a
  last_or a (x ∷ xs) = last_or x xs

  abbrev pub last_of : List A → Option A
  last_of [] = none
  last_of (x ∷ xs) = some (last_or x xs)

  -- The records that a query with `limit + 1` reads, and whether there are more than the limit.
  unfoldable pub page_of : ℕ → List A → List A × Bool
  page_of limit rows =
      let records = take (limit + 1) rows in
      if ltb limit (length records) then (take limit records, true) else (records, false)
