-- ===== src/NotificationService/Notifications/Paging.antt =====
-- The paging of a list of notifications.
use backend_core_platform.Common.Errors.{ok}
use backend_core_platform.NotificationService.Notifications.{
  ListQuery, list_query, at_least_one, number_or,
}
use backend_core_platform.Base.{
  ℕ, zero, suc, ◌+◌, ◌-◌, ◌*◌, ◌≤◌, String, ◌≡◌, refl, ◌⊎◌, inl, inr, Bool, true, false, Option,
  arith, ltb, ◌==◌, Eq_ℕ, Eq_String, if◌then◌else◌, is_empty, coalesce, ℤ, pos, negsuc,
}

module _ (number : String → Option ℤ) (user_id : String)
    (page_raw limit_raw sort_by_raw sort_order_raw : Option String) where
  abbrev pub IsBounded : ListQuery → Type 0
  IsBounded q =
      (q.user_id ≡ user_id)
      × (1 ≤ q.page)
      × (1 ≤ q.limit)
      × (q.limit ≤ 100)
      × (q.skip + q.limit ≡ q.page * q.limit)
      × ((q.sort_by ≡ "createdAt") ⊎ (q.sort_by ≡ "readAt"))
      × ((q.sort_order ≡ "asc") ⊎ (q.sort_order ≡ "desc"))

  at_least_one_lem : (z : ℤ) → 1 ≤ at_least_one z
  at_least_one_lem (pos n) = ground arith
  at_least_one_lem (negsuc n) = ground arith

  choice : (b : Bool) (s t : String) → ((if b then s else t) ≡ t) ⊎ ((if b then s else t) ≡ s)
  choice true s t = inr refl
  choice false s t = inl refl

  choice' : (b : Bool) (s t : String) → ((if b then s else t) ≡ s) ⊎ ((if b then s else t) ≡ t)
  choice' true s t = inl refl
  choice' false s t = inr refl

  skip_lem : (p l : ℕ) → 1 ≤ p → (p - 1) * l + l ≡ p * l
  skip_lem zero l h = omega arith
  skip_lem (suc n) l h = ground arith

  -- For a user, whatever the four texts of the query are, the page and the limit are at least 1, the
  -- limit is at most 100, the rows skipped are those of the pages before, and the sort is by one of
  -- the two columns that may be sorted by, in one of the two orders.
  pub list_query-IsBounded :
      is_empty user_id ≡ false
      → (q : ListQuery) × (list_query number user_id page_raw limit_raw sort_by_raw sort_order_raw
          ≡ ok q)
        × IsBounded q
  unfolding list_query
  list_query-IsBounded given =
      let page = at_least_one (number_or number page_raw 1) in
      let wanted = at_least_one (number_or number limit_raw 20) in
      let page_positive = at_least_one_lem (number_or number page_raw 1) in
      let wanted_positive = at_least_one_lem (number_or number limit_raw 20) in
      rw given (
        _,
        refl,
        (
          refl,
          page_positive,
          (ground arith),
          (ground arith),
          skip_lem page (if ltb wanted 100 then wanted else 100) page_positive,
          choice (coalesce sort_by_raw "" == "readAt") "readAt" "createdAt",
          choice' (coalesce sort_order_raw "" == "asc") "asc" "desc",
        ),
      )
