-- ===== src/Common/Pagination/Ranges.antt =====
-- The page that a range of rows becomes.
use native.Mathlib.Nat.{div-add-mod'}
use backend_core_platform.Common.Errors.{ok}
use backend_core_platform.Common.Pagination.{PaginationDto, PaginationOptions, parse_pagination}
use backend_core_platform.Base.{
  ℕ, ◌+◌, ◌-◌, ◌*◌, ◌/◌, ◌%◌, ◌<◌, String, ◌≡◌, refl, ◌⊎◌, none, some, arith, lt→leb_false, Value,
}

-- The rows before the page and the rest of the row that the range begins with.
page_start : (start l : ℕ) → (start / l + 1 - 1) * l + start % l ≡ start
page_start start l =
    let e : start / l + 1 - 1 ≡ start / l = omega arith in rw e (div-add-mod' start l)

module _ (parse : String → Value ⊎ String) (of_number : ℕ → String) where
  -- A range from `start` to `stop` with no filter becomes the page, of the range's length, that holds
  -- the row `start`; it begins before that row by the rest of `start` by the length, so that it is the
  -- range asked for only where `start` is a multiple of its length.
  pub parse_pagination_range :
      (dto : PaginationDto) (start stop : ℕ)
      → dto.start ≡ some start
      → dto.stop ≡ some stop
      → dto.filter ≡ none
      → start < stop
      → (q : PaginationOptions) × (parse_pagination parse of_number dto ≡ ok q)
        × (q.limit ≡ stop - start)
        × (q.skip + start % q.limit ≡ start)
  unfolding parse_pagination
  parse_pagination_range dto start stop begins ends unfiltered order =
      rw (begins, parse_pagination)
        (rw (ends, parse_pagination)
          (rw (lt→leb_false stop start order)
            (rw (unfiltered, parse_pagination) (_, refl, refl, page_start start (stop - start)))))
