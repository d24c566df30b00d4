-- ===== src/Common/Pagination.antt =====
-- packages/common/src/pagination/pagination.helper.ts, after the checks of PaginationDto.
pub mod Ranges
use backend_core_platform.Common.Errors.ErrorCodes
use backend_core_platform.Common.Errors.{Result, ok, throws, service}
use backend_core_platform.Base.{
  ℕ, ◌+◌, ◌-◌, ◌*◌, ◌/◌, String, ◌⊎◌, inl, inr, true, Option, none, some, leb, ◌==◌, Eq_ℕ,
  Eq_String, if◌then◌else◌, is_empty, coalesce, or_text, Value, concat, undefined, null, bool, num,
  str, arr, obj, end, field,
}

pub record PaginationDto : Type 0 where
  pub page : Option ℕ
  pub per_page : Option ℕ
  pub start : Option ℕ
  pub stop : Option ℕ
  pub sort : Option String
  pub order : Option String
  pub filter : Option String

pub data SortOrder : Type 0 where
  asc desc : SortOrder

pub record PaginationOptions : Type 0 where
  pub page : ℕ
  pub limit : ℕ
  pub skip : ℕ
  pub sort : Option (String × SortOrder)
  pub filter : Value

abbrev or_number : Option ℕ → ℕ → ℕ
or_number none d = d
or_number (some n) d = if n == 0 then d else n

abbrev refused : {A : Type 0} → String → Value → Result A
refused message details = throws (
    service (record {
      code = ErrorCodes.validation_error;
      status_code = 400;
      message = message;
      details = details;
      expose_message = true;
    }))

-- An object, or an array; of any other JSON the empty object is made.
abbrev filter_of : Value → Value
filter_of (obj fields) = obj fields
filter_of (arr items) = arr items
filter_of undefined = obj end
filter_of null = obj end
filter_of (bool b) = obj end
filter_of (num n) = obj end
filter_of (str s) = obj end

-- `parse` is JSON.parse, with the message of its error; `of_number` writes a number.
module _ (parse : String → Value ⊎ String) (of_number : ℕ → String) where
  abbrev with_filter : PaginationDto → (Value → PaginationOptions) → Result PaginationOptions
  with_filter dto options = elim dto.filter [
    | none ↦ ok (options (obj end))
    | some text ↦ if is_empty text then ok (options (obj end)) else elim (parse text) [
      | inl v ↦ ok (options (filter_of v))
      | inr message ↦
          refused
            (concat "Invalid filter format: " (concat message (concat ". Provided value: " text)))
            (obj (field "filter" (str text) end))
    ]
  ]

  abbrev sort_of : PaginationDto → Option (String × SortOrder)
  sort_of dto =
      if is_empty (or_text dto.sort "")
      then none
      else some (or_text dto.sort "", if coalesce dto.order "" == "DESC" then desc else asc)

  abbrev options_of : PaginationDto → ℕ → ℕ → Value → PaginationOptions
  options_of dto page limit filter = record {
    page = page;
    limit = limit;
    skip = (page - 1) * limit;
    sort = sort_of dto;
    filter = filter;
  }

  unfoldable pub parse_pagination : PaginationDto → Result PaginationOptions
  parse_pagination dto = elim dto.start [
    | none ↦ with_filter dto (options_of dto (or_number dto.page 1) (or_number dto.per_page 10))
    | some start ↦ elim dto.stop [
      | none ↦ with_filter dto (options_of dto (or_number dto.page 1) (or_number dto.per_page 10))
      | some stop ↦
          if leb stop start
          then refused
              (concat "Invalid pagination params: _end (" (
                concat (of_number stop)
                  (concat ") must be greater than _start (" (concat (of_number start) ")"))))
              (obj (field "_start" (num start) (field "_end" (num stop) end)))
          else with_filter dto (options_of dto (start / (stop - start) + 1) (stop - start))
    ]
  ]
