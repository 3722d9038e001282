-- ===== src/Data/Page.antt =====
-- common/pagination.ts: a page of a list.
use trustflow_backend.Prelude.{ℕ, ◌-◌, ◌*◌, min, max, Option, none, some, List, length, take, drop}

-- A number of a query, as `positiveInteger` reads it: its integer part, if it is finite.
pub data RawNumber : Type 0 where
  not_finite below_zero : RawNumber
  whole : ℕ → RawNumber

pub record PaginationQuery : Type 0 where
  pub page : Option RawNumber
  pub limit : Option RawNumber

pub record PaginatedResponse {ℓ} (A : Type ℓ) : Type ℓ where
  pub items : List A
  pub total : ℕ
  pub page : ℕ
  pub limit : ℕ

-- The resolved page and limit.
pub record Paging : Type 0 where
  pub page : ℕ
  pub limit : ℕ

abbrev pub default_page_limit : ℕ
default_page_limit = 20

abbrev pub max_page_limit : ℕ
max_page_limit = 100

unfoldable pub positive_integer : Option RawNumber → ℕ → ℕ
positive_integer none fallback = fallback
positive_integer (some not_finite) fallback = fallback
positive_integer (some below_zero) fallback = 1
positive_integer (some (whole n)) fallback = max 1 n

unfoldable pub normalize_pagination : PaginationQuery → Paging
unfolding positive_integer
normalize_pagination query = record {
  page = positive_integer query.page 1;
  limit = min (positive_integer query.limit default_page_limit) max_page_limit;
}

-- A page and a limit that are resolved already, as a query.
abbrev pub query_of : Paging → PaginationQuery
query_of p = record { page = some (whole p.page); limit = some (whole p.limit) }

module _ {ℓ} {A : Type ℓ} where
  -- items.slice(start, start + limit)
  abbrev pub slice : Paging → List A → List A
  slice p items = take p.limit (drop ((p.page - 1) * p.limit) items)

  unfoldable pub paginate : List A → PaginationQuery → PaginatedResponse A
  unfolding normalize_pagination
  paginate items query =
      let p = normalize_pagination query in
      record { items = slice p items; total = length items; page = p.page; limit = p.limit }
