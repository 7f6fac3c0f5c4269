-- ===== src/DataTable/Table.antt =====
-- web/src/components/data-table/use-data-table.ts: the effect that brings a page past the end back
-- to the last page, and the rows that data-table-pagination.tsx announces.
pub mod Clamp
use woodgate.Common.{
  leb, ◌==◌, if◌then◌else◌, ℕ, ◌+◌, ◌-◌, ◌*◌, ◌/◌, min, max, Bool, true, false, Option, none, some,
}
use woodgate.Common.Number.{Number, whole, other, ℤ, pos, negsuc}
use woodgate.DataTable.Query.{SearchState, set, pagination, on_pagination_change}

-- resource-data-table.tsx: the page count of a table, -1 while its first page loads.
unfoldable pub resource_page_count : Bool → (count per_page : ℕ) → ℤ
resource_page_count loading count per_page =
    if loading then negsuc 0 else pos ((count + (per_page - 1)) / per_page)

-- `pageCount < 0 ? -1 : Math.max(1, pageCount)`, with -1 as `none`.
unfoldable pub normalized_page_count : ℤ → Option ℕ
normalized_page_count (negsuc n) = none
normalized_page_count (pos n) = some (max 1 n)

-- `index <= last`. The route's schema lets integers through alone, so `other` is NaN here.
unfoldable pub is_within : Number → ℕ → Bool
is_within (whole (pos n)) last = leb n last
is_within (whole (negsuc n)) last = true
is_within (other t) last = false

-- The effect, at the search parameters of its render.
unfoldable pub clamp_page : ℤ → SearchState → SearchState
unfolding normalized_page_count is_within
clamp_page page_count search = elim (normalized_page_count page_count) [
  | none ↦ search
  | some pages ↦
      let last_page_index = pages - 1 in
      if is_within (pagination search).page_index last_page_index
      then search
      else on_pagination_change search
          (set (record (pagination search) { page_index = whole (pos last_page_index) })) search
]

-- The numbers of the first and the last row on the page, 0 and 0 on an empty one.
unfoldable pub row_span : (page_index page_size page_row_count row_count : ℕ) → ℕ × ℕ
row_span page_index page_size page_row_count row_count =
    let first_row = if page_row_count == 0 then 0 else page_index * page_size + 1 in
    let last_row =
      if page_row_count == 0 then 0 else min row_count (first_row + page_row_count - 1) in
    (first_row, last_row)
