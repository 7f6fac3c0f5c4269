-- ===== src/DataTable/Table/Clamp.antt =====
-- The page that a table settles on.
use woodgate.Common.{Bool-cases, ℕ, ◌+◌, ◌-◌, ◌*◌, ◌≤◌, ◌<◌, min, max, ◌≡◌, inl, inr, true, arith}
use woodgate.Common.Number.{whole, pos, max_safe}
use woodgate.Paging.Params.{num-IsCounting}
use woodgate.DataTable.Query.{SearchState, set, pagination, on_pagination_change}
use woodgate.DataTable.Query.Paging.{IsInRange, pagination-change}
use woodgate.DataTable.Table.{is_within, clamp_page, row_span}

-- The table shows one of its pages; an empty table has one page.
abbrev pub IsOnPage : ℕ → SearchState → Type 0
IsOnPage pages search = is_within (pagination search).page_index (max 1 pages - 1) ≡ true

pub clamped :
    (search : SearchState) (last : ℕ)
    → IsInRange search
    → last < max_safe
    → pagination (
        on_pagination_change search
          (set (record (pagination search) { page_index = whole (pos last) }))
          search)
      ≡ record (pagination search) { page_index = whole (pos last) }
unfolding pagination
clamped search last h bound =
    (pagination-change search search (record (pagination search) { page_index = whole (pos last) })
      (num-IsCounting (last + 1) (omega arith) (omega arith)) h.per_page).0

pub clamp_page-IsOnPage :
    (pages : ℕ) (search : SearchState)
    → pages ≤ max_safe
    → IsInRange search
    → IsOnPage pages (clamp_page (pos pages) search)
unfolding clamp_page
clamp_page-IsOnPage pages search small h =
    elim (Bool-cases (is_within (pagination search).page_index (max 1 pages - 1))) [
      | inl inside ↦ rw inside inside
      | inr outside ↦
          rw outside (rw (clamped search (max 1 pages - 1) h (omega arith)) (ground arith))
    ]

clamp_page-fixed :
    (pages : ℕ) (search : SearchState)
    → IsOnPage pages search
    → clamp_page (pos pages) search ≡ search
unfolding clamp_page
clamp_page-fixed pages search inside = rw inside

-- For search parameters in range and a safe number of pages, the effect run on its own result
-- changes nothing.
pub clamp_page_idem :
    (pages : ℕ) (search : SearchState)
    → pages ≤ max_safe
    → IsInRange search
    → clamp_page (pos pages) (clamp_page (pos pages) search) ≡ clamp_page (pos pages) search
clamp_page_idem pages search small h =
    clamp_page-fixed pages (clamp_page (pos pages) search)
      (clamp_page-IsOnPage pages search small h)

-- A page of a table with `row_count` rows, split in pages of `page_size`.
abbrev rows_on_page : (page_index page_size row_count : ℕ) → ℕ
rows_on_page page_index page_size row_count = min page_size (row_count - page_index * page_size)

-- On a page that starts within the table, with a page size of at least 1, the announced rows lie
-- within the table and are as many as the page holds.
pub row_span_lem :
    (page_index page_size row_count : ℕ)
    → page_index * page_size < row_count
    → 1 ≤ page_size
    → let (first_row, last_row) =
        row_span page_index page_size (rows_on_page page_index page_size row_count) row_count in
      (1 ≤ first_row)
      × (last_row ≤ row_count)
      × (last_row + 1 ≡ first_row + rows_on_page page_index page_size row_count)
unfolding row_span
row_span_lem page_index page_size row_count inside some_rows = ground arith
