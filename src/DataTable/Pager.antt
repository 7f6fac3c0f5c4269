-- ===== src/DataTable/Pager.antt =====
-- web/src/components/data-table/data-table-pagination.tsx: the buttons below a table. `PagerLibrary` is
-- what they call of TanStack Table, at the table's page count: the functions that the table hands to
-- `onPaginationChange`, and the tests for a page before and a page behind.
pub mod Turns
use woodgate.Common.{if◌then◌else◌, ltb, ℕ, suc, ◌-◌, ◌<◌, ◌≡◌, Bool}
use woodgate.Common.Number.{Number, whole, pos}
use woodgate.DataTable.Query.{SearchState, PaginationState, apply, pagination, on_pagination_change}

pub record PagerLibrary : Type 0 where
  pub set_page_index : (pages index : ℕ) → PaginationState → PaginationState
  pub set_page_size : (size : Number) → PaginationState → PaginationState
  pub previous_page : (pages : ℕ) → PaginationState → PaginationState
  pub next_page : (pages : ℕ) → PaginationState → PaginationState
  pub can_previous : (pages : ℕ) → PaginationState → Bool
  pub can_next : (pages : ℕ) → PaginationState → Bool

abbrev pub at_index : ℕ → PaginationState → PaginationState
at_index n s = record s { page_index = whole (pos n) }

-- What TanStack Table documents of them, on a page of the table.
pub record IsDocumented (lib : PagerLibrary) : Type 0 where
  pub sets :
      (pages n : ℕ) (s : PaginationState) → n < pages → lib.set_page_index pages n s ≡ at_index n s
  pub goes_back :
      (pages n : ℕ) (s : PaginationState)
      → s.page_index ≡ whole (pos (suc n))
      → lib.previous_page pages s ≡ lib.set_page_index pages n s
  pub goes_on :
      (pages n : ℕ) (s : PaginationState)
      → s.page_index ≡ whole (pos n)
      → lib.next_page pages s ≡ lib.set_page_index pages (suc n) s
  pub has_previous :
      (pages n : ℕ) (s : PaginationState)
      → s.page_index ≡ whole (pos n)
      → lib.can_previous pages s ≡ ltb 0 n
  pub has_next :
      (pages n : ℕ) (s : PaginationState)
      → s.page_index ≡ whole (pos n)
      → lib.can_next pages s ≡ ltb (suc n) pages

pub data PagerButton : Type 0 where
  to_first to_previous to_next to_last : PagerButton

module _ (lib : PagerLibrary) where
  -- `disabled`, the other way round.
  unfoldable pub is_enabled : (pages : ℕ) → SearchState → PagerButton → Bool
  unfolding pagination
  is_enabled pages search to_first = lib.can_previous pages (pagination search)
  is_enabled pages search to_previous = lib.can_previous pages (pagination search)
  is_enabled pages search to_next = lib.can_next pages (pagination search)
  is_enabled pages search to_last = lib.can_next pages (pagination search)

  -- `onClick`
  unfoldable pub turn : (pages : ℕ) → PagerButton → PaginationState → PaginationState
  turn pages to_first = lib.set_page_index pages 0
  turn pages to_previous = lib.previous_page pages
  turn pages to_next = lib.next_page pages
  turn pages to_last = lib.set_page_index pages (pages - 1)

  unfoldable pub press : (pages : ℕ) → SearchState → PagerButton → SearchState
  unfolding turn is_enabled
  press pages search button =
      if is_enabled pages search button
      then on_pagination_change search (apply (turn pages button)) search
      else search

  -- The picker of the page size, at `Number(value)`.
  unfoldable pub pick_page_size : SearchState → (size : Number) → SearchState
  pick_page_size search size = on_pagination_change search (apply (lib.set_page_size size)) search
