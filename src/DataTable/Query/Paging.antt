-- ===== src/DataTable/Query/Paging.antt =====
-- The page of the table and the page of the route.
use woodgate.Common.{
  is_empty, Text, zero, suc, String, ◌≡◌, refl, false, Option, some, List, [], ◌∷◌, arith,
}
use native.Mathlib.Numerals.{add-one}
use woodgate.Common.Number.{Number, whole, other, pos, negsuc, num, plus_one, minus_one, IsCounting}
use woodgate.Paging.{default_page_size}
use woodgate.Paging.Params.{
  IsPageSize, num-IsPageSize, normalize_page-IsCounting, normalize_page_size-IsPageSize,
  normalize_page_of_IsCounting, normalize_page_size_of_IsPageSize, num-IsCounting,
}
use woodgate.DataTable.Sorting.{SortingItem}
use woodgate.DataTable.Sorting.RoundTrip.{IsSortable, parse-serialize, serialize-filled}
use woodgate.DataTable.Query.{
  SearchState, FilterKey, PaginationState, ColumnFilter, Updater, set, updated, pagination, sorting,
  on_pagination_change, on_sorting_change, text_or_undefined, on_column_filters_change,
  on_query_change, clear_search_keys,
}

minus_one-plus_one : (v : Number) → minus_one (plus_one v) ≡ v
minus_one-plus_one (whole (pos n)) = rw add-one
minus_one-plus_one (whole (negsuc zero)) = refl
minus_one-plus_one (whole (negsuc (suc n))) = refl
minus_one-plus_one (other t) = refl

-- A page that the table asks for is the page that it shows next, if the page and its size are in
-- range; the search text, the sorting and the facets stay as they were.
pub pagination-change :
    (search previous : SearchState) (next : PaginationState)
    → IsCounting (plus_one next.page_index)
    → IsPageSize next.page_size
    → (pagination (on_pagination_change search (set next) previous) ≡ next)
      × ((on_pagination_change search (set next) previous).q ≡ previous.q)
      × ((on_pagination_change search (set next) previous).sort ≡ previous.sort)
      × ((on_pagination_change search (set next) previous).facets ≡ previous.facets)
unfolding pagination on_pagination_change
pagination-change search previous next page size = (
  rw (
    normalize_page_of_IsCounting (plus_one next.page_index) page,
    normalize_page_size_of_IsPageSize next.page_size (num default_page_size) size,
    minus_one-plus_one next.page_index,
  ),
  refl,
  refl,
  refl,
)

text_or_undefined_of_filled : (t : Text) → is_empty t ≡ false → text_or_undefined t ≡ some t
text_or_undefined_of_filled [] h = cc
text_or_undefined_of_filled (c ∷ s) h = refl

-- The first column that the table asks to sort by is the one that the next render sorts by, if its
-- id is not empty, has no comma and does not start with a space.
pub sorting-change :
    (search previous : SearchState) (item : SortingItem) (more : List SortingItem)
    → IsSortable item.id
    → sorting (on_sorting_change search (set (item ∷ more)) previous) ≡ item ∷ []
unfolding sorting on_sorting_change
sorting-change search previous item more h =
    rw (text_or_undefined_of_filled _ (serialize-filled item [])) (parse-serialize item [] h)

-- What the table may do to the search parameters.
pub data Event : Type 0 where
  paginate : Updater PaginationState → Event
  sort_by : Updater (List SortingItem) → Event
  filter_by : Updater (List ColumnFilter) → Event
  query : Option Text → Event
  clear : List String → Event

-- One event against the search parameters that the table was rendered with.
abbrev pub handle : List FilterKey → SearchState → Event → SearchState
handle keys search (paginate change) = on_pagination_change search change search
handle keys search (sort_by change) = on_sorting_change search change search
handle keys search (filter_by change) = on_column_filters_change keys search change search
handle keys search (query q) = on_query_change q search
handle keys search (clear cleared) = clear_search_keys cleared search

abbrev pub handle_all : List FilterKey → SearchState → List Event → SearchState
handle_all keys search [] = search
handle_all keys search (event ∷ events) = handle_all keys (handle keys search event) events

-- A page that the list endpoints accept.
pub record IsInRange (search : SearchState) : Type 0 where
  pub page : IsCounting search.page
  pub per_page : IsPageSize search.per_page

handle-IsInRange :
    (keys : List FilterKey) (search : SearchState) (event : Event)
    → IsInRange search
    → IsInRange (handle keys search event)
unfolding on_pagination_change on_sorting_change on_column_filters_change on_query_change
    clear_search_keys
handle-IsInRange keys search (paginate change) h = record {
  page =
      normalize_page-IsCounting (some (plus_one (updated change (pagination search)).page_index));
  per_page =
      normalize_page_size-IsPageSize (some (updated change (pagination search)).page_size) _
        (num-IsPageSize 50 (omega arith) (omega arith));
}
handle-IsInRange keys search (sort_by change) h = record {
  page = num-IsCounting 1 (omega arith) (omega arith);
  per_page = h.per_page;
}
handle-IsInRange keys search (filter_by change) h = record {
  page = num-IsCounting 1 (omega arith) (omega arith);
  per_page = h.per_page;
}
handle-IsInRange keys search (query q) h = record {
  page = num-IsCounting 1 (omega arith) (omega arith);
  per_page = h.per_page;
}
handle-IsInRange keys search (clear cleared) h = record {
  page = num-IsCounting 1 (omega arith) (omega arith);
  per_page = h.per_page;
}

-- From search parameters in range, whatever the table does, in any order and with any updaters,
-- the page number stays a safe integer of at least 1 and the page size stays between 1 and 1000.
pub handle_all-IsInRange :
    (keys : List FilterKey) (search : SearchState) (events : List Event)
    → IsInRange search
    → IsInRange (handle_all keys search events)
handle_all-IsInRange keys search [] h = h
handle_all-IsInRange keys search (event ∷ events) h =
    handle_all-IsInRange keys (handle keys search event) events
      (handle-IsInRange keys search event h)
