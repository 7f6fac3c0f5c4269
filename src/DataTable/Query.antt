-- ===== src/DataTable/Query.antt =====
-- web/src/components/data-table/use-data-table-search.ts: the table's state as a view of the route's
-- search parameters, and the handlers that write it back. A handler is the updater that it hands to
-- `onSearchChange`. The search parameters beside the four of every table are `facets`; the keys that
-- a table names are distinct, and none is `q`, `page`, `per_page` or `sort`.
pub mod Filters
pub mod Paging
pub mod Reset
use woodgate.Common.{
  if◌then◌else◌, is_some, is_empty, any, keep, Text, codes, String, Bool, true, false, not, ◌||◌,
  Option, none, some, List, [], ◌∷◌, map, str_eq,
}
use woodgate.Common.Number.{Number, num, plus_one, minus_one, number_text}
use woodgate.Paging.{normalize_page, normalize_page_size, default_page_size}
use woodgate.DataTable.Sorting.{SortingItem, parse_sorting_state, serialize_sorting_state}

-- A value that stands in the search parameters or in a column filter.
pub data Scalar : Type 0 where
  text : Text → Scalar
  number : Number → Scalar
  boolean : Bool → Scalar

pub data FieldValue : Type 0 where
  undefined null : FieldValue
  scalar : Scalar → FieldValue
  array : List Scalar → FieldValue

-- `String(value)`
unfoldable pub scalar_text : Scalar → Text
unfolding number_text
scalar_text (text t) = t
scalar_text (number n) = number_text n
scalar_text (boolean b) = if b then codes "true" else codes "false"

pub record SearchState : Type 0 where
  pub q : Option Text
  pub page : Number
  pub per_page : Number
  pub sort : Option Text
  pub facets : String → FieldValue

pub record FilterKey : Type 0 where
  pub id : String
  pub multiple : Bool

pub record PaginationState : Type 0 where
  pub page_index : Number
  pub page_size : Number

pub record ColumnFilter : Type 0 where
  pub id : String
  pub value : FieldValue

-- `Updater<T>`: a value, or a function of the current one.
pub data Updater {ℓ} (T : Type ℓ) : Type ℓ where
  set : T → Updater T
  apply : (T → T) → Updater T

abbrev pub updated {ℓ} : {T : Type ℓ} → Updater T → T → T
updated (set v) old = v
updated (apply f) old = f old

-- The texts of one facet, none if nothing is chosen there.
abbrev pub facet_texts : FieldValue → List Text
facet_texts undefined = []
facet_texts null = []
facet_texts (scalar (text [])) = []
facet_texts (scalar v) = scalar_text v ∷ []
facet_texts (array vs) = map scalar_text vs

-- `filters`: the keys with something chosen, in the order of `filterKeys`.
unfoldable pub filters : List FilterKey → SearchState → List (String × List Text)
filters [] search = []
filters (key ∷ keys) search =
    let rest = filters keys search in
    let texts = facet_texts (search.facets key.id) in
    if is_empty texts then rest else (key.id, texts) ∷ rest

unfoldable pub pagination : SearchState → PaginationState
pagination search = record { page_index = minus_one search.page; page_size = search.per_page }

unfoldable pub sorting : SearchState → List SortingItem
sorting search = parse_sorting_state search.sort

abbrev as_column_filter : String × List Text → ColumnFilter
as_column_filter (id, value) = record { id = id; value = array (map text value) }

unfoldable pub column_filters : List FilterKey → SearchState → List ColumnFilter
unfolding filters
column_filters keys search = map as_column_filter (filters keys search)

unfoldable pub on_pagination_change :
    SearchState → Updater PaginationState → SearchState → SearchState
unfolding pagination normalize_page normalize_page_size
on_pagination_change search change previous =
    let next = updated change (pagination search) in
    record previous {
      page = normalize_page (some (plus_one next.page_index));
      per_page = normalize_page_size (some next.page_size) (num default_page_size);
    }

unfoldable pub single_sort : List SortingItem → List SortingItem
single_sort [] = []
single_sort (sort ∷ _) = sort ∷ []

-- `text || undefined`
abbrev pub text_or_undefined : Text → Option Text
text_or_undefined [] = none
text_or_undefined (c ∷ s) = some (c ∷ s)

unfoldable pub on_sorting_change :
    SearchState → Updater (List SortingItem) → SearchState → SearchState
unfolding sorting single_sort
on_sorting_change search change previous =
    let next = updated change (sorting search) in
    let sort = text_or_undefined (serialize_sorting_state (single_sort next)) in
    record previous { page = num 1; sort = sort }

-- `{ ...facets, [key]: value }`
abbrev pub set_facet : String → FieldValue → (String → FieldValue) → String → FieldValue
set_facet key value facets k = if str_eq k key then value else facets k

-- The assignments of `Object.fromEntries`, the last one for a key deciding.
unfoldable pub assign : List (String × FieldValue) → (String → FieldValue) → String → FieldValue
assign [] facets = facets
assign ((key, value) ∷ entries) facets = assign entries (set_facet key value facets)

-- `Array.isArray(value) ? value.map(String).filter(Boolean) : []`
abbrev pub filter_items : FieldValue → List Text
filter_items (array vs) = keep (λ t. not (is_empty t)) (map scalar_text vs)
filter_items _ = []

-- The items chosen for a key by the table's column filters.
unfoldable pub chosen_items : List ColumnFilter → String → List Text
chosen_items [] id = []
chosen_items (filter ∷ next) id =
    if str_eq filter.id id then filter_items filter.value else chosen_items next id

abbrev pub facet_value : Bool → List Text → FieldValue
facet_value multiple [] = undefined
facet_value true (t ∷ ts) = array (map text (t ∷ ts))
facet_value false (t ∷ ts) = scalar (text t)

unfoldable pub filter_entries : List FilterKey → List ColumnFilter → List (String × FieldValue)
unfolding chosen_items
filter_entries keys next =
    map
      (λ key. (
        FilterKey.id key,
        facet_value (FilterKey.multiple key) (chosen_items next (FilterKey.id key)),
      ))
      keys

unfoldable pub on_column_filters_change :
    List FilterKey → SearchState → Updater (List ColumnFilter) → SearchState → SearchState
unfolding column_filters filter_entries assign
on_column_filters_change keys search change previous =
    let next = updated change (column_filters keys search) in
    record previous { facets = assign (filter_entries keys next) previous.facets; page = num 1 }

unfoldable pub on_query_change : Option Text → SearchState → SearchState
on_query_change q previous = record previous { q = q; page = num 1 }

unfoldable pub clear_search_keys : List String → SearchState → SearchState
unfolding assign
clear_search_keys keys previous = record previous {
  facets = assign (map (λ key. (key, undefined)) keys) previous.facets;
  page = num 1;
}

abbrev pub is_defined : FieldValue → Bool
is_defined undefined = false
is_defined _ = true

unfoldable pub is_filtered : List FilterKey → List String → SearchState → Bool
unfolding filters
is_filtered filter_keys scope_keys search =
    is_some search.q
    || any (λ entry. not (is_empty (entry.1))) (filters filter_keys search)
    || any (λ key. is_defined (search.facets key)) scope_keys
