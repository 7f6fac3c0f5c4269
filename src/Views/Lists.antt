-- ===== src/Views/Lists.antt =====
-- What the lists show of their query: web/src/components/resource-data-table.tsx, resource-overview-card.tsx
-- and data-table/data-table-empty.tsx, and the lists of web/src/features that use them. A table is its
-- rows, without the cells.
use woodgate.Common.{
  if◌then◌else◌, Text, codes, ℕ, ◌+◌, ◌-◌, ◌/◌, Bool, true, false, Option, none, some, ◌++◌, [],
  List, is_some, some_or, is_empty, length, ◌&&◌, not,
}
use woodgate.Common.Number.{ℤ, pos, negsuc}
use woodgate.DataTable.Table.{resource_page_count}
use woodgate.Listings.{checkin_columns, station_columns, location_columns}
use woodgate.Views.{Failure, Query, Alert, query_error}

-- A response of a list.
pub record Listed {ℓ} (T : Type ℓ) : Type ℓ where
  pub items : List T
  pub count : ℕ

pub record EmptyNote : Type 0 where
  pub title : Text
  pub description : Text

unfoldable pub data_table_empty :
    (title description : Text) (filtered : Bool) (filtered_description : Text) → EmptyNote
data_table_empty title description filtered filtered_description = record {
  title = if filtered then codes "No Matches" else title;
  description = if filtered then filtered_description else description;
}

pub data TableScreen {ℓ} (T : Type ℓ) : Type ℓ where
  failed : Option Alert → TableScreen T
  skeleton : (column_count : ℕ) → TableScreen T
  table : (rows : List T) (pending : Bool) (empty : Option EmptyNote) → TableScreen T

-- `empty={rows.length ? undefined : empty}`
abbrev pub empty_of {ℓ} : {T : Type ℓ} → List T → EmptyNote → Option EmptyNote
empty_of rows note = if is_empty rows then some note else none

-- What `ResourceDataTable` is given; `rows` is its `data`.
pub record TableProps {ℓ} (T : Type ℓ) : Type ℓ where
  pub rows : Option (List T)
  pub count : ℕ
  pub column_count : ℕ
  pub loading : Bool
  pub pending : Bool
  pub error : Option Failure
  pub empty_title : Text
  pub empty_description : Text

unfoldable pub resource_data_table {ℓ} :
    {T : Type ℓ} → (filtered : Bool) → TableProps T → TableScreen T
unfolding query_error data_table_empty
resource_data_table filtered props =
    if is_some props.error && not (is_some props.rows)
    then failed (query_error (codes "Failed to Load " ++ props.empty_title) props.error true)
    else if props.loading
    then skeleton props.column_count
    else table (some_or props.rows []) props.pending (
        empty_of (some_or props.rows []) (
          data_table_empty (codes "No " ++ props.empty_title) props.empty_description filtered
            (codes "No records matched the current search.")))

module _ {ℓ} {T : Type ℓ} where
  abbrev pub items_of : Query (Listed T) → Option (List T)
  items_of query = elim query.loaded [ none ↦ none | some found ↦ some found.items ]

  abbrev pub count_of : Query (Listed T) → ℕ
  count_of query = elim query.loaded [ none ↦ 0 | some found ↦ found.count ]

  unfoldable pub checkin_list : Query (Listed T) → TableProps T
  unfolding checkin_columns
  checkin_list query = record {
    rows = items_of query;
    count = count_of query;
    column_count = length checkin_columns;
    loading = query.is_loading;
    pending = query.is_placeholder_data;
    error = query.error;
    empty_title = codes "Check-ins";
    empty_description = codes "Check-in activity appears here.";
  }

  unfoldable pub location_list : Query (Listed T) → TableProps T
  unfolding location_columns
  location_list query = record {
    rows = items_of query;
    count = count_of query;
    column_count = length location_columns;
    loading = query.is_loading;
    pending = query.is_placeholder_data;
    error = query.error;
    empty_title = codes "Locations";
    empty_description = codes "Locations appear here once they are configured.";
  }

  -- `data={query.data?.items ?? []}`
  unfoldable pub station_list : Query (Listed T) → TableProps T
  unfolding station_columns
  station_list query = record {
    rows = some (some_or (items_of query) []);
    count = count_of query;
    column_count = length station_columns;
    loading = query.is_loading;
    pending = query.is_placeholder_data;
    error = query.error;
    empty_title = codes "Stations";
    empty_description = codes "Stations appear here once they are provisioned.";
  }

  -- The page count of the table of such a list, by the page size.
  unfoldable pub props_page_count : TableProps T → (per_page : ℕ) → ℤ
  unfolding resource_page_count
  props_page_count props per_page = resource_page_count props.loading props.count per_page

  unfoldable pub user_list : (filtered : Bool) → Query (Listed T) → TableScreen T
  unfolding query_error data_table_empty
  user_list filtered query =
      if query.is_loading_error
      then failed (query_error (codes "Failed to Load Users") query.error true)
      else if query.is_loading
      then skeleton 6
      else table (some_or (items_of query) []) query.is_placeholder_data (
          empty_of (some_or (items_of query) []) (
            data_table_empty (codes "No Users")
              (codes "Create a local user or configure directory sync.") filtered
              (codes "No users matched the current filters.")))

  unfoldable pub group_list : (filtered : Bool) → Query (Listed T) → TableScreen T
  unfolding query_error data_table_empty
  group_list filtered query =
      if query.is_loading_error
      then failed (query_error (codes "Failed to Load Groups") query.error true)
      else if query.is_loading
      then skeleton 3
      else table (some_or (items_of query) []) query.is_placeholder_data (
          empty_of (some_or (items_of query) []) (
            data_table_empty (codes "No Groups") (codes "Groups appear after directory sync.")
              filtered (codes "No groups matched the current search.")))

  -- `pageCount` of the group list; that of the user list is `users_page_count`.
  unfoldable pub groups_page_count : Query (Listed T) → (per_page : ℕ) → ℤ
  groups_page_count query per_page = elim query.loaded [
    | none ↦ negsuc 0
    | some found ↦ pos ((found.count + (per_page - 1)) / per_page)
  ]

  -- The roles come as one list, which nothing filters.
  unfoldable pub role_list : Query (List T) → TableScreen T
  unfolding query_error data_table_empty
  role_list query =
      if query.is_loading_error
      then failed (query_error (codes "Failed to Load Roles") query.error true)
      else if query.is_loading
      then skeleton 4
      else table (some_or query.loaded []) false (
          empty_of (some_or query.loaded []) (
            data_table_empty (codes "No Roles")
              (codes "Roles appear here once access control is configured.") false []))

pub data CardBody : Type 0 where
  loading_count : CardBody
  unavailable : CardBody
  shown_count : ℕ → CardBody

-- `ResourceOverviewCard`
unfoldable pub overview_card : (count : Option ℕ) (loading : Bool) → Option Failure → CardBody
overview_card count loading error =
    if loading
    then loading_count
    else if is_some error && not (is_some count)
    then unavailable
    else shown_count (some_or count 0)
