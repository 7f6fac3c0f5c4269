-- ===== src/Queries/Resources.antt =====
-- web/src/features/resources/queries.ts: locations, stations, check-ins and roles.
use woodgate.Common.{Text, ℕ, Bool, Option, none, some, List, [], ◌∷◌, ◌++◌}
use woodgate.Common.Number.{num}
use woodgate.Common.Result.{Result}
use woodgate.Paging.{Page, collect_all_pages, BaseListParams, base_list_params, max_page_size}
use woodgate.Queries.{
  Request, number, boolean, text, texts, QueryParams, word, id, params, QueryKey, list_locations,
  get_location, list_location_groups, list_location_backgrounds, list_location_logos,
  list_station_locations, list_stations, get_station, list_checkins, get_checkin,
  list_checkin_departments, list_checkin_locations, list_checkin_available_locations,
  list_checkin_people, get_checkin_user, list_authz_resources, list_authz_roles, get_authz_role,
  plain, by_id, listing, QueryOptions, query_options, keeping_previous,
}

-- `keys`
abbrev pub locations_key : QueryKey
locations_key = word "locations" ∷ []

abbrev pub stations_key : QueryKey
stations_key = word "stations" ∷ []

abbrev pub checkins_key : QueryKey
checkins_key = word "checkins" ∷ []

abbrev pub location_backgrounds_key : QueryKey
location_backgrounds_key = word "locations" ∷ word "backgrounds" ∷ []

abbrev pub location_logos_key : QueryKey
location_logos_key = word "locations" ∷ word "logos" ∷ []

abbrev pub resources_key : QueryKey
resources_key = word "authz" ∷ word "resources" ∷ []

abbrev pub roles_key : QueryKey
roles_key = word "authz" ∷ word "roles" ∷ []

abbrev pub station_detail_refresh_ms : ℕ
station_detail_refresh_ms = 5000

abbrev pub station_list_refresh_ms : ℕ
station_list_refresh_ms = 30000

pub record CheckinListParams : Type 0 where
  pub base : BaseListParams
  pub location_id : Option ℕ
  pub user_id : Option ℕ
  pub direction : Option Text
  pub departments : Option (List Text)
  pub occurred_from : Option Text
  pub occurred_before : Option Text

pub record LocationListParams : Type 0 where
  pub base : BaseListParams
  pub enabled : Option Bool

pub record StationListParams : Type 0 where
  pub base : BaseListParams
  pub location_id : Option ℕ
  pub enabled : Option Bool

pub record CheckinPeopleParams : Type 0 where
  pub base : BaseListParams
  pub location_id : Option ℕ

-- Parameters with the shared fields alone.
abbrev pub base_params : BaseListParams → QueryParams
base_params p = record { base = base_list_params p none; extra = [] }

unfoldable pub checkin_query_params : CheckinListParams → QueryParams
checkin_query_params p = record {
  base = base_list_params p.base none;
  extra =
      ("location_id", number p.location_id)
      ∷ ("user_id", number p.user_id)
      ∷ ("direction", text p.direction)
      ∷ ("departments", texts p.departments)
      ∷ ("occurred_from", text p.occurred_from)
      ∷ ("occurred_before", text p.occurred_before)
      ∷ [];
}

unfoldable pub location_query_params : LocationListParams → QueryParams
location_query_params p = record {
  base = base_list_params p.base none;
  extra = ("enabled", boolean p.enabled) ∷ [];
}

unfoldable pub station_query_params : StationListParams → QueryParams
station_query_params p = record {
  base = base_list_params p.base none;
  extra = ("location_id", number p.location_id) ∷ ("enabled", boolean p.enabled) ∷ [];
}

unfoldable pub use_locations : LocationListParams → QueryOptions
use_locations p =
    let query = location_query_params p in
    keeping_previous (
      query_options (locations_key ++ word "list" ∷ params query ∷ [])
        (listing list_locations query))

unfoldable pub use_station_locations : BaseListParams → QueryOptions
use_station_locations p =
    let query = base_params p in
    keeping_previous (
      query_options (stations_key ++ word "locations" ∷ params query ∷ [])
        (listing list_station_locations query))

unfoldable pub use_location_groups : BaseListParams → QueryOptions
use_location_groups p =
    let query = base_params p in
    keeping_previous (
      query_options (locations_key ++ word "groups" ∷ params query ∷ [])
        (listing list_location_groups query))

abbrev pub location_detail_key : ℕ → QueryKey
location_detail_key n = locations_key ++ word "detail" ∷ id n ∷ []

unfoldable pub location_query_options : ℕ → QueryOptions
location_query_options n = query_options (location_detail_key n) (by_id get_location n)

abbrev pub station_locations_key : QueryKey
station_locations_key = stations_key ++ word "locations" ∷ []

-- `baseListParams({}, { defaultPerPage: MAX_PAGE_SIZE })`
abbrev pub all_images : QueryParams
all_images = record {
  base =
      base_list_params (record { q = none; page = none; per_page = none; sort = none })
        (some (num max_page_size));
  extra = [];
}

unfoldable pub use_location_backgrounds : Bool → QueryOptions
use_location_backgrounds enabled =
    record (query_options (location_backgrounds_key ++ word "list" ∷ params all_images ∷ [])
      (listing list_location_backgrounds all_images)) { enabled = enabled }

unfoldable pub use_location_logos : Bool → QueryOptions
use_location_logos enabled =
    record (query_options (location_logos_key ++ word "list" ∷ params all_images ∷ [])
      (listing list_location_logos all_images)) { enabled = enabled }

unfoldable pub use_checkins : CheckinListParams → QueryOptions
use_checkins p =
    let query = checkin_query_params p in
    keeping_previous (
      query_options (checkins_key ++ word "list" ∷ params query ∷ []) (listing list_checkins query))

-- `send` is the API call, unwrapped.
module _ {E T : Type 0} (send : Request → Result E (Page T)) where
  unfoldable pub list_all_checkins : CheckinListParams → Result E (List T)
  unfolding checkin_query_params
  list_all_checkins p = collect_all_pages (λ page per_page. send (
      listing list_checkins (
        checkin_query_params (record p {
          base = record p.base { page = some (num page); per_page = some (num per_page) };
        }))))

unfoldable pub use_checkin_departments : QueryOptions
use_checkin_departments =
    query_options (checkins_key ++ word "departments" ∷ []) (plain list_checkin_departments)

unfoldable pub use_checkin_locations : QueryOptions
use_checkin_locations =
    query_options (checkins_key ++ word "locations" ∷ []) (plain list_checkin_locations)

unfoldable pub use_checkin_available_locations : BaseListParams → QueryOptions
use_checkin_available_locations p =
    let query = base_params p in
    keeping_previous (
      query_options (checkins_key ++ word "available-locations" ∷ params query ∷ [])
        (listing list_checkin_available_locations query))

unfoldable pub use_checkin_people : CheckinPeopleParams → QueryOptions
use_checkin_people p =
    let query : QueryParams = record {
      base = base_list_params p.base none;
      extra = ("location_id", number p.location_id) ∷ [];
    } in
    query_options (checkins_key ++ word "people" ∷ params query ∷ [])
      (listing list_checkin_people query)

abbrev pub checkin_detail_key : ℕ → QueryKey
checkin_detail_key n = checkins_key ++ word "detail" ∷ id n ∷ []

unfoldable pub use_checkin_user : ℕ → QueryOptions
use_checkin_user n =
    query_options (checkins_key ++ word "users" ∷ id n ∷ []) (by_id get_checkin_user n)

unfoldable pub checkin_query_options : ℕ → QueryOptions
checkin_query_options n = query_options (checkin_detail_key n) (by_id get_checkin n)

unfoldable pub use_stations : StationListParams → QueryOptions
use_stations p =
    let query = station_query_params p in
    record (keeping_previous (
      query_options (stations_key ++ word "list" ∷ params query ∷ [])
        (listing list_stations query))) { refetch_interval = some station_list_refresh_ms }

abbrev pub station_detail_key : ℕ → QueryKey
station_detail_key n = stations_key ++ word "detail" ∷ id n ∷ []

unfoldable pub station_query_options : ℕ → QueryOptions
station_query_options n = record (query_options (station_detail_key n) (by_id get_station n)) {
  stale_time = some station_detail_refresh_ms;
  refetch_interval = some station_detail_refresh_ms;
}

unfoldable pub use_authz_resources : QueryOptions
use_authz_resources = query_options resources_key (plain list_authz_resources)

unfoldable pub use_authz_roles : QueryOptions
use_authz_roles = query_options (roles_key ++ word "list" ∷ []) (plain list_authz_roles)

abbrev pub role_detail_key : ℕ → QueryKey
role_detail_key n = roles_key ++ word "detail" ∷ id n ∷ []

unfoldable pub authz_role_query_options : ℕ → QueryOptions
authz_role_query_options n = query_options (role_detail_key n) (by_id get_authz_role n)
