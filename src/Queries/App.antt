-- ===== src/Queries/App.antt =====
-- Every query of the app, and what a query key says about its request.
use woodgate.Common.{
  if◌then◌else◌, ℕ, String, ◌≡◌, refl, sym, ap, ◌∙◌, Bool, Option, none, some, List, [], ◌∷◌,
  str_eq,
}
use woodgate.Paging.{BaseListParams}
use woodgate.Queries.{
  KeyPart, word, id, params, QueryKey, Endpoint, list_locations, get_location, list_location_groups,
  list_location_backgrounds, list_location_logos, list_station_locations, list_stations,
  get_station, list_checkins, get_checkin, list_checkin_departments, list_checkin_locations,
  list_checkin_available_locations, list_checkin_people, get_checkin_user, list_authz_resources,
  list_authz_roles, get_authz_role, list_users, get_user, list_user_roles, list_groups, get_group,
  get_account, get_session, get_directory_sync, Request, plain, by_id, listing, QueryOptions,
}
use woodgate.Queries.Resources
use woodgate.Queries.Resources.{
  CheckinListParams, LocationListParams, StationListParams, CheckinPeopleParams,
}
use woodgate.Queries.Directory
use woodgate.Queries.Directory.{UserListParams, GroupListParams, SyncStatus}

-- One constructor for each hook that queries, with the hook's arguments.
pub data AppQuery : Type 0 where
  locations : LocationListParams → AppQuery
  station_locations location_groups available_locations : BaseListParams → AppQuery
  location_backgrounds location_logos : Bool → AppQuery
  location checkin checkin_user station role user group : ℕ → AppQuery
  checkins : CheckinListParams → AppQuery
  departments checkin_locations authz_resources authz_roles user_roles account session : AppQuery
  people : CheckinPeopleParams → AppQuery
  stations : StationListParams → AppQuery
  users : UserListParams → AppQuery
  groups : GroupListParams → Option Bool → AppQuery
  directory_sync : Option SyncStatus → AppQuery

unfoldable pub options : AppQuery → QueryOptions
options (locations p) = Resources.use_locations p
options (station_locations p) = Resources.use_station_locations p
options (location_groups p) = Resources.use_location_groups p
options (available_locations p) = Resources.use_checkin_available_locations p
options (location_backgrounds enabled) = Resources.use_location_backgrounds enabled
options (location_logos enabled) = Resources.use_location_logos enabled
options (location n) = Resources.location_query_options n
options (checkin n) = Resources.checkin_query_options n
options (checkin_user n) = Resources.use_checkin_user n
options (station n) = Resources.station_query_options n
options (role n) = Resources.authz_role_query_options n
options (user n) = Directory.user_query_options n
options (group n) = Directory.group_query_options n
options (checkins p) = Resources.use_checkins p
options departments = Resources.use_checkin_departments
options checkin_locations = Resources.use_checkin_locations
options authz_resources = Resources.use_authz_resources
options authz_roles = Resources.use_authz_roles
options user_roles = Directory.use_user_roles
options account = Directory.account_query_options
options session = Directory.session_query_options
options (people p) = Resources.use_checkin_people p
options (stations p) = Resources.use_stations p
options (users p) = Directory.use_users p
options (groups p enabled) = Directory.use_groups p enabled
options (directory_sync status) = Directory.use_directory_sync status

-- All hooks at once, for proofs that compute a query.
unfoldable pub all_hooks : Unit {0}
unfolding options Resources.use_locations Resources.use_station_locations
    Resources.use_location_groups Resources.use_checkin_available_locations
    Resources.use_location_backgrounds Resources.use_location_logos Resources.location_query_options
    Resources.checkin_query_options Resources.use_checkin_user Resources.station_query_options
    Resources.authz_role_query_options Directory.user_query_options Directory.group_query_options
    Resources.use_checkins Resources.use_checkin_departments Resources.use_checkin_locations
    Resources.use_authz_resources Resources.use_authz_roles Directory.use_user_roles
    Directory.account_query_options Directory.session_query_options Resources.use_checkin_people
    Resources.use_stations Directory.use_users Directory.use_groups Directory.use_directory_sync
all_hooks = tt

-- The request that a key stands for, read from the key alone.
abbrev list_request : Endpoint → List KeyPart → Option Request
list_request e (params q ∷ []) = some (listing e q)
list_request e _ = none

abbrev detail_request : Endpoint → List KeyPart → Option Request
detail_request e (id n ∷ []) = some (by_id e n)
detail_request e _ = none

abbrev image_request : Endpoint → List KeyPart → Option Request
image_request e (word w ∷ rest) = if str_eq w "list" then list_request e rest else none
image_request e _ = none

abbrev role_request : List KeyPart → Option Request
role_request (word w ∷ []) = if str_eq w "list" then some (plain list_authz_roles) else none
role_request (word w ∷ rest) =
    if str_eq w "detail" then detail_request get_authz_role rest else none
role_request _ = none

abbrev location_request : String → List KeyPart → Option Request
location_request w rest =
    if str_eq w "list"
    then list_request list_locations rest
    else if str_eq w "groups"
    then list_request list_location_groups rest
    else if str_eq w "detail"
    then detail_request get_location rest
    else if str_eq w "backgrounds"
    then image_request list_location_backgrounds rest
    else if str_eq w "logos"
    then image_request list_location_logos rest
    else none

abbrev station_request : String → List KeyPart → Option Request
station_request w rest =
    if str_eq w "list"
    then list_request list_stations rest
    else if str_eq w "locations"
    then list_request list_station_locations rest
    else if str_eq w "detail"
    then detail_request get_station rest
    else none

abbrev checkin_request : String → List KeyPart → Option Request
checkin_request w rest =
    if str_eq w "list"
    then list_request list_checkins rest
    else if str_eq w "detail"
    then detail_request get_checkin rest
    else if str_eq w "users"
    then detail_request get_checkin_user rest
    else if str_eq w "departments"
    then some (plain list_checkin_departments)
    else if str_eq w "locations"
    then some (plain list_checkin_locations)
    else if str_eq w "people"
    then list_request list_checkin_people rest
    else if str_eq w "available-locations"
    then list_request list_checkin_available_locations rest
    else none

abbrev user_request : String → List KeyPart → Option Request
user_request w rest =
    if str_eq w "list"
    then list_request list_users rest
    else if str_eq w "detail"
    then detail_request get_user rest
    else if str_eq w "roles"
    then some (plain list_user_roles)
    else none

abbrev group_request : String → List KeyPart → Option Request
group_request w rest =
    if str_eq w "list"
    then list_request list_groups rest
    else if str_eq w "detail"
    then detail_request get_group rest
    else none

abbrev authz_request : String → List KeyPart → Option Request
authz_request w rest =
    if str_eq w "roles"
    then role_request rest
    else if str_eq w "resources"
    then some (plain list_authz_resources)
    else none

abbrev request_of : QueryKey → Option Request
request_of (word v ∷ []) = if str_eq v "account" then some (plain get_account) else none
request_of (word v ∷ word w ∷ rest) =
    if str_eq v "locations"
    then location_request w rest
    else if str_eq v "stations"
    then station_request w rest
    else if str_eq v "checkins"
    then checkin_request w rest
    else if str_eq v "users"
    then user_request w rest
    else if str_eq v "groups"
    then group_request w rest
    else if str_eq v "authz"
    then authz_request w rest
    else if str_eq v "auth"
    then some (plain get_session)
    else if str_eq v "directory"
    then some (plain get_directory_sync)
    else none
request_of _ = none

request_of-options : (q : AppQuery) → request_of (options q).key ≡ some (options q).request
unfolding all_hooks
request_of-options (locations p) = refl
request_of-options _ = refl

-- A query key determines the request: two hooks of the app, at any arguments, whose keys are equal
-- send the server the same request.
pub options-key_injective :
    (a b : AppQuery) → (options a).key ≡ (options b).key → (options a).request ≡ (options b).request
options-key_injective a b same =
    let e : some (options a).request ≡ some (options b).request =
      (sym (request_of-options a) ∙ ap request_of same ∙ request_of-options b) in
    cc
