-- ===== src/Queries/Freshness.antt =====
-- What the mutations leave stale, and what they leave alone.
use woodgate.Common.{All, ◌≡◌, Bool, true, Option, none, some, List, [], arith}
use woodgate.Queries.{QueryKey, Call}
use woodgate.Queries.Changes.{
  Change, location_updated, location_deleted, station_updated, station_key_rotated, station_deleted,
  checkin_created, checkin_updated, role_updated, role_deleted, user_updated, user_deleted,
  group_updated, account_updated, Family, locations, stations, station_locations, checkins, roles,
  users, groups, session, account, other,
}
use woodgate.Queries.Resources.{
  locations_key, stations_key, station_locations_key, checkins_key, roles_key, location_detail_key,
  station_detail_key, role_detail_key,
}
use woodgate.Queries.ResourceChanges
use woodgate.Queries.Directory
use woodgate.Queries.Directory.{users_key, groups_key, session_key, account_key, user_detail_key}
use woodgate.Queries.Client.{QueryClient, run_calls, NotFetching, NotFetching-fetches}
use woodgate.Queries.App

abbrev pub on_success : (QueryKey → QueryKey → Bool) → Change → List Call
on_success m (location_updated n) = ResourceChanges.update_location_success n
on_success m (location_deleted n) = ResourceChanges.delete_location_success m n
on_success m (station_updated n) = ResourceChanges.update_station_success n
on_success m (station_key_rotated n) = ResourceChanges.rotate_station_key_success n
on_success m (station_deleted n) = ResourceChanges.delete_station_success m n
on_success m (checkin_created n) = ResourceChanges.create_checkin_success n
on_success m (checkin_updated n) = ResourceChanges.update_checkin_success n
on_success m (role_updated n) = ResourceChanges.update_authz_role_success n
on_success m (role_deleted n) = ResourceChanges.delete_authz_role_success m n
on_success m (user_updated n) = Directory.update_user_success n
on_success m (user_deleted n) = Directory.delete_user_success m n
on_success m (group_updated n) = Directory.update_group_success n
on_success m (account_updated n) = Directory.update_account_success n

-- The key below which all queries of a family stand.
abbrev root : Family → QueryKey
root locations = locations_key
root station_locations = station_locations_key
root stations = stations_key
root checkins = checkins_key
root roles = roles_key
root users = users_key
root groups = groups_key
root session = session_key
root account = account_key
root other = []

-- All `onSuccess` functions at once, for proofs that compute their calls.
all_changes : Unit {0}
unfolding ResourceChanges.update_location_success ResourceChanges.delete_location_success
    ResourceChanges.update_station_success ResourceChanges.rotate_station_key_success
    ResourceChanges.delete_station_success ResourceChanges.create_checkin_success
    ResourceChanges.update_checkin_success ResourceChanges.update_authz_role_success
    ResourceChanges.delete_authz_role_success Directory.update_user_success
    Directory.delete_user_success Directory.update_group_success Directory.update_account_success
all_changes = tt

-- The key of the record that a deletion removes.
abbrev pub deleted_key : Change → Option QueryKey
deleted_key (location_deleted n) = some (location_detail_key n)
deleted_key (station_deleted n) = some (station_detail_key n)
deleted_key (role_deleted n) = some (role_detail_key n)
deleted_key (user_deleted n) = some (user_detail_key n)
deleted_key _ = none

deletion-NotFetching :
    (client : QueryClient) (change : Change) (deleted k : QueryKey)
    → deleted_key change ≡ some deleted
    → QueryClient.partial_match_key client k deleted ≡ true
    → All (NotFetching client k) (on_success (QueryClient.partial_match_key client) change)
unfolding all_changes
deletion-NotFetching client (location_deleted n) deleted k e h = ground arith
deletion-NotFetching client _ deleted k e h = ground arith

-- What runs after a deletion fetches no query whose key matches the deleted record's.
pub deletion-fetches :
    (client : QueryClient) (change : Change) (deleted k : QueryKey) (c : QueryClient.Cache client)
    → deleted_key change ≡ some deleted
    → QueryClient.partial_match_key client k deleted ≡ true
    → QueryClient.fetches client k
        (run_calls client (on_success (QueryClient.partial_match_key client) change) c)
      ≡ QueryClient.fetches client k c
deletion-fetches client change deleted k c e h =
    NotFetching-fetches client k _ c (deletion-NotFetching client change deleted k e h)
