-- ===== src/Queries/ResourceChanges.antt =====
-- web/src/features/resources/queries.ts: what the mutations of locations, stations, check-ins and
-- roles do to the cache when they succeed. Their requests carry the form's body through unread.
use woodgate.Common.{ℕ, Bool, List, [], ◌∷◌, ◌++◌, map}
use woodgate.Queries.{
  word, QueryKey, Call, set_query_data, invalidate_key, toast, invalidate_after_delete,
}
use woodgate.Queries.Resources.{
  locations_key, stations_key, checkins_key, roles_key, location_detail_key, station_locations_key,
  checkin_detail_key, station_detail_key, role_detail_key,
}

unfoldable pub create_location_success : List Call
create_location_success =
    invalidate_key locations_key
    ∷ invalidate_key station_locations_key
    ∷ toast "Location Created"
    ∷ []

unfoldable pub update_location_success : ℕ → List Call
update_location_success n =
    set_query_data (location_detail_key n)
    ∷ invalidate_key locations_key
    ∷ invalidate_key station_locations_key
    ∷ toast "Location Saved"
    ∷ []

-- The id is that of the check-in which the server returns.
unfoldable pub create_checkin_success : ℕ → List Call
create_checkin_success n =
    set_query_data (checkin_detail_key n)
    ∷ invalidate_key checkins_key
    ∷ toast "Check-in Created"
    ∷ []

unfoldable pub update_checkin_success : ℕ → List Call
update_checkin_success n =
    set_query_data (checkin_detail_key n)
    ∷ invalidate_key checkins_key
    ∷ toast "Check-in Saved"
    ∷ []

unfoldable pub create_station_success : List Call
create_station_success = invalidate_key stations_key ∷ toast "Station Created" ∷ []

unfoldable pub update_station_success : ℕ → List Call
update_station_success n =
    set_query_data (station_detail_key n) ∷ invalidate_key stations_key ∷ toast "Station Saved" ∷ []

unfoldable pub rotate_station_key_success : ℕ → List Call
rotate_station_key_success n =
    set_query_data (station_detail_key n)
    ∷ invalidate_key stations_key
    ∷ toast "Station Key Rotated"
    ∷ []

unfoldable pub create_authz_role_success : List Call
create_authz_role_success = invalidate_key roles_key ∷ toast "Role Created" ∷ []

-- What else shows the permissions that a role grants.
abbrev pub role_holders : List QueryKey
role_holders =
    (word "users" ∷ [])
    ∷ (word "groups" ∷ [])
    ∷ (word "auth" ∷ word "session" ∷ [])
    ∷ (word "account" ∷ [])
    ∷ []

unfoldable pub update_authz_role_success : ℕ → List Call
update_authz_role_success n =
    set_query_data (role_detail_key n) ∷ map invalidate_key (roles_key ∷ role_holders)
    ++ toast "Role Saved" ∷ []

module _ (partial_match_key : QueryKey → QueryKey → Bool) where
  unfoldable pub delete_location_success : ℕ → List Call
  unfolding invalidate_after_delete
  delete_location_success n =
      invalidate_after_delete partial_match_key (location_detail_key n)
        (locations_key ∷ station_locations_key ∷ [])
      ++ toast "Location Deleted" ∷ []

  unfoldable pub delete_station_success : ℕ → List Call
  unfolding invalidate_after_delete
  delete_station_success n =
      invalidate_after_delete partial_match_key (station_detail_key n) (stations_key ∷ [])
      ++ toast "Station Deleted" ∷ []

  unfoldable pub delete_authz_role_success : ℕ → List Call
  unfolding invalidate_after_delete
  delete_authz_role_success n =
      invalidate_after_delete partial_match_key (role_detail_key n) (roles_key ∷ role_holders)
      ++ toast "Role Deleted" ∷ []
