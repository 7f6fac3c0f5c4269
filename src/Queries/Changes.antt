-- ===== src/Queries/Changes.antt =====
-- The mutations that change or remove a record, and what the answers of the endpoints tell of: the
-- types of the generated client, by the records that they hold or name.
use woodgate.Common.{ℕ, Bool, true, false}
use woodgate.Queries.{
  Endpoint, list_locations, get_location, list_station_locations, list_stations, get_station,
  list_checkins, get_checkin, list_authz_roles, get_authz_role, list_users, get_user, list_groups,
  get_group, get_account, get_session, list_checkin_departments, list_checkin_locations,
  list_checkin_available_locations, list_checkin_people, get_checkin_user, list_user_roles, Request,
  plain, by_id, listing,
}

-- The mutations that change or remove a record, with its id; that of an account names its user.
pub data Change : Type 0 where
  location_updated location_deleted station_updated station_key_rotated station_deleted : ℕ → Change
  checkin_created checkin_updated role_updated role_deleted : ℕ → Change
  user_updated user_deleted group_updated account_updated : ℕ → Change

pub data Kind : Type 0 where
  location_kind station_kind checkin_kind role_kind user_kind group_kind : Kind

-- The kind of record that a mutation changes or removes.
abbrev pub changed_kind : Change → Kind
changed_kind (location_updated n) = location_kind
changed_kind (location_deleted n) = location_kind
changed_kind (station_updated n) = station_kind
changed_kind (station_key_rotated n) = station_kind
changed_kind (station_deleted n) = station_kind
changed_kind (checkin_created n) = checkin_kind
changed_kind (checkin_updated n) = checkin_kind
changed_kind (role_updated n) = role_kind
changed_kind (role_deleted n) = role_kind
changed_kind (user_updated n) = user_kind
changed_kind (user_deleted n) = user_kind
changed_kind (group_updated n) = group_kind
changed_kind (account_updated n) = user_kind

-- The kinds of records that an endpoint's answer holds or tells of: a station and a check-in name a
-- location, a check-in also a person and a station; users and groups name roles, a group counts its
-- users; a user's roles and the account's permissions come from groups too. No mutation changes the
-- name of a group, which is all that a location tells of one.
abbrev pub tells_of : Endpoint → Kind → Bool
tells_of list_locations location_kind = true
tells_of get_location location_kind = true
tells_of list_station_locations location_kind = true
tells_of list_stations station_kind = true
tells_of list_stations location_kind = true
tells_of get_station station_kind = true
tells_of get_station location_kind = true
tells_of list_checkins checkin_kind = true
tells_of list_checkins location_kind = true
tells_of list_checkins station_kind = true
tells_of list_checkins user_kind = true
tells_of get_checkin checkin_kind = true
tells_of get_checkin location_kind = true
tells_of get_checkin station_kind = true
tells_of get_checkin user_kind = true
tells_of list_checkin_departments user_kind = true
tells_of list_checkin_locations location_kind = true
tells_of list_checkin_available_locations location_kind = true
tells_of list_checkin_people user_kind = true
tells_of get_checkin_user user_kind = true
tells_of list_authz_roles role_kind = true
tells_of get_authz_role role_kind = true
tells_of list_users user_kind = true
tells_of list_users role_kind = true
tells_of list_users group_kind = true
tells_of get_user user_kind = true
tells_of get_user role_kind = true
tells_of get_user group_kind = true
tells_of list_user_roles role_kind = true
tells_of list_groups group_kind = true
tells_of list_groups role_kind = true
tells_of list_groups user_kind = true
tells_of get_group group_kind = true
tells_of get_group role_kind = true
tells_of get_group user_kind = true
tells_of get_account user_kind = true
tells_of get_account role_kind = true
tells_of get_account group_kind = true
tells_of get_session user_kind = true
tells_of _ _ = false

abbrev pub endpoint : Request → Endpoint
endpoint (plain e) = e
endpoint (by_id e n) = e
endpoint (listing e q) = e

-- The families of keys that the code invalidates together.
pub data Family : Type 0 where
  locations stations station_locations checkins roles users groups session account other : Family

abbrev pub family : Endpoint → Family
family list_locations = locations
family get_location = locations
family list_station_locations = station_locations
family list_stations = stations
family get_station = stations
family list_checkins = checkins
family get_checkin = checkins
family list_checkin_departments = checkins
family list_checkin_locations = checkins
family list_checkin_available_locations = checkins
family list_checkin_people = checkins
family get_checkin_user = checkins
family list_authz_roles = roles
family get_authz_role = roles
family list_users = users
family get_user = users
family list_user_roles = users
family list_groups = groups
family get_group = groups
family get_session = session
family get_account = account
family _ = other

-- What the code leaves alone although it tells of the change: the queries of check-ins after one of a
-- location, a station or a user, and those of stations after one of a location; the account and the
-- session after the deletion of a user, who is another one; and after a change of the account the
-- groups, whose members stay, and the account and the session, into which it writes the answer.
abbrev pub left_alone : Change → Family → Bool
left_alone (location_updated n) stations = true
left_alone (location_updated n) checkins = true
left_alone (location_deleted n) stations = true
left_alone (location_deleted n) checkins = true
left_alone (station_updated n) checkins = true
left_alone (station_key_rotated n) checkins = true
left_alone (station_deleted n) checkins = true
left_alone (user_updated n) checkins = true
left_alone (user_deleted n) checkins = true
left_alone (user_deleted n) session = true
left_alone (user_deleted n) account = true
left_alone (account_updated n) checkins = true
left_alone (account_updated n) groups = true
left_alone (account_updated n) session = true
left_alone (account_updated n) account = true
left_alone _ _ = false
