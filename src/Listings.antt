-- ===== src/Listings.antt =====
-- The columns of the tables of web/src/features/{checkins,stations,locations,directory/groups}/list.tsx
-- and the keys by which their routes under web/src/routes/_authenticated accept a sort, those of the
-- users' table included. The cells of the columns are left out.
pub mod Sortable
use woodgate.Common.{Text, codes, false, List, [], ◌∷◌}
use woodgate.UserList.{Column, column}

unfoldable pub checkin_columns : List Column
checkin_columns =
    column (codes "user") (codes "Person")
    ∷ column (codes "department") (codes "Department")
    ∷ column (codes "location") (codes "Location")
    ∷ column (codes "direction") (codes "Direction")
    ∷ column (codes "occurred_at") (codes "Time")
    ∷ []

unfoldable pub station_columns : List Column
station_columns =
    column (codes "name") (codes "Station")
    ∷ column (codes "location") (codes "Location")
    ∷ column (codes "enabled") (codes "Enabled")
    ∷ record (column (codes "state") (codes "State")) { enable_sorting = false }
    ∷ column (codes "version") (codes "Version")
    ∷ []

unfoldable pub location_columns : List Column
location_columns =
    column (codes "name") (codes "Name")
    ∷ column (codes "description") (codes "Description")
    ∷ column (codes "enabled") (codes "Enabled")
    ∷ []

unfoldable pub group_columns : List Column
group_columns =
    record (column (codes "display_name") (codes "Name")) { enable_hiding = false }
    ∷ column (codes "mail_nickname") (codes "Nickname")
    ∷ column (codes "member_count") (codes "Members")
    ∷ []

-- What each route gives to `createTableSearchSchema`.
unfoldable pub checkin_sort_keys : List Text
checkin_sort_keys =
    codes "user"
    ∷ codes "department"
    ∷ codes "location"
    ∷ codes "direction"
    ∷ codes "occurred_at"
    ∷ []

unfoldable pub station_sort_keys : List Text
station_sort_keys = codes "name" ∷ codes "location.name" ∷ codes "enabled" ∷ codes "version" ∷ []

unfoldable pub location_sort_keys : List Text
location_sort_keys = codes "name" ∷ codes "description" ∷ codes "enabled" ∷ []

unfoldable pub group_sort_keys : List Text
group_sort_keys =
    codes "display_name" ∷ codes "mail_nickname" ∷ codes "member_count" ∷ codes "source" ∷ []

unfoldable pub user_sort_keys : List Text
user_sort_keys =
    codes "name" ∷ codes "email" ∷ codes "department" ∷ codes "created_at" ∷ codes "updated_at" ∷ []
