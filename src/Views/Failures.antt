-- ===== src/Views/Failures.antt =====
-- What becomes of a list whose first load fails.
use woodgate.Common.{
  Text, codes, ◌≡◌, Bool, true, not, ◌&&◌, is_some, Option, none, some, List, arith,
}
use woodgate.Views.{Failure, Query, Alert, shown_message, query_error}
use woodgate.Views.Lists.{
  Listed, TableScreen, failed, role_list, resource_data_table, checkin_list, location_list,
  station_list, user_list, group_list,
}

-- The alert for a list, with the error's message and a button to retry.
abbrev pub alert_of : Text → Failure → Alert
alert_of title e = record { title = title; description = shown_message e.message; retry = true }

-- The error that stands in place of a table.
abbrev pub alert_shown {ℓ} : {T : Type ℓ} → TableScreen T → Option Alert
alert_shown (failed alert) = alert
alert_shown _ = none

-- The error of a query that has one and no data.
abbrev pub lost_alert {ℓ} : {T : Type ℓ} → Text → Query T → Option Alert
lost_alert title query = elim query.loaded [
  | some x ↦ none
  | none ↦ elim query.error [ none ↦ none | some e ↦ some (alert_of title e) ]
]

-- Documented of `isLoadingError`: the query has failed before it had data.
abbrev pub IsLoadingError {ℓ} : {T : Type ℓ} → Query T → Type 0
IsLoadingError query = query.is_loading_error ≡ (is_some query.error && not (is_some query.loaded))

module _ {ℓ} {T : Type ℓ} where
  -- If `isLoadingError` says that a query has an error and no data, then in every state of the queries,
  -- filtered or not: the lists of check-ins, locations, users, groups
  -- and roles show, with a button to retry, exactly the error of a query without data, and no error
  -- of one whose data is there; the list of stations shows none at all.
  pub failed_load-shown :
      (filtered : Bool) (query : Query (Listed T)) (roles : Query (List T))
      → IsLoadingError query
      → IsLoadingError roles
      → (alert_shown (resource_data_table filtered (checkin_list query))
          ≡ lost_alert (codes "Failed to Load Check-ins") query)
        × (alert_shown (resource_data_table filtered (location_list query))
            ≡ lost_alert (codes "Failed to Load Locations") query)
        × (alert_shown (user_list filtered query) ≡ lost_alert (codes "Failed to Load Users") query)
        × (alert_shown (group_list filtered query)
            ≡ lost_alert (codes "Failed to Load Groups") query)
        × (alert_shown (role_list roles) ≡ lost_alert (codes "Failed to Load Roles") roles)
        × (alert_shown (resource_data_table filtered (station_list query)) ≡ none)
  unfolding resource_data_table checkin_list location_list station_list user_list group_list
      role_list query_error
  failed_load-shown filtered query roles flagged roles_flagged =
      ground (arith, flagged, roles_flagged)
