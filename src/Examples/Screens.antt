-- ===== src/Examples/Screens.antt =====
-- Concrete states of the lists and of the frame around the pages.
use woodgate.Common.{
  All, codes, ◌≡◌, refl, Bool, true, false, not, ◌≤◌, Option, none, some, List, [], ◌∷◌, ℕ, all,
}
use woodgate.Navigation.{PermissionRequirement}
use woodgate.Navigation.Config.{all_items, visible_nav_sections}
use woodgate.Navigation.Single.{count_active, visible-single}
use woodgate.CheckinList.{
  DateLibrary, DateRange, CheckinSearch, checkin_date_range, checkin_bounds, set_range,
}
use woodgate.CheckinList.Period.{set_range-bounds}
use woodgate.Keys.{
  opened_page, StationEvent, rotate_confirmed, delete_clicked as delete_asked,
  delete_confirmed as delete_agreed, delete_answered, station_run,
}
use woodgate.Keys.Asked.{is_rotation, unopened_unrotated}
use woodgate.UserList.{
  UserAccess, no_deletion, delete_clicked, delete_confirmed, ListEvent, list_run,
}
use woodgate.UserList.Own.{IsAnother, requests-other}

abbrev everything : PermissionRequirement → Bool
everything required = true

visible-single_example :
    count_active (codes "/directory/users") (all_items (visible_nav_sections everything)) ≤ 1
visible-single_example = visible-single everything (codes "/directory/users")

-- A calendar whose dates are their own names.
abbrev calendar : DateLibrary ℕ
calendar = record {
  parse = λ t. elim t [ [] ↦ 0 | c ∷ rest ↦ c ];
  format = λ d. d ∷ [];
  start_of_day = λ d. d;
  add_days = λ d n. n;
  to_iso = λ d. d ∷ [];
}

abbrev search : CheckinSearch
search = record {
  page = 4;
  departments = none;
  location_id = none;
  direction = none;
  all_time = true;
  from = none;
  to = none;
}

abbrev week : Option (DateRange ℕ)
week = some (record { from = some 3; to = some 9 })

set_range-bounds_example :
    checkin_bounds calendar (checkin_date_range calendar (set_range calendar search week) 5)
    ≡ checkin_bounds calendar week
set_range-bounds_example =
    set_range-bounds calendar (λ d. refl) (λ d. refl) (λ d. refl) search week 5 refl

abbrev access : UserAccess
access = record { edits_users = true; edits_roles = true; views_checkins = false }

abbrev clicks : List ListEvent
clicks = delete_clicked 4 ∷ delete_clicked 5 ∷ delete_confirmed true ∷ []

requests-other_example :
    All (IsAnother (some 4)) (list_run access (some 4) no_deletion clicks).requested
requests-other_example = requests-other access (some 4) clicks

abbrev deleted_first : List StationEvent
deleted_first = delete_asked ∷ delete_agreed ∷ rotate_confirmed ∷ delete_answered true ∷ []

unopened_unrotated_example :
    ((station_run 3 opened_page deleted_first).pairing ≡ none)
    × (all (λ r. not (is_rotation r)) (station_run 3 opened_page deleted_first).requests ≡ true)
unopened_unrotated_example = unopened_unrotated 3 deleted_first refl
