-- ===== src/Examples/Views.antt =====
-- Queries that failed, the buttons below a table, the tooltip of a cell and the page of a role.
use woodgate.Common.{
  All, Text, codes, ℕ, ◌+◌, ◌-◌, ◌≡◌, ◌||◌, refl, min, ltb, true, false, Option, none, some,
  is_some, List, [], ◌∷◌, map, arith, if◌then◌else◌, text_eq,
}
use woodgate.Common.Number.{Number, whole, pos, num}
use woodgate.Paging.Params.{num-IsCounting, num-IsPageSize}
use woodgate.DataTable.Query.{SearchState, pagination, undefined, PaginationState}
use woodgate.DataTable.Query.Paging.{IsInRange}
use woodgate.DataTable.Pager.{PagerLibrary, IsDocumented, at_index, to_previous, press}
use woodgate.DataTable.Pager.Turns.{press-aim}
use woodgate.DataTable.Cells.{closed_tooltip, TooltipEvent, tooltip_run}
use woodgate.DataTable.Cells.Tooltip.{IsFilled, tooltip_run-IsFilled}
use woodgate.Forms.Role.{Level, no_level, view, edit, level_text, AuthzRole, role_values}
use woodgate.Roles.{Resource, Role, PermissionRow, permission_rows}
use woodgate.Roles.Rows.{IsShown, rows-IsShown}
use woodgate.Views.{Failure, Query}
use woodgate.Views.Pages.{role_edit, user_edit, station_detail}
use woodgate.Views.Kept.{shows_error, gated_pages, is_lost, pages-shows_error}
use woodgate.Views.Lists.{
  Listed, resource_data_table, checkin_list, location_list, station_list, user_list, role_list,
  group_list,
}
use woodgate.Views.Failures.{alert_shown, lost_alert, failed_load-shown}

abbrev failure : Failure
failure = record { message = some (codes "Bad Gateway") }

-- A query of user 4 whose refetch failed.
abbrev refetched : Query ℕ
refetched = record {
  loaded = some 4;
  error = some failure;
  is_loading = false;
  is_loading_error = false;
  is_placeholder_data = false;
}

pages-shows_error_example :
    All (λ shown. shows_error (shown refetched) ≡ is_lost refetched) gated_pages
    × (shows_error (user_edit (λ id. id) (some 7) refetched) ≡ is_lost refetched)
    × (shows_error (role_edit (λ id. ltb id 8) refetched)
        ≡ (is_lost refetched || elim refetched.loaded [ none ↦ false | some role ↦ ltb role 8 ]))
    × (shows_error (station_detail refetched) ≡ is_some refetched.error)
pages-shows_error_example = pages-shows_error (λ id. id) (some 7) (λ id. ltb id 8) refetched

abbrev lost : Query (Listed ℕ)
lost = record {
  loaded = none;
  error = some failure;
  is_loading = false;
  is_loading_error = true;
  is_placeholder_data = false;
}

abbrev no_roles : Query (List ℕ)
no_roles = record {
  loaded = some [];
  error = some failure;
  is_loading = false;
  is_loading_error = false;
  is_placeholder_data = false;
}

failed_load-shown_example :
    (alert_shown (resource_data_table true (checkin_list lost))
      ≡ lost_alert (codes "Failed to Load Check-ins") lost)
    × (alert_shown (resource_data_table true (location_list lost))
        ≡ lost_alert (codes "Failed to Load Locations") lost)
    × (alert_shown (user_list true lost) ≡ lost_alert (codes "Failed to Load Users") lost)
    × (alert_shown (group_list true lost) ≡ lost_alert (codes "Failed to Load Groups") lost)
    × (alert_shown (role_list no_roles) ≡ lost_alert (codes "Failed to Load Roles") no_roles)
    × (alert_shown (resource_data_table true (station_list lost)) ≡ none)
failed_load-shown_example = failed_load-shown true lost no_roles refl refl

-- The ninth page, of 25 rows.
abbrev ninth : SearchState
ninth = record { q = none; page = num 9; per_page = num 25; sort = none; facets = λ key. undefined }

ninth-IsInRange : IsInRange ninth
ninth-IsInRange = record {
  page = num-IsCounting 9 (omega arith) (omega arith);
  per_page = num-IsPageSize 25 (omega arith) (omega arith);
}

ninth_index : (pagination ninth).page_index ≡ whole (pos 8)
unfolding pagination
ninth_index = refl

abbrev index_of : Number → ℕ
index_of (whole (pos n)) = n
index_of v = 0

abbrev set_index : (pages n : ℕ) → PaginationState → PaginationState
set_index pages n s = at_index (min n (pages - 1)) s

abbrev pager : PagerLibrary
pager = record {
  set_page_index = set_index;
  set_page_size = λ size s. record s { page_size = size };
  previous_page = λ pages s. set_index pages (index_of s.page_index - 1) s;
  next_page = λ pages s. set_index pages (index_of s.page_index + 1) s;
  can_previous = λ pages s. ltb 0 (index_of s.page_index);
  can_next = λ pages s. ltb (index_of s.page_index + 1) pages;
}

pager-IsDocumented : IsDocumented pager
pager-IsDocumented = record {
  sets = λ pages n s within. ground arith;
  goes_back = λ pages n s here. ground arith;
  goes_on = λ pages n s here. ground arith;
  has_previous = λ pages n s here. ground arith;
  has_next = λ pages n s here. ground arith;
}

press-aim_example :
    (pagination (press pager 12 ninth to_previous) ≡ at_index 7 (pagination ninth))
    × ((press pager 12 ninth to_previous).q ≡ none)
    × ((press pager 12 ninth to_previous).sort ≡ none)
    × ((press pager 12 ninth to_previous).facets ≡ ninth.facets)
press-aim_example =
    press-aim pager pager-IsDocumented 12 8 ninth to_previous ninth-IsInRange (omega arith)
      ninth_index (omega arith)

-- A tooltip that opens over a wide text, and then over an empty one.
abbrev hovers : List TooltipEvent
hovers =
    record {
      content =
          some (record { scroll_width = 90; client_width = 72; inner_text = codes " Main hall " });
      next_open = true;
    }
    ∷ record {
      content = some (record { scroll_width = 90; client_width = 72; inner_text = codes " " });
      next_open = true;
    }
    ∷ []

tooltip_run-IsFilled_example : IsFilled (tooltip_run closed_tooltip hovers)
tooltip_run-IsFilled_example = tooltip_run-IsFilled hovers

-- The three levels by their names, and none for another text.
abbrev read_text : Option Text → Level
read_text none = no_level
read_text (some t) =
    if text_eq t (codes "view") then view else if text_eq t (codes "edit") then edit else no_level

reads_back : (level : Level) → read_text (some (level_text level)) ≡ level
reads_back no_level = refl
reads_back _ = refl

abbrev porter : AuthzRole
porter = record {
  key = codes "porter";
  name = codes "Porter";
  description = none;
  permissions = (codes "stations", codes "edit") ∷ (codes "users", codes "view") ∷ [];
}

abbrev porter_role : Role
porter_role = record { id = 5; builtin = false; permissions = porter.permissions }

abbrev shelves : List Resource
shelves =
    record { resource = codes "stations"; display_name = codes "Stations" }
    ∷ record { resource = codes "checkins"; display_name = codes "Check-ins" }
    ∷ []

rows-IsShown_example :
    (map PermissionRow.name (permission_rows (λ c. c - 32) read_text (some shelves) porter_role)
      ≡ map Resource.resource shelves)
    × All
        (IsShown
          (λ c. c - 32)
          read_text
          reads_back
          (role_values read_text (some porter)).permissions)
        (permission_rows (λ c. c - 32) read_text (some shelves) porter_role)
rows-IsShown_example =
    rows-IsShown (λ c. c - 32) read_text reads_back (some shelves) porter_role porter refl
