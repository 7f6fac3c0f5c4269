-- ===== src/Links.antt =====
-- The links of the pages of web/src/features, as the routes that they lead to: what `useCan` lets a
-- page offer, and the links of its rows. A link's search parameters are left out.
pub mod Followed
pub mod Sidebar
use woodgate.Common.{if◌then◌else◌, ℕ, Bool, not, ◌&&◌, ◌||◌, Option, List, [], ◌∷◌, ◌++◌}
use woodgate.Navigation.{PermissionRequirement}
use woodgate.Authn.Routes.{
  checkins, locations, stations, users, groups, roles, Route, entry, unknown, account, directory,
  list, new, detail, edit, viewing, editing,
}
use woodgate.UserList.{
  UserAccess, can_edit, UserLink, RowAction, view_checkins, delete, user_edit_link, row_actions,
  is_self,
}
use woodgate.UserList

abbrev pub when : Bool → Route → List Route
when b r = if b then r ∷ [] else []

abbrev pub user_link_route : UserLink → Route
user_link_route UserList.account = account
user_link_route (UserList.edit_page id) = edit users id

-- A menu item that is a link; Delete opens a dialog.
abbrev pub row_action_links : List RowAction → List Route
row_action_links [] = []
row_action_links (view_checkins user ∷ actions) = list checkins ∷ row_action_links actions
row_action_links (UserList.edit link ∷ actions) = user_link_route link ∷ row_action_links actions
row_action_links (delete user ∷ actions) = row_action_links actions

-- The page for a path that no other route takes: web/src/not-found.tsx.
unfoldable pub not_found_links : List Route
not_found_links = entry ∷ []

-- `can` is `useCan`, at the permissions of the account.
module _ (can : PermissionRequirement → Bool) where
  unfoldable pub checkin_list_links : List Route
  checkin_list_links = when (can (editing checkins)) (new checkins)

  -- The row's name, and the row itself.
  unfoldable pub checkin_row_links : ℕ → List Route
  checkin_row_links id = list checkins ∷ detail checkins id ∷ []

  unfoldable pub checkin_detail_links : ℕ → List Route
  checkin_detail_links id = when (can (editing checkins)) (edit checkins id) ++ list checkins ∷ []

  unfoldable pub location_list_links : List Route
  location_list_links = when (can (editing locations)) (new locations)

  unfoldable pub location_detail_links : ℕ → List Route
  location_detail_links id = when (can (editing locations)) (edit locations id)

  unfoldable pub station_list_links : List Route
  station_list_links = when (can (editing stations)) (new stations)

  unfoldable pub station_detail_links : ℕ → List Route
  station_detail_links id = when (can (editing stations)) (edit stations id)

  unfoldable pub role_list_links : List Route
  role_list_links = when (can (editing roles)) (new roles)

  unfoldable pub role_detail_links : (builtin : Bool) → ℕ → List Route
  role_detail_links builtin id = when (not builtin && can (editing roles)) (edit roles id)

  unfoldable pub group_detail_links : ℕ → List Route
  group_detail_links id = when (can (editing groups) && can (editing roles)) (edit groups id)

  unfoldable pub user_access : UserAccess
  user_access = record {
    edits_users = can (editing users);
    edits_roles = can (editing roles);
    views_checkins = can (viewing checkins);
  }

  unfoldable pub user_list_links : List Route
  unfolding user_access can_edit
  user_list_links = when (can_edit user_access) (new users)

  -- The links of a row's menu.
  unfoldable pub user_menu_links : (current : Option ℕ) → ℕ → List Route
  unfolding user_access row_actions is_self
  user_menu_links current id = row_action_links (row_actions user_access id (is_self id current))

  unfoldable pub user_detail_links : (current : Option ℕ) → ℕ → List Route
  unfolding user_edit_link is_self user_access
  user_detail_links current id =
      when (can (viewing checkins)) (list checkins)
      ++ when (is_self id current || (can (editing users) && can (editing roles)))
          (user_link_route (user_edit_link id current))

  -- The cards of the directory's overview.
  unfoldable pub directory_links : List Route
  directory_links =
      when (can (viewing users)) (list users) ++ when (can (viewing groups)) (list groups)

  -- All links of a page, with those of a row `row` where it is a list. `members` is not among them.
  unfoldable pub page_links : (current : Option ℕ) (builtin : Bool) (row : ℕ) → Route → List Route
  unfolding checkin_list_links checkin_row_links checkin_detail_links location_list_links
      location_detail_links station_list_links station_detail_links role_list_links
      role_detail_links group_detail_links user_list_links user_menu_links user_detail_links
      directory_links not_found_links
  page_links current builtin row (list checkins) = checkin_list_links ++ checkin_row_links row
  page_links current builtin row (list locations) = location_list_links ++ detail locations row ∷ []
  page_links current builtin row (list stations) = station_list_links ++ detail stations row ∷ []
  page_links current builtin row (list users) =
      user_list_links ++ detail users row ∷ user_menu_links current row
  page_links current builtin row (list groups) = detail groups row ∷ []
  page_links current builtin row (list roles) = role_list_links ++ detail roles row ∷ []
  page_links current builtin row (detail checkins id) = checkin_detail_links id
  page_links current builtin row (detail locations id) = location_detail_links id
  page_links current builtin row (detail stations id) = station_detail_links id
  page_links current builtin row (detail users id) = user_detail_links current id
  page_links current builtin row (detail groups id) = group_detail_links id
  page_links current builtin row (detail roles id) = role_detail_links builtin id
  page_links current builtin row directory = directory_links
  page_links current builtin row unknown = not_found_links
  page_links current builtin row r = []

-- The link of a group, in the list and on its page, to its members.
abbrev pub members_link : Route
members_link = list users
