-- ===== src/Navigation/Sidebar.antt =====
-- web/src/components/layout/app-sidebar.tsx: the entries of the sidebar and the menu of the user. Icons,
-- labels of entries and the avatar are left out.
use woodgate.Common.{
  if◌then◌else◌, Text, codes, Bool, not, ◌&&◌, ◌||◌, Option, none, some, List, [], ◌∷◌, ◌++◌,
  or_else, some_or,
}
use woodgate.Paging.{non_empty}
use woodgate.Navigation.{
  AuthzResource, view, PermissionRequirement, NavFields, NavItem, item, NavItems, nil, cons, truthy,
  has_children, children_or_nil,
}
use woodgate.Navigation.Active.{is_active_path}
use woodgate.Navigation.Config.{NavMenu, visible_nav_sections, first_accessible_path}

-- `isMobile` and `state` of the sidebar.
pub record SidebarState : Type 0 where
  pub is_mobile : Bool
  pub is_collapsed : Bool

pub record SubEntry : Type 0 where
  pub link : Option Text
  pub active : Bool

-- An entry: the overview that stands for a group while the sidebar is collapsed, a group that opens,
-- or a single entry.
pub data NavEntry : Type 0 where
  overview : (link : Text) (active : Bool) → NavEntry
  group : (is_open active : Bool) (children : List SubEntry) → NavEntry
  single : (link : Option Text) (active disabled : Bool) → NavEntry

-- A path that is truthy.
abbrev pub given_path : Option Text → Option Text
given_path to = if truthy to then to else none

abbrev pub collapsed_overview_target : SidebarState → NavFields → Option Text
collapsed_overview_target state f =
    if state.is_collapsed && not state.is_mobile && not f.disabled then f.to else none

unfoldable pub sub_entry : (pathname : Text) → NavItem → SubEntry
sub_entry pathname (item f sub) = record {
  link = given_path f.to;
  active = is_active_path pathname (item f sub);
}

unfoldable pub sub_entries : (pathname : Text) → NavItems → List SubEntry
unfolding sub_entry
sub_entries pathname nil = []
sub_entries pathname (cons i rest) = sub_entry pathname i ∷ sub_entries pathname rest

abbrev pub group_or_overview : Option Text → NavEntry → Bool → NavEntry
group_or_overview none shown active = shown
group_or_overview (some t) shown active = overview t active

-- `SidebarNavItem`
unfoldable pub nav_entry :
    (pathname : Text) → SidebarState → (manually_open : Bool) → NavItem → NavEntry
unfolding sub_entries
nav_entry pathname state manually_open (item f sub) =
    let active = is_active_path pathname (item f sub) in
    if has_children sub
    then group_or_overview (given_path (collapsed_overview_target state f))
        (group (active || manually_open) active (sub_entries pathname (children_or_nil sub))) active
    else single (if f.disabled then none else given_path f.to) active f.disabled

abbrev pub optional_link : Option Text → List Text
optional_link none = []
optional_link (some t) = t ∷ []

abbrev pub sub_links : List SubEntry → List Text
sub_links [] = []
sub_links (entry ∷ rest) = optional_link entry.link ++ sub_links rest

-- The links of an entry. The entries below a group that is not open are hidden.
unfoldable pub entry_links : NavEntry → List Text
entry_links (overview link active) = link ∷ []
entry_links (group is_open active children) = if is_open then sub_links children else []
entry_links (single link active disabled) = optional_link link

-- `manually_open` says of each entry whether the user opened it.
unfoldable pub items_links :
    Text → SidebarState → (manually_open : NavItem → Bool) → NavItems → List Text
unfolding nav_entry entry_links
items_links pathname state manually_open nil = []
items_links pathname state manually_open (cons i rest) =
    entry_links (nav_entry pathname state (manually_open i) i)
    ++ items_links pathname state manually_open rest

abbrev pub sections_links : Text → SidebarState → (NavItem → Bool) → List NavMenu → List Text
sections_links pathname state manually_open [] = []
sections_links pathname state manually_open (section ∷ rest) =
    items_links pathname state manually_open section.items
    ++ sections_links pathname state manually_open rest

module _ (can : PermissionRequirement → Bool) where
  -- The links of `AppSidebar`, that of the brand first.
  unfoldable pub sidebar_links : Text → SidebarState → (manually_open : NavItem → Bool) → List Text
  unfolding items_links
  sidebar_links pathname state manually_open =
      some_or (first_accessible_path can) (codes "/account")
      ∷ sections_links pathname state manually_open (visible_nav_sections can)

  -- The links of the user's menu.
  unfoldable pub user_menu : List Text
  user_menu =
      (if can (record { resource = AuthzResource.authz_roles; access = view })
        then codes "/roles" ∷ []
        else [])
      ++ codes "/account" ∷ []

-- `label`: the name, or else the address.
unfoldable pub user_label : (name email : Option Text) → Text
user_label name email = some_or (or_else (non_empty name) (non_empty email)) (codes "Signed Out")
