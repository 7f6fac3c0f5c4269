-- ===== src/Navigation/Config.antt =====
-- web/src/components/layout/nav-config.ts: the sections of the sidebar and the first page of an
-- account.
use woodgate.Common.{
  if◌then◌else◌, keep, Text, codes, String, ◌≡◌, Bool, true, false, Option, none, some, List, [],
  ◌∷◌, map, arith,
}
use woodgate.Navigation.{
  AuthzResource, users, groups, directory, locations, checkins, stations, view,
  PermissionRequirement, NavItem, item, no_items, items, NavItems, nil, cons,
  first_navigation_target, filter_navigation,
}

pub record NavMenu : Type 0 where
  pub label : String
  pub items : NavItems

abbrev viewing : AuthzResource → Option PermissionRequirement
viewing r = some (record { resource = r; access = view })

-- An entry for one resource that its viewers see.
abbrev entry : String → String → Option String → AuthzResource → NavItem
entry label to icon r =
    item
      (record {
        label = label;
        to = some (codes to);
        exact = false;
        icon = icon;
        disabled = false;
        permission = viewing r;
      })
      no_items

abbrev directory_overview : NavItem
directory_overview =
    item
      (record {
        label = "Overview";
        to = some (codes "/directory");
        exact = true;
        icon = none;
        disabled = false;
        permission = viewing directory;
      })
      no_items

abbrev directory_group : NavItem
directory_group =
    item
      (record {
        label = "Directory";
        to = some (codes "/directory");
        exact = true;
        icon = some "UsersRound";
        disabled = false;
        permission = none;
      })
      (items (
        cons directory_overview (
          cons (entry "Users" "/directory/users" none users)
            (cons (entry "Groups" "/directory/groups" none groups) nil))))

-- The items of the section "System".
abbrev pub directory_items : NavItems
directory_items = cons directory_group nil

unfoldable pub nav_sections : List NavMenu
nav_sections =
    record {
      label = "Operations";
      items = cons (entry "Check-ins" "/checkins" (some "ClipboardCheck") checkins) (
          cons (entry "Locations" "/locations" (some "MapPin") locations)
            (cons (entry "Stations" "/stations" (some "MonitorSmartphone") stations) nil));
    }
    ∷ record { label = "System"; items = directory_items }
    ∷ []

abbrev pub append : NavItems → NavItems → NavItems
append nil more = more
append (cons i rest) more = cons i (append rest more)

-- `sections.flatMap((section) => section.items)`
abbrev pub all_items : List NavMenu → NavItems
all_items [] = nil
all_items (section ∷ rest) = append section.items (all_items rest)

abbrev pub has_items : NavItems → Bool
has_items nil = false
has_items (cons i rest) = true

-- `can` at the permissions of an account, or at none while no account is loaded.
module _ (can : PermissionRequirement → Bool) where
  abbrev pub filtered_section : NavMenu → NavMenu
  filtered_section section = record section { items = filter_navigation can section.items }

  unfoldable pub visible_nav_sections : List NavMenu
  unfolding nav_sections
  visible_nav_sections =
      keep (λ section. has_items (NavMenu.items section)) (map filtered_section nav_sections)

  unfoldable pub first_accessible_path : Option Text
  unfolding visible_nav_sections
  first_accessible_path = first_navigation_target (all_items visible_nav_sections)

  -- `can` for viewing a resource.
  abbrev pub views : AuthzResource → Bool
  views r = can (record { resource = r; access = view })

  -- The landing pages in the order of preference.
  abbrev pub landing : Option Text
  landing =
      if views checkins
      then some (codes "/checkins")
      else if views locations
      then some (codes "/locations")
      else if views stations
      then some (codes "/stations")
      else if views directory
      then some (codes "/directory")
      else if views users
      then some (codes "/directory/users")
      else if views groups
      then some (codes "/directory/groups")
      else none

  -- The first page of an account is that of the first resource that it may view, among check-ins,
  -- locations, stations, the directory, users and groups in this order; there is none exactly if it
  -- may view none of them.
  pub first_accessible_path_lem : first_accessible_path ≡ landing
  unfolding first_accessible_path filter_navigation first_navigation_target
  first_accessible_path_lem = ground arith
