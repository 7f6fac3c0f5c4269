-- ===== src/Links/Sidebar.antt =====
-- Where the links of the sidebar lead.
use woodgate.Common.{
  all, All, Bool-cases, Text, codes, ◌≡◌, inl, inr, Bool, true, List, [], ◌∷◌, arith,
}
use woodgate.Navigation.{
  AuthzResource, view, PermissionRequirement, NavItem, filter_navigation, first_navigation_target,
}
use woodgate.Navigation.Config.{visible_nav_sections, views}
use woodgate.Navigation.Sidebar.{
  SidebarState, sidebar_links, user_menu, items_links, sections_links, entry_links, nav_entry,
  sub_entries,
}
use woodgate.Authn.{path, require_user, require_permissions}
use woodgate.Authn.Routes.{
  Section, checkins, locations, stations, users, groups, roles, list_path, target_route, viewing,
  guard_route,
}
use woodgate.Authn.Landing.{list_target}
use woodgate.Authn.Redirects.{home-passes}
use woodgate.Links.Followed.{Opens, Opens-list, Opens-account}

-- What holds of the paths of the entries that an account may view holds of all links.
module _ (Q : Text → Type 0) (can : PermissionRequirement → Bool) (pathname : Text)
    (state : SidebarState) (manually_open : NavItem → Bool) where
  module _ (checkins_ok : views can AuthzResource.checkins ≡ true → Q (codes "/checkins"))
      (locations_ok : views can AuthzResource.locations ≡ true → Q (codes "/locations"))
      (stations_ok : views can AuthzResource.stations ≡ true → Q (codes "/stations"))
      (directory_ok : views can AuthzResource.directory ≡ true → Q (codes "/directory"))
      (users_ok : views can AuthzResource.users ≡ true → Q (codes "/directory/users"))
      (groups_ok : views can AuthzResource.groups ≡ true → Q (codes "/directory/groups")) where
    sections-All : All Q (sections_links pathname state manually_open (visible_nav_sections can))
    unfolding items_links nav_entry entry_links visible_nav_sections filter_navigation
        first_navigation_target sub_entries
    sections-All = ground arith

module _ (E : Type 0) {U P : Type 0} (can : P → PermissionRequirement → Bool)
    (can_all : P → List PermissionRequirement → Bool)
    -- Documented of `canAll`: every requirement is met.
    (can_all_lem : (p : P) (rs : List PermissionRequirement) → can_all p rs ≡ all (can p) rs)
    (u : U) (p : P) where
  abbrev pub LeadsIn : Text → Type 0
  LeadsIn t = Opens E can can_all can_all_lem u p (target_route (path t))

  list-LeadsIn : (s : Section) → can p (viewing s) ≡ true → LeadsIn (list_path s)
  list-LeadsIn s viewed = rw (list_target s) (Opens-list E can can_all can_all_lem u p s viewed)

  directory-LeadsIn : views (can p) AuthzResource.directory ≡ true → LeadsIn (codes "/directory")
  unfolding guard_route require_user target_route require_permissions
  directory-LeadsIn viewed =
      ground
        (arith, can_all_lem p (record { resource = AuthzResource.directory; access = view } ∷ []))

  account-LeadsIn : LeadsIn (codes "/account")
  unfolding target_route
  account-LeadsIn = Opens-account E can can_all can_all_lem u p

  -- For a signed-in user with any permissions: however the sidebar is shown and opened, each of its
  -- links and of the links of the user's menu leads to a page whose guards let the user through.
  pub sidebar-LeadsIn :
      (pathname : Text) (state : SidebarState) (manually_open : NavItem → Bool)
      → All LeadsIn (sidebar_links (can p) pathname state manually_open)
        × All LeadsIn (user_menu (can p))
  unfolding sidebar_links user_menu
  sidebar-LeadsIn pathname state manually_open = (
    (
      home-passes can can_all can_all_lem u p,
      sections-All LeadsIn (can p) pathname state manually_open (list-LeadsIn checkins)
          (list-LeadsIn locations) (list-LeadsIn stations) directory-LeadsIn (list-LeadsIn users)
          (list-LeadsIn groups),
    ),
    elim (Bool-cases (can p (viewing roles))) [
      | inl viewed ↦ rw viewed ((list-LeadsIn roles viewed, (account-LeadsIn, tt)))
      | inr barred ↦ rw barred ((account-LeadsIn, tt))
    ],
  )
