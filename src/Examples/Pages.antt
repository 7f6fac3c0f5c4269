-- ===== src/Examples/Pages.antt =====
-- Concrete accounts, and where they are led.
use woodgate.Common.{all, All, codes, ℕ, refl, Bool, true, false, ◌&&◌, ◌||◌, some, List}
use woodgate.Common.Result.{ok}
use woodgate.Navigation.{AuthzResource, Access, view, PermissionRequirement}
use woodgate.Authn.Routes.{users, list, edit, guard_route}
use woodgate.Authn.Landing.{Lands}
use woodgate.Authn.Redirects.{redirects_end}
use woodgate.Authn.{require_user, require_permissions}
use woodgate.Navigation.Sidebar.{SidebarState, sidebar_links, user_menu}
use woodgate.Links.{page_links}
use woodgate.Links.Followed.{Opens, Leads, links-Open}
use woodgate.Links.Sidebar.{LeadsIn, sidebar-LeadsIn}

-- A permission of this account: to view groups and stations.
abbrev is_granted : AuthzResource → Bool
is_granted AuthzResource.groups = true
is_granted AuthzResource.stations = true
is_granted _ = false

abbrev is_view : Access → Bool
is_view view = true
is_view _ = false

-- The permissions of an account are all or those above.
abbrev can : Bool → PermissionRequirement → Bool
can everything r = everything || (is_granted r.resource && is_view r.access)

abbrev can_all : Bool → List PermissionRequirement → Bool
can_all everything rs = all (can everything) rs

redirects_end_example : Lands {E = ℕ} {U = ℕ} can can_all (ok (some 7)) (ok false) 3 (edit users 5)
redirects_end_example = redirects_end can can_all (λ p rs. refl) 7 false (edit users 5)

-- The list of users, opened by who may do everything.
users_opened : Opens ℕ {U = ℕ} can can_all (λ p rs. refl) 7 true (list users)
unfolding guard_route require_user require_permissions
users_opened = refl

links-Open_example :
    All
      (Leads ℕ {U = ℕ} can can_all (λ p rs. refl) 7 true)
      (page_links (can true) (some 7) false 3 (list users))
links-Open_example =
    links-Open ℕ can can_all (λ p rs. refl) 7 true (some 7) false 3 (list users) users_opened

abbrev collapsed : SidebarState
collapsed = record { is_mobile = false; is_collapsed = true }

sidebar-LeadsIn_example :
    All
      (LeadsIn ℕ {U = ℕ} can can_all (λ p rs. refl) 7 false)
      (sidebar_links (can false) (codes "/directory/groups") collapsed (λ i. false))
    × All (LeadsIn ℕ {U = ℕ} can can_all (λ p rs. refl) 7 false) (user_menu (can false))
sidebar-LeadsIn_example =
    sidebar-LeadsIn ℕ can can_all (λ p rs. refl) 7 false (codes "/directory/groups") collapsed
      (λ i. false)
