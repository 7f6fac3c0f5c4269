-- ===== src/Authn/Routes.antt =====
-- The guards of web/src/routes: which `beforeLoad` functions run before a page, outermost route first,
-- and what the router does with their redirects. A route's page is named by its section.
use woodgate.Common.{
  if◌then◌else◌, Text, codes, text_eq, ℕ, zero, suc, Bool, Option, none, some, List, [], ◌∷◌,
}
use woodgate.Common.Result.{Result}
use woodgate.Navigation.{AuthzResource, view, edit as edit_access, PermissionRequirement}
use woodgate.Authn.Pages
use woodgate.Authn.{
  Target, path, resource, Guarded, pass, redirect, fails, login_path, require_user,
  redirect_for_entry, redirect_authenticated_from_login, require_permission, account_path,
}

pub data Section : Type 0 where
  checkins locations stations users groups roles : Section

pub data Route : Type 0 where
  entry login account directory : Route
  list new : Section → Route
  detail edit : Section → ℕ → Route
  unknown : Route  -- `/_authenticated/$`, the page for a path that no other route takes

abbrev pub list_path : Section → Text
list_path checkins = codes "/checkins"
list_path locations = codes "/locations"
list_path stations = codes "/stations"
list_path users = codes "/directory/users"
list_path groups = codes "/directory/groups"
list_path roles = codes "/roles"

abbrev pub section_resource : Section → AuthzResource
section_resource checkins = AuthzResource.checkins
section_resource locations = AuthzResource.locations
section_resource stations = AuthzResource.stations
section_resource users = AuthzResource.users
section_resource groups = AuthzResource.groups
section_resource roles = AuthzResource.authz_roles

-- The section with this list path, among those that a redirect names.
abbrev section_at : Text → Option Section
section_at t =
    if text_eq t (list_path checkins)
    then some checkins
    else if text_eq t (list_path locations)
    then some locations
    else if text_eq t (list_path stations)
    then some stations
    else if text_eq t (list_path users)
    then some users
    else if text_eq t (list_path groups)
    then some groups
    else if text_eq t (list_path roles)
    then some roles
    else none

abbrev list_route : Option Section → Route
list_route none = unknown
list_route (some s) = list s

abbrev detail_route : Option Section → ℕ → Route
detail_route none id = unknown
detail_route (some s) id = detail s id

-- The route that the router matches for a redirect.
unfoldable pub target_route : Target → Route
target_route (resource base id) = detail_route (section_at base) id
target_route (path t) =
    if text_eq t (codes "/")
    then entry
    else if text_eq t login_path
    then login
    else if text_eq t account_path
    then account
    else if text_eq t (codes "/directory")
    then directory
    else list_route (section_at t)

abbrev pub viewing : Section → PermissionRequirement
viewing s = record { resource = section_resource s; access = view }

abbrev pub editing : Section → PermissionRequirement
editing s = record { resource = section_resource s; access = edit_access }

-- What a page for making or changing a resource asks for.
abbrev pub edit_requirements : Section → List PermissionRequirement
edit_requirements users = editing users ∷ editing roles ∷ []
edit_requirements groups = editing groups ∷ editing roles ∷ []
edit_requirements s = editing s ∷ []

-- One guard after another, while they pass.
abbrev pub then_guard {ℓ κ} :
    {E : Type ℓ} {A : Type κ} → Guarded E A → Guarded E (Unit {0}) → Guarded E (Unit {0})
then_guard (pass a) next = next
then_guard (redirect t) next = redirect t
then_guard (fails e) next = fails e

-- Where a guard sends a user who may not edit: `onForbidden` of a list's `new` page.
abbrev pub new_forbidden {ℓ} : {E : Type ℓ} → Section → Option (Guarded E (Unit {0}))
new_forbidden users = some (redirect (path (list_path users)))
new_forbidden roles = some (redirect (path (list_path roles)))
new_forbidden s = none

module _ {E U P : Type 0} (can : P → PermissionRequirement → Bool)
    (can_all : P → List PermissionRequirement → Bool) (session : Result E (Option U))
    (signed_in_account : Result E P) where
  -- The layout route of a section.
  unfoldable pub section_guard : Section → Guarded E (Unit {0})
  unfolding require_permission
  section_guard checkins = Pages.checkins_guard can can_all signed_in_account
  section_guard locations = Pages.locations_guard can can_all signed_in_account
  section_guard stations = Pages.stations_guard can can_all signed_in_account
  section_guard users = Pages.users_guard can can_all signed_in_account
  section_guard groups = Pages.groups_guard can can_all signed_in_account
  section_guard roles = Pages.roles_guard can can_all signed_in_account

  -- The page for a new resource; groups have none.
  unfoldable pub new_guard : Section → Guarded E (Unit {0})
  unfolding require_permission
  new_guard checkins = Pages.checkins_new_guard can can_all signed_in_account
  new_guard locations = Pages.locations_new_guard can can_all signed_in_account
  new_guard stations = Pages.stations_new_guard can can_all signed_in_account
  new_guard users = Pages.users_new_guard can can_all signed_in_account
  new_guard roles = Pages.roles_new_guard can can_all signed_in_account
  new_guard groups = pass tt

  unfoldable pub edit_guard : Section → ℕ → Guarded E (Unit {0})
  unfolding require_permission
  edit_guard checkins id = Pages.checkins_edit_guard can can_all signed_in_account id
  edit_guard locations id = Pages.locations_edit_guard can can_all signed_in_account id
  edit_guard stations id = Pages.stations_edit_guard can can_all signed_in_account id
  edit_guard users id = Pages.users_edit_guard can can_all signed_in_account id
  edit_guard groups id = Pages.groups_edit_guard can can_all signed_in_account id
  edit_guard roles id = Pages.roles_edit_guard can can_all signed_in_account id

  -- All guards of a page. Groups have no page `new`: that path is no id and falls to `unknown`.
  unfoldable pub guard_route : Route → Guarded E (Unit {0})
  unfolding section_guard new_guard edit_guard
  guard_route entry = redirect_for_entry can session signed_in_account
  guard_route login = redirect_authenticated_from_login can session signed_in_account
  guard_route account = then_guard (require_user session) (pass tt)
  guard_route unknown = then_guard (require_user session) (pass tt)
  guard_route directory =
      then_guard (require_user session) (Pages.directory_guard can can_all signed_in_account)
  guard_route (list s) = then_guard (require_user session) (section_guard s)
  guard_route (detail s id) = then_guard (require_user session) (section_guard s)
  guard_route (new groups) = then_guard (require_user session) (pass tt)
  guard_route (new s) =
      then_guard (require_user session) (then_guard (section_guard s) (new_guard s))
  guard_route (edit s id) =
      then_guard (require_user session) (then_guard (section_guard s) (edit_guard s id))

  -- Following redirects, at most `fuel` pages tried: the page whose guards pass, or `none`.
  unfoldable pub follow : ℕ → Route → Option Route
  follow zero r = none
  follow (suc fuel) r = elim (guard_route r) [
    | pass _ ↦ some r
    | redirect t ↦ follow fuel (target_route t)
    | fails e ↦ none
  ]
