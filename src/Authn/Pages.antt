-- ===== src/Authn/Pages.antt =====
-- web/src/routes: `beforeLoad` of each route, one definition per file.
use woodgate.Common.{codes, ℕ, String, Bool, Option, none, some, List, [], ◌∷◌}
use woodgate.Common.Result.{Result}
use woodgate.Navigation.{AuthzResource, view, PermissionRequirement}
use woodgate.Navigation
use woodgate.Authn.{path, resource, Guarded, redirect, require_permissions, require_permission}

-- `{ resource, access: "view" }` and `{ resource, access: "edit" }`
abbrev pub to_view : AuthzResource → PermissionRequirement
to_view r = record { resource = r; access = view }

abbrev pub to_edit : AuthzResource → PermissionRequirement
to_edit r = record { resource = r; access = Navigation.edit }

-- `throw redirect({ to })`, and to the page of one resource.
abbrev pub thrown_to {ℓ} : {E : Type ℓ} → String → Option (Guarded E (Unit {0}))
thrown_to to = some (redirect (path (codes to)))

abbrev pub thrown_to_id {ℓ} : {E : Type ℓ} → String → ℕ → Option (Guarded E (Unit {0}))
thrown_to_id list id = some (redirect (resource (codes list) id))

module _ {E P : Type 0} (can : P → PermissionRequirement → Bool)
    (can_all : P → List PermissionRequirement → Bool) (account : Result E P) where
  abbrev pub checkins_guard : Guarded E (Unit {0})
  checkins_guard = require_permission can can_all account (to_view AuthzResource.checkins) none

  abbrev pub locations_guard : Guarded E (Unit {0})
  locations_guard = require_permission can can_all account (to_view AuthzResource.locations) none

  abbrev pub stations_guard : Guarded E (Unit {0})
  stations_guard = require_permission can can_all account (to_view AuthzResource.stations) none

  abbrev pub users_guard : Guarded E (Unit {0})
  users_guard = require_permission can can_all account (to_view AuthzResource.users) none

  abbrev pub groups_guard : Guarded E (Unit {0})
  groups_guard = require_permission can can_all account (to_view AuthzResource.groups) none

  abbrev pub directory_guard : Guarded E (Unit {0})
  directory_guard = require_permission can can_all account (to_view AuthzResource.directory) none

  abbrev pub roles_guard : Guarded E (Unit {0})
  roles_guard =
      require_permission can can_all account (to_view AuthzResource.authz_roles)
        (thrown_to "/checkins")

  abbrev pub checkins_new_guard : Guarded E (Unit {0})
  checkins_new_guard = require_permission can can_all account (to_edit AuthzResource.checkins) none

  abbrev pub locations_new_guard : Guarded E (Unit {0})
  locations_new_guard =
      require_permission can can_all account (to_edit AuthzResource.locations) none

  abbrev pub stations_new_guard : Guarded E (Unit {0})
  stations_new_guard = require_permission can can_all account (to_edit AuthzResource.stations) none

  abbrev pub roles_new_guard : Guarded E (Unit {0})
  roles_new_guard =
      require_permission can can_all account (to_edit AuthzResource.authz_roles)
        (thrown_to "/roles")

  abbrev pub users_new_guard : Guarded E (Unit {0})
  users_new_guard =
      require_permissions can can_all account
        (to_edit AuthzResource.users ∷ to_edit AuthzResource.authz_roles ∷ [])
        (thrown_to "/directory/users")

  abbrev pub checkins_edit_guard : ℕ → Guarded E (Unit {0})
  checkins_edit_guard id =
      require_permission can can_all account (to_edit AuthzResource.checkins)
        (thrown_to_id "/checkins" id)

  abbrev pub locations_edit_guard : ℕ → Guarded E (Unit {0})
  locations_edit_guard id =
      require_permission can can_all account (to_edit AuthzResource.locations)
        (thrown_to_id "/locations" id)

  abbrev pub stations_edit_guard : ℕ → Guarded E (Unit {0})
  stations_edit_guard id =
      require_permission can can_all account (to_edit AuthzResource.stations)
        (thrown_to_id "/stations" id)

  abbrev pub roles_edit_guard : ℕ → Guarded E (Unit {0})
  roles_edit_guard id =
      require_permission can can_all account (to_edit AuthzResource.authz_roles)
        (thrown_to_id "/roles" id)

  abbrev pub users_edit_guard : ℕ → Guarded E (Unit {0})
  users_edit_guard id =
      require_permissions can can_all account
        (to_edit AuthzResource.users ∷ to_edit AuthzResource.authz_roles ∷ [])
        (thrown_to_id "/directory/users" id)

  abbrev pub groups_edit_guard : ℕ → Guarded E (Unit {0})
  groups_edit_guard id =
      require_permissions can can_all account
        (to_edit AuthzResource.groups ∷ to_edit AuthzResource.authz_roles ∷ [])
        (thrown_to_id "/directory/groups" id)
