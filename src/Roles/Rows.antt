-- ===== src/Roles/Rows.antt =====
-- The rows of a role's page beside its form, and the deletions of a role.
use woodgate.Common.{
  All, Text, ℕ, ◌≡◌, refl, ap, ◌∙◌, Bool, false, not, ◌&&◌, Option, none, some, List, [], ◌∷◌, map,
  arith, text_eq, ◌||◌, Bool-cases, inl, inr,
}
use woodgate.Forms.Role.{
  Level, view, edit, is_level, level_text, entry, AuthzRole, role_values, view_checked,
  edit_checked, level_of, level_text,
}
use woodgate.Roles.{
  Resource, Role, PermissionRow, permission_row, permission_rows, resource_names, RolePage,
  RoleEvent, delete_clicked, role_step, role_run,
}

module _ (to_upper : ℕ → ℕ) (permission_level : Option Text → Level)
    -- Documented of `permissionLevel`: it keeps the three levels.
    (reads_back : (level : Level) → permission_level (some (level_text level)) ≡ level) where
  abbrev pub form_permissions : List (Text × Text) → List (Text × Level)
  form_permissions = map (λ (resource, level). (resource, permission_level (some level)))

  -- The level that the form reads for a resource is the one of the role's page.
  level_of-form :
      (ps : List (Text × Text)) (name : Text)
      → level_of permission_level (form_permissions ps) name ≡ permission_level (entry ps name)
  unfolding level_of
  level_of-form [] name = refl
  level_of-form ((key, level) ∷ ps) name = elim (Bool-cases (text_eq key name)) [
    | inl same ↦ rw same (reads_back (permission_level (some level)))
    | inr apart ↦ rw apart (level_of-form ps name)
  ]

  -- The boxes of the role's form that say what a row of its page says.
  abbrev pub IsShown : List (Text × Level) → PermissionRow → Type 0
  IsShown permissions row =
      (edit_checked permission_level permissions row.name ≡ is_level row.level edit)
      × (view_checked permission_level permissions row.name
          ≡ (is_level row.level view || is_level row.level edit))

  rows-IsShown_of :
      (resources : Option (List Resource)) (role : Role) (names : List Text)
      → All
          (IsShown (form_permissions role.permissions))
          (map (permission_row to_upper permission_level resources role) names)
  unfolding permission_row edit_checked view_checked
  rows-IsShown_of resources role [] = tt
  rows-IsShown_of resources role (name ∷ names) = (
    let same = level_of-form role.permissions name in rw same (refl, refl),
    rows-IsShown_of resources role names,
  )

  rows_names :
      (resources : Option (List Resource)) (role : Role) (names : List Text)
      → map PermissionRow.name (map (permission_row to_upper permission_level resources role) names)
        ≡ names
  unfolding permission_row
  rows_names resources role [] = refl
  rows_names resources role (name ∷ names) = ap (λ r. name ∷ r) (rows_names resources role names)

  -- If `permissionLevel` reads the three levels back: the page of a role has one row for each
  -- resource, or for each permission of the role while the resources are not loaded, in their order;
  -- and each row says what the two boxes of its resource show in the form that edits the role.
  pub rows-IsShown :
      (resources : Option (List Resource)) (role : Role) (edited : AuthzRole)
      → edited.permissions ≡ role.permissions
      → (map PermissionRow.name (permission_rows to_upper permission_level resources role)
          ≡ elim resources [
            | none ↦ map (λ (name, level). name) role.permissions
            | some loaded ↦ map Resource.resource loaded
          ])
        × All
            (IsShown (role_values permission_level (some edited)).permissions)
            (permission_rows to_upper permission_level resources role)
  unfolding permission_rows role_values resource_names
  rows-IsShown none role edited same = (
    rows_names none role (resource_names none role),
    rw same (rows-IsShown_of none role (resource_names none role)),
  )
  rows-IsShown (some loaded) role edited same = (
    rows_names (some loaded) role (resource_names (some loaded) role),
    rw same (rows-IsShown_of (some loaded) role (resource_names (some loaded) role)),
  )

role_step-kept :
    (can_edit : Bool) (role : Role) (s : RolePage) (event : RoleEvent)
    → (not role.builtin && can_edit) ≡ false
    → s.confirm_open ≡ false
    → ((role_step can_edit role s event).confirm_open ≡ false)
      × ((role_step can_edit role s event).requests ≡ s.requests)
unfolding role_step
role_step-kept can_edit role s delete_clicked barred shut = ground arith
role_step-kept can_edit role s _ barred shut = ground arith

-- Nothing asks for the deletion of a role that is built in or that the account may not edit, whatever
-- is clicked on its page.
pub role_run-kept :
    (can_edit : Bool) (role : Role) (s : RolePage) (events : List RoleEvent)
    → (not role.builtin && can_edit) ≡ false
    → s.confirm_open ≡ false
    → (role_run can_edit role s events).requests ≡ s.requests
unfolding role_run
role_run-kept can_edit role s [] barred shut = refl
role_run-kept can_edit role s (event ∷ events) barred shut =
    let (still, same) = role_step-kept can_edit role s event barred shut in
    role_run-kept can_edit role (role_step can_edit role s event) events barred still ∙ same
