-- ===== src/Forms/Role.antt =====
-- web/src/features/authz/role-form.tsx and role-picker.tsx. `permission_level` is that of
-- @woodleighschool/authz, which reads a level from a text that may be missing; `to_lower` is the
-- platform's `toLowerCase`.
pub mod Boxes
use woodgate.Common.{
  ◌==◌, if◌then◌else◌, Text, codes, text_eq, trim, ℕ, Bool, true, false, not, ◌||◌, Option, none,
  some, List, [], ◌∷◌, ◌++◌, map, some_or, any, keep,
}

pub data Level : Type 0 where
  no_level view edit : Level

abbrev pub level_text : Level → Text
level_text no_level = codes "none"
level_text view = codes "view"
level_text edit = codes "edit"

-- `===` on levels.
abbrev pub is_level : Level → Level → Bool
is_level no_level no_level = true
is_level view view = true
is_level edit edit = true
is_level _ _ = false

pub record AuthzRole : Type 0 where
  pub key : Text
  pub name : Text
  pub description : Option Text
  pub permissions : List (Text × Text)

pub record RoleValues : Type 0 where
  pub key : Text
  pub name : Text
  pub description : Text
  pub permissions : List (Text × Level)

pub record RoleMutation : Type 0 where
  pub key : Option Text
  pub name : Text
  pub description : Text
  pub permissions : List (Text × Level)

-- An entry of an object, and `{ ...object, [key]: value }`.
abbrev pub entry {ℓ} : {A : Type ℓ} → List (Text × A) → Text → Option A
entry [] k = none
entry ((key, value) ∷ rest) k = if text_eq key k then some value else entry rest k

abbrev pub with_entry {ℓ} : {A : Type ℓ} → List (Text × A) → Text → A → List (Text × A)
with_entry [] k v = (k, v) ∷ []
with_entry ((key, value) ∷ rest) k v =
    if text_eq key k then (key, v) ∷ rest else (key, value) ∷ with_entry rest k v

module _ (permission_level : Option Text → Level) where
  -- `defaultValues`
  unfoldable pub role_values : Option AuthzRole → RoleValues
  role_values none = record { key = []; name = []; description = []; permissions = [] }
  role_values (some role) = record {
    key = role.key;
    name = role.name;
    description = some_or role.description [];
    permissions =
        map (λ (resource, level). (resource, permission_level (some level))) role.permissions;
  }

  -- The row of a resource: its level and its two checkboxes.
  abbrev pub read_level : Option Level → Level
  read_level none = permission_level none
  read_level (some level) = permission_level (some (level_text level))

  unfoldable pub level_of : List (Text × Level) → Text → Level
  level_of permissions resource = read_level (entry permissions resource)

  unfoldable pub view_checked : List (Text × Level) → Text → Bool
  view_checked permissions resource =
      is_level (level_of permissions resource) view || is_level (level_of permissions resource) edit

  unfoldable pub edit_checked : List (Text × Level) → Text → Bool
  edit_checked permissions resource = is_level (level_of permissions resource) edit

  unfoldable pub view_changed : List (Text × Level) → Text → Bool → List (Text × Level)
  view_changed permissions resource checked = with_entry permissions resource (
      if not checked
      then no_level
      else if is_level (level_of permissions resource) edit
      then edit
      else view)

unfoldable pub edit_changed : List (Text × Level) → Text → Bool → List (Text × Level)
edit_changed permissions resource checked =
    with_entry permissions resource (if checked then edit else view)

-- What `onSubmit` sends.
unfoldable pub role_mutation : Option AuthzRole → RoleValues → RoleMutation
role_mutation initial value = record {
  key = elim initial [ none ↦ some (trim value.key) | some role ↦ none ];
  name = trim value.name;
  description = trim value.description;
  permissions = value.permissions;
}

-- `text.replaceAll(" ", "-")`, and the key's `onChange`.
abbrev pub dashed : Text → Text
dashed s = map (λ c. if c == b' ' then b'-' else c) s

unfoldable pub key_changed : (Text → Text) → Text → Text
key_changed to_lower typed = dashed (to_lower typed)

-- `RolePicker`: whether a role is checked, and the ids after its checkbox changes.
abbrev pub includes : List ℕ → ℕ → Bool
includes ids id = any (λ candidate. candidate == id) ids

unfoldable pub role_checked_change : List ℕ → ℕ → Bool → List ℕ
role_checked_change value id next =
    if next then value ++ id ∷ [] else keep (λ candidate. not (candidate == id)) value
