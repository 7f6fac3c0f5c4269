-- ===== src/Roles.antt =====
-- web/src/features/authz/role-detail.tsx and permission-level.tsx: the page of a role, with a row for
-- each resource. `permission_level` is that of @woodleighschool/authz, `to_upper` the platform's
-- `toUpperCase` of one character.
pub mod Rows
use woodgate.Common.{
  ◌==◌, leb, if◌then◌else◌, find, some_or, Text, codes, text_eq, ℕ, Bool, true, false, not, ◌&&◌,
  ◌||◌, Option, none, some, List, [], ◌∷◌, map,
}
use woodgate.Forms.Role.{Level, no_level, view, edit, entry}

pub record Resource : Type 0 where
  pub resource : Text
  pub display_name : Text

-- What the page reads of a role.
pub record Role : Type 0 where
  pub id : ℕ
  pub builtin : Bool
  pub permissions : List (Text × Text)

pub record PermissionRow : Type 0 where
  pub name : Text
  pub label : Text
  pub level : Level

-- `labels`, and the variant of the badge.
unfoldable pub level_label : Level → Text
level_label no_level = codes "None"
level_label view = codes "View"
level_label edit = codes "Edit"

unfoldable pub level_variant : Level → Text
level_variant no_level = codes "outline"
level_variant _ = codes "secondary"

-- `\w`
abbrev pub is_word : ℕ → Bool
is_word c =
    (leb b'a' c && leb c b'z')
    || (leb b'A' c && leb c b'Z')
    || (leb b'0' c && leb c b'9')
    || c == b'_'

-- `replaceAll(from, to)` of one character.
abbrev pub replace_all : (from to : ℕ) → Text → Text
replace_all from to t = map (λ c. if c == from then to else c) t

-- `names`
unfoldable pub resource_names : Option (List Resource) → Role → List Text
resource_names none role = map (λ (name, level). name) role.permissions
resource_names (some resources) role = map Resource.resource resources

module _ (to_upper : ℕ → ℕ) where
  -- `replace(/\b\w/g, toUpperCase)`; `inside` says whether the character before is of a word.
  unfoldable pub capitalize : (inside : Bool) → Text → Text
  capitalize inside [] = []
  capitalize inside (c ∷ t) =
      (if not inside && is_word c then to_upper c else c) ∷ capitalize (is_word c) t

  unfoldable pub permission_label : Text → Text
  unfolding capitalize
  permission_label value = capitalize false (replace_all b'_' b' ' (replace_all b'.' b' ' value))

  -- `resources.data?.find(…)?.display_name ?? permissionLabel(name)`
  abbrev pub display_name_of : Option Resource → Option Text
  display_name_of none = none
  display_name_of (some r) = some r.display_name

  unfoldable pub row_label : Option (List Resource) → Text → Text
  row_label resources name =
      some_or
        (display_name_of (find (λ r. text_eq (Resource.resource r) name) (some_or resources [])))
        (permission_label name)

  module _ (permission_level : Option Text → Level) where
    unfoldable pub permission_row : Option (List Resource) → Role → Text → PermissionRow
    unfolding row_label
    permission_row resources role name = record {
      name = name;
      label = row_label resources name;
      level = permission_level (entry role.permissions name);
    }

    unfoldable pub permission_rows : Option (List Resource) → Role → List PermissionRow
    unfolding permission_row resource_names
    permission_rows resources role =
        map (permission_row resources role) (resource_names resources role)

-- The page's `confirmOpen`, the deletions under way, the requests, latest first, and whether it went
-- to the list.
pub record RolePage : Type 0 where
  pub confirm_open : Bool
  pub requests : List ℕ
  pub left : Bool

pub data RoleEvent : Type 0 where
  delete_clicked : RoleEvent
  confirm_changed : (is_open : Bool) → RoleEvent
  delete_confirmed : RoleEvent
  delete_answered : (succeeds : Bool) → RoleEvent

-- The Delete button stands on the page of a role that is not built in, for whoever may edit roles.
unfoldable pub role_step : (can_edit : Bool) → Role → RolePage → RoleEvent → RolePage
role_step can_edit role s delete_clicked =
    if not role.builtin && can_edit then record s { confirm_open = true } else s
role_step can_edit role s (confirm_changed is_open) =
    if is_open then s else record s { confirm_open = false }
role_step can_edit role s delete_confirmed =
    if s.confirm_open then record s { requests = role.id ∷ s.requests } else s
role_step can_edit role s (delete_answered succeeds) =
    if succeeds then record s { left = true } else s

unfoldable pub role_run : (can_edit : Bool) → Role → RolePage → List RoleEvent → RolePage
role_run can_edit role s [] = s
role_run can_edit role s (event ∷ events) =
    role_run can_edit role (role_step can_edit role s event) events
