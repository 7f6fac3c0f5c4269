-- ===== src/UserList.antt =====
-- web/src/features/directory/users/list.tsx: the table of users, what its rows offer, and the dialog
-- that deletes one.
pub mod Own
use woodgate.Common.{
  ◌==◌, if◌then◌else◌, Text, codes, text_eq, ℕ, ◌+◌, ◌-◌, ◌/◌, Bool, true, false, not, ◌&&◌, ◌||◌,
  Option, none, some, List, [], ◌∷◌, ◌++◌, keep,
}

-- What the account may do, by the answers of `useCan`.
pub record UserAccess : Type 0 where
  pub edits_users : Bool
  pub edits_roles : Bool
  pub views_checkins : Bool

unfoldable pub can_edit : UserAccess → Bool
can_edit access = access.edits_users && access.edits_roles

-- A column by what decides how the table may use it; its cells and sizes are left out.
pub record Column : Type 0 where
  pub id : Text
  pub header : Option Text
  pub enable_sorting : Bool
  pub enable_hiding : Bool
  pub enable_column_filter : Bool

abbrev pub column : Text → Text → Column
column id header = record {
  id = id;
  header = some header;
  enable_sorting = true;
  enable_hiding = true;
  enable_column_filter = false;
}

unfoldable pub user_columns : List Column
user_columns =
    record (column (codes "name") (codes "Name")) { enable_hiding = false }
    ∷ column (codes "email") (codes "Email")
    ∷ record (column (codes "role") (codes "Roles")) {
      enable_sorting = false;
      enable_column_filter = true;
    }
    ∷ record (column (codes "source") (codes "Source")) { enable_column_filter = true }
    ∷ column (codes "department") (codes "Department")
    ∷ record {
      id = codes "actions";
      header = none;
      enable_sorting = false;
      enable_hiding = false;
      enable_column_filter = false;
    }
    ∷ []

unfoldable pub user_viewer_columns : List Column
unfolding user_columns
user_viewer_columns = keep (λ c. not (text_eq (Column.id c) (codes "actions"))) user_columns

-- The columns of the page.
unfoldable pub shown_columns : UserAccess → List Column
unfolding can_edit user_columns user_viewer_columns
shown_columns access =
    if can_edit access || access.views_checkins then user_columns else user_viewer_columns

-- `pageCount`, where `none` is -1.
unfoldable pub users_page_count : Option ℕ → (per_page : ℕ) → Option ℕ
users_page_count none per_page = none
users_page_count (some total_count) per_page = some ((total_count + (per_page - 1)) / per_page)

pub data UserLink : Type 0 where
  account : UserLink
  edit_page : ℕ → UserLink

unfoldable pub user_edit_link : ℕ → (current_user_id : Option ℕ) → UserLink
user_edit_link user_id none = edit_page user_id
user_edit_link user_id (some current) = if user_id == current then account else edit_page user_id

-- The items of a row's menu.
pub data RowAction : Type 0 where
  view_checkins : ℕ → RowAction
  edit : UserLink → RowAction
  delete : ℕ → RowAction

unfoldable pub row_actions : UserAccess → (user : ℕ) → (is_self : Bool) → List RowAction
unfolding user_edit_link can_edit
row_actions access user is_self =
    (if access.views_checkins then view_checkins user ∷ [] else [])
    ++ (if can_edit access
        then edit (user_edit_link user (if is_self then some user else none)) ∷ []
        else [])
    ++ (if can_edit access && not is_self then delete user ∷ [] else [])

-- `isSelf` of a row, where there may be no account yet.
unfoldable pub is_self : ℕ → (current_user_id : Option ℕ) → Bool
is_self user none = false
is_self user (some current) = user == current

unfoldable pub offers_delete : List RowAction → Bool
offers_delete [] = false
offers_delete (delete user ∷ actions) = true
offers_delete (_ ∷ actions) = offers_delete actions

-- The page's `deleting` and the requests of `UserDeleteDialog`, latest first.
pub record Deletion : Type 0 where
  pub deleting : Option ℕ
  pub requested : List ℕ

unfoldable pub no_deletion : Deletion
no_deletion = record { deleting = none; requested = [] }

pub data ListEvent : Type 0 where
  delete_clicked : ℕ → ListEvent
  dialog_changed : (is_open : Bool) → ListEvent
  delete_confirmed : (succeeds : Bool) → ListEvent

-- The dialog's `handleConfirm`: where the deletion fails, the dialog stays.
abbrev pub handle_confirm : Deletion → (succeeds : Bool) → Option ℕ → Deletion
handle_confirm s succeeds none = s
handle_confirm s succeeds (some user) = record {
  deleting = if succeeds then none else s.deleting;
  requested = user ∷ s.requested;
}

-- A click on Delete is one where the row's menu has the item.
unfoldable pub list_step : UserAccess → (current : Option ℕ) → Deletion → ListEvent → Deletion
unfolding row_actions is_self offers_delete
list_step access current s (delete_clicked user) =
    if offers_delete (row_actions access user (is_self user current))
    then record s { deleting = some user }
    else s
list_step access current s (dialog_changed true) = s
list_step access current s (dialog_changed false) = record s { deleting = none }
list_step access current s (delete_confirmed succeeds) = handle_confirm s succeeds s.deleting

unfoldable pub list_run : UserAccess → (current : Option ℕ) → Deletion → List ListEvent → Deletion
list_run access current s [] = s
list_run access current s (event ∷ events) =
    list_run access current (list_step access current s event) events
