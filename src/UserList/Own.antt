-- ===== src/UserList/Own.antt =====
-- What the table of users offers on its rows, and on the account's own.
use woodgate.Common.{
  ◌≢◌, All, and_left, and_right, all, Bool-cases, Text, codes, text_eq, is_empty, ℕ, ◌≡◌, refl, sym,
  ap, ◌∙◌, inl, inr, Bool, true, false, not, Option, none, some, List, [], ◌∷◌, any, arith,
}
use woodgate.UserList.{
  UserAccess, can_edit, Column, user_columns, user_viewer_columns, shown_columns, row_actions,
  is_self, offers_delete, Deletion, no_deletion, handle_confirm, delete_confirmed, ListEvent,
  delete_clicked, dialog_changed, list_step, list_run,
}

abbrev pub has_column : Text → List Column → Bool
has_column id columns = any (λ c. text_eq (Column.id c) id) columns

-- The table has its column of menus exactly if every menu has an item, whoever looks at whichever
-- row.
pub actions-shown :
    (access : UserAccess) (user : ℕ) (own : Bool)
    → has_column (codes "actions") (shown_columns access)
      ≡ not (is_empty (row_actions access user own))
unfolding shown_columns row_actions can_edit user_columns user_viewer_columns
actions-shown access user own = ground arith

offers_none :
    (access : UserAccess) (user : ℕ) → offers_delete (row_actions access user true) ≡ false
unfolding row_actions offers_delete can_edit
offers_none access user = ground arith

-- No id is that of the account.
abbrev pub is_other : (current : Option ℕ) → ℕ → Bool
is_other current user = not (is_self user current)

abbrev other_option : (current : Option ℕ) → Option ℕ → Bool
other_option current none = true
other_option current (some user) = is_other current user

record IsOther (current : Option ℕ) (s : Deletion) : Type 0 where
  deleting : other_option current s.deleting ≡ true
  requested : all (is_other current) s.requested ≡ true

clicked-IsOther :
    (access : UserAccess) (current : Option ℕ) (s : Deletion) (user : ℕ)
    → IsOther current s
    → IsOther current (list_step access current s (delete_clicked user))
unfolding list_step
clicked-IsOther access current s user h = elim (Bool-cases (is_self user current)) [
  | inl own ↦ rw (own, offers_none access user) h
  | inr other ↦ elim (Bool-cases (offers_delete (row_actions access user (is_self user current)))) [
    | inl offered ↦ rw offered (record { deleting = rw other refl; requested = h.requested })
    | inr refused ↦ rw refused h
  ]
]

confirm-IsOther :
    (current : Option ℕ) (s : Deletion) (succeeds : Bool) (d : Option ℕ)
    → s.deleting ≡ d
    → IsOther current s
    → IsOther current (handle_confirm s succeeds d)
confirm-IsOther current s succeeds none e h = h
confirm-IsOther current s true (some user) e h =
    let asked : is_other current user ≡ true = sym (ap (other_option current) e) ∙ h.deleting in
    record { deleting = refl; requested = rw (asked, h.requested) refl }
confirm-IsOther current s false (some user) e h =
    let asked : is_other current user ≡ true = sym (ap (other_option current) e) ∙ h.deleting in
    record { deleting = h.deleting; requested = rw (asked, h.requested) refl }

step-IsOther :
    (access : UserAccess) (current : Option ℕ) (s : Deletion) (event : ListEvent)
    → IsOther current s
    → IsOther current (list_step access current s event)
unfolding list_step
step-IsOther access current s (delete_clicked user) h = clicked-IsOther access current s user h
step-IsOther access current s (dialog_changed true) h = h
step-IsOther access current s (dialog_changed false) h = record {
  deleting = refl;
  requested = h.requested;
}
step-IsOther access current s (delete_confirmed succeeds) h =
    confirm-IsOther current s succeeds s.deleting refl h

run-IsOther :
    (access : UserAccess) (current : Option ℕ) (s : Deletion) (events : List ListEvent)
    → IsOther current s
    → IsOther current (list_run access current s events)
unfolding list_run
run-IsOther access current s [] h = h
run-IsOther access current s (event ∷ events) h =
    run-IsOther access current (list_step access current s event) events
      (step-IsOther access current s event h)

-- The user of the account is another one.
abbrev pub IsAnother : (current : Option ℕ) → ℕ → Type 0
IsAnother current user = current ≢ some user

is_other-IsAnother :
    (current : Option ℕ) (user : ℕ) → is_other current user ≡ true → IsAnother current user
unfolding is_self
is_other-IsAnother none user other = λ same. cc
is_other-IsAnother (some own) user other = λ same. let e : own ≡ user = cc in ground (arith, other)

all-IsAnother :
    (current : Option ℕ) (users : List ℕ)
    → all (is_other current) users ≡ true
    → All (IsAnother current) users
all-IsAnother current [] h = tt
all-IsAnother current (user ∷ users) h = (
  is_other-IsAnother current user (and_left _ _ h),
  all-IsAnother current users (and_right _ _ h),
)

-- However the menus and the dialog of the table are used while the account stays the same, no
-- request to delete the account's own user is sent: each id that is sent is another one.
pub requests-other :
    (access : UserAccess) (current : Option ℕ) (events : List ListEvent)
    → All (IsAnother current) (list_run access current no_deletion events).requested
unfolding no_deletion
requests-other access current events =
    all-IsAnother current _
      (run-IsOther access current no_deletion events
        (record { deleting = refl; requested = refl })).requested
