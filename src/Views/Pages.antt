-- ===== src/Views/Pages.antt =====
-- Which pages of web/src/features wait for their query, and how: the detail pages, the edit pages and
-- the account page.
use woodgate.Common.{◌==◌, if◌then◌else◌, codes, ℕ, Bool, true, false, Option, none, some}
use woodgate.Views.{Query, query_gate, Screen, gate, page, unless_loaded}

module _ {ℓ} {T : Type ℓ} where
  unfoldable pub role_detail : Query T → Screen T
  unfolding unless_loaded
  role_detail = unless_loaded (codes "Failed to Load Role")

  unfoldable pub user_detail : Query T → Screen T
  unfolding unless_loaded
  user_detail = unless_loaded (codes "Failed to Load User")

  unfoldable pub group_detail : Query T → Screen T
  unfolding unless_loaded
  group_detail = unless_loaded (codes "Failed to Load Group")

  unfoldable pub checkin_detail : Query T → Screen T
  unfolding unless_loaded
  checkin_detail = unless_loaded (codes "Failed to Load Check-in")

  unfoldable pub location_detail : Query T → Screen T
  unfolding unless_loaded
  location_detail = unless_loaded (codes "Failed to Load Location")

  -- `query.error || !query.data`
  unfoldable pub station_detail : Query T → Screen T
  unfolding query_gate
  station_detail query = elim query.error [
    | some error ↦ gate (query_gate (codes "Failed to Load Station") (some error) true)
    | none ↦ elim query.loaded [
      | none ↦ gate (query_gate (codes "Failed to Load Station") none true)
      | some station ↦ page station
    ]
  ]

  unfoldable pub account_page : Query T → Screen T
  unfolding unless_loaded
  account_page = unless_loaded (codes "Failed to Load Account")

  unfoldable pub group_edit : Query T → Screen T
  unfolding unless_loaded
  group_edit = unless_loaded (codes "Failed to Load Group")

  unfoldable pub checkin_edit : Query T → Screen T
  unfolding unless_loaded
  checkin_edit = unless_loaded (codes "Failed to Load Check-in")

  unfoldable pub location_edit : Query T → Screen T
  unfolding unless_loaded
  location_edit = unless_loaded (codes "Failed to Load Location")

  unfoldable pub station_edit : Query T → Screen T
  unfolding unless_loaded
  station_edit = unless_loaded (codes "Failed to Load Station")

  -- A role that is built in is not edited, and there is nothing to retry.
  unfoldable pub role_edit : (builtin : T → Bool) → Query T → Screen T
  unfolding query_gate
  role_edit builtin query = elim query.loaded [
    | none ↦ gate (query_gate (codes "Failed to Load Role") query.error true)
    | some role ↦
        if builtin role
        then gate (
            query_gate (codes "Failed to Load Role")
              (some (record { message = some (codes "This role cannot be edited.") })) false)
        else page role
  ]

-- A user's own edit page is the account page.
pub data UserEdit {ℓ} (T : Type ℓ) : Type ℓ where
  own_account : UserEdit T
  form : T → UserEdit T

abbrev is_current : Option ℕ → ℕ → Bool
is_current none id = false
is_current (some current) id = current == id

unfoldable pub user_edit {ℓ} :
    {T : Type ℓ} (id_of : T → ℕ) (current : Option ℕ) → Query T → Screen (UserEdit T)
unfolding query_gate
user_edit id_of current query = elim query.loaded [
  | none ↦ gate (query_gate (codes "Failed to Load User") query.error true)
  | some user ↦ page (if is_current current (id_of user) then own_account else form user)
]
