-- ===== src/Views/Kept.antt =====
-- When a page gives way to an error.
use woodgate.Common.{
  All, ℕ, ◌≡◌, Bool, true, false, not, ◌&&◌, ◌||◌, Option, none, some, List, [], ◌∷◌, is_some,
  arith,
}
use woodgate.Views.{Query, error_page, placeholder, query_gate, Screen, gate, page, unless_loaded}
use woodgate.Views.Pages.{
  role_detail, user_detail, group_detail, checkin_detail, location_detail, station_detail,
  account_page, group_edit, checkin_edit, location_edit, station_edit, user_edit, role_edit,
}

abbrev pub shows_error {ℓ} : {T : Type ℓ} → Screen T → Bool
shows_error (gate (error_page alert)) = true
shows_error (gate placeholder) = false
shows_error (page x) = false

-- The pages that are gated alike.
abbrev pub gated_pages {ℓ} : {T : Type ℓ} → List (Query T → Screen T)
gated_pages =
    role_detail ∷ user_detail ∷ group_detail ∷ checkin_detail ∷ location_detail ∷ account_page
    ∷ group_edit ∷ checkin_edit ∷ location_edit ∷ station_edit ∷ []

abbrev pub is_lost {ℓ} : {T : Type ℓ} → Query T → Bool
is_lost query = is_some query.error && not (is_some query.loaded)

unless_loaded-shows_error {ℓ} :
    {T : Type ℓ} (title : List ℕ) (query : Query T)
    → shows_error (unless_loaded title query) ≡ is_lost query
unfolding unless_loaded query_gate
unless_loaded-shows_error title query = ground arith

-- The pages of roles, users, groups, check-ins, locations and the account, and the pages that edit
-- users, groups, check-ins, locations and stations, show an error exactly if their query has one and
-- no data: a page whose data is there stays when a refetch fails. The page that edits a role also
-- shows one for a role that is built in. The page of a station shows one whenever its query has one.
pub pages-shows_error {ℓ} :
    {T : Type ℓ} (id_of : T → ℕ) (current : Option ℕ) (builtin : T → Bool) (query : Query T)
    → All (λ shown. shows_error (shown query) ≡ is_lost query) gated_pages
      × (shows_error (user_edit id_of current query) ≡ is_lost query)
      × (shows_error (role_edit builtin query)
          ≡ (is_lost query || elim query.loaded [ none ↦ false | some role ↦ builtin role ]))
      × (shows_error (station_detail query) ≡ is_some query.error)
unfolding role_edit role_detail user_detail group_detail checkin_detail location_detail account_page
    group_edit checkin_edit location_edit station_edit user_edit station_detail unless_loaded
    query_gate
pages-shows_error id_of current builtin query = ground arith
