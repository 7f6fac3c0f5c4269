-- ===== src/Links/Followed.antt =====
-- Whether the links of a page lead where the guards of the routes let the user through.
use woodgate.Common.{
  all, All, All-append, ◌==◌, Bool-cases, ℕ, ◌≡◌, refl, inl, inr, Bool, true, false, ◌&&◌, Option,
  none, some, List, [], ◌∷◌, ◌++◌, arith, if◌then◌else◌, ◌↔◌,
}
use woodgate.Common.Result.{ok}
use woodgate.Navigation.{PermissionRequirement}
use woodgate.Authn.{
  Target, path, pass, redirect, require_user, require_permissions, redirect_for_entry, home_path,
}
use woodgate.Authn.Redirects.{home-passes}
use woodgate.Authn.Routes.{
  Section, checkins, locations, stations, users, groups, roles, Route, entry, unknown, target_route,
  account, directory, list, new, detail, edit, viewing, editing, edit_requirements, section_guard,
  new_guard, edit_guard, guard_route,
}
use woodgate.UserList
use woodgate.UserList.{
  UserLink, view_checkins, delete, can_edit, user_edit_link, row_actions, is_self,
}
use woodgate.Links.{
  page_links, members_link, when, user_link_route, row_action_links, user_menu_links,
  user_detail_links, checkin_list_links, location_list_links, station_list_links, role_list_links,
  user_list_links, checkin_row_links, checkin_detail_links, location_detail_links,
  station_detail_links, role_detail_links, group_detail_links, directory_links, user_access,
  not_found_links,
}

module _ (E : Type 0) {U P : Type 0} (can : P → PermissionRequirement → Bool)
    (can_all : P → List PermissionRequirement → Bool)
    -- Documented of `canAll`: every requirement is met.
    (can_all_lem : (p : P) (rs : List PermissionRequirement) → can_all p rs ≡ all (can p) rs)
    (u : U) (p : P) where
  -- A signed-in user with these permissions is let through to the route's page.
  abbrev pub Opens : Route → Type 0
  Opens r = guard_route {E = E} can can_all (ok (some u)) (ok p) r ≡ pass tt

  section-pass :
      (s : Section)
      → can p (viewing s) ≡ true
      → section_guard {E = E} can can_all (ok (some u)) (ok p) s ≡ pass tt
  unfolding section_guard require_permissions
  section-pass checkins met = ground (arith, can_all_lem p (viewing checkins ∷ []))
  section-pass s met = ground (arith, can_all_lem p (viewing s ∷ []))

  pub Opens-list : (s : Section) → can p (viewing s) ≡ true → Opens (list s)
  unfolding guard_route require_user
  Opens-list s met = section-pass s met

  Opens-detail : (s : Section) (id : ℕ) → can p (viewing s) ≡ true → Opens (detail s id)
  unfolding guard_route require_user
  Opens-detail s id met = section-pass s met

  -- Who is on a page of a section may view it.
  section-views :
      (s : Section)
      → section_guard {E = E} can can_all (ok (some u)) (ok p) s ≡ pass tt
      → can p (viewing s) ≡ true
  unfolding section_guard require_permissions
  section-views roles opened = ground (arith, can_all_lem p (viewing roles ∷ []))
  section-views s opened = ground (arith, can_all_lem p (viewing s ∷ []))

  edit-pass :
      (s : Section) (id : ℕ)
      → all (can p) (edit_requirements s) ≡ true
      → edit_guard {E = E} can can_all (ok (some u)) (ok p) s id ≡ pass tt
  unfolding edit_guard require_permissions
  edit-pass checkins id met = ground (arith, can_all_lem p (edit_requirements checkins))
  edit-pass s id met = ground (arith, can_all_lem p (edit_requirements s))

  Opens-edit :
      (s : Section) (id : ℕ)
      → can p (viewing s) ≡ true
      → all (can p) (edit_requirements s) ≡ true
      → Opens (edit s id)
  unfolding guard_route require_user
  Opens-edit s id viewed met = rw (section-pass s viewed) (edit-pass s id met)

  new-pass :
      (s : Section)
      → all (can p) (edit_requirements s) ≡ true
      → new_guard {E = E} can can_all (ok (some u)) (ok p) s ≡ pass tt
  unfolding new_guard require_permissions
  new-pass groups met = refl
  new-pass s met = ground (arith, can_all_lem p (edit_requirements s))

  Opens-new :
      (s : Section)
      → can p (viewing s) ≡ true
      → all (can p) (edit_requirements s) ≡ true
      → Opens (new s)
  unfolding guard_route require_user
  Opens-new groups viewed met = refl
  Opens-new s viewed met = rw (section-pass s viewed) (new-pass s met)

  pub Opens-account : Opens account
  unfolding guard_route require_user
  Opens-account = refl

  -- A button that is shown on a condition.
  when-Opens : (b : Bool) (r : Route) → (b ≡ true → Opens r) → All Opens (when b r)
  when-Opens true r opens = (opens refl, tt)
  when-Opens false r opens = tt

  create-Opens :
      (s : Section)
      → can p (viewing s) ≡ true
      → (b : Bool) → (b ≡ true → all (can p) (edit_requirements s) ≡ true)
      → All Opens (when b (new s))
  create-Opens s viewed b met = when-Opens b (new s) (λ shown. Opens-new s viewed (met shown))

  list-views : (s : Section) → Opens (list s) → can p (viewing s) ≡ true
  unfolding guard_route require_user
  list-views s opened = section-views s opened

  detail-views : (s : Section) (id : ℕ) → Opens (detail s id) → can p (viewing s) ≡ true
  unfolding guard_route require_user
  detail-views s id opened = section-views s opened

  module _ (viewed : can p (viewing users) ≡ true) where
    -- The link to edit a user, who may be the one that is signed in.
    user_link-Opens :
        (id : ℕ) (current : Option ℕ)
        → (is_self id current ≡ false → all (can p) (edit_requirements users) ≡ true)
        → Opens (user_link_route (user_edit_link id current))
    unfolding user_edit_link is_self
    user_link-Opens id none met = Opens-edit users id viewed (met refl)
    user_link-Opens id (some c) met = elim (Bool-cases (id == c)) [
      | inl same ↦ rw same Opens-account
      | inr other ↦ rw other (Opens-edit users id viewed (met other))
    ]

    menu-Opens :
        (views edits deletes : Bool) (link : UserLink) (id : ℕ)
        → (views ≡ true → Opens (list checkins))
        → (edits ≡ true → Opens (user_link_route link))
        → All Opens (
            row_action_links (
              (if views then view_checkins id ∷ [] else [])
              ++ (if edits then UserList.edit link ∷ [] else [])
              ++ (if deletes then delete id ∷ [] else [])))
    menu-Opens true true true link id a b = (a refl, (b refl, tt))
    menu-Opens true true false link id a b = (a refl, (b refl, tt))
    menu-Opens true false true link id a b = (a refl, tt)
    menu-Opens true false false link id a b = (a refl, tt)
    menu-Opens false true true link id a b = (b refl, tt)
    menu-Opens false true false link id a b = (b refl, tt)
    menu-Opens false false true link id a b = tt
    menu-Opens false false false link id a b = tt

    user_menu-Opens : (current : Option ℕ) (id : ℕ) → All Opens (user_menu_links (can p) current id)
    unfolding user_menu_links row_actions can_edit user_access
    user_menu-Opens current id = menu-Opens _ _ _ _ id (Opens-list checkins) (λ shown.
        user_link-Opens id (if is_self id current then some id else none) (λ other. ground arith))

    user_detail-Opens :
        (current : Option ℕ) (id : ℕ) → All Opens (user_detail_links (can p) current id)
    unfolding user_detail_links
    user_detail-Opens current id =
        All-append Opens (when (can p (viewing checkins)) (list checkins)) _
          (when-Opens _ _ (Opens-list checkins))
          (when-Opens _ _ (λ shown. user_link-Opens id current (λ other. ground arith)))

  -- A link leads to a page whose guards let the user through; the link to `/`, which is no page, is
  -- redirected to one at once.
  abbrev pub Leads : Route → Type 0
  Leads entry =
      (t : Target) × (guard_route {E = E} can can_all (ok (some u)) (ok p) entry ≡ redirect t)
      × Opens (target_route t)
  Leads r = Opens r

  Opens-Leads : (r : Route) → Opens r → Leads r
  unfolding guard_route redirect_for_entry
  Opens-Leads entry opened = cc
  Opens-Leads r opened = opened

  all-Leads : (links : List Route) → All Opens links → All Leads links
  all-Leads [] h = tt
  all-Leads (r ∷ links) (opened, h) = (Opens-Leads r opened, all-Leads links h)

  entry-Leads : Leads entry
  unfolding guard_route redirect_for_entry
  entry-Leads = (path (home_path can p), refl, home-passes can can_all can_all_lem u p)

  -- The pages with links of their own sections.
  section_links-Open :
      (current : Option ℕ) (builtin : Bool) (row : ℕ) (r : Route)
      → Opens r
      → (r ≡ unknown → ⊥)
      → All Opens (page_links (can p) current builtin row r)
  unfolding page_links checkin_list_links location_list_links station_list_links role_list_links
      user_list_links checkin_row_links checkin_detail_links location_detail_links
      station_detail_links role_detail_links group_detail_links directory_links can_edit user_access
  section_links-Open current builtin row (list checkins) opened known =
      let viewed = list-views checkins opened in
      All-append Opens (when (can p (editing checkins)) (new checkins)) _
        (create-Opens checkins viewed _ (λ shown. ground arith))
        ((opened, (Opens-detail checkins row viewed, tt)))
  section_links-Open current builtin row (list locations) opened known =
      let viewed = list-views locations opened in
      All-append Opens (when (can p (editing locations)) (new locations)) _
        (create-Opens locations viewed _ (λ shown. ground arith))
        (Opens-detail locations row viewed, tt)
  section_links-Open current builtin row (list stations) opened known =
      let viewed = list-views stations opened in
      All-append Opens (when (can p (editing stations)) (new stations)) _
        (create-Opens stations viewed _ (λ shown. ground arith))
        (Opens-detail stations row viewed, tt)
  section_links-Open current builtin row (list users) opened known =
      let viewed = list-views users opened in
      All-append Opens (when (can p (editing users) && can p (editing roles)) (new users)) _
        (create-Opens users viewed _ (λ shown. ground arith))
        (Opens-detail users row viewed, user_menu-Opens viewed current row)
  section_links-Open current builtin row (list groups) opened known =
      (Opens-detail groups row (list-views groups opened), tt)
  section_links-Open current builtin row (list roles) opened known =
      let viewed = list-views roles opened in
      All-append Opens (when (can p (editing roles)) (new roles)) _
        (create-Opens roles viewed _ (λ shown. ground arith)) (Opens-detail roles row viewed, tt)
  section_links-Open current builtin row (detail checkins id) opened known =
      let viewed = detail-views checkins id opened in
      All-append Opens (when (can p (editing checkins)) (edit checkins id)) _
        (when-Opens _ _ (λ shown. Opens-edit checkins id viewed (ground arith)))
        ((Opens-list checkins viewed, tt))
  section_links-Open current builtin row (detail locations id) opened known =
      when-Opens _ _
        (λ shown. Opens-edit locations id (detail-views locations id opened) (ground arith))
  section_links-Open current builtin row (detail stations id) opened known =
      when-Opens _ _
        (λ shown. Opens-edit stations id (detail-views stations id opened) (ground arith))
  section_links-Open current builtin row (detail users id) opened known =
      user_detail-Opens (detail-views users id opened) current id
  section_links-Open current builtin row (detail groups id) opened known =
      when-Opens _ _ (λ shown. Opens-edit groups id (detail-views groups id opened) (ground arith))
  section_links-Open current builtin row (detail roles id) opened known =
      when-Opens _ _ (λ shown. Opens-edit roles id (detail-views roles id opened) (ground arith))
  section_links-Open current builtin row directory opened known =
      All-append Opens (when (can p (viewing users)) (list users)) _
        (when-Opens _ _ (Opens-list users)) (when-Opens _ _ (Opens-list groups))
  section_links-Open current builtin row unknown opened known = absurd (known refl)
  section_links-Open current builtin row r opened known = tt

  -- For a signed-in user, if `canAll` asks for every requirement: every link in the content of a page, but that from a group to its members, leads
  -- to a page whose guards let the user through, if those of the page itself do; where the page is
  -- the one for an unknown path, its link to `/` is redirected at once to such a page.
  pub links-Open :
      (current : Option ℕ) (builtin : Bool) (row : ℕ) (r : Route)
      → Opens r
      → All Leads (page_links (can p) current builtin row r)
  unfolding page_links not_found_links
  links-Open current builtin row unknown opened = (entry-Leads, tt)
  links-Open current builtin row r opened =
      all-Leads (page_links (can p) current builtin row r)
        (section_links-Open current builtin row r opened (λ same. cc))

  -- The link from a group to its members leads to their list exactly if the user may view users.
  members_link-Opens : Opens members_link ↔ (can p (viewing users) ≡ true)
  members_link-Opens = (list-views users, Opens-list users)
