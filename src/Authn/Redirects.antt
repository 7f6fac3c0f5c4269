-- ===== src/Authn/Redirects.antt =====
-- Redirects end: where every route leads, for every account.
use woodgate.Common.{
  some_or, all, Text, ℕ, suc, ◌≡◌, refl, ap, ◌∙◌, ◌⊎◌, inl, inr, Bool, Option, none, some, List, [],
  ◌∷◌, arith,
}
use woodgate.Common.Result.{Result, ok}
use woodgate.Navigation.{AuthzResource, view, PermissionRequirement}
use woodgate.Navigation.Config.{first_accessible_path_lem}
use woodgate.Authn.{
  Target, path, resource, Guarded, pass, redirect, require_user, redirect_for_entry,
  redirect_authenticated_from_login, require_permissions, home_path,
}
use woodgate.Authn.Routes.{
  Section, checkins, locations, stations, users, groups, roles, Route, entry, login, account,
  directory, list, new, detail, edit, unknown, list_path, target_route, viewing, edit_requirements,
  then_guard, new_forbidden, section_guard, new_guard, edit_guard, guard_route, follow,
}
use woodgate.Authn.Landing.{list_target, detail_target, Lands, Lands-here, Lands-next}

-- Where the layout route of a section sends a user whom it does not let in, and where the page for a
-- new resource sends one who may only view.
abbrev barred_target : Text → Section → Target
barred_target home roles = path (list_path checkins)
barred_target home s = path home

abbrev new_target : Text → Section → Target
new_target home users = path (list_path users)
new_target home roles = path (list_path roles)
new_target home s = path home

module _ {E U P : Type 0} (can : P → PermissionRequirement → Bool)
    (can_all : P → List PermissionRequirement → Bool)
    -- Documented of `canAll`: every requirement is met.
    (can_all_lem : (p : P) (rs : List PermissionRequirement) → can_all p rs ≡ all (can p) rs) where
  module _ (u : U) (p : P) where
    abbrev session : Result E (Option U)
    session = ok (some u)

    abbrev found : Result E P
    found = ok p

    pub home-passes :
        guard_route can can_all session found (target_route (path (home_path can p))) ≡ pass tt
    unfolding guard_route target_route require_user require_permissions
    home-passes = rw (first_accessible_path_lem (can p)) (
        ground (
          arith,
          can_all_lem p (viewing checkins ∷ []),
          can_all_lem p (viewing locations ∷ []),
          can_all_lem p (viewing stations ∷ []),
          can_all_lem p (viewing users ∷ []),
          can_all_lem p (viewing groups ∷ []),
          can_all_lem p (record { resource = AuthzResource.directory; access = view } ∷ []),
        ))

    Lands-home :
        (n : ℕ) → Lands can can_all session found (suc n) (target_route (path (home_path can p)))
    Lands-home n =
        Lands-here can can_all session found n (target_route (path (home_path can p))) home-passes

    -- A list of requirements is met, or it is not and the guard ends otherwise.
    requirement_cases :
        (rs : List PermissionRequirement) (forbidden : Option (Guarded E (Unit {0})))
        → (require_permissions can can_all found rs forbidden ≡ pass tt)
          ⊎ (require_permissions can can_all found rs forbidden
              ≡ some_or forbidden (redirect (path (home_path can p))))
    unfolding require_permissions
    requirement_cases rs none = ground arith
    requirement_cases rs (some thrown) = ground arith

    section_cases :
        (s : Section)
        → (section_guard can can_all session found s ≡ pass tt)
          ⊎ (section_guard can can_all session found s
              ≡ redirect (barred_target (home_path can p) s))
    unfolding section_guard
    section_cases roles =
        requirement_cases (viewing roles ∷ []) (some (redirect (path (list_path checkins))))
    section_cases s = requirement_cases (viewing s ∷ []) none

    new_cases :
        (s : Section)
        → (new_guard can can_all session found s ≡ pass tt)
          ⊎ (new_guard can can_all session found s ≡ redirect (new_target (home_path can p) s))
    unfolding new_guard
    new_cases groups = inl refl
    new_cases users = requirement_cases (edit_requirements users) (new_forbidden users)
    new_cases roles = requirement_cases (edit_requirements roles) (new_forbidden roles)
    new_cases s = requirement_cases (edit_requirements s) none

    edit_cases :
        (s : Section) (id : ℕ)
        → (edit_guard can can_all session found s id ≡ pass tt)
          ⊎ (edit_guard can can_all session found s id ≡ redirect (resource (list_path s) id))
    unfolding edit_guard
    edit_cases checkins id =
        requirement_cases (edit_requirements checkins)
          (some (redirect (resource (list_path checkins) id)))
    edit_cases s id =
        requirement_cases (edit_requirements s) (some (redirect (resource (list_path s) id)))

    module _ (s : Section) (passes : section_guard can can_all session found s ≡ pass tt) where
      Lands-list : (n : ℕ) → Lands can can_all session found (suc n) (list s)
      unfolding guard_route require_user
      Lands-list n = Lands-here can can_all session found n (list s) passes

      Lands-detail : (n id : ℕ) → Lands can can_all session found (suc n) (detail s id)
      unfolding guard_route require_user
      Lands-detail n id = Lands-here can can_all session found n (detail s id) passes

    Lands-checkins : Lands can can_all session found 2 (list checkins)
    unfolding guard_route require_user
    Lands-checkins = elim (section_cases checkins) [
      | inl passes ↦ Lands-list checkins passes 1
      | inr barred ↦ Lands-next can can_all session found 1 (list checkins) _ barred (Lands-home 0)
    ]

    -- A page that its section bars.
    barred-Lands :
        (s : Section) (r : Route)
        → guard_route can can_all session found r ≡ redirect (barred_target (home_path can p) s)
        → Lands can can_all session found 3 r
    barred-Lands roles r e =
        Lands-next can can_all session found 2 r _ e (rw (list_target checkins) Lands-checkins)
    barred-Lands s r e = Lands-next can can_all session found 2 r _ e (Lands-home 1)

    -- Where a user lands who may view a section and make nothing new in it.
    new-Lands :
        (s : Section)
        → section_guard can can_all session found s ≡ pass tt
        → Lands can can_all session found 2 (target_route (new_target (home_path can p) s))
    new-Lands users passes = rw (list_target users) (Lands-list users passes 1)
    new-Lands roles passes = rw (list_target roles) (Lands-list roles passes 1)
    new-Lands s passes = Lands-home 1

    -- The page for a new resource, where there is one.
    Lands-new_page :
        (s : Section)
        → guard_route can can_all session found (new s)
          ≡ then_guard
              (section_guard can can_all session found s)
              (new_guard can can_all session found s)
        → Lands can can_all session found 3 (new s)
    Lands-new_page s guards = elim (section_cases s) [
      | inr barred ↦
          barred-Lands s (new s)
            (guards ∙ ap (λ g. then_guard g (new_guard can can_all session found s)) barred)
      | inl passes ↦
          let opened =
            (guards ∙ ap (λ g. then_guard g (new_guard can can_all session found s)) passes) in
          elim (new_cases s) [
            | inl allowed ↦ Lands-here can can_all session found 2 (new s) (opened ∙ allowed)
            | inr refused ↦
                Lands-next can can_all session found 2 (new s) _ (opened ∙ refused)
                  (new-Lands s passes)
          ]
    ]

    Lands-new : (s : Section) → Lands can can_all session found 3 (new s)
    unfolding guard_route require_user
    Lands-new groups = Lands-here can can_all session found 2 (new groups) refl
    Lands-new checkins = Lands-new_page checkins refl
    Lands-new s = Lands-new_page s refl

    Lands-edit : (s : Section) (id : ℕ) → Lands can can_all session found 3 (edit s id)
    unfolding guard_route require_user
    Lands-edit s id = elim (section_cases s) [
      | inr barred ↦
          barred-Lands s (edit s id)
            (ap (λ g. then_guard g (edit_guard can can_all session found s id)) barred)
      | inl passes ↦
          let opened = ap (λ g. then_guard g (edit_guard can can_all session found s id)) passes in
          elim (edit_cases s id) [
            | inl allowed ↦ Lands-here can can_all session found 2 (edit s id) (opened ∙ allowed)
            | inr refused ↦
                Lands-next can can_all session found 2 (edit s id) _ (opened ∙ refused)
                  (rw (detail_target s id) (Lands-detail s passes 1 id))
          ]
    ]

    Lands-directory : Lands can can_all session found 3 directory
    unfolding guard_route require_user
    Lands-directory =
        elim (requirement_cases (record { resource = AuthzResource.directory; access = view } ∷ [])
          none) [
            | inl passes ↦ Lands-here can can_all session found 2 directory passes
            | inr barred ↦ Lands-next can can_all session found 2 directory _ barred (Lands-home 1)
          ]

    Lands-route : (r : Route) → Lands can can_all session found 3 r
    unfolding guard_route require_user redirect_for_entry redirect_authenticated_from_login
    Lands-route entry = Lands-next can can_all session found 2 entry _ refl (Lands-home 1)
    Lands-route login = Lands-next can can_all session found 2 login _ refl (Lands-home 1)
    Lands-route account = Lands-here can can_all session found 2 account refl
    Lands-route unknown = Lands-here can can_all session found 2 unknown refl
    Lands-route directory = Lands-directory
    Lands-route (list s) = elim (section_cases s) [
      | inl passes ↦ Lands-list s passes 2
      | inr barred ↦ barred-Lands s (list s) barred
    ]
    Lands-route (detail s id) = elim (section_cases s) [
      | inl passes ↦ Lands-detail s passes 2 id
      | inr barred ↦ barred-Lands s (detail s id) barred
    ]
    Lands-route (new s) = Lands-new s
    Lands-route (edit s id) = Lands-edit s id

-- The session of nobody.
abbrev pub no_user {ℓ κ} : {E : Type ℓ} {U : Type κ} → Result E (Option U)
no_user = ok none

-- For a signed-in user whose session and account load, with any permissions, every route of the
-- app leads in at most two redirects to a page whose guards all let the user through.
pub redirects_end :
    {E U P : Type 0} (can : P → PermissionRequirement → Bool)
    (can_all : P → List PermissionRequirement → Bool)
    → ((p : P) (rs : List PermissionRequirement) → can_all p rs ≡ all (can p) rs)
    → (u : U) (p : P) (r : Route) → Lands {E = E} can can_all (ok (some u)) (ok p) 3 r
redirects_end can can_all law u p r = Lands-route can can_all law u p r

-- Without a signed-in user, every route leads in at most one redirect to the login page.
pub signed_out_login :
    {E P : Type 0} (U : Type 0) (can : P → PermissionRequirement → Bool)
    (can_all : P → List PermissionRequirement → Bool) (account : Result E P) (r : Route)
    → follow {U = U} can can_all no_user account 2 r ≡ some login
unfolding follow guard_route require_user redirect_for_entry redirect_authenticated_from_login
    target_route
signed_out_login U can can_all _ entry = refl
signed_out_login U can can_all _ (list s) = refl
signed_out_login U can can_all _ (new groups) = refl
signed_out_login U can can_all _ (new s) = refl
signed_out_login U can can_all _ _ = refl
