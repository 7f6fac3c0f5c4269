-- ===== src/Authn/Landing.antt =====
-- Routes and the pages that they lead to.
use woodgate.Common.{ℕ, suc, ◌≡◌, refl, Bool, Option, some, List}
use woodgate.Common.Result.{Result}
use woodgate.Navigation.{PermissionRequirement}
use woodgate.Authn.{Target, path, resource, pass, redirect}
use woodgate.Authn.Routes.{
  Section, checkins, Route, list, detail, list_path, target_route, guard_route, follow,
}

-- The page that a redirect to a list names, and the page of one resource.
pub list_target : (s : Section) → target_route (path (list_path s)) ≡ list s
unfolding target_route
list_target checkins = refl
list_target _ = refl

pub detail_target : (s : Section) (id : ℕ) → target_route (resource (list_path s) id) ≡ detail s id
unfolding target_route
detail_target checkins id = refl
detail_target _ id = refl

module _ {E U P : Type 0} (can : P → PermissionRequirement → Bool)
    (can_all : P → List PermissionRequirement → Bool) (session : Result E (Option U))
    (found : Result E P) where
  -- The page that a route leads to within `n` pages, and whose guards all pass.
  abbrev pub Lands : ℕ → Route → Type 0
  Lands n r =
      (r' : Route) × (follow can can_all session found n r ≡ some r')
      × (guard_route can can_all session found r' ≡ pass tt)

  pub Lands-here :
      (n : ℕ) (r : Route) → guard_route can can_all session found r ≡ pass tt → Lands (suc n) r
  unfolding follow
  Lands-here n r e = (r, rw (e, follow), e)

  pub Lands-next :
      (n : ℕ) (r : Route) (t : Target)
      → guard_route can can_all session found r ≡ redirect t
      → Lands n (target_route t)
      → Lands (suc n) r
  unfolding follow
  Lands-next n r t e (r', led, passes) = (r', rw (e, follow) led, passes)
