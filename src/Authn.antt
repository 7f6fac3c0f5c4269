-- ===== src/Authn.antt =====
-- web/src/features/authn/guards.ts: the route guards, over what the session and account queries give.
-- `can_all` is a parameter, as `can` is: both are functions of @woodleighschool/authz.
pub mod Pages
pub mod Routes
pub mod Landing
pub mod Redirects
use woodgate.Common.{
  if◌then◌else◌, some_or, Text, codes, ℕ, ◌/◌, Bool, Option, none, some, List, [], ◌∷◌,
}
use woodgate.Common.Result.{Result, ok, err}
use woodgate.Navigation.{PermissionRequirement}
use woodgate.Navigation.Config.{first_accessible_path}

-- Where a redirect leads: a path, or the page of one resource below a list, `/checkins/$id`.
pub data Target : Type 0 where
  path : Text → Target
  resource : (list : Text) (id : ℕ) → Target

-- How a guard ends: it returns, it throws a redirect, or it throws something else.
pub data Guarded {ℓ κ} (E : Type ℓ) (A : Type κ) : Type (ℓ ⊔ κ) where
  pass : A → Guarded E A
  redirect : Target → Guarded E A
  fails : E → Guarded E A

abbrev pub login_path : Text
login_path = codes "/login"

abbrev pub account_path : Text
account_path = codes "/account"

unfoldable pub require_user {ℓ κ} : {E : Type ℓ} {U : Type κ} → Result E (Option U) → Guarded E U
require_user (err e) = fails e
require_user (ok none) = redirect (path login_path)
require_user (ok (some user)) = pass user

-- `P` is the permissions of an account.
module _ {ℓ} {P : Type ℓ} (can : P → PermissionRequirement → Bool) where
  -- `firstAccessiblePath(account) ?? "/account"`
  abbrev pub home_path : P → Text
  home_path permissions = some_or (first_accessible_path (can permissions)) account_path

  -- The account is loaded, and its first page opened.
  abbrev pub to_home {κ} : {E : Type κ} → Result E P → Guarded E (Unit {0})
  to_home (err e) = fails e
  to_home (ok permissions) = redirect (path (home_path permissions))

  unfoldable pub redirect_for_entry {κ μ} :
      {E : Type κ} {U : Type μ} → Result E (Option U) → Result E P → Guarded E (Unit {0})
  redirect_for_entry (err e) account = fails e
  redirect_for_entry (ok none) account = redirect (path login_path)
  redirect_for_entry (ok (some user)) account = to_home account

  unfoldable pub redirect_authenticated_from_login {κ μ} :
      {E : Type κ} {U : Type μ} → Result E (Option U) → Result E P → Guarded E (Unit {0})
  redirect_authenticated_from_login (err e) account = fails e
  redirect_authenticated_from_login (ok none) account = pass tt
  redirect_authenticated_from_login (ok (some user)) account = to_home account

  module _ (can_all : P → List PermissionRequirement → Bool) where
    -- `onForbidden` never returns; it stands for how it ends, if it is given.
    unfoldable pub require_permissions {κ} :
        {E : Type κ}
        → Result E P
        → List PermissionRequirement
        → Option (Guarded E (Unit {0}))
        → Guarded E (Unit {0})
    require_permissions (err e) requirements on_forbidden = fails e
    require_permissions (ok permissions) requirements on_forbidden =
        if can_all permissions requirements then pass tt else elim on_forbidden [
          | some thrown ↦ thrown
          | none ↦ redirect (path (home_path permissions))
        ]

    unfoldable pub require_permission {κ} :
        {E : Type κ}
        → Result E P
        → PermissionRequirement
        → Option (Guarded E (Unit {0}))
        → Guarded E (Unit {0})
    unfolding require_permissions
    require_permission account requirement on_forbidden =
        require_permissions account (requirement ∷ []) on_forbidden
