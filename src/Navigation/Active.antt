-- ===== src/Navigation/Active.antt =====
-- web/src/components/layout/app-sidebar.tsx: which entries of the sidebar are shown as active.
use woodgate.Common.{
  Text, text_eq, is_empty, Bool, false, not, ◌&&◌, ◌||◌, Option, none, some, [], ◌∷◌, ◌++◌,
  starts_with,
}
use woodgate.Navigation.{NavFields, NavItem, item, SubItems, no_items, items, NavItems, nil, cons}

-- The tests on the item itself; an empty `to` is none.
abbrev pub covers_to : (pathname : Text) (exact : Bool) → Option Text → Bool
covers_to pathname exact none = false
covers_to pathname exact (some to) =
    not (is_empty to)
    && (text_eq pathname to || (not exact && starts_with pathname (to ++ b'/' ∷ [])))

abbrev pub covers : Text → NavFields → Bool
covers pathname f = covers_to pathname f.exact f.to

unfoldable mutual
  pub is_active_path : Text → NavItem → Bool
  is_active_path pathname (item f sub) = covers pathname f || some_active_sub pathname sub

  pub some_active_sub : Text → SubItems → Bool
  some_active_sub pathname no_items = false
  some_active_sub pathname (items children) = some_active pathname children

  -- `items.some((child) => isActivePath(pathname, child))`
  pub some_active : Text → NavItems → Bool
  some_active pathname nil = false
  some_active pathname (cons i rest) = is_active_path pathname i || some_active pathname rest
