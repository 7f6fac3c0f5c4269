-- ===== src/Navigation.antt =====
-- web/src/components/layout/navigation.ts: the navigation tree, and what of it an account sees.
-- `can` is a parameter: @woodleighschool/authz decides it, at the account's permissions.
pub mod Active
pub mod Sidebar
pub mod Within
pub mod Single
pub mod Config
pub mod Targets
pub mod Stable
use woodgate.Common.{
  if◌then◌else◌, or_else, Text, String, Bool, true, false, not, ◌&&◌, Option, none, some, [], ◌∷◌,
}

-- `AuthzResource` and `Access`.
pub data AuthzResource : Type 0 where
  users groups directory locations checkins stations authz_roles : AuthzResource

pub data Access : Type 0 where
  no_access view edit : Access

pub record PermissionRequirement : Type 0 where
  pub resource : AuthzResource
  pub access : Access

-- The fields of `NavItem` beside its `items`; `icon` and `exact` are passed through.
pub record NavFields : Type 0 where
  pub label : String
  pub to : Option Text
  pub exact : Bool
  pub icon : Option String
  pub disabled : Bool
  pub permission : Option PermissionRequirement

mutual
  pub data NavItem : Type 0 where
    item : NavFields → SubItems → NavItem

  -- `items?: readonly NavItem[]`
  pub data SubItems : Type 0 where
    no_items : SubItems
    items : NavItems → SubItems

  pub data NavItems : Type 0 where
    nil : NavItems
    cons : NavItem → NavItems → NavItems

-- `target` is truthy, which an empty path is not.
abbrev pub truthy : Option Text → Bool
truthy none = false
truthy (some []) = false
truthy (some (c ∷ s)) = true

unfoldable mutual
  -- `item.to ?? (item.items && firstNavigationTarget(item.items))`
  pub item_target : NavItem → Option Text
  item_target (item f sub) = or_else f.to (sub_target sub)

  pub sub_target : SubItems → Option Text
  sub_target no_items = none
  sub_target (items children) = first_navigation_target children

  pub first_navigation_target : NavItems → Option Text
  first_navigation_target nil = none
  first_navigation_target (cons i rest) =
      let target = item_target i in
      let later = first_navigation_target rest in if truthy target then target else later

-- `children ?? []`
abbrev pub children_or_nil : SubItems → NavItems
children_or_nil no_items = nil
children_or_nil (items children) = children

-- `children?.length`, as a test.
abbrev pub has_children : SubItems → Bool
has_children (items (cons i rest)) = true
has_children _ = false

abbrev pub is_leaf : SubItems → Bool
is_leaf no_items = true
is_leaf (items children) = false

module _ (can : PermissionRequirement → Bool) where
  -- `allowed`
  abbrev pub is_allowed : NavFields → SubItems → Bool
  is_allowed f sub = elim f.permission [ none ↦ is_leaf sub | some required ↦ can required ]

  -- One round of `flatMap`, behind the call for the children.
  abbrev pub keep_item : NavFields → SubItems → SubItems → NavItems → NavItems
  keep_item f sub children kept =
      if f.disabled
      then kept
      else if not (is_allowed f sub) && not (has_children children)
      then kept
      else cons
          (item
            (record f {
              to =
                  if is_allowed f sub
                  then f.to
                  else first_navigation_target (children_or_nil children);
            })
            children)
          kept

  unfoldable mutual
    pub filter_item : NavItem → NavItems → NavItems
    filter_item (item f sub) kept = keep_item f sub (filter_sub sub) kept

    pub filter_sub : SubItems → SubItems
    filter_sub no_items = no_items
    filter_sub (items children) = items (filter_navigation children)

    pub filter_navigation : NavItems → NavItems
    filter_navigation nil = nil
    filter_navigation (cons i rest) = filter_item i (filter_navigation rest)
