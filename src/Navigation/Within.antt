-- ===== src/Navigation/Within.antt =====
-- Trees whose paths all start with one text, what makes them active, and the filter on them.
use woodgate.Common.{
  if◌then◌else◌, Bool-cases, or_else, Text, text_eq, text_eq_sound, ◌≡◌, refl, ◌⊎◌, inl, inr, Bool,
  true, not, ◌&&◌, Option, none, some, [], ◌∷◌, ◌++◌, arith, starts_with, starts_with_trans,
  starts_with-append, and_left, and_right,
}
use woodgate.Navigation.{
  PermissionRequirement, NavFields, NavItem, item, SubItems, no_items, items, NavItems, nil, cons,
  truthy, item_target, sub_target, first_navigation_target, children_or_nil, has_children,
  is_allowed, keep_item, filter_item, filter_sub, filter_navigation,
}
use woodgate.Navigation.Active.{covers_to, covers, is_active_path, some_active_sub, some_active}

module _ (root : Text) where
  -- Every path of the tree starts with the root.
  abbrev pub to_within : Option Text → Bool
  to_within none = true
  to_within (some to) = starts_with to root

  unfoldable mutual
    pub within : NavItem → Bool
    within (item f sub) = to_within f.to && within_sub sub

    pub within_sub : SubItems → Bool
    within_sub no_items = true
    within_sub (items children) = within_all children

    pub within_all : NavItems → Bool
    within_all nil = true
    within_all (cons i rest) = within i && within_all rest

  covers_to-within :
      (pathname : Text) (exact : Bool) (to : Option Text)
      → covers_to pathname exact to ≡ true
      → to_within to ≡ true
      → starts_with pathname root ≡ true
  covers_to-within pathname exact none c w = cc
  covers_to-within pathname exact (some to) c w = elim (Bool-cases (text_eq pathname to)) [
    | inl same ↦ let e = text_eq_sound pathname to same in rw e w
    | inr differ ↦
        let below : starts_with pathname (to ++ b'/' ∷ []) ≡ true = ground arith in
        starts_with_trans pathname to root
          (starts_with_trans pathname (to ++ b'/' ∷ []) to below
            (starts_with-append to (b'/' ∷ [])))
          w
  ]

  mutual
    unfolding is_active_path within

    pub active-within :
        (pathname : Text) (i : NavItem)
        → is_active_path pathname i ≡ true
        → within i ≡ true
        → starts_with pathname root ≡ true
    active-within pathname (item f sub) a w = elim (Bool-cases (covers pathname f)) [
      | inl own ↦ covers_to-within pathname f.exact f.to own (and_left (to_within f.to) _ w)
      | inr below ↦ active_sub-within pathname sub (ground arith) (and_right (to_within f.to) _ w)
    ]

    active_sub-within :
        (pathname : Text) (sub : SubItems)
        → some_active_sub pathname sub ≡ true
        → within_sub sub ≡ true
        → starts_with pathname root ≡ true
    active_sub-within pathname no_items a w = cc
    active_sub-within pathname (items children) a w = active_all-within pathname children a w

    active_all-within :
        (pathname : Text) (is : NavItems)
        → some_active pathname is ≡ true
        → within_all is ≡ true
        → starts_with pathname root ≡ true
    active_all-within pathname nil a w = cc
    active_all-within pathname (cons i rest) a w = elim (Bool-cases (is_active_path pathname i)) [
      | inl first ↦ active-within pathname i first (and_left (within i) _ w)
      | inr other ↦ active_all-within pathname rest (ground arith) (and_right (within i) _ w)
    ]

  or_else-within :
      (a b : Option Text) → to_within a ≡ true → to_within b ≡ true → to_within (or_else a b) ≡ true
  or_else-within none b h k = k
  or_else-within (some t) b h k = h

  mutual
    unfolding first_navigation_target within

    target-within : (i : NavItem) → within i ≡ true → to_within (item_target i) ≡ true
    target-within (item f sub) w =
        or_else-within f.to (sub_target sub) (and_left (to_within f.to) _ w)
          (sub_target-within sub (and_right (to_within f.to) _ w))

    sub_target-within : (sub : SubItems) → within_sub sub ≡ true → to_within (sub_target sub) ≡ true
    sub_target-within no_items w = refl
    sub_target-within (items children) w = first_target-within children w

    first_target-within :
        (is : NavItems) → within_all is ≡ true → to_within (first_navigation_target is) ≡ true
    first_target-within nil w = refl
    first_target-within (cons i rest) w = elim (Bool-cases (truthy (item_target i))) [
      | inl taken ↦ rw taken (target-within i (and_left (within i) _ w))
      | inr passed ↦ rw passed (first_target-within rest (and_right (within i) _ w))
    ]

  children_target-within :
      (kids : SubItems)
      → within_sub kids ≡ true
      → to_within (first_navigation_target (children_or_nil kids)) ≡ true
  unfolding first_navigation_target within
  children_target-within no_items w = refl
  children_target-within (items children) w = first_target-within children w

  module _ (can : PermissionRequirement → Bool) where
    -- An item is kept, within the root that it had, or dropped.
    abbrev pub IsKept : NavItems → NavItems → Type 0
    IsKept kept result =
        (result ≡ kept) ⊎ ((i : NavItem) × (result ≡ cons i kept) × (within i ≡ true))

    shown-within :
        (f : NavFields) (sub kids : SubItems)
        → to_within f.to ≡ true
        → within_sub kids ≡ true
        → within (
            item
              (record f {
                to =
                    if is_allowed can f sub
                    then f.to
                    else first_navigation_target (children_or_nil kids);
              })
              kids)
          ≡ true
    unfolding within
    shown-within f sub kids own below = elim (Bool-cases (is_allowed can f sub)) [
      | inl allowed ↦ rw (allowed, own, below) refl
      | inr refused ↦ rw (refused, children_target-within kids below, below) refl
    ]

    keep_item-IsKept :
        (f : NavFields) (sub kids : SubItems) (kept : NavItems)
        → to_within f.to ≡ true
        → within_sub kids ≡ true
        → IsKept kept (keep_item can f sub kids kept)
    unfolding within
    keep_item-IsKept f sub kids kept own below = elim (Bool-cases f.disabled) [
      | inl disabled ↦ rw disabled (inl refl)
      | inr enabled ↦ elim (Bool-cases (not (is_allowed can f sub) && not (has_children kids))) [
        | inl hidden ↦ rw (enabled, hidden) (inl refl)
        | inr shown ↦ rw (enabled, shown) (inr (_, refl, shown-within f sub kids own below))
      ]
    ]

    kept_all :
        (kept result : NavItems)
        → IsKept kept result
        → within_all kept ≡ true
        → within_all result ≡ true
    unfolding within
    kept_all kept result (inl same) w = rw same w
    kept_all kept result (inr (i, e, own)) w = rw (e, own) w

    mutual
      unfolding filter_navigation within

      pub filter_item-IsKept :
          (i : NavItem) (kept : NavItems) → within i ≡ true → IsKept kept (filter_item can i kept)
      filter_item-IsKept (item f sub) kept w =
          keep_item-IsKept f sub (filter_sub can sub) kept (and_left (to_within f.to) _ w)
            (filter_sub-within sub (and_right (to_within f.to) _ w))

      filter_sub-within :
          (sub : SubItems) → within_sub sub ≡ true → within_sub (filter_sub can sub) ≡ true
      filter_sub-within no_items w = refl
      filter_sub-within (items children) w = filter-within children w

      filter-within :
          (is : NavItems) → within_all is ≡ true → within_all (filter_navigation can is) ≡ true
      filter-within nil w = refl
      filter-within (cons i rest) w =
          kept_all (filter_navigation can rest) _
            (filter_item-IsKept i (filter_navigation can rest) (and_left (within i) _ w))
            (filter-within rest (and_right (within i) _ w))
