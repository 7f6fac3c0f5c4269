-- ===== src/Navigation/Stable.antt =====
-- Filtering a filtered navigation.
use woodgate.Common.{
  if◌then◌else◌, Bool-cases, ◌≡◌, refl, sym, ap, ◌∙◌, inl, inr, Bool, false, not, ◌&&◌, arith,
}
use woodgate.Navigation.{
  PermissionRequirement, NavFields, NavItem, item, SubItems, no_items, items, NavItems, nil, cons,
  first_navigation_target, children_or_nil, has_children, is_leaf, is_allowed, keep_item,
  filter_item, filter_sub, filter_navigation,
}

module _ (can : PermissionRequirement → Bool) where
  is_allowed-shape :
      (f : NavFields) (sub kids : SubItems)
      → is_leaf kids ≡ is_leaf sub
      → is_allowed can f kids ≡ is_allowed can f sub
  is_allowed-shape f sub kids shape = ground arith

  filter_sub-shape : (sub : SubItems) → is_leaf (filter_sub can sub) ≡ is_leaf sub
  unfolding filter_navigation
  filter_sub-shape no_items = refl
  filter_sub-shape (items children) = refl

  module _ (f : NavFields) (sub kids : SubItems) (kept : NavItems)
      (shape : is_leaf kids ≡ is_leaf sub) (stable : filter_sub can kids ≡ kids)
      (rest : filter_navigation can kept ≡ kept) where
    abbrev shown_fields : NavFields
    shown_fields = record f {
      to = if is_allowed can f sub then f.to else first_navigation_target (children_or_nil kids);
    }

    -- An item that a round shows is shown again, with the same path.
    shown-kept :
        f.disabled ≡ false
        → (not (is_allowed can f sub) && not (has_children kids)) ≡ false
        → keep_item can shown_fields kids kids kept ≡ cons (item shown_fields kids) kept
    shown-kept enabled kept_here =
        rw (is_allowed-shape shown_fields sub kids shape)
          (elim (Bool-cases (is_allowed can f sub)) [
            | inl allowed ↦ rw (enabled, allowed)
            | inr barred ↦ rw (enabled, kept_here, barred)
          ])

    keep_item-shown :
        f.disabled ≡ false
        → (not (is_allowed can f sub) && not (has_children kids)) ≡ false
        → keep_item can f sub kids kept ≡ cons (item shown_fields kids) kept
    keep_item-shown enabled kept_here = simp (enabled, kept_here)

    shown-fixed :
        f.disabled ≡ false
        → (not (is_allowed can f sub) && not (has_children kids)) ≡ false
        → filter_navigation can (cons (item shown_fields kids) kept)
          ≡ cons (item shown_fields kids) kept
    unfolding filter_navigation
    shown-fixed enabled kept_here = rw (stable, rest) (shown-kept enabled kept_here)

    -- What a round makes of an item, a second round leaves as it is, if it does so with its children.
    keep_item-kept :
        filter_navigation can (keep_item can f sub kids kept) ≡ keep_item can f sub kids kept
    keep_item-kept = elim (Bool-cases f.disabled) [
      | inl off ↦ rw off rest
      | inr enabled ↦ elim (Bool-cases (not (is_allowed can f sub) && not (has_children kids))) [
        | inl pruned ↦ simp (enabled, pruned) rest
        | inr kept_here ↦
            let shown = keep_item-shown enabled kept_here in
            ap (filter_navigation can) shown ∙ shown-fixed enabled kept_here ∙ sym shown
      ]
    ]

  mutual
    unfolding filter_navigation

    item-kept :
        (i : NavItem) (kept : NavItems)
        → filter_navigation can kept ≡ kept
        → filter_navigation can (filter_item can i kept) ≡ filter_item can i kept
    item-kept (item f sub) kept rest =
        keep_item-kept f sub (filter_sub can sub) kept (filter_sub-shape sub) (sub-kept sub) rest

    sub-kept : (sub : SubItems) → filter_sub can (filter_sub can sub) ≡ filter_sub can sub
    sub-kept no_items = refl
    sub-kept (items children) = ap items (items-kept children)

    items-kept :
        (is : NavItems)
        → filter_navigation can (filter_navigation can is) ≡ filter_navigation can is
    items-kept nil = refl
    items-kept (cons i rest) = item-kept i (filter_navigation can rest) (items-kept rest)

-- Filtering a navigation for an account and filtering the result again gives the same navigation.
pub filter_navigation_idem :
    (can : PermissionRequirement → Bool) (is : NavItems)
    → filter_navigation can (filter_navigation can is) ≡ filter_navigation can is
filter_navigation_idem can is = items-kept can is
