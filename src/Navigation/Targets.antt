-- ===== src/Navigation/Targets.antt =====
-- Where a filtered navigation leads.
use woodgate.Common.{
  if◌then◌else◌, Bool-cases, Option-cases, or_else, Text, ◌≡◌, refl, sym, ◌∙◌, ◌⊎◌, inl, inr, Bool,
  true, false, not, ◌&&◌, Option, none, some,
}
use woodgate.Navigation.{
  PermissionRequirement, NavFields, NavItem, item, SubItems, no_items, items, NavItems, nil, cons,
  truthy, item_target, sub_target, first_navigation_target, children_or_nil, has_children,
  is_allowed, keep_item, filter_item, filter_sub, filter_navigation,
}

module _ (can : PermissionRequirement → Bool) where
  -- A path that the tree offers to an account: the `to` of an item that is allowed, with no disabled
  -- item on the way to it.
  pub data Offers (t : Text) : NavItems → Type 0 where
    here :
        {f : NavFields} {sub : SubItems} {rest : NavItems}
        → f.disabled ≡ false
        → is_allowed can f sub ≡ true
        → f.to ≡ some t
        → Offers t (cons (item f sub) rest)
    inside :
        {f : NavFields} {children rest : NavItems}
        → f.disabled ≡ false
        → Offers t children
        → Offers t (cons (item f (items children)) rest)
    later : {i : NavItem} {rest : NavItems} → Offers t rest → Offers t (cons i rest)

  or_else_same : (o : Option Text) → or_else o o ≡ o
  or_else_same none = refl
  or_else_same (some t) = refl

  children_target :
      (sub : SubItems) → first_navigation_target (children_or_nil sub) ≡ sub_target sub
  unfolding first_navigation_target
  children_target no_items = refl
  children_target (items children) = refl

  -- The first target of a tree is that of its head, or else that of the rest.
  cons_target :
      (i : NavItem) (rest : NavItems) {t : Text}
      → first_navigation_target (cons i rest) ≡ some t
      → (item_target i ≡ some t) ⊎ (first_navigation_target rest ≡ some t)
  unfolding first_navigation_target
  cons_target i rest e = elim (Bool-cases (truthy (item_target i))) [
    | inl taken ↦ inl (rw taken at e)
    | inr passed ↦ inr (rw passed at e)
  ]

  module _ (f : NavFields) (sub kids : SubItems) (rest kept : NavItems) (t : Text)
      (below : f.disabled ≡ false → sub_target kids ≡ some t → Offers t (cons (item f sub) rest))
      (behind : first_navigation_target kept ≡ some t → Offers t rest) where
    -- What the item shown for `f` leads to.
    shown-Offers :
        f.disabled ≡ false
        → or_else
            (if is_allowed can f sub then f.to else first_navigation_target (children_or_nil kids))
            (sub_target kids)
          ≡ some t
        → Offers t (cons (item f sub) rest)
    shown-Offers enabled e = elim (Bool-cases (is_allowed can f sub)) [
      | inl allowed ↦ elim (Option-cases f.to) [
        | inl nowhere ↦ below enabled (rw (allowed, nowhere) at e)
        | inr (u, leads) ↦
            let same : u ≡ t = (let e' = (rw (allowed, leads) at e) in cc) in
            here enabled allowed (rw (← same) leads)
      ]
      | inr barred ↦
          below enabled
            (sym (or_else_same (sub_target kids)) ∙ (rw (barred, children_target kids) at e))
    ]

    keep_item-Offers :
        first_navigation_target (keep_item can f sub kids kept) ≡ some t
        → Offers t (cons (item f sub) rest)
    keep_item-Offers e = elim (Bool-cases f.disabled) [
      | inl off ↦ later (behind (rw off at e))
      | inr enabled ↦ elim (Bool-cases (not (is_allowed can f sub) && not (has_children kids))) [
        | inl pruned ↦ later (behind (rw (enabled, pruned) at e))
        | inr kept_here ↦ elim (cons_target _ kept (rw (enabled, kept_here) at e)) [
          | inl head ↦ shown-Offers enabled (unfold first_navigation_target in head)
          | inr tail ↦ later (behind tail)
        ]
      ]
    ]

  mutual
    unfolding filter_item first_navigation_target

    item-Offers :
        (i : NavItem) (rest kept : NavItems) (t : Text)
        → (first_navigation_target kept ≡ some t → Offers t rest)
        → first_navigation_target (filter_item can i kept) ≡ some t
        → Offers t (cons i rest)
    item-Offers (item f sub) rest kept t behind e =
        keep_item-Offers f sub (filter_sub can sub) rest kept t
          (λ enabled. sub-Offers sub f rest t enabled) behind e

    sub-Offers :
        (sub : SubItems) (f : NavFields) (rest : NavItems) (t : Text)
        → f.disabled ≡ false
        → sub_target (filter_sub can sub) ≡ some t
        → Offers t (cons (item f sub) rest)
    sub-Offers no_items f rest t enabled e = cc
    sub-Offers (items children) f rest t enabled e = inside enabled (items-Offers children t e)

    items-Offers :
        (is : NavItems) (t : Text)
        → first_navigation_target (filter_navigation can is) ≡ some t
        → Offers t is
    items-Offers nil t e = cc
    items-Offers (cons i rest) t e =
        item-Offers i rest (filter_navigation can rest) t (items-Offers rest t) e

-- The path that a filtered navigation leads to is that of an item that the account is allowed,
-- with nothing disabled on the way.
pub filter-target-Offers :
    (can : PermissionRequirement → Bool) (is : NavItems) (t : Text)
    → first_navigation_target (filter_navigation can is) ≡ some t
    → Offers can t is
filter-target-Offers can is t e = items-Offers can is t e
