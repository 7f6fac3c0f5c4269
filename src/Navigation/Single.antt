-- ===== src/Navigation/Single.antt =====
-- At most one entry of the sidebar is active.
use woodgate.Common.{
  String, if◌then◌else◌, Bool-cases, Text, codes, ℕ, suc, ◌≤◌, ◌≡◌, refl, ap, ◌∙◌, inl, inr, Bool,
  true, ◌&&◌, List, [], ◌∷◌, ◌++◌, all, keep, map, arith, starts_with, diverges, diverges_lem,
  and_left, and_right,
}
use woodgate.Navigation.{PermissionRequirement, NavItem, NavItems, nil, cons, filter_navigation}
use woodgate.Navigation.Active.{is_active_path}
use woodgate.Navigation.Config.{
  NavMenu, nav_sections, append, all_items, has_items, visible_nav_sections, filtered_section,
}
use woodgate.Navigation.Within.{within, active-within, IsKept, filter_item-IsKept}

-- Some of the roots, in order, each with an item whose paths start with it.
pub data IsRooted : List Text → NavItems → Type 0 where
  done : IsRooted [] nil
  skip : {r : Text} {rs : List Text} {is : NavItems} → IsRooted rs is → IsRooted (r ∷ rs) is
  have :
      {r : Text} {rs : List Text} {i : NavItem} {is : NavItems}
      → within r i ≡ true
      → IsRooted rs is
      → IsRooted (r ∷ rs) (cons i is)

-- The items that are active.
abbrev pub count_active : Text → NavItems → ℕ
count_active pathname nil = 0
count_active pathname (cons i rest) =
    if is_active_path pathname i
    then suc (count_active pathname rest)
    else count_active pathname rest

-- No text starts with two of them.
abbrev pub all_diverge : List Text → Bool
all_diverge [] = true
all_diverge (r ∷ rs) = all (diverges r) rs && all_diverge rs

none_active :
    (pathname root : Text) (rs : List Text) (is : NavItems)
    → starts_with pathname root ≡ true
    → all (diverges root) rs ≡ true
    → IsRooted rs is
    → count_active pathname is ≡ 0
none_active pathname root [] nil start apart done = refl
none_active pathname root [] (cons i is) start apart rooted = elim rooted [ ]
none_active pathname root (r ∷ rs) is start apart (skip rooted) =
    none_active pathname root rs is start (and_right (diverges root r) _ apart) rooted
none_active pathname root (r ∷ rs) (cons i is) start apart (have own rooted) =
    elim (Bool-cases (is_active_path pathname i)) [
      | inl active ↦
          let out =
            diverges_lem pathname root r (and_left _ (all (diverges root) rs) apart) start in
          let in' = active-within r pathname i active own in cc
      | inr idle ↦
          rw idle
            (none_active pathname root rs is start (and_right (diverges root r) _ apart) rooted)
    ]

one_active :
    (pathname : Text) (rs : List Text) (is : NavItems)
    → all_diverge rs ≡ true
    → IsRooted rs is
    → count_active pathname is ≤ 1
one_active pathname [] nil apart done = omega arith
one_active pathname [] (cons i is) apart rooted = elim rooted [ ]
one_active pathname (r ∷ rs) is apart (skip rooted) =
    one_active pathname rs is (and_right (all (diverges r) rs) _ apart) rooted
one_active pathname (r ∷ rs) (cons i is) apart (have own rooted) =
    elim (Bool-cases (is_active_path pathname i)) [
      | inl active ↦
          let rest =
            none_active pathname r rs is (active-within r pathname i active own)
              (and_left _ (all_diverge rs) apart) rooted in
          rw active (omega (arith, rest))
      | inr idle ↦
          rw idle (one_active pathname rs is (and_right (all (diverges r) rs) _ apart) rooted)
    ]

append-IsRooted :
    (rs rs' : List Text) (is is' : NavItems)
    → IsRooted rs is
    → IsRooted rs' is'
    → IsRooted (rs ++ rs') (append is is')
append-IsRooted [] rs' nil is' done more = more
append-IsRooted [] rs' (cons i is) is' rooted more = elim rooted [ ]
append-IsRooted (r ∷ rs) rs' is is' (skip rooted) more =
    skip (append-IsRooted rs rs' is is' rooted more)
append-IsRooted (r ∷ rs) rs' (cons i is) is' (have own rooted) more =
    have own (append-IsRooted rs rs' is is' rooted more)

drop_empty :
    (label : String) (is : NavItems) (rest : List NavMenu)
    → all_items (if has_items is then record { label = label; items = is } ∷ rest else rest)
      ≡ append is (all_items rest)
drop_empty label nil rest = refl
drop_empty label (cons i is) rest = refl

all_items-keep :
    (sections : List NavMenu)
    → all_items (keep (λ s. has_items (NavMenu.items s)) sections) ≡ all_items sections
all_items-keep [] = refl
all_items-keep (section ∷ sections) =
    drop_empty section.label section.items _ ∙ ap (append section.items) (all_items-keep sections)

module _ (can : PermissionRequirement → Bool) where
  kept-IsRooted :
      (r : Text) (rs : List Text) (kept result : NavItems)
      → IsKept r can kept result
      → IsRooted rs kept
      → IsRooted (r ∷ rs) result
  kept-IsRooted r rs kept result (inl same) rooted = rw same (skip rooted)
  kept-IsRooted r rs kept result (inr (i, e, own)) rooted = rw e (have own rooted)

  filter-IsRooted :
      (rs : List Text) (is : NavItems) → IsRooted rs is → IsRooted rs (filter_navigation can is)
  unfolding filter_navigation
  filter-IsRooted [] nil done = done
  filter-IsRooted [] (cons i is) rooted = elim rooted [ ]
  filter-IsRooted (r ∷ rs) is (skip rooted) = skip (filter-IsRooted rs is rooted)
  filter-IsRooted (r ∷ rs) (cons i is) (have own rooted) =
      kept-IsRooted r rs (filter_navigation can is) _
        (filter_item-IsKept r can i (filter_navigation can is) own) (filter-IsRooted rs is rooted)

  abbrev roots : List Text
  roots = codes "/checkins" ∷ codes "/locations" ∷ codes "/stations" ∷ codes "/directory" ∷ []

  -- Whatever an account may see and whatever page it is on, at most one of the entries that its
  -- sidebar shows at the top is active.
  pub visible-single :
      (pathname : Text) → count_active pathname (all_items (visible_nav_sections can)) ≤ 1
  unfolding visible_nav_sections nav_sections within
  visible-single pathname =
      one_active pathname roots _ refl
        (rw (all_items-keep (map (filtered_section can) nav_sections)) rooted)
    where
      rooted : IsRooted roots (all_items (map (filtered_section can) nav_sections))
      rooted =
          append-IsRooted (codes "/checkins" ∷ codes "/locations" ∷ codes "/stations" ∷ [])
            (codes "/directory" ∷ []) _ _
            (filter-IsRooted _ _ (have refl (have refl (have refl done))))
            (append-IsRooted (codes "/directory" ∷ []) [] _ nil
              (filter-IsRooted _ _ (have refl done)) done)
