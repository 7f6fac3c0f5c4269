-- ===== src/DataTable/Pager/Turns.antt =====
-- Where the buttons below a table lead.
use woodgate.Common.{
  if◌then◌else◌, ltb, Bool-cases, ℕ, suc, ◌+◌, ◌-◌, ◌<◌, ◌≤◌, ◌≡◌, refl, sym, ap, ◌∙◌, inl, inr,
  Bool, true, arith,
}
use mathlib.Core.Path.{subst}
use woodgate.Common.Number.{whole, pos, max_safe}
use woodgate.Paging.Params.{num-IsCounting}
use woodgate.DataTable.Query.{
  SearchState, PaginationState, set, apply, pagination, on_pagination_change,
}
use woodgate.DataTable.Query.Paging.{IsInRange, pagination-change}
use woodgate.DataTable.Pager.{
  PagerLibrary, IsDocumented, PagerButton, to_first, to_previous, to_next, to_last, at_index,
  is_enabled, turn, press,
}

-- Where a button leads from page `n` of `pages`.
abbrev pub aim : (pages n : ℕ) → PagerButton → ℕ
aim pages n to_first = 0
aim pages n to_previous = n - 1
aim pages n to_next = suc n
aim pages n to_last = pages - 1

-- Whether a page lies before, or behind.
abbrev pub is_offered : (pages n : ℕ) → PagerButton → Bool
is_offered pages n to_first = ltb 0 n
is_offered pages n to_previous = ltb 0 n
is_offered pages n to_next = ltb (suc n) pages
is_offered pages n to_last = ltb (suc n) pages

-- A change of the page that the table makes by a function.
moved :
    (search : SearchState) (f : PaginationState → PaginationState) (k : ℕ)
    → IsInRange search
    → k < max_safe
    → f (pagination search) ≡ at_index k (pagination search)
    → (pagination (on_pagination_change search (apply f) search) ≡ at_index k (pagination search))
      × ((on_pagination_change search (apply f) search).q ≡ search.q)
      × ((on_pagination_change search (apply f) search).sort ≡ search.sort)
      × ((on_pagination_change search (apply f) search).facets ≡ search.facets)
unfolding on_pagination_change
moved search f k h small e =
    subst
      (λ s.
        (pagination (on_pagination_change search (set s) search) ≡ at_index k (pagination search))
        × ((on_pagination_change search (set s) search).q ≡ search.q)
        × ((on_pagination_change search (set s) search).sort ≡ search.sort)
        × ((on_pagination_change search (set s) search).facets ≡ search.facets))
      (sym e)
      (pagination-change search search (at_index k (pagination search))
        (num-IsCounting (k + 1) (omega arith) (omega arith)) h.per_page)

module _ (lib : PagerLibrary) (documented : IsDocumented lib) (pages n : ℕ) where
  turn-aim :
      (button : PagerButton) (s : PaginationState)
      → s.page_index ≡ whole (pos n)
      → n < pages
      → is_offered pages n button ≡ true
      → turn lib pages button s ≡ at_index (aim pages n button) s
  unfolding turn
  turn-aim to_first s here within offered = documented.sets pages 0 s (omega arith)
  turn-aim to_previous s here within offered =
      let e : n ≡ suc (n - 1) = ground arith in
      documented.goes_back pages (n - 1) s (here ∙ ap (λ (k : ℕ). whole (pos k)) e)
      ∙ documented.sets pages (n - 1) s (omega arith)
  turn-aim to_next s here within offered =
      documented.goes_on pages n s here ∙ documented.sets pages (suc n) s (ground arith)
  turn-aim to_last s here within offered = documented.sets pages (pages - 1) s (omega arith)

  is_enabled-offered :
      (search : SearchState) (button : PagerButton)
      → (pagination search).page_index ≡ whole (pos n)
      → is_enabled lib pages search button ≡ is_offered pages n button
  unfolding is_enabled
  is_enabled-offered search to_first here = documented.has_previous pages n (pagination search) here
  is_enabled-offered search to_previous here =
      documented.has_previous pages n (pagination search) here
  is_enabled-offered search to_next here = documented.has_next pages n (pagination search) here
  is_enabled-offered search to_last here = documented.has_next pages n (pagination search) here

  aim_bound :
      (button : PagerButton)
      → is_offered pages n button ≡ true
      → n < pages
      → pages ≤ max_safe
      → aim pages n button < max_safe
  aim_bound to_first offered within small = omega arith
  aim_bound to_previous offered within small = omega arith
  aim_bound to_next offered within small = ground arith
  aim_bound to_last offered within small = omega arith

  -- For a table with a safe number of pages that shows one of them: pressing a button leads to the
  -- first page, the one before, the next or the last, if there is a page on that side, and changes
  -- nothing otherwise; the page size, the search text, the sorting and the filters stay.
  pub press-aim :
      (search : SearchState) (button : PagerButton)
      → IsInRange search
      → pages ≤ max_safe
      → (pagination search).page_index ≡ whole (pos n)
      → n < pages
      → (pagination (press lib pages search button) ≡ (
          if is_offered pages n button
          then at_index (aim pages n button) (pagination search)
          else pagination search))
        × ((press lib pages search button).q ≡ search.q)
        × ((press lib pages search button).sort ≡ search.sort)
        × ((press lib pages search button).facets ≡ search.facets)
  unfolding press
  press-aim search button h small here within = elim (Bool-cases (is_offered pages n button)) [
    | inr shut ↦ rw (is_enabled-offered search button here, shut) (refl, refl, refl, refl)
    | inl offered ↦
        rw (is_enabled-offered search button here, offered)
          (moved search (turn lib pages button) (aim pages n button) h
            (aim_bound button offered within small)
            (turn-aim button (pagination search) here within offered))
  ]
