-- ===== src/DataTable/Query/Reset.antt =====
-- Clearing the search.
use woodgate.Common.{
  any, All, String, ◌≡◌, refl, ap, false, none, List, [], ◌∷◌, map, arith, eq_refl,
}
use woodgate.DataTable.Query.{
  FieldValue, undefined, SearchState, FilterKey, set, filters, set_facet, assign, filter_entries,
  on_column_filters_change, on_query_change, clear_search_keys, is_defined, is_filtered,
}

abbrev cleared : List String → List (String × FieldValue)
cleared keys = map (λ key. (key, undefined)) keys

-- An undefined facet stays so.
cleared-kept :
    (keys : List String) (facets : String → FieldValue) (id : String)
    → facets id ≡ undefined
    → assign (cleared keys) facets id ≡ undefined
unfolding assign
cleared-kept [] facets id h = h
cleared-kept (key ∷ keys) facets id h =
    cleared-kept keys (set_facet key undefined facets) id (ground arith)

cleared-All :
    (keys : List String) (facets : String → FieldValue)
    → All (λ key. assign (cleared keys) facets key ≡ undefined) keys
unfolding assign
cleared-All [] facets = tt
cleared-All (key ∷ keys) facets = (
  cleared-kept keys (set_facet key undefined facets) key (rw (eq_refl key)),
  cleared-All keys (set_facet key undefined facets),
)

filter_entries-nil :
    (keys : List FilterKey) → filter_entries keys [] ≡ cleared (map (λ key. FilterKey.id key) keys)
unfolding filter_entries
filter_entries-nil [] = refl
filter_entries-nil (key ∷ keys) = ap (λ r. (key.id, undefined) ∷ r) (filter_entries-nil keys)

filters_of_undefined :
    (keys : List FilterKey) (search : SearchState)
    → All (λ id. search.facets id ≡ undefined) (map (λ key. FilterKey.id key) keys)
    → filters keys search ≡ []
unfolding filters
filters_of_undefined [] search h = refl
filters_of_undefined (key ∷ keys) search (e, h) = rw (e, filters_of_undefined keys search h)

any_defined :
    (facets : String → FieldValue) (keys : List String)
    → All (λ key. facets key ≡ undefined) keys
    → any (λ key. is_defined (facets key)) keys ≡ false
any_defined facets [] h = refl
any_defined facets (key ∷ keys) (e, h) = rw e (any_defined facets keys h)

cleared-kept-All :
    (keys : List String) (facets : String → FieldValue) (ids : List String)
    → All (λ id. facets id ≡ undefined) ids
    → All (λ id. assign (cleared keys) facets id ≡ undefined) ids
cleared-kept-All keys facets [] h = tt
cleared-kept-All keys facets (id ∷ ids) (e, h) =
    (cleared-kept keys facets id e, cleared-kept-All keys facets ids h)

abbrev ids_of : List FilterKey → List String
ids_of keys = map (λ key. FilterKey.id key) keys

filtered_by_nothing :
    (filter_keys : List FilterKey) (scope_keys : List String) (search : SearchState)
    → search.q ≡ none
    → All (λ id. search.facets id ≡ undefined) (ids_of filter_keys)
    → All (λ id. search.facets id ≡ undefined) scope_keys
    → is_filtered filter_keys scope_keys search ≡ false
unfolding is_filtered
filtered_by_nothing filter_keys scope_keys search no_query no_filters no_scope = rw (
  filters_of_undefined filter_keys search no_filters,
  any_defined search.facets scope_keys no_scope,
  no_query,
)

-- Dropping the query, all column filters and all scope keys leaves a table that is not filtered.
pub reset-is_filtered :
    (filter_keys : List FilterKey) (scope_keys : List String) (search previous : SearchState)
    → is_filtered filter_keys scope_keys (
        clear_search_keys scope_keys
          (on_column_filters_change filter_keys search (set []) (on_query_change none previous)))
      ≡ false
unfolding on_column_filters_change on_query_change clear_search_keys
reset-is_filtered filter_keys scope_keys search previous =
    let dropped : All (λ id. assign (filter_entries filter_keys []) previous.facets id ≡ undefined)
        (ids_of filter_keys) =
      (rw (filter_entries-nil filter_keys) (cleared-All (ids_of filter_keys) previous.facets)) in
    filtered_by_nothing filter_keys scope_keys _ refl
      (cleared-kept-All scope_keys _ (ids_of filter_keys) dropped) (cleared-All scope_keys _)
