-- ===== src/DataTable/Query/Filters.antt =====
-- The facets that the column filters write are the ones that the table shows.
use woodgate.Common.{
  if◌then◌else◌, is_empty, All, Text, String, ◌≡◌, Bool, true, false, List, [], ◌∷◌, str_eq,
}
use woodgate.DataTable.Query.{FieldValue, FilterKey, ColumnFilter, chosen_items, facet_value}

-- What the table shows of a choice: all items of a key with several, the first of any other key.
abbrev pub limited : Bool → List Text → List Text
limited multiple [] = []
limited true (t ∷ ts) = t ∷ ts
limited false (t ∷ ts) = t ∷ []

abbrev pub shown : List FilterKey → List ColumnFilter → List (String × List Text)
shown [] next = []
shown (key ∷ keys) next =
    let rest = shown keys next in
    let items = limited key.multiple (chosen_items next key.id) in
    if is_empty items then rest else (key.id, items) ∷ rest

abbrev pub AreDistinct : List FilterKey → Type 0
AreDistinct [] = Unit
AreDistinct (key ∷ keys) =
    All (λ other. str_eq key.id (FilterKey.id other) ≡ false) keys × AreDistinct keys

abbrev Filled : List Text → Type 0
Filled = All (λ t. is_empty t ≡ false)

module _ (next : List ColumnFilter) where
  abbrev value_of : FilterKey → FieldValue
  value_of key = facet_value key.multiple (chosen_items next key.id)
