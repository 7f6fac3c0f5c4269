-- ===== src/DataTable/Sorting.antt =====
-- web/src/components/data-table/sorting.ts: the `sort` search parameter and the table's sorting.
pub mod RoundTrip
use woodgate.Common.{
  ◌==◌, if◌then◌else◌, take, drop, is_empty, any, Text, codes, text_eq, trim, ℕ, suc, ◌+◌, Bool,
  true, false, Option, none, some, List, [], ◌∷◌, ◌++◌,
}

pub record SortingItem : Type 0 where
  pub id : Text
  pub desc : Bool

abbrev pub asc_text : Text
asc_text = codes "asc"

abbrev pub desc_text : Text
desc_text = codes "desc"

unfoldable pub serialize_item : SortingItem → Text
serialize_item sort = sort.id ++ b'.' ∷ (if sort.desc then desc_text else asc_text)

unfoldable pub serialize_sorting_state : List SortingItem → Text
unfolding serialize_item
serialize_sorting_state [] = []
serialize_sorting_state (sort ∷ _) = serialize_item sort

-- `value.includes(",")`
abbrev pub has_comma : Text → Bool
has_comma = any (λ c. c == b',')

-- `lastIndexOf(".")`, with -1 as `none`.
unfoldable pub last_dot : Text → Option ℕ
last_dot [] = none
last_dot (c ∷ s) = elim (last_dot s) [
  | some i ↦ some (suc i)
  | none ↦ if c == b'.' then some 0 else none
]

abbrev item_or_none : Text → Bool → Option SortingItem
item_or_none id desc = if is_empty id then none else some (record { id = id; desc = desc })

-- `parseSortToken` behind its search for the last dot.
unfoldable pub parse_at : Text → Option ℕ → Option SortingItem
parse_at token none = some (record { id = token; desc = false })
parse_at token (some dot) =
    let id = take dot token in
    let direction = drop (dot + 1) token in
    if text_eq direction asc_text
    then item_or_none id false
    else if text_eq direction desc_text
    then item_or_none id true
    else some (record { id = token; desc = false })

unfoldable pub parse_sort_token : Text → Option SortingItem
unfolding parse_at
parse_sort_token token = if is_empty token then none else parse_at token (last_dot token)

-- The result of `parseSortToken` as a sorting state.
abbrev pub sorting_of : Option SortingItem → List SortingItem
sorting_of none = []
sorting_of (some item) = item ∷ []

unfoldable pub parse_sorting_state : Option Text → List SortingItem
unfolding trim
parse_sorting_state none = []
parse_sorting_state (some value) =
    let trimmed = trim value in
    if is_empty trimmed
    then []
    else if has_comma trimmed
    then []
    else sorting_of (parse_sort_token trimmed)
