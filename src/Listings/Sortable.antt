-- ===== src/Listings/Sortable.antt =====
-- Which of the columns that a table lets sort write a sort that its route accepts.
use woodgate.Common.{
  Bool-cases, All, Text, codes, text_eq, text_eq_refl, text_eq_sound, ◌≡◌, refl, inl, inr, Bool,
  true, false, not, ◌&&◌, List, [], ◌∷◌, ◌++◌, keep, map, arith,
}
use mathlib.Core.Path.{subst}
use woodgate.DataTable.Sorting.{SortingItem, serialize_item}
use woodgate.Listings.{
  checkin_columns, station_columns, location_columns, group_columns, checkin_sort_keys,
  station_sort_keys, location_sort_keys, group_sort_keys, user_sort_keys,
}
use woodgate.Search.{sort_tokens, has_token}
use woodgate.UserList.{Column, user_columns}

-- The token that a click on a column's header writes is one the route accepts.
abbrev pub IsAccepted : List Text → SortingItem → Type 0
IsAccepted keys item = has_token (sort_tokens keys) (serialize_item item) ≡ true

IsAccepted-first :
    (key : Text) (keys : List Text) (desc : Bool)
    → IsAccepted (key ∷ keys) (record { id = key; desc = desc })
unfolding sort_tokens serialize_item
IsAccepted-first key keys true = rw (text_eq_refl (key ++ codes ".desc")) (ground arith)
IsAccepted-first key keys false = rw (text_eq_refl (key ++ codes ".asc")) (ground arith)

-- Sorting by a key of the route, in either direction, writes a token that the route accepts.
pub key-IsAccepted :
    (keys : List Text) (item : SortingItem) → has_token keys item.id ≡ true → IsAccepted keys item
unfolding sort_tokens serialize_item
key-IsAccepted [] item h = cc
key-IsAccepted (key ∷ keys) item h = elim (Bool-cases (text_eq key item.id)) [
  | inl same ↦
      subst (λ id. IsAccepted (key ∷ keys) (record { id = id; desc = item.desc }))
        (text_eq_sound key item.id same) (IsAccepted-first key keys item.desc)
  | inr off ↦ let rest = key-IsAccepted keys item (rw off at h) in ground arith
]

-- The sortable columns that are no key of the route.
abbrev pub unheard : List Text → List Column → List Text
unheard keys columns =
    map Column.id
      (keep (λ c. Column.enable_sorting c && not (has_token keys (Column.id c))) columns)

-- Every column that can be sorted writes, in either direction, a token that the route accepts.
abbrev pub AllAccepted : List Text → List Column → Type 0
AllAccepted keys = All (λ c.
    (desc : Bool)
    → Column.enable_sorting c ≡ true
    → IsAccepted keys (record { id = Column.id c; desc = desc }))

AllAccepted-unheard :
    (keys : List Text) (columns : List Column)
    → unheard keys columns ≡ []
    → AllAccepted keys columns
AllAccepted-unheard keys [] h = tt
AllAccepted-unheard keys (c ∷ columns) h = elim (Bool-cases (has_token keys (Column.id c))) [
  | inl heard ↦ (
    λ desc _. key-IsAccepted keys (record { id = Column.id c; desc = desc }) heard,
    AllAccepted-unheard keys columns (ground arith),
  )
  | inr off ↦ elim (Bool-cases (Column.enable_sorting c)) [
    | inl sorted ↦ ground arith
    | inr fixed ↦ (λ desc sorted. cc, AllAccepted-unheard keys columns (ground arith))
  ]
]

checkins_heard : unheard checkin_sort_keys checkin_columns ≡ []
unfolding checkin_sort_keys checkin_columns
checkins_heard = refl

locations_heard : unheard location_sort_keys location_columns ≡ []
unfolding location_sort_keys location_columns
locations_heard = refl

groups_heard : unheard group_sort_keys group_columns ≡ []
unfolding group_sort_keys group_columns
groups_heard = refl

stations_unheard : unheard station_sort_keys station_columns ≡ codes "location" ∷ []
unfolding station_sort_keys station_columns
stations_unheard = refl

users_unheard : unheard user_sort_keys user_columns ≡ codes "source" ∷ []
unfolding user_sort_keys user_columns
users_unheard = refl
