-- ===== src/Search/Sorts.antt =====
-- The sort tokens that a route accepts, and the sorting that a table reads from them.
use woodgate.Common.{
  Bool-cases, All, Text, codes, text_eq, text_eq_refl, text_eq_sound, trim, ◌≡◌, refl, inl, inr,
  Bool, true, false, none, some, List, [], ◌∷◌, ◌++◌, arith,
}
use mathlib.Core.Path.{subst}
use woodgate.DataTable.Sorting.{
  SortingItem, last_dot, parse_sort_token, parse_at, parse_sorting_state, serialize_item,
  serialize_sorting_state,
}
use woodgate.DataTable.Sorting.RoundTrip.{IsSortable, parse-serialize}
use woodgate.Search.{sort_tokens, has_token}

-- A column's key as the routes write them: no comma, no dot and no space around it.
pub record IsSortKey (key : Text) : Type 0 where
  pub sortable : IsSortable key
  pub trimmed : trim key ≡ key
  pub undotted : last_dot key ≡ none

parse-key :
    (key : Text)
    → IsSortKey key
    → parse_sorting_state (some key) ≡ record { id = key; desc = false } ∷ []
unfolding parse_sorting_state parse_sort_token parse_at
parse-key key k = rw (k.trimmed, k.sortable.filled, k.sortable.plain, k.undotted) refl

parse-directed :
    (key : Text) (desc : Bool)
    → IsSortKey key
    → parse_sorting_state (some (serialize_sorting_state (record { id = key; desc = desc } ∷ [])))
      ≡ record { id = key; desc = desc } ∷ []
parse-directed key desc k = parse-serialize (record { id = key; desc = desc }) [] k.sortable

-- What a token stands for: a sorting by one of these columns.
abbrev pub Sorts : List Text → Text → Type 0
Sorts keys token =
    (item : SortingItem) × (has_token keys item.id ≡ true)
    × (parse_sorting_state (some token) ≡ item ∷ [])

Sorts-first :
    (key : Text) (keys : List Text) (desc : Bool) (t token : Text)
    → parse_sorting_state (some t) ≡ record { id = key; desc = desc } ∷ []
    → text_eq t token ≡ true
    → Sorts (key ∷ keys) token
Sorts-first key keys desc t token parsed same = (
  record { id = key; desc = desc },
  rw (text_eq_refl key),
  subst (λ u. parse_sorting_state (some u) ≡ record { id = key; desc = desc } ∷ [])
      (text_eq_sound t token same) parsed,
)

-- For keys without comma, dot or space around them, a sort parameter among the tokens of the route
-- is read as a sorting by one of its keys.
pub parse-sort_tokens :
    (keys : List Text) (token : Text)
    → All IsSortKey keys
    → has_token (sort_tokens keys) token ≡ true
    → Sorts keys token
unfolding sort_tokens serialize_sorting_state serialize_item
parse-sort_tokens [] token ks h = cc
parse-sort_tokens (key ∷ keys) token (k, ks) h = elim (Bool-cases (text_eq key token)) [
  | inl same ↦ Sorts-first key keys false key token (parse-key key k) same
  | inr off ↦ elim (Bool-cases (text_eq (key ++ codes ".asc") token)) [
    | inl same ↦
        Sorts-first key keys false (key ++ codes ".asc") token (parse-directed key false k) same
    | inr off_asc ↦ elim (Bool-cases (text_eq (key ++ codes ".desc") token)) [
      | inl same ↦
          Sorts-first key keys true (key ++ codes ".desc") token (parse-directed key true k) same
      | inr off_desc ↦
          let (item, named, parsed) =
            parse-sort_tokens keys token ks (rw (off, off_asc, off_desc) at h) in
          (item, ground arith, parsed)
    ]
  ]
]
