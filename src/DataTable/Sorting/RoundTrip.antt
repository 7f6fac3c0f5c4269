-- ===== src/DataTable/Sorting/RoundTrip.antt =====
-- The sort parameter and the table's sorting determine each other.
use woodgate.Common.{
  if◌then◌else◌, Bool-cases, Option-cases, length, take, drop, is_empty, Text, text_eq, is_space,
  trim_end, trim, IsFlush, trim_start_of_IsFlush, trim-IsFlush, ℕ, zero, suc, ◌+◌, ◌≡◌, refl, ap,
  ◌⊎◌, inl, inr, Bool, true, false, ◌||◌, Option, none, some, List, [], ◌∷◌, ◌++◌, arith,
}
use native.Mathlib.Numerals.{add-one}
use woodgate.DataTable.Sorting.{
  SortingItem, serialize_sorting_state, serialize_item, parse_sorting_state, parse_sort_token,
  parse_at, last_dot, has_comma, asc_text, desc_text, item_or_none,
}

-- A column id that a sort parameter can name: it is not empty, holds no comma, and starts with no
-- white space.
pub record IsSortable (id : Text) : Type 0 where
  pub filled : is_empty id ≡ false
  pub plain : has_comma id ≡ false
  pub flush : IsFlush id

has_comma-append : (s t : Text) → has_comma (s ++ t) ≡ (has_comma s || has_comma t)
has_comma-append [] t = refl
has_comma-append (c ∷ s) t = ground (arith, has_comma-append s t)

-- The last dot of a text that ends in a dot and a text without dots.
last_dot-append : (s t : Text) → last_dot t ≡ none → last_dot (s ++ b'.' ∷ t) ≡ some (length s)
unfolding last_dot
last_dot-append [] t h = rw h
last_dot-append (c ∷ s) t h = rw (last_dot-append s t h)

take-length : (s t : Text) → take (length s) (s ++ t) ≡ s
take-length [] t = refl
take-length (c ∷ s) t = ap (λ r. c ∷ r) (take-length s t)

drop-length : (s t : Text) (c : ℕ) → drop (suc (length s)) (s ++ c ∷ t) ≡ t
drop-length [] t c = refl
drop-length (d ∷ s) t c = drop-length s t c

-- The direction that a serialised item ends in.
abbrev direction_text : Bool → Text
direction_text desc = if desc then desc_text else asc_text

parse_sort_token-directed :
    (id : Text) (desc : Bool)
    → is_empty id ≡ false
    → parse_sort_token (id ++ b'.' ∷ direction_text desc) ≡ some (record { id = id; desc = desc })
unfolding parse_sort_token
parse_sort_token-directed [] desc filled = cc
parse_sort_token-directed (c ∷ s) true filled =
    rw (last_dot-append (c ∷ s) desc_text (unfold last_dot in refl), add-one)
      (rw (take-length s (b'.' ∷ desc_text), drop-length s desc_text b'.'))
parse_sort_token-directed (c ∷ s) false filled =
    rw (last_dot-append (c ∷ s) asc_text (unfold last_dot in refl), add-one)
      (rw (take-length s (b'.' ∷ asc_text), drop-length s asc_text b'.'))

direction-plain : (desc : Bool) → has_comma (b'.' ∷ direction_text desc) ≡ false
direction-plain true = refl
direction-plain false = refl

direction-trimmed :
    (desc : Bool) → trim_end (b'.' ∷ direction_text desc) ≡ b'.' ∷ direction_text desc
unfolding trim_end is_space
direction-trimmed true = refl
direction-trimmed false = refl

filled-append : (s t : Text) → is_empty t ≡ false → is_empty (s ++ t) ≡ false
filled-append [] t h = h
filled-append (c ∷ s) t h = refl

trim_end-append : (s t : Text) → trim_end t ≡ t → is_empty t ≡ false → trim_end (s ++ t) ≡ s ++ t
unfolding trim_end
trim_end-append [] t fixed filled = fixed
trim_end-append (c ∷ s) t fixed filled =
    rw (trim_end-append s t fixed filled, filled-append s t filled)

serialize_item-trim :
    (id : Text) (desc : Bool)
    → is_empty id ≡ false
    → IsFlush id
    → trim (id ++ b'.' ∷ direction_text desc) ≡ id ++ b'.' ∷ direction_text desc
unfolding trim
serialize_item-trim [] desc filled flush = cc
serialize_item-trim (c ∷ s) desc filled flush =
    rw (trim_start_of_IsFlush (c ∷ (s ++ b'.' ∷ direction_text desc)) flush)
      (trim_end-append (c ∷ s) (b'.' ∷ direction_text desc) (direction-trimmed desc) refl)

pub serialize-filled :
    (item : SortingItem) (more : List SortingItem)
    → is_empty (serialize_sorting_state (item ∷ more)) ≡ false
unfolding serialize_sorting_state serialize_item
serialize-filled item more = filled-append item.id (b'.' ∷ direction_text item.desc) refl

-- The sorting by a column, whose id is not empty, has no comma and does not start with a space, is
-- read back from the sort parameter as it was written; columns behind the first are dropped.
pub parse-serialize :
    (item : SortingItem) (more : List SortingItem)
    → IsSortable item.id
    → parse_sorting_state (some (serialize_sorting_state (item ∷ more))) ≡ item ∷ []
unfolding parse_sorting_state serialize_sorting_state serialize_item
parse-serialize item more ok = rw (
  serialize_item-trim item.id item.desc ok.filled ok.flush,
  filled-append item.id (b'.' ∷ direction_text item.desc) refl,
  has_comma-append item.id (b'.' ∷ direction_text item.desc),
  ok.plain,
  direction-plain item.desc,
  parse_sort_token-directed item.id item.desc ok.filled,
)

has_comma-take : (n : ℕ) (s : Text) → has_comma s ≡ false → has_comma (take n s) ≡ false
has_comma-take zero s h = refl
has_comma-take (suc n) [] h = refl
has_comma-take (suc n) (c ∷ s) h = ground (arith, has_comma-take n s)

IsFlush-take : (n : ℕ) (s : Text) → IsFlush s → IsFlush (take n s)
IsFlush-take zero s h = tt
IsFlush-take (suc n) [] h = tt
IsFlush-take (suc n) (c ∷ s) h = h

item_or_none-IsSortable :
    (id : Text) (desc : Bool) {item : SortingItem}
    → has_comma id ≡ false
    → IsFlush id
    → item_or_none id desc ≡ some item
    → IsSortable item.id
item_or_none-IsSortable [] desc plain flush h = cc
item_or_none-IsSortable (c ∷ s) desc {item} plain flush h =
    let e : c ∷ s ≡ item.id = ground arith in
    rw (← e) (record { filled = refl; plain = plain; flush = flush })

-- Whatever sorting the table shows comes from a column id that a sort parameter can name.
parse_at-IsSortable :
    (token : Text) (dot : Option ℕ) {item : SortingItem}
    → is_empty token ≡ false
    → has_comma token ≡ false
    → IsFlush token
    → parse_at token dot ≡ some item
    → IsSortable item.id
unfolding parse_at
parse_at-IsSortable token none {item} filled plain flush h =
    let e : token ≡ item.id = ground arith in
    rw (← e) (record { filled = filled; plain = plain; flush = flush })
parse_at-IsSortable token (some dot) {item} filled plain flush h =
    let direction = drop (dot + 1) token in
    elim (Bool-cases (text_eq direction asc_text)) [
      | inl up ↦
          item_or_none-IsSortable (take dot token) false (has_comma-take dot token plain)
            (IsFlush-take dot token flush) (rw up at h)
      | inr not_up ↦ elim (Bool-cases (text_eq direction desc_text)) [
        | inl down ↦
            item_or_none-IsSortable (take dot token) true (has_comma-take dot token plain)
              (IsFlush-take dot token flush) (rw (not_up, down) at h)
        | inr neither ↦
            let e : token ≡ item.id = ground arith in
            rw (← e) (record { filled = filled; plain = plain; flush = flush })
      ]
    ]

parse_sort_token-IsSortable :
    (token : Text) {item : SortingItem}
    → is_empty token ≡ false
    → has_comma token ≡ false
    → IsFlush token
    → parse_sort_token token ≡ some item
    → IsSortable item.id
unfolding parse_sort_token
parse_sort_token-IsSortable token filled plain flush h =
    parse_at-IsSortable token (last_dot token) filled plain flush (rw filled at h)

parse-cases :
    (value : Option Text)
    → (parse_sorting_state value ≡ [])
      ⊎ ((item : SortingItem) × (parse_sorting_state value ≡ item ∷ []) × IsSortable item.id)
unfolding parse_sorting_state
parse-cases none = inl refl
parse-cases (some value) = elim (Bool-cases (is_empty (trim value))) [
  | inl blank ↦ inl (rw blank)
  | inr filled ↦ elim (Bool-cases (has_comma (trim value))) [
    | inl listed ↦ inl (rw (filled, listed))
    | inr plain ↦ elim (Option-cases (parse_sort_token (trim value))) [
      | inl refused ↦ inl (rw (filled, plain, refused))
      | inr (item, e) ↦ inr (
        item,
        rw (filled, plain, e),
        parse_sort_token-IsSortable (trim value) filled plain (trim-IsFlush value) e,
      )
    ]
  ]
]

-- Reading any sort parameter, writing the sorting back and reading that again gives the same
-- sorting.
pub parse-serialize-parse :
    (value : Option Text)
    → parse_sorting_state (some (serialize_sorting_state (parse_sorting_state value)))
      ≡ parse_sorting_state value
parse-serialize-parse value = elim (parse-cases value) [
  | inl blank ↦ rw blank (unfold parse_sorting_state serialize_sorting_state in refl)
  | inr (item, e, ok) ↦ rw e (parse-serialize item [] ok)
]
