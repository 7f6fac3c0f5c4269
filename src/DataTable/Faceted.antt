-- ===== src/DataTable/Faceted.antt =====
-- web/src/components/faceted-filter.tsx and components/data-table/data-table-faceted-filter.tsx: the
-- choices of a column, between its filter value and the picker.
pub mod Trigger
use woodgate.Common.{
  Bool-cases, inl, inr, text_eq, if◌then◌else◌, is_empty, first, any, Text, ◌≡◌, refl, ap, Bool,
  false, not, Option, none, some, List, [], ◌∷◌, map, arith, keep,
}
use woodgate.DataTable.Query.{FieldValue, undefined, array, text, scalar_text}

-- The column's filter value as the picker's choices.
unfoldable pub faceted_value : FieldValue → List Text
unfolding scalar_text
faceted_value (array vs) = map scalar_text vs
faceted_value _ = []

-- `setFilter`
unfoldable pub set_filter : List Text → FieldValue
set_filter next = if is_empty next then undefined else array (map text next)

-- `Array.from(new Set(value))`
abbrev pub without_text : Text → List Text → List Text
without_text t ts = keep (λ u. not (text_eq u t)) ts

unfoldable pub selected_values : List Text → List Text
selected_values [] = []
selected_values (t ∷ ts) = t ∷ without_text t (selected_values ts)

-- The picker of one choice: its value, and what it hands on.
unfoldable pub single_value : List Text → Option Text
unfolding selected_values
single_value value = first (selected_values value)

unfoldable pub single_change : Option Text → List Text
single_change none = []
single_change (some next) = if is_empty next then [] else next ∷ []

map-text : (ts : List Text) → map scalar_text (map text ts) ≡ ts
unfolding scalar_text
map-text [] = refl
map-text (t ∷ ts) = ap (λ r. t ∷ r) (map-text ts)

-- The choices that the picker hands over are the ones that it is given next.
pub faceted_value-set_filter : (next : List Text) → faceted_value (set_filter next) ≡ next
unfolding faceted_value set_filter
faceted_value-set_filter [] = refl
faceted_value-set_filter (t ∷ ts) = map-text (t ∷ ts)

abbrev pub AreDifferent : List Text → Type 0
AreDifferent [] = Unit
AreDifferent (t ∷ ts) = (any (λ u. text_eq u t) ts ≡ false) × AreDifferent ts

any-keep : (p q : Text → Bool) (ts : List Text) → any p ts ≡ false → any p (keep q ts) ≡ false
any-keep p q [] h = refl
any-keep p q (t ∷ ts) h = ground (arith, any-keep p q ts)

without_text_gone : (t : Text) (ts : List Text) → any (λ u. text_eq u t) (without_text t ts) ≡ false
without_text_gone t [] = refl
without_text_gone t (u ∷ ts) = ground (arith, without_text_gone t ts)

keep-AreDifferent : (q : Text → Bool) (ts : List Text) → AreDifferent ts → AreDifferent (keep q ts)
keep-AreDifferent q [] h = tt
keep-AreDifferent q (t ∷ ts) (new, h) = elim (Bool-cases (q t)) [
  | inl kept ↦ rw kept (any-keep _ q ts new, keep-AreDifferent q ts h)
  | inr gone ↦ rw gone (keep-AreDifferent q ts h)
]

-- The picker is given no choice twice.
pub selected_values-AreDifferent : (value : List Text) → AreDifferent (selected_values value)
unfolding selected_values
selected_values-AreDifferent [] = tt
selected_values-AreDifferent (t ∷ ts) = (
  without_text_gone t (selected_values ts),
  keep-AreDifferent _ (selected_values ts) (selected_values-AreDifferent ts),
)
