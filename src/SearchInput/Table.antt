-- ===== src/SearchInput/Table.antt =====
-- web/src/components/data-table/data-table-search-input.tsx: a field whose value its owner keeps.
-- The owner here stores what the field writes, as the `q` of a table's filters is stored.
pub mod Arrives
use woodgate.Common.{
  if◌then◌else◌, Text, text_eq, trim, is_empty, some_or, ℕ, Bool, not, ◌||◌, Option, none, some,
  List, [], ◌∷◌,
}
use woodgate.Debounce.{Timers, no_timers, debounce, elapse}

-- `value` is the property that the owner passes.
pub record SearchField : Type 0 where
  pub value : Text
  pub draft : Text
  pub previous_value : Text
  pub timers : Timers Text

unfoldable pub field_of : Text → SearchField
field_of value = record { value = value; draft = value; previous_value = value; timers = no_timers }

-- The part of the rendering that sets state, for a value that may be new.
unfoldable pub render : SearchField → Text → SearchField
render s value =
    if not (text_eq s.previous_value value)
    then record { value = value; draft = value; previous_value = value; timers = s.timers }
    else record s { value = value }

unfoldable pub search_pending : SearchField → (loading : Bool) → Bool
search_pending s loading = loading || not (text_eq (trim s.draft) s.value)

-- The input's `onChange`.
unfoldable pub on_change : SearchField → Text → SearchField
on_change s text = record s { draft = text; timers = debounce s.timers text }

-- What the debounced callback hands to `onValueChange`.
unfoldable pub written_value : Text → Option Text
written_value next = let trimmed = trim next in if is_empty trimmed then none else some trimmed

-- The owner stores the value, the empty text for `undefined`, and the field is rendered with it.
abbrev pub store : SearchField → Timers Text × Option Text → SearchField
store s (timers, none) = record s { timers = timers }
store s (timers, some next) =
    render (record s { timers = timers }) (some_or (written_value next) [])

unfoldable pub field_elapsed : SearchField → ℕ → SearchField
field_elapsed s id = store s (elapse s.timers id)

pub data FieldEvent : Type 0 where
  changed : Text → FieldEvent
  elapsed : ℕ → FieldEvent

unfoldable pub field_step : SearchField → FieldEvent → SearchField
field_step s (changed text) = on_change s text
field_step s (elapsed id) = field_elapsed s id

unfoldable pub field_run : SearchField → List FieldEvent → SearchField
field_run s [] = s
field_run s (event ∷ events) = field_run (field_step s event) events
