-- ===== src/SearchInput.antt =====
-- web/src/components/search-combobox.tsx and components/data-table/data-table-search-input.tsx:
-- the text of a search field and the query that follows it behind a timer.
pub mod Settles
pub mod Selected
pub mod Merge
pub mod Table
use woodgate.Common.{
  if◌then◌else◌, Text, text_eq, trim, is_empty, ℕ, Bool, true, false, not, Option, none, some, List,
  [], ◌∷◌,
}
use woodgate.Debounce.{Timers, no_timers, cancel, debounce, elapse}

-- `useSearchCombobox`
pub record Query : Type 0 where
  pub input_value : Text
  pub q : Text
  pub timers : Timers Text

unfoldable pub query_of : Text → Query
query_of initial = record { input_value = initial; q = trim initial; timers = no_timers }

unfoldable pub update_input : Query → Text → Query
update_input s next =
    let query = trim next in
    if is_empty query
    then record { input_value = next; q = []; timers = cancel s.timers }
    else record { input_value = next; q = s.q; timers = debounce s.timers query }

-- The callback's `setQ`.
abbrev pub set_q : Query → Timers Text × Option Text → Query
set_q s (timers, none) = record s { timers = timers }
set_q s (timers, some next) = record s { q = next; timers = timers }

unfoldable pub query_elapsed : Query → ℕ → Query
query_elapsed s id = set_q s (elapse s.timers id)

unfoldable pub is_pending : Query → Bool
is_pending s = not (text_eq (trim s.input_value) s.q)

-- `SearchCombobox` over `useSearchCombobox`, in a form that keeps the selected value.
module _ {ℓ} {Item : Type ℓ} (item_label : Item → Text) where
  pub record Combobox : Type ℓ where
    pub query : Query
    pub value : Option Item

  abbrev pub label_or_empty : Option Item → Text
  label_or_empty none = []
  label_or_empty (some item) = item_label item

  unfoldable pub combobox_of : Option Item → Combobox
  combobox_of value = record { query = query_of (label_or_empty value); value = value }

  -- `value !== null && next !== itemLabel(value)` drops the value.
  abbrev pub kept_value : Option Item → Text → Option Item
  kept_value none next = none
  kept_value (some item) next = if text_eq next (item_label item) then some item else none

  unfoldable pub on_input_value_change : Combobox → (item_press : Bool) → Text → Combobox
  on_input_value_change s true next = s
  on_input_value_change s false next = record {
    query = update_input s.query next;
    value = kept_value s.value next;
  }

  unfoldable pub on_value_change : Combobox → Option Item → Combobox
  on_value_change s next = record {
    query = update_input s.query (label_or_empty next);
    value = next;
  }

  pub data ComboboxEvent : Type ℓ where
    input_changed : (item_press : Bool) → Text → ComboboxEvent
    value_changed : Option Item → ComboboxEvent
    elapsed : ℕ → ComboboxEvent

  unfoldable pub combobox_step : Combobox → ComboboxEvent → Combobox
  unfolding on_input_value_change on_value_change
  combobox_step s (input_changed item_press next) = on_input_value_change s item_press next
  combobox_step s (value_changed next) = on_value_change s next
  combobox_step s (elapsed id) = record s { query = query_elapsed s.query id }

  unfoldable pub combobox_run : Combobox → List ComboboxEvent → Combobox
  combobox_run s [] = s
  combobox_run s (event ∷ events) = combobox_run (combobox_step s event) events
