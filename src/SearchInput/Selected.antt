-- ===== src/SearchInput/Selected.antt =====
-- The text of a combobox and its selected value.
use woodgate.Common.{
  Bool-cases, Text, text_eq, text_eq_sound, ℕ, ◌≡◌, refl, inl, inr, true, false, Option, none, some,
  List, [], ◌∷◌, arith,
}
use woodgate.Debounce.{Timers, elapse}
use woodgate.SearchInput.{
  Query, query_of, update_input, set_q, query_elapsed, Combobox, label_or_empty, combobox_of,
  kept_value, on_input_value_change, on_value_change, ComboboxEvent, input_changed, value_changed,
  elapsed, combobox_step, combobox_run,
}

module _ {ℓ} {Item : Type ℓ} (item_label : Item → Text) where
  -- The field shows the label of the selected value.
  abbrev pub IsShown : Option Item → Text → Type 0
  IsShown none text = Unit
  IsShown (some item) text = text ≡ item_label item

  input_value-update : (s : Query) (next : Text) → (update_input s next).input_value ≡ next
  unfolding update_input
  input_value-update s next = ground arith

  input_value-set_q :
      (s : Query) (r : Timers Text × Option Text) → (set_q s r).input_value ≡ s.input_value
  input_value-set_q s (timers, none) = refl
  input_value-set_q s (timers, some next) = refl

  input_value-elapsed : (s : Query) (id : ℕ) → (query_elapsed s id).input_value ≡ s.input_value
  unfolding query_elapsed
  input_value-elapsed s id = input_value-set_q s (elapse s.timers id)

  kept_value-IsShown :
      (value : Option Item) (next : Text) → IsShown (kept_value item_label value next) next
  kept_value-IsShown none next = tt
  kept_value-IsShown (some item) next = elim (Bool-cases (text_eq next (item_label item))) [
    | inl same ↦ rw same (text_eq_sound next (item_label item) same)
    | inr differ ↦ rw differ tt
  ]

  label-IsShown : (value : Option Item) → IsShown value (label_or_empty item_label value)
  label-IsShown none = tt
  label-IsShown (some item) = refl

  step-IsShown :
      (s : Combobox item_label) (event : ComboboxEvent item_label)
      → IsShown s.value s.query.input_value
      → IsShown
          (combobox_step item_label s event).value
          (combobox_step item_label s event).query.input_value
  unfolding combobox_step on_input_value_change on_value_change
  step-IsShown s (input_changed true next) shown = shown
  step-IsShown s (input_changed false next) shown =
      rw (input_value-update s.query next) (kept_value-IsShown s.value next)
  step-IsShown s (value_changed next) shown =
      rw (input_value-update s.query (label_or_empty item_label next)) (label-IsShown next)
  step-IsShown s (elapsed id) shown = rw (input_value-elapsed s.query id) shown

  run-IsShown :
      (s : Combobox item_label) (events : List (ComboboxEvent item_label))
      → IsShown s.value s.query.input_value
      → IsShown
          (combobox_run item_label s events).value
          (combobox_run item_label s events).query.input_value
  unfolding combobox_run
  run-IsShown s [] shown = shown
  run-IsShown s (event ∷ events) shown =
      run-IsShown (combobox_step item_label s event) events (step-IsShown s event shown)

  combobox_of-IsShown :
      (value : Option Item)
      → IsShown
          (combobox_of item_label value).value
          (combobox_of item_label value).query.input_value
  unfolding combobox_of query_of
  combobox_of-IsShown value = label-IsShown value

  -- However the field is typed into and its items are picked, a value that is selected is the one
  -- whose label the field shows.
  pub combobox_run-IsShown :
      (value : Option Item) (events : List (ComboboxEvent item_label))
      → IsShown
          (combobox_run item_label (combobox_of item_label value) events).value
          (combobox_run item_label (combobox_of item_label value) events).query.input_value
  combobox_run-IsShown value events =
      run-IsShown (combobox_of item_label value) events (combobox_of-IsShown value)
