-- ===== src/DataTable/Faceted/Trigger.antt =====
-- The button of web/src/components/faceted-filter.tsx, which tells what is chosen, and the items of its
-- picker. Icons are left out.
use woodgate.Common.{
  ltb, if◌then◌else◌, Bool-cases, and_left, and_right, any, all, keep, length, is_empty, Text,
  codes, text_eq, text_eq_sound, ℕ, suc, ◌≡◌, refl, sym, ap, ◌∙◌, inl, inr, Bool, true, false,
  Option, none, some, or_else, List, [], ◌∷◌, ◌++◌, map, arith,
}
use woodgate.DataTable.Faceted.{selected_values, AreDifferent, selected_values-AreDifferent}

pub record FacetOption : Type 0 where
  pub label : Text
  pub value : Text
  pub count : Option ℕ

-- `selectedValues.has(value)`
abbrev pub has : List Text → Text → Bool
has selected value = any (λ t. text_eq t value) selected

pub data TriggerBadges : Type 0 where
  no_badges : TriggerBadges
  count_badge : ℕ → TriggerBadges
  labels : List Text → TriggerBadges

abbrev pub chosen_options : List Text → List FacetOption → List FacetOption
chosen_options selected options = keep (λ option. has selected (FacetOption.value option)) options

unfoldable pub trigger_badges : List FacetOption → (value : List Text) → TriggerBadges
unfolding selected_values
trigger_badges options value =
    let selected = selected_values value in
    if is_empty selected
    then no_badges
    else if ltb 2 (length selected)
    then count_badge (length selected)
    else labels (map FacetOption.label (chosen_options selected options))

-- The label of the button that clears the filter, where it is there.
unfoldable pub clear_label :
    (to_lower : Text → Text) → (title : Option Text) → List Text → Option Text
unfolding selected_values
clear_label to_lower title value =
    if is_empty (selected_values value)
    then none
    else some (elim title [
      | none ↦ codes "Clear filter"
      | some t ↦
          if is_empty t
          then codes "Clear filter"
          else codes "Clear " ++ to_lower t ++ codes " filter"
    ])

-- `optionsByValue.get`: the last option with the value.
unfoldable pub option_of : List FacetOption → Text → Option FacetOption
option_of [] value = none
option_of (option ∷ options) value =
    let later = option_of options value in
    or_else later (if text_eq option.value value then some option else none)

-- How many choices the button tells of.
abbrev pub told : TriggerBadges → ℕ
told no_badges = 0
told (count_badge n) = n
told (labels ts) = length ts

abbrev pub option_values : List FacetOption → List Text
option_values = map FacetOption.value

length-map : {A B : Type 0} (f : A → B) (xs : List A) → length (map f xs) ≡ length xs
length-map f [] = refl
length-map f (x ∷ xs) = ap suc (length-map f xs)

none_chosen : (options : List FacetOption) → chosen_options [] options ≡ []
none_chosen [] = refl
none_chosen (option ∷ options) = none_chosen options

text_eq_sym : (s t : Text) → text_eq s t ≡ text_eq t s
text_eq_sym [] [] = refl
text_eq_sym [] (d ∷ t) = refl
text_eq_sym (c ∷ s) [] = refl
text_eq_sym (c ∷ s) (d ∷ t) = ground (arith, text_eq_sym s t)

-- One choice more, of an option that is not there, changes nothing.
absent_choice :
    (t : Text) (selected : List Text) (options : List FacetOption)
    → any (λ u. text_eq u t) (option_values options) ≡ false
    → chosen_options (t ∷ selected) options ≡ chosen_options selected options
absent_choice t selected [] absent = refl
absent_choice t selected (option ∷ options) absent =
    ground (arith, text_eq_sym t option.value, absent_choice t selected options)

-- One choice more, of an option that is there once.
one_more :
    (t : Text) (selected : List Text) (options : List FacetOption)
    → has selected t ≡ false
    → AreDifferent (option_values options)
    → any (λ u. text_eq u t) (option_values options) ≡ true
    → length (chosen_options (t ∷ selected) options)
      ≡ suc (length (chosen_options selected options))
one_more t selected [] new different there = cc
one_more t selected (option ∷ options) new (once, different) there =
    elim (Bool-cases (text_eq option.value t)) [
      | inl same ↦
          let at = text_eq_sound option.value t same in
          let gone = ap (λ v. any (λ u. text_eq u v) (option_values options)) (sym at) ∙ once in
          let unchosen = ap (has selected) at ∙ new in
          rw (text_eq_sym t option.value ∙ same, unchosen)
            (ap suc (ap length (absent_choice t selected options gone)))
      | inr other ↦
          ground (arith, text_eq_sym t option.value, one_more t selected options new different)
    ]

-- As many options are chosen as there are choices, where each choice is an option.
chosen_options-length :
    (selected : List Text) (options : List FacetOption)
    → AreDifferent selected
    → AreDifferent (option_values options)
    → all (has (option_values options)) selected ≡ true
    → length (chosen_options selected options) ≡ length selected
chosen_options-length [] options new different there = ap length (none_chosen options)
chosen_options-length (t ∷ selected) options (new, news) different there =
    one_more t selected options new different (and_left _ _ there)
    ∙ ap suc (chosen_options-length selected options news different (and_right _ _ there))

told_lem :
    (selected names : List Text)
    → length names ≡ length selected
    → told (
        if is_empty selected
        then no_badges
        else if ltb 2 (length selected)
        then count_badge (length selected)
        else labels names)
      ≡ length selected
told_lem [] names h = refl
told_lem (t ∷ ts) names h = elim (Bool-cases (ltb 2 (length (t ∷ ts)))) [
  | inl many ↦ rw many refl
  | inr few ↦ rw few h
]

-- Where the options have different values and each choice is one of them, the button tells of as many
-- choices as are made, by their labels or by their number.
pub trigger_badges-told :
    (options : List FacetOption) (value : List Text)
    → AreDifferent (option_values options)
    → all (has (option_values options)) (selected_values value) ≡ true
    → told (trigger_badges options value) ≡ length (selected_values value)
unfolding trigger_badges
trigger_badges-told options value different there = told_lem (selected_values value) _ (
    length-map FacetOption.label (chosen_options (selected_values value) options)
    ∙ chosen_options-length (selected_values value) options (selected_values-AreDifferent value)
        different there)
