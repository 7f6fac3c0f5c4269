-- ===== src/Forms/Checkin/Eligible.antt =====
-- The person of a check-in is one of those of its location, however the two fields are changed.
use woodgate.Common.{
  ◌==◌, ◌&&◌, and_right, ==_refl, ==_iff, if◌then◌else◌, Bool-cases, ltb, ℕ, ◌≡◌, refl, inl, inr,
  Bool, true, false, not, Option, none, some, List, [], ◌∷◌,
}
use woodgate.Forms.Checkin.{CheckinValues, same_id, location_changed, person_changed}

-- `eligible location person` says that the server lists the person for that location.
module _ (eligible : ℕ → ℕ → Bool) where
  pub data ChoiceEvent : Type 0 where
    location_chosen : Option ℕ → ChoiceEvent
    person_cleared : ChoiceEvent
    person_picked : ℕ → ChoiceEvent

  -- The picker offers the people of the location that is chosen.
  abbrev pub offers : Option ℕ → ℕ → Bool
  offers none person = false
  offers (some location) person = ltb 0 location && eligible location person

  unfoldable pub choice_step : CheckinValues → ChoiceEvent → CheckinValues
  unfolding location_changed person_changed
  choice_step value (location_chosen location) = location_changed value location
  choice_step value person_cleared = person_changed value none
  choice_step value (person_picked person) =
      if offers value.location person then person_changed value (some person) else value

  unfoldable pub choice_run : CheckinValues → List ChoiceEvent → CheckinValues
  unfolding choice_step
  choice_run value [] = value
  choice_run value (event ∷ events) = choice_run (choice_step value event) events

  abbrev pub is_listed : Option ℕ → Option ℕ → Bool
  is_listed location none = true
  is_listed none (some person) = false
  is_listed (some location) (some person) = eligible location person

  abbrev pub IsListed : Option ℕ → Option ℕ → Type 0
  IsListed location person = is_listed location person ≡ true

  changed-IsListed :
      (location old person : Option ℕ)
      → IsListed old person
      → IsListed location (if not (same_id location old) then none else person)
  changed-IsListed none none person h = h
  changed-IsListed none (some b) person h = refl
  changed-IsListed (some a) none person h = refl
  changed-IsListed (some a) (some b) person h = elim (Bool-cases (a == b)) [
    | inl same ↦ let (to, from) = ==_iff a b in rw (to same, ==_refl b) h
    | inr differ ↦ rw differ
  ]

  offered-IsListed :
      (location : Option ℕ) (person : ℕ)
      → offers location person ≡ true
      → IsListed location (some person)
  offered-IsListed none person h = cc
  offered-IsListed (some location) person h = and_right (ltb 0 location) _ h

  step-IsListed :
      (value : CheckinValues) (event : ChoiceEvent)
      → IsListed value.location value.person
      → IsListed (choice_step value event).location (choice_step value event).person
  unfolding choice_step location_changed person_changed
  step-IsListed value (location_chosen location) h =
      changed-IsListed location value.location value.person h
  step-IsListed value person_cleared h = refl
  step-IsListed value (person_picked person) h = elim (Bool-cases (offers value.location person)) [
    | inl offered ↦ rw offered (offered-IsListed value.location person offered)
    | inr refused ↦ rw refused h
  ]

  -- If the person that a form starts with, if any, is one of its location's, then however its
  -- location and its person are changed, a person that is chosen is listed for the location that is
  -- chosen.
  pub choice_run-IsListed :
      (value : CheckinValues) (events : List ChoiceEvent)
      → IsListed value.location value.person
      → IsListed (choice_run value events).location (choice_run value events).person
  unfolding choice_run
  choice_run-IsListed value [] h = h
  choice_run-IsListed value (event ∷ events) h =
      choice_run-IsListed (choice_step value event) events (step-IsListed value event h)
