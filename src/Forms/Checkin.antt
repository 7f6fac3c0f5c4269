-- ===== src/Forms/Checkin.antt =====
-- web/src/features/checkins/fields.tsx. `format` and `to_iso` are date-fns' `format` of a stored
-- time with "yyyy-MM-dd'T'HH:mm:ss", in local time, and the platform's `new Date(text).toISOString()`.
pub mod Times
pub mod Eligible
use woodgate.Common.{
  ◌==◌, if◌then◌else◌, Text, codes, text_eq, trim, take, drop, is_empty, ltb, ℕ, ◌+◌, Bool, true,
  false, not, ◌&&◌, ◌||◌, Option, none, some, List, [], ◌∷◌, ◌++◌, is_some, some_or,
}
use woodgate.Common.Result.{Result, ok, ◌>>=◌}
use woodgate.Upload.{Failure}
use woodgate.Forms.{SubmitEffect, submit}

pub data Direction : Type 0 where
  check_in check_out : Direction

-- A location and a person as the form holds them, by what the submission reads.
pub record Checkin : Type 0 where
  pub location : ℕ
  pub person : ℕ
  pub direction : Direction
  pub notes : Option Text
  pub occurred_at : Text

pub record CheckinValues : Type 0 where
  pub location : Option ℕ
  pub person : Option ℕ
  pub direction : Option Direction
  pub notes : Text
  pub occurred_date : Text
  pub occurred_time : Text

pub record CheckinCreate : Type 0 where
  pub location_id : ℕ
  pub user_id : ℕ
  pub direction : Direction
  pub notes : Text

-- The toggle group's `onValueChange`, at its first value.
unfoldable pub direction_changed : Option Text → Option Direction
direction_changed none = none
direction_changed (some v) =
    if text_eq v (codes "check_in")
    then some check_in
    else if text_eq v (codes "check_out")
    then some check_out
    else none

-- The location's `onChange`, by the ids: a new location clears the person.
abbrev pub same_id : Option ℕ → Option ℕ → Bool
same_id none none = true
same_id none (some b) = false
same_id (some a) none = false
same_id (some a) (some b) = a == b

unfoldable pub location_changed : CheckinValues → Option ℕ → CheckinValues
location_changed value location = record value {
  location = location;
  person = if not (same_id location value.location) then none else value.person;
}

-- The person's field, which is a picker only while there is a location id, and its `onChange`.
abbrev pub has_picker : Option ℕ → Bool
has_picker none = false
has_picker (some id) = ltb 0 id

unfoldable pub person_changed : CheckinValues → Option ℕ → CheckinValues
person_changed value person = record value { person = person }

-- The part of the schema that is about what must be there; `initial` says that a check-in is edited.
unfoldable pub is_complete : (initial : Bool) → CheckinValues → Bool
is_complete initial value =
    has_picker value.location
    && has_picker value.person
    && is_some value.direction
    && (not initial || not (is_empty value.occurred_date))
    && (not initial || not (is_empty value.occurred_time))

module _ (format : Text → Text) where
  unfoldable pub initial_time : Option Checkin → Text
  initial_time none = []
  initial_time (some checkin) = format checkin.occurred_at

  -- `defaultValues`
  unfoldable pub checkin_values : Option Checkin → CheckinValues
  unfolding initial_time
  checkin_values none = record {
    location = none;
    person = none;
    direction = none;
    notes = [];
    occurred_date = [];
    occurred_time = [];
  }
  checkin_values (some checkin) = record {
    location = some checkin.location;
    person = some checkin.person;
    direction = some checkin.direction;
    notes = some_or checkin.notes [];
    occurred_date = take 10 (initial_time (some checkin));
    occurred_time = drop 11 (initial_time (some checkin));
  }

module _ (format : Text → Text) (to_iso : Text → Result Failure Text) where
  -- The second argument of the page's `onSubmit`.
  unfoldable pub occurred_at : Option Checkin → CheckinValues → Result Failure (Option Text)
  occurred_at none value = ok none
  occurred_at (some checkin) value =
      let entered = value.occurred_date ++ b'T' ∷ value.occurred_time in
      if text_eq entered (initial_time format (some checkin))
      then ok (some checkin.occurred_at)
      else to_iso entered >>= λ time. ok (some time)

  module _ (on_submit : CheckinCreate → Option Text → Result Failure ℕ) where
    unfoldable pub save_checkin :
        Option Checkin → CheckinValues → (location person : ℕ) → Direction → Result Failure ℕ
    save_checkin initial value location person direction = occurred_at initial value >>= λ time.
        on_submit
          (record {
            location_id = location;
            user_id = person;
            direction = direction;
            notes = trim value.notes;
          })
          time

    -- The form's `onSubmit`: nothing is done while a part is missing.
    abbrev pub submit_parts :
        Option Checkin
        → CheckinValues
        → Option ℕ
        → Option ℕ
        → Option Direction
        → List (SubmitEffect CheckinValues)
    submit_parts initial value (some location) (some person) (some direction) =
        submit (codes "Unable to save check-in.") value
          (save_checkin initial value location person direction)
    submit_parts initial value _ _ _ = []

    unfoldable pub submit_checkin :
        Option Checkin → CheckinValues → List (SubmitEffect CheckinValues)
    submit_checkin initial value =
        submit_parts initial value value.location value.person value.direction
