-- ===== src/Examples/Forms.antt =====
-- Concrete submissions of the forms.
use woodgate.Common.{
  if◌then◌else◌, codes, ◌≡◌, refl, Bool, true, false, not, ◌&&◌, Text, Option, none, some, List, [],
  ◌∷◌, ℕ, ◌==◌, keep, arith,
}
use woodgate.Common.Result.{Result, ok, err}
use woodgate.Upload.{Failure, thrown}
use woodgate.Forms.Fields.{
  reveals, checkin_fields, checkin_refused, station_fields, station_refused,
}
use woodgate.Forms.Fields.Revealed.{Revealed, checkin, refused-Revealed}
use woodgate.Forms.Role.{
  Level, no_level, view, edit, level_text, view_checked, edit_checked, view_changed, edit_changed,
}
use woodgate.Forms.Role.Boxes.{boxes-show}
use woodgate.Forms.Checkin.{check_in, Checkin, CheckinValues, checkin_values, occurred_at}
use woodgate.Forms.Checkin.Times.{occurred_at-kept}
use woodgate.Forms.Checkin.Eligible.{
  location_chosen, person_picked, choice_run, IsListed, choice_run-IsListed,
}
use woodgate.Forms.Location.{
  StationValues, nothing, upload, Location, location_image, LocationValues, LocationMutation,
  location_mutation, save_location,
}
use woodgate.Forms.Location.Save.{save_location-keeps}
use woodgate.Forms.Location.Preview.{
  file_chosen, removed, image_run, image_field_of, the_url, preview_url, unmounted, image_run-live,
}
use woodgate.Common.{text_eq}

-- A reading of levels that knows the three of them.
abbrev level_of_text : Option Text → Level
level_of_text none = no_level
level_of_text (some t) =
    if text_eq t (codes "view") then view else if text_eq t (codes "edit") then edit else no_level

level_of_text-reads : (level : Level) → level_of_text (some (level_text level)) ≡ level
level_of_text-reads no_level = refl
level_of_text-reads view = refl
level_of_text-reads edit = refl

abbrev levels : List (Text × Level)
levels = (codes "users", edit) ∷ []

abbrev users : Text
users = codes "users"

boxes-show_example :
    (view_checked level_of_text (view_changed level_of_text levels users false) users ≡ false)
    × (edit_checked level_of_text (edit_changed levels users false) users ≡ false)
    × (view_checked level_of_text (edit_changed levels users false) users ≡ true)
    × (edit_checked level_of_text (view_changed level_of_text levels users false) users
        ≡ (false && edit_checked level_of_text levels users))
    × ((edit_checked level_of_text levels users && not (view_checked level_of_text levels users))
        ≡ false)
boxes-show_example = boxes-show level_of_text level_of_text-reads levels users false

-- A clock that stands still, and one that takes every text for a time.
abbrev noon : Text → Text
noon t = codes "2026-01-02T12:00:00"

abbrev as_is : Text → Result Failure Text
as_is t = ok t

abbrev arrival : Checkin
arrival = record {
  location = 3;
  person = 7;
  direction = check_in;
  notes = none;
  occurred_at = codes "2026-01-02T12:00:00.250Z";
}

abbrev corrected : CheckinValues
corrected = record (checkin_values noon (some arrival)) { notes = codes "late" }

occurred_at-kept_example :
    occurred_at noon as_is (some arrival) corrected ≡ ok (some arrival.occurred_at)
occurred_at-kept_example =
    occurred_at-kept noon as_is arrival corrected (codes "2026-01-02") (codes "12:00:00") refl refl
      refl refl

abbrev no_person : CheckinValues
no_person = record corrected { person = none }

abbrev own_guest : ℕ → ℕ → Bool
own_guest location person = location == person

choice_run-IsListed_example :
    IsListed own_guest
      (choice_run own_guest no_person (location_chosen (some 7) ∷ person_picked 7 ∷ [])).location
      (choice_run own_guest no_person (location_chosen (some 7) ∷ person_picked 7 ∷ [])).person
choice_run-IsListed_example =
    choice_run-IsListed own_guest no_person (location_chosen (some 7) ∷ person_picked 7 ∷ []) refl

abbrev first_one : Failure → Failure → Failure
first_one e e' = e

abbrev lost : Text → Result Failure ℕ
lost file = err thrown

abbrev kept : Text → Result Failure ℕ
kept file = ok 9

abbrev saved : LocationMutation → Result Failure ℕ
saved body = ok 3

abbrev hall : LocationValues Text
hall = record {
  name = codes "Hall";
  description = [];
  enabled = true;
  notes = false;
  photo = true;
  background = upload (codes "hall.png") 0;
  logo = nothing;
  groups = [];
}

abbrev old_hall : Location
old_hall = record {
  name = codes "Old Hall";
  description = none;
  enabled = true;
  notes = false;
  photo = true;
  background = record {
    object_id = some 4;
    file = some (codes "hall.png");
    url = some (codes "/hall");
  };
  logo = record { object_id = none; file = none; url = none };
  groups = [];
}

abbrev renamed : LocationValues Text
renamed = record hall {
  background = location_image old_hall.background;
  logo = location_image old_hall.logo;
}

save_location-keeps_example : save_location first_one lost kept saved renamed ≡ (
  location_mutation renamed (some 4) none ∷ [],
  saved (location_mutation renamed (some 4) none),
)
save_location-keeps_example =
    save_location-keeps first_one lost kept saved old_hall renamed refl refl refl refl

image_run-live_example :
    ((image_run Text (image_field_of Text nothing) (file_chosen (some users) ∷ removed ∷ [])).live
      ≡ the_url Text (
          preview_url Text
            (image_run Text
              (image_field_of Text nothing)
              (file_chosen (some users) ∷ removed ∷ [])).value))
    × (unmounted Text
          (image_run Text (image_field_of Text nothing) (file_chosen (some users) ∷ removed ∷ []))
        ≡ [])
image_run-live_example = image_run-live Text nothing (file_chosen (some users) ∷ removed ∷ []) refl

abbrev no_station : StationValues
no_station = record { name = codes "Gate"; location = none; enabled = true }

-- A check-in without a direction, on a day that is not a date.
abbrev unreadable : CheckinValues
unreadable = record {
  location = some 3;
  person = some 4;
  direction = none;
  notes = [];
  occurred_date = codes "today";
  occurred_time = [];
}

refused-Revealed_example :
    Revealed
      (checkin_fields true)
      (checkin_refused (λ _. true) (λ _. false) (λ _. true) true unreadable)
    × (keep (λ name. not (reveals station_fields name)) (station_refused no_station)
        ≡ codes "location" ∷ [])
refused-Revealed_example =
    refused-Revealed (λ _. true) (λ _. false) (λ _. true) Text (checkin true unreadable) no_station
      (refl, refl, λ absent. ground arith)
