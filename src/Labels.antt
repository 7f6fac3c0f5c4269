-- ===== src/Labels.antt =====
-- What values are called on the pages: web/src/lib/enum-metadata.ts, web/src/features/directory/source.ts
-- and web/src/features/checkins/presentation.ts.
use woodgate.Common.{
  if◌then◌else◌, some_or, Text, codes, text_eq, String, Option, none, some, List, [], ◌∷◌, map,
}
use woodgate.Paging.{non_empty}

-- A name, with a description or a colour where there is one.
pub record EnumLabel : Type 0 where
  pub name : String
  pub description : Option String
  pub variant : Option String

-- `enumOptions`: a value with its label, for each value.
abbrev pub enum_options {ℓ} : {V : Type ℓ} → (V → EnumLabel) → List V → List (V × String)
enum_options metadata values = map (λ value. (value, EnumLabel.name (metadata value))) values

pub data DirectorySource : Type 0 where
  local entra : DirectorySource

abbrev pub directory_source_values : List DirectorySource
directory_source_values = local ∷ entra ∷ []

abbrev pub directory_sources : DirectorySource → EnumLabel
directory_sources local = record {
  name = "Local";
  description = some "Created and managed here.";
  variant = none;
}
directory_sources entra = record {
  name = "Entra";
  description = some "Synced from Microsoft Entra.";
  variant = none;
}

abbrev pub directory_source_options : List (DirectorySource × String)
directory_source_options = enum_options directory_sources directory_source_values

pub data CheckinDirection : Type 0 where
  check_in check_out : CheckinDirection

abbrev pub checkin_directions : CheckinDirection → EnumLabel
checkin_directions check_in = record {
  name = "Check In";
  description = none;
  variant = some "success";
}
checkin_directions check_out = record {
  name = "Check Out";
  description = none;
  variant = some "info";
}

abbrev pub checkin_direction_options : List (CheckinDirection × String)
checkin_direction_options = enum_options checkin_directions (check_in ∷ check_out ∷ [])

-- A direction as the server writes it; any other text counts as a check-out.
abbrev pub checkin_direction_metadata : Text → EnumLabel
checkin_direction_metadata direction =
    checkin_directions (if text_eq direction (codes "check_in") then check_in else check_out)

-- `nonEmpty(person.name) ?? person.email`
unfoldable pub checkin_person_label : Text → Text → Text
unfolding non_empty
checkin_person_label name email = some_or (non_empty (some name)) email
