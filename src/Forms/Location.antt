-- ===== src/Forms/Location.antt =====
-- web/src/features/locations/fields.tsx, create.tsx, edit.tsx and editable-image.tsx; and the form of
-- features/stations/fields.tsx. `File` is a file of the browser.
pub mod Save
pub mod Preview
pub mod Picker
use woodgate.Common.{
  if◌then◌else◌, Text, codes, trim, is_empty, ltb, ℕ, Bool, true, false, not, ◌&&◌, Option, none,
  some, List, [], ◌∷◌, some_or,
}
use woodgate.Common.Result.{Result, ok, err, ◌>>=◌}
use woodgate.Upload.{Failure}
use woodgate.Forms.{SubmitEffect, submit}

-- A preview is the number of the object URL that was made for it.
pub data ImageValue (File : Type 0) : Type 0 where
  nothing : ImageValue File
  stored : (object_id : ℕ) (filename url : Text) → ImageValue File
  upload : File → (preview : ℕ) → ImageValue File

-- What the server says of one image of a location.
pub record StoredImage : Type 0 where
  pub object_id : Option ℕ
  pub file : Option Text  -- by its name
  pub url : Option Text

pub record Location : Type 0 where
  pub name : Text
  pub description : Option Text
  pub enabled : Bool
  pub notes : Bool
  pub photo : Bool
  pub background : StoredImage
  pub logo : StoredImage
  pub groups : List ℕ  -- by their ids

-- `locationImage`, for a location that is there.
abbrev pub stored_image : {File : Type 0} → Option ℕ → Option Text → Option Text → ImageValue File
stored_image (some object_id) (some filename) (some url) =
    if ltb 0 object_id && not (is_empty url) then stored object_id filename url else nothing
stored_image _ _ _ = nothing

unfoldable pub location_image : {File : Type 0} → StoredImage → ImageValue File
location_image image = stored_image image.object_id image.file image.url

module _ (File : Type 0) where
  pub record LocationValues : Type 0 where
    pub name : Text
    pub description : Text
    pub enabled : Bool
    pub notes : Bool
    pub photo : Bool
    pub background : ImageValue File
    pub logo : ImageValue File
    pub groups : List ℕ

  -- `defaultValues`
  unfoldable pub location_values : Option Location → LocationValues
  unfolding location_image
  location_values none = record {
    name = [];
    description = [];
    enabled = true;
    notes = false;
    photo = false;
    background = nothing;
    logo = nothing;
    groups = [];
  }
  location_values (some location) = record {
    name = location.name;
    description = some_or location.description [];
    enabled = location.enabled;
    notes = location.notes;
    photo = location.photo;
    background = location_image location.background;
    logo = location_image location.logo;
    groups = location.groups;
  }

-- `schema`, as far as it can refuse a value of the form.
unfoldable pub is_valid_location : {File : Type 0} → LocationValues File → Bool
is_valid_location value = not (is_empty (trim value.name))

pub record LocationMutation : Type 0 where
  pub name : Text
  pub description : Text
  pub enabled : Bool
  pub notes : Bool
  pub photo : Bool
  pub group_ids : List ℕ
  pub background_object_id : Option ℕ
  pub logo_object_id : Option ℕ

-- The body of the form's `onSubmit`, with the ids that the page adds to it.
unfoldable pub location_mutation :
    {File : Type 0} → LocationValues File → (background logo : Option ℕ) → LocationMutation
location_mutation value background logo = record {
  name = trim value.name;
  description = trim value.description;
  enabled = value.enabled;
  notes = value.notes;
  photo = value.photo;
  group_ids = value.groups;
  background_object_id = background;
  logo_object_id = logo;
}

-- `imageObjectID`
unfoldable pub image_object_id :
    {File : Type 0} → ImageValue File → (File → Result Failure ℕ) → Result Failure (Option ℕ)
image_object_id (stored object_id filename url) upload_file = ok (some object_id)
image_object_id (upload file preview) upload_file = upload_file file >>= λ id. ok (some id)
image_object_id nothing upload_file = ok none

-- `Promise.all` of two promises; `earlier` is the one of two failures that comes first.
abbrev pub promise_all {ℓ κ} :
    {A : Type ℓ} {B : Type κ}
    → (earlier : Failure → Failure → Failure) → Result Failure A
    → Result Failure B
    → Result Failure (A × B)
promise_all earlier (ok a) (ok b) = ok (a, b)
promise_all earlier (ok a) (err e) = err e
promise_all earlier (err e) (ok b) = err e
promise_all earlier (err e) (err e') = err (earlier e e')

module _ {File : Type 0} (earlier : Failure → Failure → Failure)
    (upload_background upload_logo : File → Result Failure ℕ) where
  unfoldable pub upload_location_images :
      ImageValue File → ImageValue File → Result Failure (Option ℕ × Option ℕ)
  upload_location_images background logo =
      promise_all earlier (image_object_id background upload_background)
        (image_object_id logo upload_logo)

  -- The bodies that the page sends to the server, and what it returns to the form.
  abbrev pub send_location :
      (save : LocationMutation → Result Failure ℕ)
      → LocationValues File
      → Result Failure (Option ℕ × Option ℕ)
      → List LocationMutation × Result Failure ℕ
  send_location save value (err e) = ([], err e)
  send_location save value (ok (background, logo)) =
      let body = location_mutation value background logo in (body ∷ [], save body)

  -- The pages' `onSubmit`.
  unfoldable pub save_location :
      (save : LocationMutation → Result Failure ℕ)
      → LocationValues File
      → List LocationMutation × Result Failure ℕ
  save_location save value =
      send_location save value (upload_location_images value.background value.logo)

  unfoldable pub submit_location :
      (save : LocationMutation → Result Failure ℕ)
      → LocationValues File
      → List (SubmitEffect (LocationValues File))
  submit_location save value =
      submit (codes "Unable to save location.") value ((save_location save value).1)

-- The station's form: `locationID` is 0 while there is no location, which the schema refuses.
pub record StationValues : Type 0 where
  pub name : Text
  pub location : Option ℕ
  pub enabled : Bool

pub record StationMutation : Type 0 where
  pub name : Text
  pub location_id : ℕ
  pub enabled : Bool

unfoldable pub is_valid_station : StationValues → Bool
is_valid_station value =
    not (is_empty (trim value.name)) && (elim value.location [ none ↦ false | some id ↦ ltb 0 id ])

unfoldable pub station_mutation : StationValues → StationMutation
station_mutation value = record {
  name = trim value.name;
  location_id = some_or value.location 0;
  enabled = value.enabled;
}
