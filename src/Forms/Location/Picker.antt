-- ===== src/Forms/Location/Picker.antt =====
-- The picker and the card of web/src/features/locations/editable-image.tsx: the images that the server
-- lists, and what becomes of the form's image when one acts on the card. The description of the card,
-- with the size of a file, is left out.
pub mod Kinds
use woodgate.Common.{
  if◌then◌else◌, Text, codes, is_empty, ◌++◌, ℕ, suc, zero, Bool, true, false, not, Option, none,
  some, List, [], ◌∷◌, map, some_or,
}
use woodgate.Views.{Query, Alert, query_error}
use woodgate.Forms.Location.{ImageValue, nothing, stored, upload}
use woodgate.Forms.Location.Preview.{
  ImageField, image_step, file_chosen, removed, picker_opened, picked,
}

pub data ImageKind : Type 0 where
  background logo : ImageKind

unfoldable pub kind_label : ImageKind → Text
kind_label background = codes "Background"
kind_label logo = codes "Logo"

-- `CheckinAttachmentObjectView`
pub record StoredObject : Type 0 where
  pub id : ℕ
  pub filename : Text
  pub content_url : Option Text

-- What the two queries of the picker hold.
pub record Libraries : Type 0 where
  pub backgrounds : Query (List StoredObject)
  pub logos : Query (List StoredObject)

unfoldable pub library : ImageKind → Libraries → Query (List StoredObject)
library background libraries = libraries.backgrounds
library logo libraries = libraries.logos

-- The lists that are asked for.
unfoldable pub asks : (is_open : Bool) → ImageKind → List ImageKind
asks is_open kind = if is_open then kind ∷ [] else []

pub record ImageButton : Type 0 where
  pub object : StoredObject
  pub disabled : Bool

abbrev pub has_url : Option Text → Bool
has_url url = not (is_empty (some_or url []))

unfoldable pub image_button : StoredObject → ImageButton
image_button object = record { object = object; disabled = not (has_url object.content_url) }

pub data PickerBody : Type 0 where
  images : List ImageButton → PickerBody
  note : Text → PickerBody

pub record Picker : Type 0 where
  pub title : Text
  pub alert : Option Alert
  pub body : PickerBody

unfoldable pub picker_items : ImageKind → Libraries → List StoredObject
unfolding library
picker_items kind libraries = some_or (library kind libraries).loaded []

abbrev pub picker_body : (label : Text) (is_loading : Bool) → List StoredObject → PickerBody
picker_body label is_loading [] = note (
    if is_loading
    then codes "Loading " ++ label ++ codes "s…"
    else codes "No " ++ label ++ codes "s Uploaded Yet")
picker_body label is_loading (object ∷ objects) = images (map image_button (object ∷ objects))

-- `LocationImagePicker`
unfoldable pub location_image_picker : ImageKind → Libraries → Picker
unfolding library
location_image_picker kind libraries = record {
  title = codes "Choose " ++ kind_label kind;
  alert = query_error (codes "Failed to load") (library kind libraries).error true;
  body =
      picker_body (kind_label kind) (library kind libraries).is_loading
        (picker_items kind libraries);
}

abbrev pub nth_button : List ImageButton → ℕ → Option ImageButton
nth_button [] n = none
nth_button (button ∷ buttons) zero = some button
nth_button (button ∷ buttons) (suc n) = nth_button buttons n

abbrev pub buttons_of : PickerBody → List ImageButton
buttons_of (images buttons) = buttons
buttons_of (note t) = []

module _ (File : Type 0) where
  -- The address on the card: that of an image that is stored, or the number of a preview.
  pub data Display : Type 0 where
    no_image : Display
    address : Text → Display
    preview : ℕ → Display

  pub record ImageCard : Type 0 where
    pub title : Text
    pub display : Display
    pub is_done : Bool
    pub can_remove : Bool

  -- `file_name` is the name that the browser gives a file.
  unfoldable pub image_card : (file_name : File → Text) → ImageKind → ImageValue File → ImageCard
  image_card file_name kind nothing = record {
    title = codes "Choose a " ++ kind_label kind;
    display = no_image;
    is_done = false;
    can_remove = false;
  }
  image_card file_name kind (stored object_id filename url) = record {
    title = filename;
    display = address url;
    is_done = true;
    can_remove = true;
  }
  image_card file_name kind (upload file number) = record {
    title = file_name file;
    display = preview number;
    is_done = true;
    can_remove = true;
  }

  -- What one can do: the input hands over a file, the cross is pressed, the dialog is opened or
  -- closed, and the image with this number is pressed.
  pub data ImageAct : Type 0 where
    chooses : Option File → ImageAct
    removes : ImageAct
    opens : Bool → ImageAct
    clicks : ℕ → ImageAct

  abbrev pub pressed : ImageField File → Option ImageButton → ImageField File
  pressed s none = s
  pressed s (some button) =
      if button.disabled
      then s
      else image_step File s
          (picked button.object.id button.object.filename button.object.content_url)

  abbrev pub has_image : ImageValue File → Bool
  has_image nothing = false
  has_image _ = true

  -- An act, with what the queries hold at that time.
  unfoldable pub image_act : ImageKind → ImageField File → Libraries × ImageAct → ImageField File
  image_act kind s (libraries, chooses file) = image_step File s (file_chosen file)
  image_act kind s (libraries, removes) = if has_image s.value then image_step File s removed else s
  image_act kind s (libraries, opens is_open) = image_step File s (picker_opened is_open)
  image_act kind s (libraries, clicks n) =
      if s.picker_open
      then pressed s (nth_button (buttons_of ((location_image_picker kind libraries).body)) n)
      else s

  unfoldable pub image_acts :
      ImageKind → ImageField File → List (Libraries × ImageAct) → ImageField File
  image_acts kind s [] = s
  image_acts kind s (act ∷ acts) = image_acts kind (image_act kind s act) acts
