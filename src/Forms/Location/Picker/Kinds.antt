-- ===== src/Forms/Location/Picker/Kinds.antt =====
-- The images that a location is saved with are of the right kind.
use woodgate.Common.{All, ℕ, Option, none, some, List}
use woodgate.Common.Result.{Result, ok, err}
use woodgate.Upload.{Failure}
use woodgate.Forms.Location.{ImageValue, nothing, stored, upload, Location, LocationMutation}
use woodgate.Forms.Location.Preview.{image_field_of}
use woodgate.Forms.Location.Picker.{
  ImageKind, background, logo, Libraries, StoredObject, picker_items, ImageAct, image_acts,
}

-- An object id, where there is one, is of the kind.
abbrev pub AllOf : (ℕ → Type 0) → Option ℕ → Type 0
AllOf IsOf none = Unit
AllOf IsOf (some id) = IsOf id

module _ (File : Type 0) (IsOf : ℕ → Type 0) where
  abbrev pub Fits : ImageValue File → Type 0
  Fits nothing = Unit
  Fits (stored object_id filename url) = IsOf object_id
  Fits (upload file preview) = Unit

  -- The list of this kind holds no object of another.
  abbrev pub Serves : ImageKind → Libraries × ImageAct File → Type 0
  Serves kind (libraries, act) =
      All (λ object. IsOf (StoredObject.id object)) (picker_items kind libraries)

  -- The object that an image is saved with, where that can be had, is of the kind.
  abbrev FitsIn : Result Failure (Option ℕ) → Type 0
  FitsIn (ok id) = AllOf IsOf id
  FitsIn (err e) = Unit

module _ (File : Type 0) (IsBackground IsLogo : ℕ → Type 0) where
  -- A body names a background and a logo, each of its kind, where it names one.
  abbrev pub FitsBody : LocationMutation → Type 0
  FitsBody body = AllOf IsBackground body.background_object_id × AllOf IsLogo body.logo_object_id

  -- The images of a location that is edited are of their kinds.
  abbrev pub IsLoaded : Option Location → Type 0
  IsLoaded none = Unit
  IsLoaded (some location) =
      AllOf IsBackground location.background.object_id × AllOf IsLogo location.logo.object_id

  -- An image as its field leaves it, after the acts on it.
  abbrev pub chosen :
      ImageKind → ImageValue File → List (Libraries × ImageAct File) → ImageValue File
  chosen kind image acts = (image_acts File kind (image_field_of File image) acts).value
