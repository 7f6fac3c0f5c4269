-- ===== src/Forms/Location/Save.antt =====
-- What a location is saved with.
use woodgate.Common.{
  Text, is_empty, ltb, ℕ, ◌≡◌, refl, Bool, true, false, not, ◌&&◌, Option, none, some, [], ◌∷◌,
}
use woodgate.Common.Result.{Result, ok, err}
use woodgate.Upload.{Failure}
use woodgate.Forms.Location.{
  ImageValue, StoredImage, Location, stored_image, location_image, LocationValues, LocationMutation,
  location_mutation, image_object_id, upload_location_images, save_location,
}

-- The server describes no image, or all of one: its id, its file and its address.
abbrev pub has_all : Option ℕ → Option Text → Option Text → Bool
has_all none file url = true
has_all (some id) (some filename) (some url) = ltb 0 id && not (is_empty url)
has_all (some id) _ _ = false

abbrev pub is_whole : StoredImage → Bool
is_whole image = has_all image.object_id image.file image.url

module _ {File : Type 0} (earlier : Failure → Failure → Failure)
    (upload_background upload_logo : File → Result Failure ℕ) where
  -- The object id of an image that cannot be had.
  abbrev pub Fails : ImageValue File → (File → Result Failure ℕ) → Type 0
  Fails image upload_file = (e : Failure) × (image_object_id image upload_file ≡ err e)

  kept :
      (object_id : Option ℕ) (file url : Option Text) (upload_file : File → Result Failure ℕ)
      → has_all object_id file url ≡ true
      → image_object_id (stored_image object_id file url) upload_file ≡ ok object_id
  unfolding image_object_id
  kept none file url upload_file h = refl
  kept (some id) none url upload_file h = cc
  kept (some id) (some filename) none upload_file h = cc
  kept (some id) (some filename) (some url) upload_file h = rw h

  -- An edit that leaves the two images as they were loaded, where the server had described each of
  -- them as a whole or not at all, sends one location, with the object ids that it had and without
  -- an upload, whatever else it changes.
  pub save_location-keeps :
      (save : LocationMutation → Result Failure ℕ) (location : Location)
      (value : LocationValues File)
      → is_whole location.background ≡ true
      → is_whole location.logo ≡ true
      → value.background ≡ location_image location.background
      → value.logo ≡ location_image location.logo
      → save_location earlier upload_background upload_logo save value ≡ (
        location_mutation value location.background.object_id location.logo.object_id ∷ [],
        save (location_mutation value location.background.object_id location.logo.object_id),
      )
  unfolding save_location upload_location_images location_image
  save_location-keeps save location value whole_background whole_logo background logo =
      let b = kept location.background.object_id _ _ upload_background whole_background in
      let l = kept location.logo.object_id _ _ upload_logo whole_logo in
      rw (background, logo, b, l) refl
