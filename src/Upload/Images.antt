-- ===== src/Upload/Images.antt =====
-- web/src/features/resources/queries.ts: the uploads of a location's background and logo.
use woodgate.Common.{if◌then◌else◌, Text, codes, text_eq, ℕ, ◌≡◌, refl, false, not, [], ◌∷◌, ◌++◌}
use woodgate.Common.Result.{Result, ok, err}
use woodgate.Upload.{
  Failure, error, call_digest, call_create_intent, and_then, use_content, check_intent,
  request_upload, attempt, UploadOptions, mutation_fn,
}
use woodgate.Upload.Steps.{calls_of}

pub data ImageKind : Type 0 where
  background logo : ImageKind

-- The answer to an upload intent. `Q` is the rest of the upload that the server describes.
pub record UploadTarget (Q : Type 0) : Type 0 where
  pub object_id : ℕ
  pub strategy : Text
  pub upload : Q

abbrev pub indirect : Failure
indirect = error (codes "Location images require a direct upload.")

unfoldable pub direct_upload_request : {Q : Type 0} → UploadTarget Q → Result Failure Q
direct_upload_request target =
    if not (text_eq target.strategy (codes "direct-put")) then err indirect else ok target.upload

abbrev pub label : ImageKind → Text
label background = codes "Background"
label logo = codes "Logo"

module _ {File Content Q : Type 0}
    (create : ImageKind → File → Content → Result Failure (UploadTarget Q))
    (storage : UploadOptions File Content (UploadTarget Q) Q ℕ) where
  -- `useUploadLocationImage`: the options that it hands to `useUpload`, over a storage client.
  unfoldable pub use_upload_location_image :
      ImageKind → UploadOptions File Content (UploadTarget Q) Q ℕ
  unfolding direct_upload_request
  use_upload_location_image kind = record storage {
    create_intent = create kind;
    upload_request = λ target file. direct_upload_request target;
    complete_upload = λ target file. ok target.object_id;
    loading_text = codes "Uploading " ++ label kind;
    success_text = label kind ++ codes " Uploaded";
  }

  -- If the file is digested and the server describes an upload that does not go straight to the
  -- storage, an image upload that is not aborted fails with a message that says so, and only the
  -- digest and the intent were called.
  pub image_upload-indirect :
      (kind : ImageKind) (file : File) (content : Content) (target : UploadTarget Q)
      → storage.digest file ≡ ok content
      → create kind file content ≡ ok target
      → storage.aborted_early ≡ false
      → text_eq target.strategy (codes "direct-put") ≡ false
      → let a = mutation_fn (use_upload_location_image kind) file in
        (a.result ≡ err indirect) × (calls_of a.effects ≡ call_digest ∷ call_create_intent ∷ [])
  unfolding mutation_fn attempt use_content check_intent request_upload use_upload_location_image
      direct_upload_request and_then
  image_upload-indirect kind file content target d c a s =
      (rw (d, c, a, s) refl, rw (d, c, a, s) refl)
