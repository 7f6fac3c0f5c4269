-- ===== src/Upload.antt =====
-- web/src/hooks/use-upload.ts: one upload as the effects that it has, in order, and how it ends; and
-- the uploads of location images, of web/src/features/resources/queries.ts.
pub mod Steps
pub mod Outcome
pub mod Images
use woodgate.Common.{
  ltb, if◌then◌else◌, Text, codes, ℕ, ◌+◌, ◌%◌, Bool, Option, none, some, List, [], ◌∷◌, ◌++◌,
}
use woodgate.Common.Result.{Result, ok, err}

pub record UploadProgress : Type 0 where
  pub loaded : ℕ
  pub total : ℕ
  pub percent : ℕ

pub data ToastType : Type 0 where
  loading success failure : ToastType

pub record Toast : Type 0 where
  pub title : Text
  pub description : Option Text
  pub type : ToastType

-- What is thrown: an `Error` with its message, or anything else.
pub data Failure : Type 0 where
  error : (message : Text) → Failure
  thrown : Failure

-- What an upload does that is seen from outside. `progress none` is `setProgress(null)`; the toast is
-- added once and updated from then on.
pub data Effect : Type 0 where
  progress : Option UploadProgress → Effect
  add_toast update_toast : Toast → Effect
  call_digest call_create_intent call_upload call_complete : Effect

-- The effects so far, and a value or what was thrown.
pub record Attempt {ℓ} (A : Type ℓ) : Type ℓ where
  pub effects : List Effect
  pub result : Result Failure A

abbrev pub before {ℓ} : {A : Type ℓ} → List Effect → Attempt A → Attempt A
before es a = record { effects = es ++ a.effects; result = a.result }

-- `await`, with the rest skipped after a failure.
unfoldable pub and_then {ℓ κ} :
    {A : Type ℓ} {B : Type κ} → List Effect → Result Failure A → (A → Attempt B) → Attempt B
and_then es (err e) rest = record { effects = es; result = err e }
and_then es (ok a) rest = before es (rest a)

abbrev pub loading_toast : Text → Text → Toast
loading_toast title description = record {
  title = title;
  description = some description;
  type = loading;
}

abbrev pub failure_message : Failure → Text
failure_message (error message) = message
failure_message thrown = codes "Unknown upload error."

abbrev pub failure_toast : Text → Failure → Toast
failure_toast loading_text e = record {
  title = loading_text ++ codes " Failed";
  description = some (failure_message e);
  type = failure;
}

abbrev pub success_toast : Text → Toast
success_toast success_text = record { title = success_text; description = none; type = success }

-- `signal.throwIfAborted()`
abbrev pub throw_if_aborted : Bool → Failure → Result Failure (Unit {0})
throw_if_aborted aborted reason = if aborted then err reason else ok tt

-- The functions that an upload is given, and those of the storage client, each with what it comes to
-- for this upload. `upload` also says what progress it reports. The signal is aborted, with a reason,
-- or not, at either of the two places where the code looks at it.
pub record UploadOptions (File Content Intent Request R : Type 0) : Type 0 where
  pub size : File → ℕ
  pub digest : File → Result Failure Content
  pub create_intent : File → Content → Result Failure Intent
  pub upload_request : Intent → File → Result Failure Request
  pub upload : Request → File → List UploadProgress × Result Failure (Unit {0})
  pub complete_upload : Intent → File → Result Failure R
  pub loading_text : Text
  pub success_text : Text
  -- A number as a template literal prints it.
  pub decimal_text : ℕ → Text
  pub aborted_early : Bool
  pub aborted_late : Bool
  pub reason : Failure

module _ {File Content Intent Request R : Type 0}
    (options : UploadOptions File Content Intent Request R) where
  -- `onProgress`
  abbrev pub on_progress : UploadProgress → List Effect
  on_progress next =
      progress (some next)
      ∷ update_toast (
          loading_toast options.loading_text (
            if ltb 0 next.percent
            then options.decimal_text next.percent ++ codes "%"
            else codes "Uploading"))
      ∷ []

  abbrev pub reports : List UploadProgress → List Effect
  reports [] = []
  reports (next ∷ rest) = on_progress next ++ reports rest

  abbrev pub finalizing : File → List Effect
  finalizing file =
      progress
        (some (record { loaded = options.size file; total = options.size file; percent = 100 }))
      ∷ update_toast (loading_toast options.loading_text (codes "Finalizing"))
      ∷ []

  abbrev pub finished : R → Attempt R
  finished result = record {
    effects = update_toast (success_toast options.success_text) ∷ [];
    result = ok result;
  }

  -- The `try` block, its last steps first.
  unfoldable pub complete : File → Intent → Attempt R
  unfolding and_then
  complete file intent =
      and_then (call_complete ∷ []) (options.complete_upload intent file) finished

  unfoldable pub finalize : File → Intent → Attempt R
  unfolding and_then complete
  finalize file intent =
      and_then (finalizing file) (throw_if_aborted options.aborted_late options.reason)
        (λ _. complete file intent)

  unfoldable pub send : File → Intent → Request → Attempt R
  unfolding and_then finalize
  send file intent request =
      let (reported, sent) = options.upload request file in
      and_then (call_upload ∷ reports reported) sent (λ _. finalize file intent)

  unfoldable pub request_upload : File → Intent → Attempt R
  unfolding and_then send
  request_upload file intent = and_then [] (options.upload_request intent file) (send file intent)

  unfoldable pub check_intent : File → Intent → Attempt R
  unfolding and_then request_upload
  check_intent file intent =
      and_then [] (throw_if_aborted options.aborted_early options.reason)
        (λ _. request_upload file intent)

  unfoldable pub use_content : File → Content → Attempt R
  unfolding and_then check_intent
  use_content file content =
      and_then (call_create_intent ∷ []) (options.create_intent file content) (check_intent file)

  unfoldable pub attempt : File → Attempt R
  unfolding and_then use_content
  attempt file = and_then (call_digest ∷ []) (options.digest file) (use_content file)

  -- The `catch` and `finally` blocks.
  abbrev pub ending : Result Failure R → List Effect
  ending (ok result) = progress none ∷ []
  ending (err e) = update_toast (failure_toast options.loading_text e) ∷ progress none ∷ []

  abbrev pub started : File → List Effect
  started file =
      progress (some (record { loaded = 0; total = options.size file; percent = 0 }))
      ∷ add_toast (loading_toast options.loading_text (codes "Preparing upload"))
      ∷ []

  unfoldable pub mutation_fn : File → Attempt R
  unfolding attempt
  mutation_fn file =
      let tried = attempt file in
      record {
        effects = started file ++ tried.effects ++ ending tried.result;
        result = tried.result;
      }
