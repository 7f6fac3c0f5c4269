-- ===== src/Examples/Uploads.antt =====
-- Concrete uploads: one aborted once its bytes are stored, and one that does not go to the storage.
use woodgate.Common.{codes, ℕ, ◌≡◌, true, false, List, [], ◌∷◌, ◌++◌}
use woodgate.Common.Result.{ok}
use woodgate.Upload.{UploadProgress, error, Effect, UploadOptions, mutation_fn}
use woodgate.Upload.Images.{UploadTarget}
use woodgate.Upload.Steps.{calls_of}
use woodgate.Upload.Outcome.{all_calls, mutation_fn-calls}

abbrev halfway : UploadProgress
halfway = record { loaded = 450; total = 900; percent = 50 }

-- A file is its size, and the content, the intent, the request and the result are numbers.
abbrev options : UploadOptions ℕ ℕ ℕ ℕ ℕ
options = record {
  size = λ file. file;
  digest = λ file. ok 1;
  create_intent = λ file content. ok 2;
  upload_request = λ intent file. ok 3;
  upload = λ request file. (halfway ∷ [], ok tt);
  complete_upload = λ intent file. ok 4;
  loading_text = codes "Uploading Logo";
  success_text = codes "Logo Uploaded";
  decimal_text = λ n. codes "50";
  aborted_early = false;
  aborted_late = true;
  reason = error (codes "aborted");
}

mutation_fn-calls_example :
    (left : List Effect) × (calls_of (mutation_fn options 900).effects ++ left ≡ all_calls)
    × ((r : ℕ) → (mutation_fn options 900).result ≡ ok r → left ≡ [])
mutation_fn-calls_example = mutation_fn-calls options 900

abbrev proxied : UploadTarget ℕ
proxied = record { object_id = 6; strategy = codes "multipart"; upload = 3 }

abbrev storage : UploadOptions ℕ ℕ (UploadTarget ℕ) ℕ ℕ
storage = record {
  size = λ file. file;
  digest = λ file. ok 1;
  create_intent = λ file content. ok proxied;
  upload_request = λ target file. ok 3;
  upload = λ request file. (halfway ∷ [], ok tt);
  complete_upload = λ target file. ok 4;
  loading_text = [];
  success_text = [];
  decimal_text = λ n. codes "50";
  aborted_early = false;
  aborted_late = false;
  reason = error (codes "aborted");
}
