-- ===== src/Upload/Outcome.antt =====
-- What the user sees of an upload, and what it calls.
use woodgate.Common.{Text, ◌≡◌, refl, ap, ◌∙◌, none, some, List, [], ◌∷◌, ◌++◌, append-nil}
use mathlib.Core.Path.{subst}
use woodgate.Common.Result.{Result, ok, err}
use woodgate.Upload.{
  complete, request_upload, check_intent, use_content, finished, finalizing, UploadProgress, Toast,
  Failure, Effect, call_digest, call_create_intent, call_upload, call_complete, failure_toast,
  success_toast, UploadOptions, reports, attempt, started, ending, finalize, send, mutation_fn,
  throw_if_aborted,
}
use woodgate.Upload.Steps.{
  Page, shown_all, shown_all-append, calls_of, calls_of-append, Tells, and_then-Tells, Follows,
  and_then-Follows,
}

-- The toast that tells how an upload ended.
abbrev pub outcome_toast : {R : Type 0} → Text → Text → Result Failure R → Toast
outcome_toast loading_text success_text (ok r) = success_toast success_text
outcome_toast loading_text success_text (err e) = failure_toast loading_text e

-- The calls of a whole upload.
abbrev pub all_calls : List Effect
all_calls = call_digest ∷ call_create_intent ∷ call_upload ∷ call_complete ∷ []

module _ {File Content Intent Request R : Type 0}
    (options : UploadOptions File Content Intent Request R) where
  reports-quiet : (ps : List UploadProgress) → calls_of (reports options ps) ≡ []
  reports-quiet [] = refl
  reports-quiet (p ∷ ps) = reports-quiet ps

  complete-Tells :
      (file : File) (intent : Intent) → Tells options.success_text (complete options file intent)
  unfolding complete
  complete-Tells file intent =
      and_then-Tells options.success_text (call_complete ∷ []) (options.complete_upload intent file)
        (finished options) (λ result. record { told = λ p r same. refl })

  finalize-Tells :
      (file : File) (intent : Intent) → Tells options.success_text (finalize options file intent)
  unfolding finalize
  finalize-Tells file intent =
      and_then-Tells options.success_text (finalizing options file)
        (throw_if_aborted options.aborted_late options.reason) (λ _. complete options file intent)
        (λ u. complete-Tells file intent)

  send-Tells :
      (file : File) (intent : Intent) (request : Request)
      → Tells options.success_text (send options file intent request)
  unfolding send
  send-Tells file intent request =
      and_then-Tells options.success_text
        (call_upload ∷ reports options ((options.upload request file).0))
        ((options.upload request file).1) (λ _. finalize options file intent)
        (λ u. finalize-Tells file intent)

  request_upload-Tells :
      (file : File) (intent : Intent)
      → Tells options.success_text (request_upload options file intent)
  unfolding request_upload
  request_upload-Tells file intent =
      and_then-Tells options.success_text [] (options.upload_request intent file)
        (send options file intent) (send-Tells file intent)

  check_intent-Tells :
      (file : File) (intent : Intent)
      → Tells options.success_text (check_intent options file intent)
  unfolding check_intent
  check_intent-Tells file intent =
      and_then-Tells options.success_text [] (throw_if_aborted options.aborted_early options.reason)
        (λ _. request_upload options file intent) (λ u. request_upload-Tells file intent)

  use_content-Tells :
      (file : File) (content : Content)
      → Tells options.success_text (use_content options file content)
  unfolding use_content
  use_content-Tells file content =
      and_then-Tells options.success_text (call_create_intent ∷ [])
        (options.create_intent file content) (check_intent options file) (check_intent-Tells file)

  attempt-Tells : (file : File) → Tells options.success_text (attempt options file)
  unfolding attempt
  attempt-Tells file =
      and_then-Tells options.success_text (call_digest ∷ []) (options.digest file)
        (use_content options file) (use_content-Tells file)

  complete-Follows :
      (file : File) (intent : Intent) → Follows (call_complete ∷ []) (complete options file intent)
  unfolding complete
  complete-Follows file intent =
      and_then-Follows ([]) (call_complete ∷ []) (options.complete_upload intent file)
        (finished options) (λ result. record { left = []; split = refl; done = λ r same. refl })

  finalize-Follows :
      (file : File) (intent : Intent) → Follows (call_complete ∷ []) (finalize options file intent)
  unfolding finalize
  finalize-Follows file intent =
      and_then-Follows (call_complete ∷ []) (finalizing options file)
        (throw_if_aborted options.aborted_late options.reason) (λ _. complete options file intent)
        (λ u. complete-Follows file intent)

  send-Follows :
      (file : File) (intent : Intent) (request : Request)
      → Follows (call_upload ∷ call_complete ∷ []) (send options file intent request)
  unfolding send
  send-Follows file intent request =
      subst
        (λ quiet.
          Follows (call_upload ∷ quiet ++ call_complete ∷ []) (send options file intent request))
        (reports-quiet ((options.upload request file).0))
        (and_then-Follows (call_complete ∷ [])
          (call_upload ∷ reports options ((options.upload request file).0))
          ((options.upload request file).1) (λ _. finalize options file intent)
          (λ u. finalize-Follows file intent))

  request_upload-Follows :
      (file : File) (intent : Intent)
      → Follows (call_upload ∷ call_complete ∷ []) (request_upload options file intent)
  unfolding request_upload
  request_upload-Follows file intent =
      and_then-Follows (call_upload ∷ call_complete ∷ []) [] (options.upload_request intent file)
        (send options file intent) (send-Follows file intent)

  check_intent-Follows :
      (file : File) (intent : Intent)
      → Follows (call_upload ∷ call_complete ∷ []) (check_intent options file intent)
  unfolding check_intent
  check_intent-Follows file intent =
      and_then-Follows (call_upload ∷ call_complete ∷ []) []
        (throw_if_aborted options.aborted_early options.reason)
        (λ _. request_upload options file intent) (λ u. request_upload-Follows file intent)

  use_content-Follows :
      (file : File) (content : Content)
      → Follows
          (call_create_intent ∷ call_upload ∷ call_complete ∷ [])
          (use_content options file content)
  unfolding use_content
  use_content-Follows file content =
      and_then-Follows (call_upload ∷ call_complete ∷ []) (call_create_intent ∷ [])
        (options.create_intent file content) (check_intent options file) (check_intent-Follows file)

  attempt-Follows : (file : File) → Follows all_calls (attempt options file)
  unfolding attempt
  attempt-Follows file =
      and_then-Follows (call_create_intent ∷ call_upload ∷ call_complete ∷ []) (call_digest ∷ [])
        (options.digest file) (use_content options file) (use_content-Follows file)

  ended :
      (p : Page) (result : Result Failure R)
      → ((r : R) → result ≡ ok r → p.toast ≡ some (success_toast options.success_text))
      → shown_all p (ending options result) ≡ record {
        toast = some (outcome_toast options.loading_text options.success_text result);
        bar = none;
      }
  ended p (ok r) h = λ i. record { toast = h r refl i; bar = none }
  ended p (err e) h = refl

  ending-quiet : (result : Result Failure R) → calls_of (ending options result) ≡ []
  ending-quiet (ok r) = refl
  ending-quiet (err e) = refl

  -- However an upload ends, the progress bar is gone afterwards, and the toast tells the outcome:
  -- success exactly if the upload has a result, and otherwise the failure with its message.
  pub mutation_fn-shown :
      (page : Page) (file : File)
      → let a = mutation_fn options file in
        shown_all page a.effects ≡ record {
          toast = some (outcome_toast options.loading_text options.success_text a.result);
          bar = none;
        }
  unfolding mutation_fn
  mutation_fn-shown page file =
      let a = attempt options file in
      let p = shown_all page (started options file) in
      shown_all-append p a.effects _
      ∙ ended (shown_all p a.effects) a.result ((attempt-Tells file).told p)

  -- The calls of an upload are made in the order digest, create the intent, upload, complete, each at
  -- most once and only after the one before it, and an upload with a result has made them all.
  pub mutation_fn-calls :
      (file : File)
      → let a = mutation_fn options file in
        (left : List Effect) × (calls_of a.effects ++ left ≡ all_calls)
        × ((r : R) → a.result ≡ ok r → left ≡ [])
  unfolding mutation_fn
  mutation_fn-calls file =
      let a = attempt options file in
      let follows = attempt-Follows file in
      (
        follows.left,
        ap (λ c. c ++ follows.left)
              (calls_of-append a.effects _
                ∙ ap (λ c. calls_of a.effects ++ c) (ending-quiet a.result)
                ∙ append-nil (calls_of a.effects))
            ∙ follows.split,
        follows.done,
      )
