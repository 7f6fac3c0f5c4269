-- ===== src/Forms/Location/Preview.antt =====
-- web/src/features/locations/editable-image.tsx: the image of a form and the object URLs that it
-- makes. `live` are the URLs that were made and not revoked; the browser makes a new one each time,
-- here the next number.
use woodgate.Common.{
  ◌==◌, ==_refl, if◌then◌else◌, Bool-cases, Text, is_empty, ℕ, suc, ◌≡◌, refl, ap, ◌∙◌, inl, inr,
  ◌<◌, Bool, true, false, not, Option, none, some, List, [], ◌∷◌, keep, arith,
}
use woodgate.Forms.Location.{ImageValue, nothing, stored, upload}

module _ (File : Type 0) where
  pub record ImageField : Type 0 where
    pub value : ImageValue File
    pub picker_open : Bool
    pub next_url : ℕ
    pub live : List ℕ

  -- `previewURL`
  abbrev pub preview_url : ImageValue File → Option ℕ
  preview_url nothing = none
  preview_url (stored object_id filename url) = none
  preview_url (upload file preview) = some preview

  -- The clean-up of the effect on `previewURL`, which runs for the old preview when it changes and
  -- when the field goes.
  abbrev pub revoked : Option ℕ → List ℕ → List ℕ
  revoked none live = live
  revoked (some url) live = keep (λ other. not (other == url)) live

  abbrev pub is_same_url : Option ℕ → Option ℕ → Bool
  is_same_url none none = true
  is_same_url (some a) (some b) = a == b
  is_same_url _ _ = false

  -- The owner stores the value that `onChange` gets, and the field is rendered with it.
  unfoldable pub rendered : ImageField → ImageValue File → ImageField
  rendered s value = record s {
    value = value;
    live =
        if is_same_url (preview_url s.value) (preview_url value)
        then s.live
        else revoked (preview_url s.value) s.live;
  }

  pub data ImageEvent : Type 0 where
    file_chosen : Option File → ImageEvent
    removed : ImageEvent
    picker_opened : Bool → ImageEvent
    picked : (object_id : ℕ) (filename : Text) (content_url : Option Text) → ImageEvent

  -- The picker's `onClick`, which asks for an address, and `onPick`.
  abbrev pub on_pick : ImageField → (object_id : ℕ) (filename : Text) → Option Text → ImageField
  on_pick s object_id filename none = s
  on_pick s object_id filename (some url) =
      if is_empty url
      then s
      else record (rendered s (stored object_id filename url)) { picker_open = false }

  -- The file input's `onChange`, with the URL that it makes.
  abbrev pub on_file_change : ImageField → Option File → ImageField
  on_file_change s none = s
  on_file_change s (some file) =
      record (rendered (record s { next_url = suc s.next_url; live = s.next_url ∷ s.live })
        (upload file s.next_url)) { picker_open = false }

  -- The `onClick` of the button that removes the image.
  abbrev pub on_remove : ImageField → ImageField
  on_remove s = rendered s nothing

  unfoldable pub image_step : ImageField → ImageEvent → ImageField
  image_step s (file_chosen file) = on_file_change s file
  image_step s removed = on_remove s
  image_step s (picker_opened is_open) = record s { picker_open = is_open }
  image_step s (picked object_id filename content_url) = on_pick s object_id filename content_url

  unfoldable pub image_run : ImageField → List ImageEvent → ImageField
  image_run s [] = s
  image_run s (event ∷ events) = image_run (image_step s event) events

  -- The field goes.
  unfoldable pub unmounted : ImageField → List ℕ
  unmounted s = revoked (preview_url s.value) s.live

  unfoldable pub image_field_of : ImageValue File → ImageField
  image_field_of value = record { value = value; picker_open = false; next_url = 0; live = [] }

  abbrev pub the_url : Option ℕ → List ℕ
  the_url none = []
  the_url (some url) = url ∷ []

  abbrev IsBelow : Option ℕ → ℕ → Type 0
  IsBelow none next = Unit
  IsBelow (some url) next = url < next

  -- The URL of the preview is the only one alive, and older than the next one.
  record IsTidy (s : ImageField) : Type 0 where
    only : s.live ≡ the_url (preview_url s.value)
    older : IsBelow (preview_url s.value) s.next_url

  plain-live :
      (url : Option ℕ) (live : List ℕ)
      → live ≡ the_url url
      → (if is_same_url url none then live else revoked url live) ≡ []
  plain-live none live only = only
  plain-live (some url) live only = rw (only, ==_refl url)

  upload-live :
      (url : Option ℕ) (next : ℕ) (live : List ℕ)
      → live ≡ the_url url
      → IsBelow url next
      → (if is_same_url url (some next) then next ∷ live else revoked url (next ∷ live)) ≡ next ∷ []
  upload-live none next live only older = rw only
  upload-live (some url) next live only older = rw only (ground arith)

  plain-IsTidy :
      (s : ImageField) (value : ImageValue File)
      → IsTidy s
      → preview_url value ≡ none
      → IsTidy (rendered s value)
  unfolding rendered
  plain-IsTidy s value h plain = record {
    only = rw plain (plain-live (preview_url s.value) s.live h.only);
    older = rw plain tt;
  }

  upload-IsTidy : (s : ImageField) (file : File) → IsTidy s → IsTidy (on_file_change s (some file))
  unfolding rendered
  upload-IsTidy s file h = record {
    only = upload-live (preview_url s.value) s.next_url s.live h.only h.older;
    older = omega arith;
  }

  on_pick-IsTidy :
      (s : ImageField) (object_id : ℕ) (filename : Text) (content_url : Option Text)
      → IsTidy s
      → IsTidy (on_pick s object_id filename content_url)
  on_pick-IsTidy s object_id filename none h = h
  on_pick-IsTidy s object_id filename (some url) h = elim (Bool-cases (is_empty url)) [
    | inl blank ↦ rw blank h
    | inr filled ↦ rw filled (
        let tidy = plain-IsTidy s (stored object_id filename url) h refl in
        record { only = tidy.only; older = tidy.older })
  ]

  image_step-IsTidy : (s : ImageField) (event : ImageEvent) → IsTidy s → IsTidy (image_step s event)
  unfolding image_step
  image_step-IsTidy s (file_chosen none) h = h
  image_step-IsTidy s (file_chosen (some file)) h = upload-IsTidy s file h
  image_step-IsTidy s removed h = plain-IsTidy s nothing h refl
  image_step-IsTidy s (picker_opened is_open) h = record { only = h.only; older = h.older }
  image_step-IsTidy s (picked object_id filename content_url) h =
      on_pick-IsTidy s object_id filename content_url h

  image_run-IsTidy :
      (s : ImageField) (events : List ImageEvent) → IsTidy s → IsTidy (image_run s events)
  unfolding image_run
  image_run-IsTidy s [] h = h
  image_run-IsTidy s (event ∷ events) h =
      image_run-IsTidy (image_step s event) events (image_step-IsTidy s event h)

  revoked-the : (url : Option ℕ) → revoked url (the_url url) ≡ []
  revoked-the none = refl
  revoked-the (some url) = rw (==_refl url)

  initial-IsTidy :
      (value : ImageValue File) → preview_url value ≡ none → IsTidy (image_field_of value)
  unfolding image_field_of
  initial-IsTidy value plain = record { only = rw plain refl; older = rw plain tt }

  -- From an image that is no upload, and whatever files are chosen, images picked and removed: the
  -- only object URL that is not revoked is that of the preview, and none is left when the field goes.
  pub image_run-live :
      (value : ImageValue File) (events : List ImageEvent)
      → preview_url value ≡ none
      → ((image_run (image_field_of value) events).live
          ≡ the_url (preview_url (image_run (image_field_of value) events).value))
        × (unmounted (image_run (image_field_of value) events) ≡ [])
  unfolding unmounted
  image_run-live value events plain =
      let tidy = image_run-IsTidy (image_field_of value) events (initial-IsTidy value plain) in
      let url = preview_url (image_run (image_field_of value) events).value in
      (tidy.only, ap (revoked url) tidy.only ∙ revoked-the url)
