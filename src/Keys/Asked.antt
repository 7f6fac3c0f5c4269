-- ===== src/Keys/Asked.antt =====
-- A Station's key is rotated, and a Station is deleted, only after its dialog was opened.
use woodgate.Common.{
  ℕ, ◌≡◌, refl, Bool, true, false, not, none, List, [], ◌∷◌, all, and_left, and_right, arith,
}
use woodgate.Common.Result.{ok, err}
use woodgate.Keys.{
  StationRequest, rotate_key, delete_station, StationPage, opened_page, StationEvent,
  rotate_clicked, confirm_changed, rotate_confirmed, rotate_answered, rotate_finished, done,
  delete_clicked, delete_changed, delete_confirmed, delete_answered, station_step, station_run,
}

-- Events that do not open the dialog of the rotation, and that do not open that of the deletion.
abbrev pub keeps_confirm : StationEvent → Bool
keeps_confirm rotate_clicked = false
keeps_confirm (confirm_changed is_open) = not is_open
keeps_confirm _ = true

abbrev pub keeps_delete : StationEvent → Bool
keeps_delete delete_clicked = false
keeps_delete (delete_changed is_open) = not is_open
keeps_delete _ = true

abbrev pub is_rotation : StationRequest → Bool
is_rotation (rotate_key id) = true
is_rotation (delete_station id) = false

-- The dialog is closed, no answer is waited for, no key is shown and no rotation was asked for.
abbrev IsUnrotated : StationPage → Type 0
IsUnrotated s =
    (s.confirm_open ≡ false)
    × (s.waiting ≡ 0)
    × (s.pairing ≡ none)
    × (all (λ r. not (is_rotation r)) s.requests ≡ true)

abbrev IsUndeleted : StationPage → Type 0
IsUndeleted s =
    (s.delete_open ≡ false)
    × (s.deleting ≡ 0)
    × (s.left ≡ false)
    × (all is_rotation s.requests ≡ true)

module _ (id : ℕ) where
  step-IsUnrotated :
      (s : StationPage) (event : StationEvent)
      → keeps_confirm event ≡ true
      → IsUnrotated s
      → IsUnrotated (station_step id s event)
  unfolding station_step
  step-IsUnrotated s rotate_clicked k h = cc
  step-IsUnrotated s (confirm_changed true) k h = cc
  step-IsUnrotated s (confirm_changed false) k (closed, idle, hidden, unasked) =
      (refl, idle, hidden, unasked)
  step-IsUnrotated s rotate_confirmed k (closed, idle, hidden, unasked) =
      rw closed (refl, idle, hidden, unasked)
  step-IsUnrotated s (rotate_answered answer) k (closed, idle, hidden, unasked) =
      rw idle (closed, refl, hidden, unasked)
  step-IsUnrotated s rotate_finished k h = ground arith
  step-IsUnrotated s done k (closed, idle, hidden, unasked) = (closed, idle, refl, unasked)
  step-IsUnrotated s delete_clicked k h = h
  step-IsUnrotated s (delete_changed is_open) k h = h
  step-IsUnrotated s delete_confirmed k h = ground arith
  step-IsUnrotated s (delete_answered true) k h = ground arith
  step-IsUnrotated s (delete_answered false) k h = ground arith

  run-IsUnrotated :
      (s : StationPage) (events : List StationEvent)
      → all keeps_confirm events ≡ true
      → IsUnrotated s
      → IsUnrotated (station_run id s events)
  unfolding station_run
  run-IsUnrotated s [] k h = h
  run-IsUnrotated s (event ∷ events) k h =
      run-IsUnrotated (station_step id s event) events (and_right (keeps_confirm event) _ k)
        (step-IsUnrotated s event (and_left _ (all keeps_confirm events) k) h)

  step-IsUndeleted :
      (s : StationPage) (event : StationEvent)
      → keeps_delete event ≡ true
      → IsUndeleted s
      → IsUndeleted (station_step id s event)
  unfolding station_step
  step-IsUndeleted s rotate_clicked k h = h
  step-IsUndeleted s (confirm_changed is_open) k h = h
  step-IsUndeleted s rotate_confirmed k h = ground arith
  step-IsUndeleted s (rotate_answered (ok pairing)) k h = ground arith
  step-IsUndeleted s (rotate_answered (err e)) k h = ground arith
  step-IsUndeleted s rotate_finished k h = ground arith
  step-IsUndeleted s done k h = h
  step-IsUndeleted s delete_clicked k h = cc
  step-IsUndeleted s (delete_changed true) k h = cc
  step-IsUndeleted s (delete_changed false) k (closed, idle, here, unasked) =
      (refl, idle, here, unasked)
  step-IsUndeleted s delete_confirmed k (closed, idle, here, unasked) =
      rw closed (refl, idle, here, unasked)
  step-IsUndeleted s (delete_answered succeeds) k (closed, idle, here, unasked) =
      rw idle (closed, refl, here, unasked)

  run-IsUndeleted :
      (s : StationPage) (events : List StationEvent)
      → all keeps_delete events ≡ true
      → IsUndeleted s
      → IsUndeleted (station_run id s events)
  unfolding station_run
  run-IsUndeleted s [] k h = h
  run-IsUndeleted s (event ∷ events) k h =
      run-IsUndeleted (station_step id s event) events (and_right (keeps_delete event) _ k)
        (step-IsUndeleted s event (and_left _ (all keeps_delete events) k) h)

  opened-IsUnrotated : IsUnrotated opened_page
  unfolding opened_page
  opened-IsUnrotated = (refl, refl, refl, refl)

  opened-IsUndeleted : IsUndeleted opened_page
  unfolding opened_page
  opened-IsUndeleted = (refl, refl, refl, refl)

  -- As long as the dialog of the rotation is not opened, no rotation of the key is asked for and no
  -- key is shown, whatever is done with the deletion.
  pub unopened_unrotated :
      (events : List StationEvent)
      → all keeps_confirm events ≡ true
      → ((station_run id opened_page events).pairing ≡ none)
        × (all (λ r. not (is_rotation r)) (station_run id opened_page events).requests ≡ true)
  unopened_unrotated events kept =
      let (closed, idle, hidden, unasked) =
        run-IsUnrotated opened_page events kept opened-IsUnrotated in
      (hidden, unasked)

  -- As long as the dialog of the deletion is not opened, no deletion is asked for and the page is not
  -- left for the list, whatever is done with the key.
  pub unopened_undeleted :
      (events : List StationEvent)
      → all keeps_delete events ≡ true
      → ((station_run id opened_page events).left ≡ false)
        × (all is_rotation (station_run id opened_page events).requests ≡ true)
  unopened_undeleted events kept =
      let (closed, idle, here, unasked) =
        run-IsUndeleted opened_page events kept opened-IsUndeleted in
      (here, unasked)
