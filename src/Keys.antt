-- ===== src/Keys.antt =====
-- web/src/features/stations/detail.tsx and create.tsx: the key of a Station, which the server tells
-- once, and the deletion of a Station. What the dialogs block while a request is under way is not
-- excluded here.
pub mod Asked
pub mod Account
use woodgate.Common.{
  ltb, if◌then◌else◌, Text, ℕ, suc, ◌-◌, Bool, true, false, Option, none, some, List, [], ◌∷◌,
}
use woodgate.Common.Result.{Result, ok, err}
use woodgate.Upload.{Failure}

-- The answer to a rotation, with the Station by its id.
pub record StationPairing : Type 0 where
  pub station : ℕ
  pub key : Text

pub data StationRequest : Type 0 where
  rotate_key : ℕ → StationRequest
  delete_station : ℕ → StationRequest

-- The page's variables; the rotations that wait for their answer and those whose `onSuccess` is not
-- done; the deletions that wait; the requests, latest first; and whether the page went to the list.
pub record StationPage : Type 0 where
  pub pairing : Option StationPairing
  pub confirm_open : Bool
  pub delete_open : Bool
  pub waiting : ℕ
  pub finishing : ℕ
  pub deleting : ℕ
  pub requests : List StationRequest
  pub left : Bool

unfoldable pub opened_page : StationPage
opened_page = record {
  pairing = none;
  confirm_open = false;
  delete_open = false;
  waiting = 0;
  finishing = 0;
  deleting = 0;
  requests = [];
  left = false;
}

pub data StationEvent : Type 0 where
  rotate_clicked : StationEvent
  confirm_changed : (is_open : Bool) → StationEvent
  rotate_confirmed : StationEvent
  rotate_answered : Result Failure StationPairing → StationEvent
  rotate_finished : StationEvent
  done : StationEvent
  delete_clicked : StationEvent
  delete_changed : (is_open : Bool) → StationEvent
  delete_confirmed : StationEvent
  delete_answered : (succeeds : Bool) → StationEvent

-- The dialog's `onConfirm`, up to the answer.
abbrev pub on_rotate : ℕ → StationPage → StationPage
on_rotate id s = record s { waiting = suc s.waiting; requests = rotate_key id ∷ s.requests }

abbrev pub on_delete : ℕ → StationPage → StationPage
on_delete id s = record s { deleting = suc s.deleting; requests = delete_station id ∷ s.requests }

-- The answer: its key is handed to `setPairing` before the mutation goes on.
abbrev pub on_answer : StationPage → Result Failure StationPairing → StationPage
on_answer s (ok pairing) = record s {
  pairing = some pairing;
  waiting = s.waiting - 1;
  finishing = suc s.finishing;
}
on_answer s (err e) = record s { waiting = s.waiting - 1 }

-- `.then(() => setConfirmOpen(false))`
abbrev pub on_finished : StationPage → StationPage
on_finished s = record s { confirm_open = false; finishing = s.finishing - 1 }

abbrev pub on_done : StationPage → StationPage
on_done s = record s { pairing = none }

abbrev pub on_deleted : StationPage → (succeeds : Bool) → StationPage
on_deleted s true = record s { deleting = s.deleting - 1; left = true }
on_deleted s false = record s { deleting = s.deleting - 1 }

module _ (id : ℕ) where
  unfoldable pub station_step : StationPage → StationEvent → StationPage
  station_step s rotate_clicked = record s { confirm_open = true }
  station_step s (confirm_changed is_open) = record s { confirm_open = is_open }
  station_step s rotate_confirmed = if s.confirm_open then on_rotate id s else s
  station_step s (rotate_answered answer) = if ltb 0 s.waiting then on_answer s answer else s
  station_step s rotate_finished = if ltb 0 s.finishing then on_finished s else s
  station_step s done = on_done s
  station_step s delete_clicked = record s { delete_open = true }
  station_step s (delete_changed is_open) = record s { delete_open = is_open }
  station_step s delete_confirmed = if s.delete_open then on_delete id s else s
  station_step s (delete_answered succeeds) = if ltb 0 s.deleting then on_deleted s succeeds else s

  unfoldable pub station_run : StationPage → List StationEvent → StationPage
  station_run s [] = s
  station_run s (event ∷ events) = station_run (station_step s event) events

-- The page that creates a Station: where `onDone` leads, and where the form's `onSuccess` does.
unfoldable pub created_done : Option StationPairing → Option ℕ
created_done none = none
created_done (some created) = some created.station
