-- ===== src/Forms/Checkin/Times.antt =====
-- When a check-in happened, and what a complete form sends.
use woodgate.Common.{
  Text, codes, text_eq_refl, take, drop, length, ℕ, suc, zero, ◌≡◌, refl, ap, ◌∙◌, Bool, true,
  Option, none, some, [], ◌∷◌, ◌++◌, arith, is_some,
}
use woodgate.Common.Result.{Result, ok}
use woodgate.Upload.{Failure}
use woodgate.Forms.{submit}
use woodgate.Forms.Checkin.{
  Direction, Checkin, CheckinValues, CheckinCreate, has_picker, is_complete, initial_time,
  checkin_values, occurred_at, save_checkin, submit_checkin,
}

take-append : (xs ys : Text) (n : ℕ) → length xs ≡ n → take n (xs ++ ys) ≡ xs
take-append [] ys zero h = refl
take-append [] ys (suc n) h = cc
take-append (x ∷ xs) ys zero h = cc
take-append (x ∷ xs) ys (suc n) h = ap (λ r. x ∷ r) (take-append xs ys n (omega (arith, h)))

drop-append : (xs ys : Text) (c : ℕ) (n : ℕ) → length xs ≡ n → drop (suc n) (xs ++ c ∷ ys) ≡ ys
drop-append [] ys c zero h = refl
drop-append [] ys c (suc n) h = cc
drop-append (x ∷ xs) ys c zero h = cc
drop-append (x ∷ xs) ys c (suc n) h = drop-append xs ys c n (omega (arith, h))

has_picker-some : (o : Option ℕ) → has_picker o ≡ true → (id : ℕ) × (o ≡ some id)
has_picker-some none h = cc
has_picker-some (some id) h = (id, refl)

is_some-some : (o : Option Direction) → is_some o ≡ true → (d : Direction) × (o ≡ some d)
is_some-some none h = cc
is_some-some (some d) h = (d, refl)

complete_parts :
    (initial : Bool) (value : CheckinValues)
    → is_complete initial value ≡ true
    → (has_picker value.location ≡ true)
      × (has_picker value.person ≡ true)
      × (is_some value.direction ≡ true)
unfolding is_complete
complete_parts initial value complete = ground arith

module _ (format : Text → Text) (to_iso : Text → Result Failure Text) where
  -- If a time is printed as a date of 10 characters, a T and the time of day, then an edit that
  -- leaves the date and the time as they were loaded, whatever else it changes, keeps the stored time
  -- to the letter.
  pub occurred_at-kept :
      (checkin : Checkin) (value : CheckinValues) (date time : Text)
      → format checkin.occurred_at ≡ date ++ b'T' ∷ time
      → length date ≡ 10
      → value.occurred_date ≡ (checkin_values format (some checkin)).occurred_date
      → value.occurred_time ≡ (checkin_values format (some checkin)).occurred_time
      → occurred_at format to_iso (some checkin) value ≡ ok (some checkin.occurred_at)
  unfolding occurred_at checkin_values initial_time
  occurred_at-kept checkin value date time printed len date_same time_same =
      let d = date_same ∙ ap (take 10) printed ∙ take-append date (b'T' ∷ time) 10 len in
      let t = time_same ∙ ap (drop 11) printed ∙ drop-append date time b'T' 10 len in
      rw (d, t, printed, text_eq_refl (date ++ b'T' ∷ time))

  -- With values that the schema finds complete, and those of a form that edits a check-in with a
  -- date and a time, the submission is never dropped: it is a save of the chosen location, person
  -- and direction and of the trimmed notes, with its error path.
  pub submit_checkin_complete :
      (on_submit : CheckinCreate → Option Text → Result Failure ℕ) (initial : Option Checkin)
      (value : CheckinValues)
      → is_complete (is_some initial) value ≡ true
      → (location : ℕ) × (person : ℕ) × (direction : Direction) × (value.location ≡ some location)
        × (value.person ≡ some person)
        × (value.direction ≡ some direction)
        × (submit_checkin format to_iso on_submit initial value
            ≡ submit
                (codes "Unable to save check-in.")
                value
                (save_checkin format to_iso on_submit initial value location person direction))
  unfolding submit_checkin
  submit_checkin_complete on_submit initial value complete =
      let (l, p, d) = complete_parts (is_some initial) value complete in
      let (location, at) = has_picker-some value.location l in
      let (person, who) = has_picker-some value.person p in
      let (direction, way) = is_some-some value.direction d in
      (location, person, direction, at, who, way, rw (at, who, way))
