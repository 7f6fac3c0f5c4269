-- ===== src/CheckinList.antt =====
-- web/src/features/checkins/date-range.ts and list.tsx: the period of the check-ins that are listed,
-- kept in the address. `DateLibrary` is what the code calls of date-fns and of `Date`: `parse` and
-- `format` are `parseISO` and `format(date, "yyyy-MM-dd")`.
pub mod Period
use woodgate.Common.{
  if◌then◌else◌, Text, is_empty, ℕ, Bool, false, not, ◌&&◌, Option, none, some, List, [], ◌∷◌,
  is_some,
}
use woodgate.Forms.Checkin.{Direction, direction_changed}

pub record DateLibrary (D : Type 0) : Type 0 where
  pub parse : Text → D
  pub format : D → Text
  pub start_of_day : D → D
  pub add_days : D → ℕ → D
  pub to_iso : D → Text

pub record DateRange (D : Type 0) : Type 0 where
  pub from : Option D
  pub to : Option D

-- The search of the page, with the parts that the pickers write. `all_time` says that `period` is
-- "all".
pub record CheckinSearch : Type 0 where
  pub page : ℕ
  pub departments : Option (List Text)
  pub location_id : Option ℕ
  pub direction : Option Direction
  pub all_time : Bool
  pub from : Option Text
  pub to : Option Text

-- A text that is there and not empty.
abbrev pub present : Option Text → Option Text
present none = none
present (some t) = if is_empty t then none else some t

-- `today`
unfoldable pub is_today : CheckinSearch → Bool
is_today search = not (is_some (present search.from)) && not search.all_time

unfoldable pub set_departments : CheckinSearch → List Text → CheckinSearch
set_departments search selected = record search {
  page = 1;
  departments = if is_empty selected then none else some selected;
}

-- `selected.at(-1)`
abbrev pub last_selected : List Text → Option Text
last_selected [] = none
last_selected (v ∷ []) = some v
last_selected (v ∷ w ∷ rest) = last_selected (w ∷ rest)

-- `to_number` is `Number`, on the texts of ids.
unfoldable pub set_location : (to_number : Text → ℕ) → CheckinSearch → List Text → CheckinSearch
set_location to_number search selected = record search {
  page = 1;
  location_id = elim (last_selected selected) [ none ↦ none | some v ↦ some (to_number v) ];
}

unfoldable pub set_direction : CheckinSearch → List Text → CheckinSearch
set_direction search selected = record search {
  page = 1;
  direction = direction_changed (last_selected selected);
}

-- The date picker's `onToday`.
unfoldable pub on_today : CheckinSearch → CheckinSearch
on_today search = record search { page = 1; all_time = false; from = none; to = none }

module _ {D : Type 0} (dates : DateLibrary D) where
  abbrev pub parsed : Option Text → Option D
  parsed none = none
  parsed (some t) = some (dates.parse t)

  -- `checkinDateRange`, by the start of the period.
  abbrev pub range_from : CheckinSearch → (now : D) → Option Text → Option (DateRange D)
  range_from search now (some from) =
      some (record { from = some (dates.parse from); to = parsed (present search.to) })
  range_from search now none =
      let today = dates.start_of_day now in
      if search.all_time then none else some (record { from = some today; to = some today })

  unfoldable pub checkin_date_range : CheckinSearch → (now : D) → Option (DateRange D)
  checkin_date_range search now = range_from search now (present search.from)

  -- `checkinBounds`: `occurredFrom` and `occurredBefore`.
  abbrev pub start_bound : Option D → Option Text
  start_bound none = none
  start_bound (some d) = some (dates.to_iso (dates.start_of_day d))

  abbrev pub end_bound : Option D → Option Text
  end_bound none = none
  end_bound (some d) = some (dates.to_iso (dates.add_days (dates.start_of_day d) 1))

  unfoldable pub checkin_bounds : Option (DateRange D) → Option Text × Option Text
  checkin_bounds none = (none, none)
  checkin_bounds (some range) = (start_bound range.from, end_bound range.to)

  abbrev pub formatted : Option D → Option Text
  formatted none = none
  formatted (some d) = some (dates.format d)

  abbrev pub range_parts : Option (DateRange D) → Option D × Option D
  range_parts none = (none, none)
  range_parts (some range) = (range.from, range.to)

  -- The date picker's `onValueChange`.
  unfoldable pub set_range : CheckinSearch → Option (DateRange D) → CheckinSearch
  set_range search range = record search {
    page = 1;
    all_time = not (is_some (range_parts range).0);
    from = formatted (range_parts range).0;
    to = formatted (range_parts range).1;
  }
