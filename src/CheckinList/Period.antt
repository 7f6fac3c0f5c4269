-- ===== src/CheckinList/Period.antt =====
-- The period that is picked is the period that is listed.
use woodgate.Common.{
  Bool-cases, Text, is_empty, ◌≡◌, refl, ap, ◌∙◌, sym, inl, inr, true, false, not, ◌&&◌, ◌||◌,
  Option, none, some, is_some,
}
use woodgate.CheckinList.{
  DateLibrary, DateRange, CheckinSearch, present, is_today, on_today, parsed, range_from,
  checkin_date_range, start_bound, end_bound, checkin_bounds, formatted, range_parts, set_range,
}

module _ {D : Type 0} (dates : DateLibrary D) where
  module _ (read_back : (d : D) → dates.parse (dates.format d) ≡ dates.start_of_day d)
      (printed : (d : D) → is_empty (dates.format d) ≡ false)
      (start_idem : (d : D)
        → dates.start_of_day (dates.start_of_day d) ≡ dates.start_of_day d) where
    end-kept :
        (to : Option D)
        → end_bound dates (parsed dates (present (formatted dates to))) ≡ end_bound dates to
    end-kept none = refl
    end-kept (some d) = rw (printed d, read_back d, start_idem d)

    written-bounds :
        (search : CheckinSearch) (from to : Option D) (now : D)
        → (is_some from || not (is_some to)) ≡ true
        → search.from ≡ formatted dates from
        → search.to ≡ formatted dates to
        → search.all_time ≡ not (is_some from)
        → checkin_bounds dates (checkin_date_range dates search now)
          ≡ (start_bound dates from, end_bound dates to)
    unfolding checkin_bounds checkin_date_range
    written-bounds search none none now shape f t a = rw (f, a) refl
    written-bounds search none (some d) now shape f t a = cc
    written-bounds search (some d) to now shape f t a =
        rw (f, printed d, read_back d, start_idem d, t)
          (ap (λ e. (some (dates.to_iso (dates.start_of_day d)), e)) (end-kept to))

    range-bounds :
        (range : Option (DateRange D))
        → checkin_bounds dates range ≡ (
          start_bound dates (range_parts dates range).0,
          end_bound dates (range_parts dates range).1,
        )
    unfolding checkin_bounds
    range-bounds none = refl
    range-bounds (some range) = refl

    -- If a day that is printed is read back as its start, the range that the picker hands over, with
    -- a start or with neither end, is listed with the bounds of that very range, at any time.
    pub set_range-bounds :
        (search : CheckinSearch) (range : Option (DateRange D)) (now : D)
        → (is_some (range_parts dates range).0 || not (is_some (range_parts dates range).1)) ≡ true
        → checkin_bounds dates (checkin_date_range dates (set_range dates search range) now)
          ≡ checkin_bounds dates range
    unfolding set_range
    set_range-bounds search range now shape =
        written-bounds (set_range dates search range) _ _ now shape refl refl refl
        ∙ sym (range-bounds range)

  -- The range of the current day.
  abbrev pub day_of : D → DateRange D
  day_of now = record { from = some (dates.start_of_day now); to = some (dates.start_of_day now) }

  from_today :
      (search : CheckinSearch) (now : D) (from : Option Text)
      → (not (is_some from) && not search.all_time) ≡ true
      → range_from dates search now from ≡ some (day_of now)
  from_today search now none today = elim (Bool-cases search.all_time) [
    | inl all ↦ let no : (not true) ≡ true = ap not (sym all) ∙ today in cc
    | inr day ↦ rw day
  ]
  from_today search now (some t) today = cc

  -- A search that is labelled "Today" lists the current day, and behind the picker's button for it
  -- every search is labelled so.
  pub today-range :
      (search other : CheckinSearch) (now : D)
      → is_today search ≡ true
      → (checkin_date_range dates search now ≡ some (day_of now))
        × (is_today (on_today other) ≡ true)
  unfolding is_today checkin_date_range on_today
  today-range search other now today = (from_today search now (present search.from) today, refl)
