-- ===== src/Time/Laws.antt =====
-- The bookable week, weeks of dates and the test for a future slot: app/services/date_service.py and
-- booking_limits.py.
use music_room_bot.Prelude.{
  ℕ, ◌+◌, ◌-◌, ◌≤◌, ◌<◌, ◌≡◌, refl, ◌⊎◌, map, ltb, arith, ◌&&◌, leb, ◌==◌, if◌then◌else◌,
}
use music_room_bot.Time.{
  date_of, hour_of, weekday, combine, week_indices, get_current_week_date, is_future_slot,
  get_current_week_dates, start_and_end_of_week,
}

-- The week's dates are the dates of its seven weekday indices, in order: the two functions of
-- date_service.py, which repeat the computation of Monday, agree.
pub get_current_week_dates-eq-map :
    (now : ℕ) → get_current_week_dates now ≡ map (get_current_week_date now) week_indices
unfolding get_current_week_dates get_current_week_date
get_current_week_dates-eq-map now = refl

pub get_current_week_date_add :
    (now i : ℕ) → get_current_week_date now i ≡ get_current_week_date now 0 + i
unfolding get_current_week_date
get_current_week_date_add now i = omega arith

bookable_monday_lem :
    (today hour : ℕ)
    → 0 < today
    → let this = today - weekday today in
      let monday = (if weekday today == 6 && leb 22 hour then this + 7 else this) + 0 in
      (weekday monday ≡ 0)
      × (((weekday today ≡ 6) × (22 ≤ hour) × (monday ≡ today + 1))
          ⊎ ((monday ≤ today) × (today < monday + 7)))
bookable_monday_lem today hour h = ground arith

-- From day 1 on, the bookable week begins on a Monday. It holds today, or, from 22:00 on a Sunday,
-- it begins tomorrow.
pub bookable_week_lem :
    (now : ℕ)
    → 0 < date_of now
    → let monday = get_current_week_date now 0 in
      (weekday monday ≡ 0)
      × (((weekday (date_of now) ≡ 6) × (22 ≤ hour_of now) × (monday ≡ date_of now + 1))
          ⊎ ((monday ≤ date_of now) × (date_of now < monday + 7)))
unfolding get_current_week_date
bookable_week_lem now h = bookable_monday_lem (date_of now) (hour_of now) h

-- A date from day 1 on lies in its own week of seven days, which begins on a Monday.
pub start_and_end_of_week_lem :
    (d : ℕ)
    → 0 < d
    → let (start, end) = start_and_end_of_week d in
      (weekday start ≡ 0) × (start ≤ d) × (d < end) × (end ≡ start + 7)
unfolding start_and_end_of_week
start_and_end_of_week_lem d h = omega arith

-- Every date in the week of a date from day 1 on has the same week.
pub same_week_lem :
    (d e : ℕ)
    → 0 < d
    → (start_and_end_of_week d).0 ≤ e
    → e < (start_and_end_of_week d).1
    → start_and_end_of_week e ≡ start_and_end_of_week d
unfolding start_and_end_of_week
same_week_lem d e h p q = ground arith

-- For an hour below 24, the test of date_service.py for a future slot, by dates and hours, agrees
-- with the comparison of the present with the start of the slot.
pub is_future_slot_lem :
    (now d hour : ℕ) → hour < 24 → is_future_slot now d hour ≡ ltb now (combine d hour)
unfolding is_future_slot
is_future_slot_lem now d hour h = ground arith
