-- ===== src/Time.antt =====
-- app/services/time_service.py, app/services/date_service.py, the week arithmetic of
-- app/services/booking_limits.py, and app/services/admin_booking_service.py.
-- A date is its proleptic ordinal (`date.toordinal`), and a datetime the microseconds of its wall
-- clock since ordinal 0: every datetime here carries the one `TZ` object, and Python compares and
-- subtracts datetimes that share their `tzinfo` by the wall clock alone.
pub mod Laws
use music_room_bot.Prelude.{
  ℕ, suc, ◌+◌, ◌-◌, ◌*◌, ◌/◌, ◌%◌, Bool, ◌&&◌, ◌||◌, List, [], ◌∷◌, ◌++◌, map, ltb, leb, ◌==◌,
  if◌then◌else◌,
}
use music_room_bot.Prelude.Rows.{select}

abbrev pub minute_us : ℕ
minute_us = 60000000

abbrev pub hour_us : ℕ
hour_us = 3600000000

abbrev pub day_us : ℕ
day_us = 86400000000

-- `datetime.date`, `datetime.hour`, `date.weekday` and `datetime.combine` on these numbers.
abbrev pub date_of : ℕ → ℕ
date_of t = t / day_us

abbrev pub hour_of : ℕ → ℕ
hour_of t = t % day_us / hour_us

abbrev pub weekday : ℕ → ℕ
weekday d = (d + 6) % 7

abbrev pub combine : ℕ → ℕ → ℕ
combine d hour = d * day_us + hour * hour_us

unfoldable pub today_tz : ℕ → ℕ
today_tz now = date_of now

unfoldable pub get_current_week_date : ℕ → ℕ → ℕ
unfolding today_tz
get_current_week_date now weekday_idx =
    let today = today_tz now in
    let monday = today - weekday today in
    let base = if weekday today == 6 && leb 22 (hour_of now) then monday + 7 else monday in
    base + weekday_idx

unfoldable pub is_future_slot : ℕ → ℕ → ℕ → Bool
is_future_slot now target_date hour =
    ltb (date_of now) target_date || (target_date == date_of now && ltb (hour_of now) hour)

-- `range(7)`
abbrev pub week_indices : List ℕ
week_indices = 0 ∷ 1 ∷ 2 ∷ 3 ∷ 4 ∷ 5 ∷ 6 ∷ []

unfoldable pub get_current_week_dates : ℕ → List ℕ
unfolding today_tz
get_current_week_dates now =
    let today = today_tz now in
    let monday = today - weekday today in
    let base = if weekday today == 6 && leb 22 (hour_of now) then monday + 7 else monday in
    map (λ i. base + i) week_indices

-- The first and the last day of the displayed week, as `week_dates[0]` and `week_dates[-1]`.
unfoldable pub week_bounds : ℕ → ℕ × ℕ
unfolding get_current_week_date
week_bounds now = (get_current_week_date now 0, get_current_week_date now 6)

unfoldable pub start_and_end_of_week : ℕ → ℕ × ℕ
start_and_end_of_week target_date =
    let start_week = target_date - weekday target_date in (start_week, start_week + 7)

unfoldable pub admin_bookable_dates : List ℕ → ℕ → List ℕ
unfolding select
admin_bookable_dates current_week_dates today =
    select (λ d. leb today d) (current_week_dates ++ map (λ d. d + 7) current_week_dates)

unfoldable pub weekly_conflict_dates : ℕ → List ℕ → ℕ → List ℕ
unfolding admin_bookable_dates
weekly_conflict_dates weekday_idx current_week_dates today =
    select (λ d. weekday d == weekday_idx) (admin_bookable_dates current_week_dates today)
