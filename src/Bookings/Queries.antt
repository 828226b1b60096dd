-- ===== src/Bookings/Queries.antt =====
-- The queries of app/services/booking_service.py, and those of app/services/booking_queries.py that
-- are written differently there; and the two queries of app/services/club_service.py that say
-- whether a recurring slot reserves an hour.
pub mod Laws
use music_room_bot.Prelude.{
  ℕ, Bool, false, not, ◌&&◌, Option, none, some, List, ltb, leb, ◌==◌, is_some,
}
use music_room_bot.Db.{Booking, WeeklySlot, Db, at_slot, at_weekly_slot, is_cancellation_of}
use music_room_bot.Prelude.Rows.{select, count_rows}
use music_room_bot.Session.{Exec, pure, branch, query, scalar_one_or_none, ◌>>=◌, ◌>>◌}
use music_room_bot.Time.{weekday, week_bounds, start_and_end_of_week}

unfoldable pub get_bookings_for_day : ℕ → Db → List Booking
get_bookings_for_day target_date db = select (λ b. b.date == target_date) db.bookings

unfoldable pub is_slot_free : ℕ → ℕ → Exec Bool
is_slot_free target_date hour = do
  rows ← query λ db. select (at_slot target_date hour) db.bookings
  found ← scalar_one_or_none rows
  pure (not (is_some found))

unfoldable pub is_weekly_reserved : ℕ → ℕ → Exec Bool
is_weekly_reserved day hour = do
  rows ← query λ db. select (at_weekly_slot day hour) db.weekly_slots
  found ← scalar_one_or_none rows
  pure (is_some found)

-- app/services/club_service.py
unfoldable pub is_weekly_slot_cancelled : ℕ → ℕ → Exec Bool
is_weekly_slot_cancelled weekly_slot_id target_date = do
  rows ← query λ db. select (is_cancellation_of weekly_slot_id target_date) db.cancellations
  found ← scalar_one_or_none rows
  pure (is_some found)

reserved_unless_cancelled : Option WeeklySlot → ℕ → Exec Bool
unfolding is_weekly_slot_cancelled
reserved_unless_cancelled none target_date = pure false
reserved_unless_cancelled (some slot) target_date = do
  is_cancelled ← is_weekly_slot_cancelled slot.id target_date
  pure (not is_cancelled)

-- app/services/club_service.py
unfoldable pub is_weekly_reserved_for_date : ℕ → ℕ → Exec Bool
unfolding reserved_unless_cancelled
is_weekly_reserved_for_date target_date hour = do
  rows ← query λ db. select (at_weekly_slot (weekday target_date) hour) db.weekly_slots
  slot ← scalar_one_or_none rows
  reserved_unless_cancelled slot target_date

unfoldable pub is_weekly_reserved_on_date : ℕ → ℕ → Exec Bool
unfolding is_weekly_reserved is_weekly_reserved_for_date
is_weekly_reserved_on_date target_date hour = do
  reserved ← is_weekly_reserved (weekday target_date) hour
  branch (not reserved) (pure false) (is_weekly_reserved_for_date target_date hour)

abbrev pub in_user_days : ℕ → ℕ → ℕ → Booking → Bool
in_user_days user_id first last b = b.user_id == user_id && (leb first b.date && leb b.date last)

unfoldable pub count_user_bookings_this_week : ℕ → ℕ → Db → ℕ
count_user_bookings_this_week now user_id db =
    let (monday, sunday) = week_bounds now in
    count_rows (in_user_days user_id monday sunday) db.bookings

-- The version of booking_queries.py, whose upper end is the next Monday, excluded.
unfoldable pub count_before_next_monday : ℕ → ℕ → Db → ℕ
count_before_next_monday now user_id db =
    let (monday, _) = week_bounds now in
    let (_, next_monday) = start_and_end_of_week monday in
    count_rows (λ b. b.user_id == user_id && (leb monday b.date && ltb b.date next_monday))
      db.bookings

unfoldable pub has_user_booking_for_slot : ℕ → ℕ → ℕ → Exec Bool
has_user_booking_for_slot user_id b_date b_hour = do
  rows ← query λ db. select (λ b. b.user_id == user_id && at_slot b_date b_hour b) db.bookings
  found ← scalar_one_or_none rows
  pure (is_some found)
