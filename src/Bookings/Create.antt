-- ===== src/Bookings/Create.antt =====
-- `safe_create_booking` of app/services/booking_service.py. `timed` only measures, and is left out.
pub mod Laws
pub mod Limits
use Prim.Native.String.{String}
use music_room_bot.Prelude.{
  ℕ, ◌+◌, Bool, true, false, not, ◌||◌, Option, none, some, ◌∷◌, ◌==◌, reaches,
}
use music_room_bot.Bookings.Queries.{is_weekly_reserved_on_date}
use music_room_bot.Db.{Booking, Db, has_user_id, has_booking_id, at_slot}
use music_room_bot.Limits.{
  weekly_limit_value, lock_user_week_booking_limit, count_user_bookings_in_week,
}
use music_room_bot.Prelude.Rows.{select, count_rows}
use music_room_bot.Session.{
  integrity_error, BookingStatus, success, taken, limit, counted, Env, Exec, pure, raise, branch,
  query, scalar_one_or_none, try_integrity, modify, emit, commit, rollback, ◌>>=◌, ◌>>◌,
}
use music_room_bot.Time.{start_and_end_of_week}

-- The row that `insert(Booking).values(…)` makes, its defaults filled in.
unfoldable pub new_booking : Env → ℕ → ℕ → ℕ → String → ℕ → Booking
new_booking env user_id b_date b_hour source id = record {
  id = id;
  user_id = user_id;
  date = b_date;
  hour = b_hour;
  is_weekly = false;
  booking_source = source;
  assigned_at = env.now;
  created_at = env.now;
  location_prompted = false;
  absence_reported = false;
  attendance_verified = false;
  attendance_lat = none;
  attendance_lon = none;
  attendance_recorded_at = none;
  reminded_hourly_at = none;
  reminded_15_at = none;
}

-- `uq_booking_date_hour` or the foreign key to `users` refuses the row.
abbrev pub refuses_booking : ℕ → ℕ → ℕ → Db → Bool
refuses_booking user_id b_date b_hour db =
    not (count_rows (at_slot b_date b_hour) db.bookings == 0)
    || (count_rows (has_user_id user_id) db.users == 0)

abbrev pub with_booking : Booking → Db → Db
with_booking b db = record db {
  bookings = b ∷ db.bookings;
  next_booking_id = db.next_booking_id + 1;
}

-- INSERT … RETURNING id. A rollback restores the sequence here, since a skipped key has no meaning.
unfoldable pub insert_booking : Env → ℕ → ℕ → ℕ → String → Exec (Option ℕ)
insert_booking env user_id b_date b_hour source = do
  refused ← query (refuses_booking user_id b_date b_hour)
  branch refused (raise integrity_error) do
    new_id ← query λ db. db.next_booking_id
    modify (with_booking (new_booking env user_id b_date b_hour source new_id))
    pure (some new_id)

-- `if not new_id`
abbrev pub no_id : Option ℕ → Bool
no_id none = true
no_id (some i) = i == 0

abbrev pub or_zero : Option ℕ → ℕ
or_zero none = 0
or_zero (some i) = i

-- The count, the metric and the reply of a refusal.
unfoldable pub refuse : String → BookingStatus → Exec (BookingStatus × Option Booking)
refuse source status = do emit (counted source status); pure (status, none)

-- The body of the `try`.
unfoldable pub insert_and_commit : Env → ℕ → ℕ → ℕ → String → Exec (BookingStatus × Option Booking)
unfolding insert_booking refuse
insert_and_commit env user_id b_date b_hour source = do
  new_id ← insert_booking env user_id b_date b_hour source
  branch (no_id new_id) (do rollback; refuse source taken)
      do
        commit
        booking ← query λ db. select (has_booking_id (or_zero new_id)) db.bookings
        found ← scalar_one_or_none booking
        emit (counted source success)
        pure (success, found)

unfoldable pub safe_create_booking :
    Env → ℕ → ℕ → ℕ → String → Exec (BookingStatus × Option Booking)
unfolding refuse lock_user_week_booking_limit
safe_create_booking env user_id b_date b_hour source = do
  reserved ← is_weekly_reserved_on_date b_date b_hour
  branch reserved (refuse source taken) do
    let week = start_and_end_of_week b_date
    lock_user_week_booking_limit env user_id week.0
    cnt ← query (count_user_bookings_in_week user_id week.0 week.1)
    branch (reaches cnt (weekly_limit_value env)) (refuse source limit) (
        try_integrity (insert_and_commit env user_id b_date b_hour source)
          (do rollback; refuse source taken))
