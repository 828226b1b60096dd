-- ===== src/Bookings/Consecutive.antt =====
-- `get_consecutive_slot_option` of app/services/booking_service.py: the hour after a booking, as an
-- offer to its member. The working hours of a weekday, which app/services/config_service.py reads
-- from the table of settings, are an argument.
pub mod Laws
use music_room_bot.Prelude.{ℕ, ◌+◌, not, ◌&&◌, Option, none, some, ltb, leb, reaches}
use music_room_bot.Bookings.Queries.{
  is_slot_free, is_weekly_reserved_on_date, count_user_bookings_this_week,
}
use music_room_bot.Limits.{weekly_limit_value}
use music_room_bot.Session.{Env, Exec, pure, lift, branch, query, slot_start, ◌>>=◌, ◌>>◌}
use music_room_bot.Time.{weekday}

unfoldable pub get_consecutive_slot_option : Env → (ℕ → ℕ × ℕ) → ℕ → ℕ → ℕ → Exec (Option (ℕ × ℕ))
get_consecutive_slot_option env working_hours user_id b_date b_hour = do
  let next_hour = b_hour + 1
  branch (leb 24 next_hour) (pure none) do
    let (start_hour, end_hour) = working_hours (weekday b_date)
    branch (not (leb start_hour next_hour && ltb next_hour end_hour)) (pure none) do
      booking_dt ← lift (slot_start b_date next_hour)
      branch (leb booking_dt env.now) (pure none) do
        reserved ← is_weekly_reserved_on_date b_date next_hour
        branch reserved (pure none) do
          free ← is_slot_free b_date next_hour
          branch (not free) (pure none) do
            current_count ← query (count_user_bookings_this_week env.now user_id)
            branch (reaches current_count (weekly_limit_value env)) (pure none)
                (pure (some (b_date, next_hour)))
