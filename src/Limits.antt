-- ===== src/Limits.antt =====
-- app/services/booking_limits.py: the weekly limit, the lock that serialises its checks, and the
-- count of a user's bookings in a week. The week arithmetic is in Time.antt.
use music_room_bot.Prelude.{ℕ, ◌%◌, ◌^◌, Option, none, some, ◌∷◌, ℤ, pos, strip}
use music_room_bot.Prelude.Rows.{count_rows}
use music_room_bot.Db.{Db, in_user_week}
use music_room_bot.Session.{Env, RuntimeConfigValue, none_value, int_value, str_value, Exec, ok}

abbrev or_default : Option ℤ → ℤ
or_default none = pos 2
or_default (some n) = n

abbrev pub limit_of : Env → RuntimeConfigValue → ℤ
limit_of env none_value = pos 2
limit_of env (int_value n) = n
limit_of env (str_value t) = or_default (env.int_of_text (strip env.is_space t))

unfoldable pub weekly_limit_value : Env → ℤ
weekly_limit_value env = limit_of env env.weekly_limit

-- The first eight bytes of a BLAKE2b digest, less the top bit.
unfoldable pub user_week_lock_key : Env → ℕ → ℕ → ℕ
user_week_lock_key env user_id week_start = env.lock_digest user_id week_start % 2 ^ 63

-- `pg_advisory_xact_lock`: held until the transaction ends.
unfoldable pub lock_user_week_booking_limit : Env → ℕ → ℕ → Exec (Unit {0})
lock_user_week_booking_limit env user_id week_start s =
    (ok tt, record s { locks = user_week_lock_key env user_id week_start ∷ s.locks })

unfoldable pub count_user_bookings_in_week : ℕ → ℕ → ℕ → Db → ℕ
count_user_bookings_in_week user_id start_week end_week db =
    count_rows (in_user_week user_id start_week end_week) db.bookings
