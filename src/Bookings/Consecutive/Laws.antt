-- ===== src/Bookings/Consecutive/Laws.antt =====
-- `get_consecutive_slot_option` of app/services/booking_service.py against the tables and
-- `safe_create_booking`.
use Prim.Native.String.{String}
use music_room_bot.Prelude.{
  ℕ, ◌+◌, ◌≤◌, ◌<◌, ◌≡◌, sym, Bool, not, ◌&&◌, none, some, arith, ltb, leb, ◌==◌, if◌then◌else◌,
  reaches,
}
use music_room_bot.Bookings.Consecutive.{get_consecutive_slot_option}
use music_room_bot.Bookings.Create.{with_booking, safe_create_booking}
use music_room_bot.Bookings.Create.Laws.{
  booking_status, after_request, requested, safe_create_booking_lem,
}
use music_room_bot.Bookings.Queries.{count_user_bookings_this_week, count_before_next_monday}
use music_room_bot.Bookings.Queries.Laws.{
  is_reserved, is_slot_free_lem, is_weekly_reserved_on_date_lem, count_user_bookings_this_week_lem,
}
use music_room_bot.Db.{Db, has_user_id, at_slot}
use music_room_bot.Db.Invariant.{IsConsistent}
use music_room_bot.Limits.{weekly_limit_value, count_user_bookings_in_week}
use music_room_bot.Prelude.Rows.{count_rows}
use music_room_bot.Session.{ok, success, Env, fresh_session, slot_start}
use music_room_bot.Time.{
  date_of, weekday, combine, get_current_week_date, week_bounds, start_and_end_of_week,
}
use music_room_bot.Time.Laws.{get_current_week_date_add, bookable_week_lem}

module _ (env : Env) (working_hours : ℕ → ℕ × ℕ) (user_id d h : ℕ) (db : Db) where
  -- Whether the next hour is offered, read off the tables.
  abbrev pub offers_next : Bool
  offers_next =
      let (opens, closes) = working_hours (weekday d) in
      (ltb (h + 1) 24 && (leb opens (h + 1) && ltb (h + 1) closes))
      && (ltb env.now (combine d (h + 1))
          && (not (is_reserved d (h + 1) db)
              && (count_rows (at_slot d (h + 1)) db.bookings == 0
                  && not (
                      reaches (count_user_bookings_this_week env.now user_id db)
                        (weekly_limit_value env)))))

  -- On consistent tables, the option is the next hour exactly if that hour exists, is in the
  -- working hours and in the future, is neither reserved nor booked, and the member has room in
  -- the bookable week; nothing changes.
  pub get_consecutive_slot_option_lem :
      IsConsistent db
      → get_consecutive_slot_option env working_hours user_id d h (fresh_session db)
        ≡ (ok (if offers_next then some (d, h + 1) else none), fresh_session db)
  unfolding get_consecutive_slot_option slot_start
  get_consecutive_slot_option_lem v = ground (
    arith,
    is_weekly_reserved_on_date_lem (fresh_session db) d (h + 1) v.weekly_ok,
    is_slot_free_lem (fresh_session db) d (h + 1) (v.bookings_ok.slot_unique d (h + 1)),
  )

  same_monday :
      0 < date_of env.now
      → (week_bounds env.now).0 ≤ d
      → d ≤ (week_bounds env.now).1
      → start_and_end_of_week d ≡ start_and_end_of_week (week_bounds env.now).0
  unfolding week_bounds start_and_end_of_week
  same_monday p low high =
      let m = get_current_week_date env.now 0 in
      ground (arith, get_current_week_date_add env.now 6, (bookable_week_lem env.now p).0)

  monday_starts :
      0 < date_of env.now
      → (start_and_end_of_week (week_bounds env.now).0).0 ≡ (week_bounds env.now).0
  unfolding week_bounds start_and_end_of_week
  monday_starts p = ground (arith, (bookable_week_lem env.now p).0)

  -- For a date of the bookable week, the count of the booking request is the count of the offer.
  this_week_count :
      0 < date_of env.now
      → (week_bounds env.now).0 ≤ d
      → d ≤ (week_bounds env.now).1
      → let (start, end) = start_and_end_of_week d in
        count_user_bookings_in_week user_id start end db
        ≡ count_user_bookings_this_week env.now user_id db
  unfolding count_user_bookings_in_week count_before_next_monday
  this_week_count p low high =
      rw (same_monday p low high, monday_starts p)
        (sym (count_user_bookings_this_week_lem env.now user_id db p))

  -- On consistent tables, for a clock from day 1 on, a member with a row, and a date from the first
  -- to the last of the bookable week: if the next hour is offered, then the request for it, on the
  -- same tables and at the same time, succeeds and commits exactly the new booking.
  pub get_consecutive_slot_option-safe_create_booking :
      (source : String)
      → IsConsistent db
      → 0 < date_of env.now
      → (week_bounds env.now).0 ≤ d
      → d ≤ (week_bounds env.now).1
      → count_rows (has_user_id user_id) db.users ≡ 1
      → (get_consecutive_slot_option env working_hours user_id d h (fresh_session db)).0
        ≡ ok (some (d, h + 1))
      → let b = requested env user_id d (h + 1) source db in
        let (r, s) = safe_create_booking env user_id d (h + 1) source (fresh_session db) in
        (r ≡ ok (success, some b)) × (s.committed ≡ with_booking b db)
  unfolding booking_status after_request
  get_consecutive_slot_option-safe_create_booking source v p low high known offered = ground (
    arith,
    get_consecutive_slot_option_lem v,
    this_week_count p low high,
    safe_create_booking_lem env user_id d (h + 1) source db v,
  )
