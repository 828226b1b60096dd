-- ===== src/Tests/Requests.antt =====
-- The theorems on time, queries, requests and cancellations at the sample club.
use music_room_bot.Prelude.{ℕ, ◌+◌, ◌≡◌, refl, true, ◌&&◌, some, [], ◌∷◌, arith, ltb, if◌then◌else◌}
use music_room_bot.Bookings.Cancel.{is_late, is_own_booking, delete_booking, is_stale, weekly_reset}
use music_room_bot.Bookings.Cancel.Laws.{after_cancellation, delete_booking_lem, weekly_reset_lem}
use music_room_bot.Bookings.Consecutive.{get_consecutive_slot_option}
use music_room_bot.Bookings.Consecutive.Laws.{get_consecutive_slot_option-safe_create_booking}
use music_room_bot.Bookings.Create.{with_booking, safe_create_booking}
use music_room_bot.Bookings.Create.Laws.{
  booking_status, after_request, created, requested, safe_create_booking_lem,
}
use music_room_bot.Bookings.Create.Limits.{IsWithinLimit, safe_create_booking-IsWithinLimit}
use music_room_bot.Bookings.Queries.{
  is_slot_free, is_weekly_reserved, is_weekly_reserved_for_date, is_weekly_reserved_on_date,
  count_user_bookings_this_week,
}
use music_room_bot.Db.{has_user_id, has_booking_id}
use music_room_bot.Db.Invariant.{IsConsistent}
use music_room_bot.Limits.{weekly_limit_value}
use music_room_bot.Prelude.Rows.{select, count_rows, delete_rows}
use music_room_bot.Session.{ok, success, fresh_session, slot_start}
use music_room_bot.Tests.{
  ten_oclock, env, ann, tuesday_noon, db, db-IsConsistent, limit_is_two, db-IsWithinLimit,
}
use music_room_bot.Time.{combine, get_current_week_date, week_bounds, start_and_end_of_week}
use music_room_bot.Warnings.Bans.{ban_duration_months, add_months}

safe_create_booking_lem_example :
    let status = booking_status env 1 704 20 db in
    let b = requested env 1 704 20 "regular" db in
    let (r, s) = safe_create_booking env 1 704 20 "regular" (fresh_session db) in
    (r ≡ ok (status, created status b)) × (s.committed ≡ after_request status db b)
safe_create_booking_lem_example = safe_create_booking_lem env 1 704 20 "regular" db db-IsConsistent

safe_create_booking-IsWithinLimit_example :
    IsWithinLimit 2 (safe_create_booking env 1 704 20 "regular" (fresh_session db)).1.committed
safe_create_booking-IsWithinLimit_example =
    safe_create_booking-IsWithinLimit env 1 704 20 "regular" db 2 db-IsConsistent limit_is_two
      db-IsWithinLimit

-- Ann's third warning, or any of Bob's, ends at this instant if it bans.
abbrev ban_end : ℕ
ban_end = combine 732 10

ban_ends : (add_months env env.now (ban_duration_months (ann.ban_count + 1)) ≡ ok ban_end)
unfolding add_months ban_duration_months
ban_ends = refl

own_booking : select (is_own_booking 1 1) db.bookings ≡ tuesday_noon ∷ []
unfolding select
own_booking = refl

booking_one : select (has_booking_id 1) db.bookings ≡ tuesday_noon ∷ []
unfolding select
booking_one = refl

user_one : select (has_user_id 1) db.users ≡ ann ∷ []
unfolding select
user_one = refl

delete_booking_lem_example :
    let dt = combine 702 12 in
    let (r, s) = delete_booking env 1 1 true (fresh_session db) in
    (r ≡ ok (ltb env.now dt))
    × (s.committed ≡ (
        if ltb env.now dt
        then after_cancellation env tuesday_noon db ann ban_end (is_late dt env.now && true)
        else db))
delete_booking_lem_example =
    delete_booking_lem env 1 1 true db tuesday_noon ann ban_end db-IsConsistent own_booking
      (omega arith) user_one ban_ends

weekly_reset_lem_example :
    let t = (weekly_reset env (fresh_session db)).1.committed in
    (t.bookings ≡ delete_rows (is_stale (get_current_week_date env.now 0)) db.bookings)
    × (t.users ≡ db.users)
    × IsConsistent t
weekly_reset_lem_example = weekly_reset_lem env db db-IsConsistent

week_of_704 : start_and_end_of_week 704 ≡ (701, 708)
unfolding start_and_end_of_week
week_of_704 = refl

-- The room is open from eight to midnight every day.
abbrev open_all_day : ℕ → ℕ × ℕ
open_all_day day = (8, 24)

monday_bound : (week_bounds ten_oclock).0 ≡ 701
unfolding week_bounds
monday_bound = refl

sunday_bound : (week_bounds ten_oclock).1 ≡ 707
unfolding week_bounds
sunday_bound = refl

ann_is_known : count_rows (has_user_id 1) db.users ≡ 1
unfolding count_rows
ann_is_known = refl

one_is_offered :
    (get_consecutive_slot_option env open_all_day 1 702 12 (fresh_session db)).0
    ≡ ok (some (702, 13))
unfolding get_consecutive_slot_option slot_start is_weekly_reserved_on_date is_weekly_reserved
    is_weekly_reserved_for_date is_slot_free select count_rows count_user_bookings_this_week
    week_bounds weekly_limit_value
one_is_offered = refl

get_consecutive_slot_option-safe_create_booking_example :
    let b = requested env 1 702 13 "consecutive" db in
    let (r, s) = safe_create_booking env 1 702 13 "consecutive" (fresh_session db) in
    (r ≡ ok (success, some b)) × (s.committed ≡ with_booking b db)
get_consecutive_slot_option-safe_create_booking_example =
    get_consecutive_slot_option-safe_create_booking env open_all_day 1 702 12 db "consecutive"
      db-IsConsistent (omega arith) (omega (arith, monday_bound)) (omega (arith, sunday_bound))
      ann_is_known one_is_offered
