-- ===== src/Tests/Checks.antt =====
-- The theorems on attendance at the sample club, where Ann has booked Monday at ten and at eleven.
use Prim.Native.String.{String}
use music_room_bot.Prelude.{ℕ, suc, ◌+◌, ◌*◌, ◌≡◌, refl, true, false, some, List, [], ◌∷◌, arith}
use music_room_bot.Attendance.{active_of, get_current_booking, get_chain_booking_ids}
use music_room_bot.Attendance.Absences.{absent, with_absences}
use music_room_bot.Attendance.Chains.{IsChain, get_chain_booking_ids_lem}
use music_room_bot.Attendance.Checks.{expire_hour}
use music_room_bot.Attendance.Expiry.{IsAbsentee}
use music_room_bot.Attendance.Located.{
  after_check_in, handle_location-confirms, handle_location-too_late, handle_location-expire_hour,
}
use music_room_bot.Attendance.Location.{check_in_closed, check_in_confirmed, Place, handle_location}
use music_room_bot.Attendance.Once.{expire_hour-add_warning, expire_hour-once}
use music_room_bot.Attendance.Runs.{IsOpenRun}
use music_room_bot.Bookings.Gifts.{update_bookings}
use music_room_bot.Db.{Booking, Db, has_user_id, has_booking_id}
use music_room_bot.Db.Invariant.{IsConsistent}
use music_room_bot.Prelude.Rows.{select, count_rows}
use music_room_bot.Session.{ok, Env, fresh_session, slot_start}
use music_room_bot.Tests.{ten_oclock, env, ann, tuesday_noon, db, db-IsConsistent}
use music_room_bot.Time.{minute_us, combine}
use music_room_bot.Users.{has_tg_id, is_admin_row}
use music_room_bot.Warnings.{update_users}
use music_room_bot.Warnings.Bans.{ban_duration_months, add_months_civil, add_months}
use music_room_bot.Warnings.Laws.{warned_row}

abbrev monday_ten : Booking
monday_ten = record tuesday_noon { id = 4; date = 701; hour = 10; location_prompted = true }

abbrev monday_eleven : Booking
monday_eleven = record tuesday_noon { id = 5; date = 701; hour = 11 }

abbrev club : Db
club = record db { bookings = monday_ten ∷ monday_eleven ∷ tuesday_noon ∷ []; next_booking_id = 6 }

club-IsConsistent : IsConsistent club
unfolding count_rows
club-IsConsistent = record {
  bookings_ok = record {
    keyed = record { key = λ i. ground arith; fresh = λ i h. ground arith };
    slot_unique = λ d h. ground arith;
    started = omega arith;
  };
  weekly_ok = db-IsConsistent.weekly_ok;
  users_ok = db-IsConsistent.users_ok;
  gift_offers_ok = db-IsConsistent.gift_offers_ok;
  swap_offers_ok = db-IsConsistent.swap_offers_ok;
}

no_key_zero : count_rows (has_booking_id 0) club.bookings ≡ 0
unfolding count_rows
no_key_zero = refl

get_chain_booking_ids_lem_example :
    (ids : List ℕ) × (get_chain_booking_ids 1 701 10 (fresh_session club)
      ≡ (ok ids, fresh_session club))
    × IsChain 1 701 club 10 ids
get_chain_booking_ids_lem_example =
    get_chain_booking_ids_lem (fresh_session club) club-IsConsistent.bookings_ok.slot_unique
      no_key_zero 1 701 10

-- Twenty minutes past ten.
abbrev late_env : Env
late_env = record env { now = ten_oclock + 20 * minute_us }

abbrev absence_reason : ℕ → ℕ → String
absence_reason d h = "Absent for Monday at 10:00"

ann-IsAbsentee : IsAbsentee club 701 10 monday_ten ann
unfolding select count_rows
ann-IsAbsentee = record { open_one = refl; owner = refl; reachable = refl; first = refl }

ban_ends :
    add_months late_env late_env.now (ban_duration_months 1) ≡ ok (combine 732 10 + 20 * minute_us)
unfolding add_months add_months_civil ban_duration_months
ban_ends = refl

expire_hour-add_warning_example :
    (rest : List ℕ) × IsChain 1 701 club 10 (4 ∷ rest)
    × ((expire_hour late_env absence_reason 10 701 10 (fresh_session club)).1.committed
        ≡ update_users
            (has_user_id 1)
            (λ _. warned_row (combine 732 10 + 20 * minute_us) ann)
            (with_absences late_env.now (4 ∷ rest) club))
expire_hour-add_warning_example =
    expire_hour-add_warning late_env absence_reason 10 701 10 club club-IsConsistent no_key_zero
      monday_ten ann ann-IsAbsentee (combine 732 10 + 20 * minute_us) ban_ends (omega arith)
      (omega arith)

expire_hour-once_example :
    let t = (expire_hour late_env absence_reason 10 701 10 (fresh_session club)).1.committed in
    expire_hour env absence_reason 15 701 10 (fresh_session t) ≡ (ok tt, fresh_session t)
expire_hour-once_example =
    expire_hour-once late_env absence_reason 10 701 10 club club-IsConsistent no_key_zero monday_ten
      ann ann-IsAbsentee (combine 732 10 + 20 * minute_us) ban_ends (omega arith) (omega arith) env
      absence_reason 15

abbrev in_room : Place
in_room = record { lat = 1; lon = 2; is_inside = true; is_outside = false }

ann_is_no_admin : count_rows (is_admin_row 100) club.admins ≡ 0
unfolding count_rows
ann_is_no_admin = refl

ann_by_account : select (has_tg_id 100) club.users ≡ ann ∷ []
unfolding select
ann_by_account = refl

ann_plays_now :
    get_current_booking env 60 1 (fresh_session club) ≡ (ok (some monday_ten), fresh_session club)
unfolding get_current_booking active_of slot_start select
ann_plays_now = refl

ann_plays_late :
    get_current_booking late_env 60 1 (fresh_session club)
    ≡ (ok (some monday_ten), fresh_session club)
unfolding get_current_booking active_of slot_start select
ann_plays_late = refl

handle_location-confirms_example :
    (k : ℕ) × IsOpenRun 1 701 club.bookings 10 (suc k)
    × (handle_location env absence_reason 60 10 100 in_room (fresh_session club) ≡ (
      ok check_in_confirmed,
      fresh_session (after_check_in 1 2 env.now monday_ten 1 (suc k) club),
    ))
handle_location-confirms_example =
    handle_location-confirms env absence_reason 60 10 100 in_room club club-IsConsistent ann
      monday_ten ann_is_no_admin ann_by_account ann_plays_now refl (omega arith) refl

handle_location-too_late_example :
    let (r, s) = handle_location late_env absence_reason 60 10 100 in_room (fresh_session club) in
    (r ≡ ok check_in_closed)
    × (s.committed
        ≡ update_users
            (has_user_id 1)
            (λ _. warned_row (combine 732 10 + 20 * minute_us) ann)
            (update_bookings (has_booking_id 4) (absent late_env.now) club))
handle_location-too_late_example =
    handle_location-too_late late_env absence_reason 60 10 100 in_room club club-IsConsistent ann
      monday_ten ann_is_no_admin ann_by_account ann_plays_late refl
      (combine 732 10 + 20 * minute_us) ban_ends (omega arith)

handle_location-expire_hour_example :
    let (r, s) = handle_location late_env absence_reason 60 10 100 in_room (fresh_session club) in
    expire_hour env absence_reason 15 701 10 (fresh_session s.committed)
    ≡ (ok tt, fresh_session s.committed)
handle_location-expire_hour_example =
    handle_location-expire_hour late_env absence_reason 60 10 100 in_room club club-IsConsistent ann
      monday_ten ann_is_no_admin ann_by_account ann_plays_late refl
      (combine 732 10 + 20 * minute_us) ban_ends refl env absence_reason 15
