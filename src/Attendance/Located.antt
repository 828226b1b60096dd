-- ===== src/Attendance/Located.antt =====
-- What `handle_location` of app/bot/handlers/location.py answers and commits to a member with a
-- booking that runs, and what is left to `process_geo_checks`.
use Prim.Native.String.{String}
use music_room_bot.Prelude.{
  ℕ, suc, ◌+◌, ◌*◌, ◌≤◌, ◌<◌, ◌≡◌, ap, ◌∙◌, inl, inr, Bool, true, false, not, ◌&&◌, some, [], ◌∷◌,
  arith, ltb, leb, ◌==◌, Bool-cases,
}
use music_room_bot.Attendance.{record_absence, get_current_booking, of_user_at}
use music_room_bot.Attendance.Absences.{absent}
use music_room_bot.Attendance.CheckIns.{mark_attendance_chain_verified_lem}
use music_room_bot.Attendance.Checks.{is_to_expire, expire_hour}
use music_room_bot.Attendance.Current.{get_current_booking_lem}
use music_room_bot.Attendance.Location.{
  check_in_closed, check_in_confirmed, Place, check_in, locate_booking, locate_user,
  handle_location,
}
use music_room_bot.Attendance.Once.{expire_hour_idle}
use music_room_bot.Attendance.Runs.{in_run, IsOpenRun, present}
use music_room_bot.Bookings.Cancel.{is_own_booking}
use music_room_bot.Bookings.Gifts.{update_bookings}
use music_room_bot.Db.{User, Booking, Db, has_user_id, has_booking_id, at_slot}
use music_room_bot.Db.Invariant.{IsConsistent}
use music_room_bot.Prelude.Members.{Member-unique}
use music_room_bot.Prelude.Rows.{
  select, count_rows, update_rows, count_rows_le, count_rows_unique, select_none, select_cons,
  select_unique,
}
use music_room_bot.Prelude.Updates.{count_rows-update_rows_out, only_row}
use music_room_bot.Session.{ok, Env, fresh_session, slot_start}
use music_room_bot.Time.{minute_us, combine}
use music_room_bot.Users.{has_tg_id, is_admin_row, is_admin}
use music_room_bot.Warnings.{update_users}
use music_room_bot.Warnings.Bans.{ban_duration_months, add_months}
use music_room_bot.Warnings.Laws.{warned_row, add_warning_lem}

-- A booking with attendance, column by column.
abbrev pub attended : ℕ → ℕ → ℕ → Booking → Booking
attended lat lon now b = record {
  id = b.id;
  user_id = b.user_id;
  date = b.date;
  hour = b.hour;
  is_weekly = b.is_weekly;
  booking_source = b.booking_source;
  assigned_at = b.assigned_at;
  created_at = b.created_at;
  location_prompted = true;
  absence_reported = true;
  attendance_verified = true;
  attendance_lat = some lat;
  attendance_lon = some lon;
  attendance_recorded_at = some now;
  reminded_hourly_at = b.reminded_hourly_at;
  reminded_15_at = b.reminded_15_at;
}

-- The tables after the user of the booking `b` has checked in for `k` hours from it on.
abbrev pub after_check_in : ℕ → ℕ → ℕ → Booking → ℕ → ℕ → Db → Db
after_check_in lat lon now b user_id k db = record db {
  bookings =
      update_rows
        (λ x.
          (x.date == b.date && x.user_id == user_id)
          && (leb b.hour x.hour && ltb x.hour (b.hour + k)))
        (attended lat lon now) db.bookings;
}

module _ (env : Env) (reason : ℕ → ℕ → String) (slot_length late_minutes tg_id : ℕ) (place : Place)
    (db : Db) (v : IsConsistent db) (u : User) (b : Booking)
    (not_admin : count_rows (is_admin_row tg_id) db.admins ≡ 0)
    (known : select (has_tg_id tg_id) db.users ≡ u ∷ [])
    (booked : get_current_booking env slot_length u.id (fresh_session db)
      ≡ (ok (some b), fresh_session db))
    (open_yet : b.absence_reported ≡ false) where
  found_by :
      (p : Booking → Bool)
      → p b ≡ true
      → count_rows p db.bookings ≤ 1
      → select p db.bookings ≡ b ∷ []
  found_by p h one =
      let (row, mine, running) =
        get_current_booking_lem env slot_length u.id (fresh_session db) b booked in
      Member-unique p db.bookings b row h one

  found : select (of_user_at u.id b.date b.hour) db.bookings ≡ b ∷ []
  found =
      let (row, mine, running) =
        get_current_booking_lem env slot_length u.id (fresh_session db) b booked in
      found_by (of_user_at u.id b.date b.hour) (ground (arith, mine)) (
        count_rows_unique (of_user_at u.id b.date b.hour) (at_slot b.date b.hour) db.bookings
          (λ x e. ground arith) (v.bookings_ok.slot_unique b.date b.hour))

  timely : ltb b.hour 24 ≡ true
  timely =
      let (row, mine, running) =
        get_current_booking_lem env slot_length u.id (fresh_session db) b booked in
      ground (arith, running.0)

  no_admin : select (is_admin_row tg_id) db.admins ≡ []
  no_admin = select_none (is_admin_row tg_id) db.admins not_admin

  handle_location_checks :
      handle_location env reason slot_length late_minutes tg_id place (fresh_session db)
      ≡ check_in env (reason b.date b.hour) late_minutes place u b (fresh_session db)
  unfolding handle_location is_admin locate_user locate_booking
  handle_location_checks = ground (arith, no_admin, known, booked, open_yet)

  abbrev pub deadline : ℕ
  deadline = combine b.date b.hour + late_minutes * minute_us

  -- On consistent tables, a member (not an administrator) who sends a location that is not outside
  -- of the radius before the deadline of a running booking that has no attendance yet: the answer
  -- is the confirmation. What is committed is the booking, and the user's bookings of the day that
  -- follow it hour by hour, up to one whose attendance or absence is recorded or an hour without
  -- one, as verified attendance with the place and the time of the message; nothing else changes.
  pub handle_location-confirms :
      env.now < deadline
      → place.is_outside ≡ false
      → (k : ℕ) × IsOpenRun u.id b.date db.bookings b.hour (suc k)
        × (handle_location env reason slot_length late_minutes tg_id place (fresh_session db) ≡ (
          ok check_in_confirmed,
          fresh_session (after_check_in place.lat place.lon env.now b u.id (suc k) db),
        ))
  unfolding check_in slot_start
  handle_location-confirms in_time inside =
      let (k, run, e) =
        mark_attendance_chain_verified_lem env place.lat place.lon db v u b found open_yet in
      let early : leb deadline env.now ≡ false = ground (arith, in_time) in
      (k, run, handle_location_checks ∙ ground (arith, timely, early, inside, e))

  -- On consistent tables, for a member (not an administrator) with a running booking that has no
  -- attendance yet, who sends a location from the deadline on, and with the end of the next ban a
  -- date of the calendar: the answer says that the check-in is closed, and what is committed is this
  -- booking alone marked absent and one warning of the member, by the rules of warnings.
  pub handle_location-too_late :
      (until : ℕ)
      → add_months env env.now (ban_duration_months (u.ban_count + 1)) ≡ ok until
      → deadline ≤ env.now
      → let (r, s) =
          handle_location env reason slot_length late_minutes tg_id place (fresh_session db) in
        (r ≡ ok check_in_closed)
        × (s.committed
            ≡ update_users
                (has_user_id u.id)
                (λ _. warned_row until u)
                (update_bookings (has_booking_id b.id) (absent env.now) db))
  unfolding check_in slot_start record_absence
  handle_location-too_late until ends late =
      let closed : leb deadline env.now ≡ true = ground (arith, late) in
      let there = select_cons (of_user_at u.id b.date b.hour) db.bookings b [] found in
      let own : select (is_own_booking b.id u.id) db.bookings ≡ b ∷ [] =
        found_by (is_own_booking b.id u.id) (ground (arith, there)) (
          count_rows_unique (is_own_booking b.id u.id) (has_booking_id b.id) db.bookings
            (λ x e. ground arith) (v.bookings_ok.keyed.key b.id)) in
      let row : select (has_user_id u.id) db.users ≡ u ∷ [] =
        select_unique (has_tg_id tg_id) (has_user_id u.id) db.users u [] (ground arith)
          (v.users_ok u.id) known in
      let (r, w) =
        add_warning_lem env u.id (reason b.date b.hour) true
          (update_bookings (has_booking_id b.id) (absent env.now) db) u until row ends in
      rw handle_location_checks (ground (arith, timely, closed, own, r, w))

  none_open :
      (q : Booking → Bool) (f : Booking → Booking)
      → q b ≡ true
      → ((x : Booking) → is_to_expire b.date b.hour (f x) ≡ false)
      → select (is_to_expire b.date b.hour) (update_rows q f db.bookings) ≡ []
  none_open q f h k =
      let here = at_slot b.date b.hour in
      let mine : select here db.bookings ≡ b ∷ [] =
        found_by here (ground arith) (v.bookings_ok.slot_unique b.date b.hour) in
      select_none (is_to_expire b.date b.hour) (update_rows q f db.bookings) (
        omega (
          arith,
          count_rows-update_rows_out (is_to_expire b.date b.hour) q f db.bookings k,
          only_row here q db.bookings b mine (ground arith) h,
          count_rows_le (λ x. is_to_expire b.date b.hour x && not (q x)) (λ x. here x && not (q x))
              db.bookings (λ x e. ground arith),
        ))

  -- On consistent tables, for a member (not an administrator) with a running booking that has no
  -- attendance yet, with the end of the next ban a date of the calendar, and for a location that is
  -- not outside of the radius, whether in time or too late: on what is committed then, a run at any
  -- time of the part of the job that expires check-ins, for the hour of the booking, changes nothing
  -- and sends nothing. Other hours are not covered: a chain that starts in the hour before may still
  -- take the booking along.
  pub handle_location-expire_hour :
      (until : ℕ)
      → add_months env env.now (ban_duration_months (u.ban_count + 1)) ≡ ok until
      → place.is_outside ≡ false
      → (env' : Env) (reason' : ℕ → ℕ → String) (late_minutes' : ℕ)
      → let (r, s) =
          handle_location env reason slot_length late_minutes tg_id place (fresh_session db) in
        expire_hour env' reason' late_minutes' b.date b.hour (fresh_session s.committed)
        ≡ (ok tt, fresh_session s.committed)
  handle_location-expire_hour until ends inside env' reason' late_minutes' =
      let (r, s) =
        handle_location env reason slot_length late_minutes tg_id place (fresh_session db) in
      let there = select_cons (of_user_at u.id b.date b.hour) db.bookings b [] found in
      expire_hour_idle env' reason' late_minutes' b.date b.hour s.committed (ground (arith, timely))
        (elim (Bool-cases (ltb env.now deadline)) [
          | inl early ↦
              let (k, run, e) = handle_location-confirms (ground (arith, early)) inside in
              ap (λ out. select (is_to_expire b.date b.hour) out.1.committed.bookings) e
              ∙ none_open (in_run u.id b.date b.hour (suc k)) (present place.lat place.lon env.now)
                  (ground (arith, there)) (λ x. ground arith)
          | inr late ↦
              let (r, w) = handle_location-too_late until ends (ground (arith, late)) in
              ap (λ x. select (is_to_expire b.date b.hour) x.bookings) w
              ∙ none_open (has_booking_id b.id) (absent env.now) (ground arith) (λ x. ground arith)
        ])
