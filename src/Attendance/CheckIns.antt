-- ===== src/Attendance/CheckIns.antt =====
-- The bookings that `mark_attendance_chain_verified` of app/services/geo_service.py marks.
use music_room_bot.Prelude.{ℕ, suc, ◌+◌, ◌≡◌, refl, ap, true, false, [], ◌∷◌, arith, length}
use music_room_bot.Attendance.{
  of_user_at, is_unprocessed_at, mark_following, mark_first, mark_attendance_chain_verified,
}
use music_room_bot.Attendance.Runs.{
  in_run, IsOpenRun, present, open_from, IsOpenRun-later, record_attendance_lem, marked-marked,
  mark_following_lem,
}
use music_room_bot.Bookings.Gifts.{update_bookings}
use music_room_bot.Db.{User, Booking, Db, has_booking_id, at_slot}
use music_room_bot.Db.Invariant.{IsConsistent}
use music_room_bot.Prelude.Rows.{
  select, count_rows, update_rows, count_rows-update_rows, count_rows_le, select_cons, select_count,
  selected_pos,
}
use music_room_bot.Prelude.Updates.{count_rows-length}
use music_room_bot.Session.{ok, Env, Session, fresh_session}

abbrev pub with_check_in : Env → ℕ → ℕ → User → Booking → ℕ → Db → Db
with_check_in env lat lon u b k db =
    update_bookings (in_run u.id b.date b.hour k) (present lat lon env.now) db

module _ (env : Env) (lat lon : ℕ) (db : Db) (v : IsConsistent db) (u : User) (b : Booking)
    (found : select (of_user_at u.id b.date b.hour) db.bookings ≡ b ∷ [])
    (open_yet : b.absence_reported ≡ false) where
  abbrev first_marked : Session
  first_marked = record (fresh_session db) {
    current = update_bookings (of_user_at u.id b.date b.hour) (present lat lon env.now) db;
  }

  marks_following :
      (k : ℕ)
      → mark_following
          (length first_marked.current.bookings + 1)
          env
          u.id
          b.date
          (b.hour + 1)
          lat
          lon
          first_marked
        ≡ (
          ok tt,
          record first_marked {
            current =
                update_bookings
                  (in_run u.id b.date (b.hour + 1) k)
                  (present lat lon env.now)
                  first_marked.current;
          },
        )
      → mark_attendance_chain_verified env u b lat lon true (fresh_session db)
        ≡ (ok tt, fresh_session (with_check_in env lat lon u b (suc k) db))
  unfolding mark_attendance_chain_verified mark_first
  marks_following k e = ground (
    arith,
    open_yet,
    record_attendance_lem env u.id b.date lat lon (fresh_session db) b b.hour
        v.bookings_ok.keyed.key found,
    e,
    ap (λ s. s.current) (marked-marked env u.id b.date lat lon b.hour k (fresh_session db)),
  )

  open_here : count_rows (is_unprocessed_at u.id b.date b.hour) db.bookings ≡ 1
  open_here =
      let at_hour = of_user_at u.id b.date b.hour in
      let test = is_unprocessed_at u.id b.date b.hour in
      ground (
        arith,
        selected_pos test at_hour db.bookings b [] found
            (ground (arith, select_cons at_hour db.bookings b [] found, open_yet)),
        count_rows_le test at_hour db.bookings (λ x e. ground arith),
        select_count at_hour db.bookings,
        ap length found,
      )

  -- The loops end, and the booking and those that follow it hour by hour are marked.
  pub mark_attendance_chain_verified_lem :
      (k : ℕ) × IsOpenRun u.id b.date db.bookings b.hour (suc k)
      × (mark_attendance_chain_verified env u b lat lon true (fresh_session db)
          ≡ (ok tt, fresh_session (with_check_in env lat lon u b (suc k) db)))
  mark_attendance_chain_verified_lem =
      let at_hour = of_user_at u.id b.date b.hour in
      let first = update_rows at_hour (present lat lon env.now) db.bookings in
      let s1 : Session = record (fresh_session db) { current = record db { bookings = first } } in
      let (k, o, e) =
        mark_following_lem env u.id b.date lat lon (length first + 1) (b.hour + 1) s1
          (λ i. omega (
            arith,
            v.bookings_ok.keyed.key i,
            count_rows-update_rows (has_booking_id i) at_hour (present lat lon env.now) db.bookings
                (λ x. refl),
          ))
          (λ d h. omega (
            arith,
            v.bookings_ok.slot_unique d h,
            count_rows-update_rows (at_slot d h) at_hour (present lat lon env.now) db.bookings
                (λ x. refl),
          ))
          (omega (arith, count_rows-length (open_from u.id b.date (b.hour + 1)) first)) in
      (
        k,
        (
          open_here,
          IsOpenRun-later env u.id b.date lat lon b.hour (b.hour + 1) k db.bookings (omega arith) o,
        ),
        marks_following k e,
      )
