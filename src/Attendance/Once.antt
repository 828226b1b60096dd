-- ===== src/Attendance/Once.antt =====
-- `process_geo_checks` of app/services/geo_service.py over two runs, for one hour.
use Prim.Native.String.{String}
use music_room_bot.Prelude.{
  ℕ, ◌+◌, ◌*◌, ◌/◌, ◌≤◌, ◌<◌, ◌≡◌, refl, ap, ◌∙◌, inl, inr, true, List, [], ◌∷◌, arith, ltb,
  Bool-cases,
}
use music_room_bot.Attendance.Absences.{absent, with_absences}
use music_room_bot.Attendance.Chains.{IsChain}
use music_room_bot.Attendance.Checks.{
  is_to_expire, is_listed_id, expire_rows, notify_expired, expire_hour,
}
use music_room_bot.Attendance.Expiry.{IsAbsentee, expire_hour_lem}
use music_room_bot.Db.{User, Booking, Db, has_user_id, has_booking_id}
use music_room_bot.Db.Invariant.{IsConsistent}
use music_room_bot.Prelude.Rows.{select, count_rows}
use music_room_bot.Prelude.Updates.{select-update_rows_out}
use music_room_bot.Session.{ok, Env, fresh_session, slot_start}
use music_room_bot.Time.{minute_us, combine}
use music_room_bot.Warnings.{update_users}
use music_room_bot.Warnings.Bans.{ban_duration_months, add_months}
use music_room_bot.Warnings.Laws.{warned_row, add_warning_lem}

pub expire_hour_idle :
    (env : Env) (reason : ℕ → ℕ → String) (late_minutes d h : ℕ) (db : Db)
    → h < 24
    → select (is_to_expire d h) db.bookings ≡ []
    → expire_hour env reason late_minutes d h (fresh_session db) ≡ (ok tt, fresh_session db)
unfolding expire_hour slot_start notify_expired expire_rows
expire_hour_idle env reason late_minutes d h db hour_ok none_open =
    let timely : ltb h 24 ≡ true = ground (arith, hour_ok) in
    elim (Bool-cases
      (ltb (env.now / minute_us * minute_us) (combine d h + late_minutes * minute_us))) [
        | inl early ↦ rw (timely, early) refl
        | inr late ↦ rw (timely, late, none_open) refl
      ]

module _ (env : Env) (reason : ℕ → ℕ → String) (late_minutes d h : ℕ) (db : Db)
    (v : IsConsistent db) (ids_start : count_rows (has_booking_id 0) db.bookings ≡ 0) (b : Booking)
    (u : User) (c : IsAbsentee db d h b u) (until : ℕ)
    (ends : add_months env env.now (ban_duration_months (u.ban_count + 1)) ≡ ok until)
    (hour_ok : h < 24)
    (over : combine d h + late_minutes * minute_us ≤ env.now / minute_us * minute_us) where
  -- On consistent tables with keys from 1 on, once the check-in window of the hour is over, with the
  -- end of the next ban a date of the calendar: for an open booking of a reachable user that is the
  -- first of its chain, what is committed is every booking of the chain marked absent and one
  -- warning of the user, by the rules of warnings; no other row changes.
  pub expire_hour-add_warning :
      (rest : List ℕ) × IsChain b.user_id d db h (b.id ∷ rest)
      × ((expire_hour env reason late_minutes d h (fresh_session db)).1.committed
          ≡ update_users
              (has_user_id b.user_id)
              (λ _. warned_row until u)
              (with_absences env.now (b.id ∷ rest) db))
  expire_hour-add_warning =
      let (rest, chain, e) =
        expire_hour_lem env reason late_minutes d h db v ids_start b u c hour_ok over in
      let (r, written) =
        add_warning_lem env b.user_id (reason d h) true (with_absences env.now (b.id ∷ rest) db) u
          until c.owner ends in
      (rest, chain, ap (λ out. out.1.committed) e ∙ written)

  -- On consistent tables with keys from 1 on, once the check-in window of the hour is over, with the
  -- end of the next ban a date of the calendar, and for an open booking of a reachable user that is
  -- the first of its chain: after a run for the hour, another one, whenever it is, changes and sends
  -- nothing.
  pub expire_hour-once :
      (env' : Env) (reason' : ℕ → ℕ → String) (late_minutes' : ℕ)
      → let t = (expire_hour env reason late_minutes d h (fresh_session db)).1.committed in
        expire_hour env' reason' late_minutes' d h (fresh_session t) ≡ (ok tt, fresh_session t)
  expire_hour-once env' reason' late_minutes' =
      let (rest, chain, e) = expire_hour-add_warning in
      let t = (expire_hour env reason late_minutes d h (fresh_session db)).1.committed in
      expire_hour_idle env' reason' late_minutes' d h t hour_ok (
        ap (λ x. select (is_to_expire d h) x.bookings) e
        ∙ select-update_rows_out (is_to_expire d h) (is_listed_id (b.id ∷ rest)) (absent env.now)
            db.bookings b c.open_one (ground arith) (λ y. ground arith))
