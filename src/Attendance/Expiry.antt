-- ===== src/Attendance/Expiry.antt =====
-- The second part of `process_geo_checks` of app/services/geo_service.py, for one hour.
use Prim.Native.String.{String}
use music_room_bot.Prelude.{
  ℕ, ◌+◌, ◌*◌, ◌/◌, ◌≤◌, ◌<◌, ◌≡◌, refl, ap, ◌∙◌, true, false, ◌&&◌, Option, List, [], ◌∷◌, arith,
  ltb, ◌==◌, if◌then◌else◌,
}
use music_room_bot.Attendance.{of_user_at, get_chain_booking_ids}
use music_room_bot.Attendance.Absences.{with_absences, IsChain-AllOwned, expire_chain_lem}
use music_room_bot.Attendance.Chains.{
  IsChain, one_at, get_chain_booking_ids_lem, is_first_in_chain_lem,
}
use music_room_bot.Attendance.Checks.{is_to_expire, expire_rows, notify_expired, expire_hour}
use music_room_bot.Db.{User, Booking, Db, has_user_id, has_booking_id}
use music_room_bot.Db.Invariant.{IsConsistent}
use music_room_bot.Prelude.Rows.{select, count_rows, select_cons, selected_pos, select_unique}
use music_room_bot.Reminders.{of_user_on, join_users, is_account, account}
use music_room_bot.Session.{
  Outcome, ok, check_in_expired, Event, sent, Env, Session, fresh_session, slot_start,
}
use music_room_bot.Time.{minute_us, combine}
use music_room_bot.Warnings.{add_warning}

-- A booking at the hour with an open request for a location, of a user with an account who has no
-- booking in the hour before.
pub record IsAbsentee (db : Db) (d h : ℕ) (b : Booking) (u : User) : Type 0 where
  pub open_one : select (is_to_expire d h) db.bookings ≡ b ∷ []
  pub owner : select (has_user_id b.user_id) db.users ≡ u ∷ []
  pub reachable : is_account u.tg_user_id ≡ true
  pub first : count_rows (λ c. of_user_on b.user_id d c && c.hour + 1 == h) db.bookings ≡ 0

module _ (env : Env) (reason : ℕ → ℕ → String) (late_minutes d h : ℕ) (db : Db)
    (v : IsConsistent db) (ids_start : count_rows (has_booking_id 0) db.bookings ≡ 0) (b : Booking)
    (u : User) (c : IsAbsentee db d h b u) where
  abbrev pub warning : List ℕ → Outcome (Option ℕ) × Session
  warning ids =
      add_warning env b.user_id (reason d h) true (fresh_session (with_absences env.now ids db))

  -- The chain that starts with the booking.
  starts_here :
      (ids : List ℕ)
      → (get_chain_booking_ids b.user_id d h (fresh_session db) ≡ (ok ids, fresh_session db))
        × IsChain b.user_id d db h ids
      → (rest : List ℕ) × IsChain b.user_id d db h (b.id ∷ rest)
        × (get_chain_booking_ids b.user_id d h (fresh_session db)
            ≡ (ok (b.id ∷ rest), fresh_session db))
  starts_here [] (e, none_there) = absurd (
      ground (
        arith,
        none_there,
        selected_pos (of_user_at b.user_id d h) (is_to_expire d h) db.bookings b [] c.open_one,
        select_cons (is_to_expire d h) db.bookings b [] c.open_one,
      ))
  starts_here (i ∷ ids) (e, ((x, found, same), chain)) =
      let there = select_cons (is_to_expire d h) db.bookings b [] c.open_one in
      let mine =
        select_unique (is_to_expire d h) (of_user_at b.user_id d h) db.bookings b []
          (ground (arith, there))
          (one_at (fresh_session db) v.bookings_ok.slot_unique ids_start b.user_id d h)
          c.open_one in
      let same_key : i ≡ b.id = cc in
      (ids, ((b, mine, refl), chain), e ∙ ap (λ k. (ok (k ∷ ids), fresh_session db)) same_key)

  expire_rows_lem :
      (rest : List ℕ)
      → IsChain b.user_id d db h (b.id ∷ rest)
      → get_chain_booking_ids b.user_id d h (fresh_session db)
        ≡ (ok (b.id ∷ rest), fresh_session db)
      → expire_rows env (reason d h) d h ((b, u) ∷ []) (fresh_session db)
        ≡ (ok (account u.tg_user_id ∷ []), (warning (b.id ∷ rest)).1)
  unfolding expire_rows
  expire_rows_lem rest chain e =
      let owned =
        IsChain-AllOwned env b.user_id d h db (b.id ∷ rest) v.bookings_ok.keyed.key chain in
      let is_first =
        is_first_in_chain_lem (fresh_session db) v.bookings_ok.slot_unique ids_start b.user_id d
          h in
      let marked = expire_chain_lem env b.user_id (reason d h) b.id rest db owned in
      ground (arith, c.reachable, is_first, c.first, e, marked)

  -- What the notice adds to the events.
  abbrev pub told : List Event → List Event
  told events =
      let notice = check_in_expired (account u.tg_user_id) d h in
      if env.delivers notice then sent notice ∷ events else events

  -- On consistent tables with keys from 1 on, once the check-in window of the hour is over: for an
  -- open booking of a reachable user that is the first of its chain, every booking of the chain is
  -- marked absent, then the user is warned once, and the user is told if Telegram takes the notice.
  pub expire_hour_lem :
      h < 24
      → combine d h + late_minutes * minute_us ≤ env.now / minute_us * minute_us
      → (rest : List ℕ) × IsChain b.user_id d db h (b.id ∷ rest)
        × (expire_hour env reason late_minutes d h (fresh_session db) ≡ (
          ok tt,
          record (warning (b.id ∷ rest)).1 { events = told (warning (b.id ∷ rest)).1.events },
        ))
  unfolding expire_hour slot_start notify_expired
  expire_hour_lem hour_ok over =
      let (ids, e, chain) =
        get_chain_booking_ids_lem (fresh_session db) v.bookings_ok.slot_unique ids_start b.user_id d
          h in
      let (rest, found, again) = starts_here ids (e, chain) in
      let rows : join_users (select (is_to_expire d h) db.bookings) db.users ≡ (b, u) ∷ [] =
        rw (c.open_one, c.owner) refl in
      let timely : ltb h 24 ≡ true = ground (arith, hour_ok) in
      let late : ltb (env.now / minute_us * minute_us) (combine d h + late_minutes * minute_us)
          ≡ false =
        ground (arith, over) in
      (rest, found, ground (arith, timely, late, rows, expire_rows_lem rest found again))
