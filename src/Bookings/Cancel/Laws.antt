-- ===== src/Bookings/Cancel/Laws.antt =====
-- Cancellations and the weekly reset of app/services/booking_service.py: their effect on the tables.
use Prim.Native.String.{String}
use mathlib.Core.Path.{fun_ext}
use music_room_bot.Prelude.{
  ℕ, ◌+◌, ◌<◌, ◌≡◌, refl, ap, ◌∙◌, Bool, true, false, not, ◌&&◌, List, [], ◌∷◌, arith, ltb, leb,
  ◌==◌, if◌then◌else◌,
}
use music_room_bot.Bookings.Cancel.{
  delete_bookings, notify_cancelled_slot, is_late, after_deletion, delete_and_commit,
  do_delete_booking, is_own_booking, delete_booking, cancel_booking_by_admin, is_stale, is_listed,
  weekly_reset,
}
use music_room_bot.Db.{User, Booking, Db, has_user_id, has_booking_id, has_gift_offer_id}
use music_room_bot.Db.Invariant.{delete_rows-IsKeyed, IsConsistent, delete_rows-IsBookingTable}
use music_room_bot.Prelude.Keys.{
  has_listed_key, All-has_listed_key, counts-HasKeys, delete_rows_same,
}
use music_room_bot.Prelude.Rows.{select, count_rows, delete_rows, selected_pos}
use music_room_bot.Session.{ok, booking_cancelled_by_admin, Env, Session, fresh_session, slot_start}
use music_room_bot.Session.Send.{OnlyEvents, send_to_user-OnlyEvents}
use music_room_bot.Time.{combine, get_current_week_date}
use music_room_bot.Time.Laws.{get_current_week_dates-eq-map}
use music_room_bot.Warnings.{update_users, add_warning}
use music_room_bot.Warnings.Bans.{ban_duration_months, add_months}
use music_room_bot.Warnings.Laws.{warned_row, add_warning_lem}

module _ (env : Env) (booking : Booking) (user : User) where
  notify_cancelled_slot-OnlyEvents :
      (s : Session) → OnlyEvents (notify_cancelled_slot env booking user s) s
  unfolding notify_cancelled_slot
  notify_cancelled_slot-OnlyEvents s = ground arith

module _ (env : Env) (booking : Booking) (db : Db) (user : User) (until : ℕ) where
  -- The database after the deletion and, where one is due, the warning.
  abbrev pub after_cancellation : Bool → Db
  after_cancellation is_warned =
      let t = delete_bookings (λ i. i == booking.id) db in
      if is_warned
      then update_users (has_user_id booking.user_id) (λ _. warned_row until user) t
      else t

  module _ (owner : select (has_user_id booking.user_id) db.users ≡ user ∷ [])
      (ends : add_months env env.now (ban_duration_months (user.ban_count + 1)) ≡ ok until) where
    after_deletion_lem :
        (bot is_admin_cancel send_warning : Bool)
        → let t = delete_bookings (λ i. i == booking.id) db in
          let (r, s) =
            after_deletion env booking user bot is_admin_cancel send_warning (fresh_session t) in
          (r ≡ ok true) × (s.committed ≡ after_cancellation (send_warning && bot))
    unfolding after_deletion
    after_deletion_lem bot is_admin_cancel send_warning =
        let t = delete_bookings (λ i. i == booking.id) db in
        let warning : String = "Late cancellation (less than 1 hour before booking)" in
        ground (
          arith,
          add_warning_lem env booking.user_id warning false t user until owner ends,
          notify_cancelled_slot-OnlyEvents env booking user (fresh_session t),
          notify_cancelled_slot-OnlyEvents env booking user
              (add_warning env booking.user_id warning false (fresh_session t)).1,
        )

    pub do_delete_booking_lem :
        (bot is_admin_cancel : Bool)
        → booking.hour < 24
        → count_rows (has_booking_id booking.id) db.bookings ≡ 1
        → let dt = combine booking.date booking.hour in
          let refused = leb dt env.now && not is_admin_cancel in
          let (r, s) = do_delete_booking env booking bot is_admin_cancel (fresh_session db) in
          (r ≡ ok (not refused))
          × (s.committed ≡ (
              if refused
              then db
              else after_cancellation ((not is_admin_cancel && is_late dt env.now) && bot)))
    unfolding do_delete_booking delete_and_commit slot_start
    do_delete_booking_lem bot is_admin_cancel h one =
        let late = not is_admin_cancel && is_late (combine booking.date booking.hour) env.now in
        ground (arith, owner, one, after_deletion_lem bot is_admin_cancel late)

-- A key that selects one row of a table selects it once.
one_booking :
    (p : Booking → Bool) (db : Db) (b : Booking) (rest : List Booking)
    → IsConsistent db
    → select p db.bookings ≡ b ∷ rest
    → count_rows (has_booking_id b.id) db.bookings ≡ 1
one_booking p db b rest v e = omega (
  arith,
  v.bookings_ok.keyed.key b.id,
  selected_pos (has_booking_id b.id) p db.bookings b rest e (ground arith),
)

-- On consistent tables, for a booking of the member's that starts at an hour below 24, and with the
-- end of the member's next ban a date of the calendar: before the start, the booking goes, and a
-- cancellation an hour or less before it that comes with a bot costs a warning; from the start on
-- nothing changes and the reply is false.
pub delete_booking_lem :
    (env : Env) (booking_id user_id : ℕ) (bot : Bool) (db : Db) (b : Booking) (user : User)
    (until : ℕ)
    → IsConsistent db
    → select (is_own_booking booking_id user_id) db.bookings ≡ b ∷ []
    → b.hour < 24
    → select (has_user_id b.user_id) db.users ≡ user ∷ []
    → add_months env env.now (ban_duration_months (user.ban_count + 1)) ≡ ok until
    → let dt = combine b.date b.hour in
      let (r, s) = delete_booking env booking_id user_id bot (fresh_session db) in
      (r ≡ ok (ltb env.now dt))
      × (s.committed ≡ (
          if ltb env.now dt
          then after_cancellation env b db user until (is_late dt env.now && bot)
          else db))
unfolding delete_booking
delete_booking_lem env booking_id user_id bot db b user until v own h owner ends = ground (
  arith,
  own,
  do_delete_booking_lem env b db user until owner ends bot false h
      (one_booking (is_own_booking booking_id user_id) db b [] v own),
)

-- On consistent tables, for a booking that starts at an hour below 24, whose owner is a user with the
-- end of the next ban a date of the calendar: an administrator cancels the booking, also a past one,
-- so that it goes with its gift offers and nothing else changes.
pub cancel_booking_by_admin_lem :
    (env : Env) (booking_id : ℕ) (bot : Bool) (reason : String) (db : Db) (b : Booking)
    (user : User) (until : ℕ)
    → IsConsistent db
    → select (has_booking_id booking_id) db.bookings ≡ b ∷ []
    → b.hour < 24
    → select (has_user_id b.user_id) db.users ≡ user ∷ []
    → add_months env env.now (ban_duration_months (user.ban_count + 1)) ≡ ok until
    → let (r, s) = cancel_booking_by_admin env booking_id bot reason (fresh_session db) in
      (r ≡ ok true) × (s.committed ≡ delete_bookings (λ i. i == b.id) db)
unfolding cancel_booking_by_admin
cancel_booking_by_admin_lem env booking_id bot reason db b user until v found h owner ends =
    ground (
      arith,
      found,
      owner,
      do_delete_booking_lem env b db user until owner ends bot true h
          (one_booking (has_booking_id booking_id) db b [] v found),
      send_to_user-OnlyEvents env (do_delete_booking env b bot true (fresh_session db)).1
          user.tg_user_id (λ (tg : ℕ). booking_cancelled_by_admin tg b.date b.hour reason),
    )

-- Deletion keeps the constraints.
pub delete_bookings-IsConsistent :
    (has_key : ℕ → Bool) (db : Db) → IsConsistent db → IsConsistent (delete_bookings has_key db)
delete_bookings-IsConsistent has_key db v = record {
  bookings_ok =
      delete_rows-IsBookingTable (λ b. has_key b.id) db.next_booking_id db.bookings v.bookings_ok;
  weekly_ok = v.weekly_ok;
  users_ok = v.users_ok;
  gift_offers_ok =
      delete_rows-IsKeyed has_gift_offer_id (λ o. has_key o.booking_id) db.next_gift_offer_id
        db.gift_offers v.gift_offers_ok;
  swap_offers_ok = v.swap_offers_ok;
}

abbrev booking_key : Booking → ℕ
booking_key b = b.id

is_listed_lem :
    (bs : List Booking) (b : Booking) → is_listed bs b.id ≡ has_listed_key booking_key bs b
is_listed_lem [] b = refl
is_listed_lem (c ∷ bs) b = ground (arith, is_listed_lem bs b)

-- On consistent tables, the weekly reset deletes exactly the bookings before the bookable week's
-- Monday that are not weekly, leaves the users alone, and keeps the tables consistent.
pub weekly_reset_lem :
    (env : Env) (db : Db)
    → IsConsistent db
    → let t = (weekly_reset env (fresh_session db)).1.committed in
      (t.bookings ≡ delete_rows (is_stale (get_current_week_date env.now 0)) db.bookings)
      × (t.users ≡ db.users)
      × IsConsistent t
unfolding weekly_reset
weekly_reset_lem env db v =
    let p = is_stale (get_current_week_date env.now 0) in
    let old = select p db.bookings in
    rw (get_current_week_dates-eq-map env.now) (
      ap (λ q. delete_rows q db.bookings) (fun_ext (is_listed_lem old))
          ∙ delete_rows_same (has_listed_key booking_key old) p db.bookings (
              All-has_listed_key booking_key p db.bookings
                (counts-HasKeys booking_key db.bookings v.bookings_ok.keyed.key)),
      refl,
      delete_bookings-IsConsistent (is_listed old) db v,
    )
