-- ===== src/Bookings/Cancel.antt =====
-- The cancellations and the weekly reset of app/services/booking_service.py. `bot` says whether the
-- caller passed a bot; the texts of the messages are left out.
pub mod Laws
use Prim.Native.String.{String}
use music_room_bot.Prelude.{
  ℕ, zero, suc, ◌+◌, Bool, true, false, not, ◌&&◌, ◌||◌, Option, none, some, List, [], ◌∷◌, ltb,
  leb, ◌==◌, ℤ, pos, negsuc, get_or, Text,
}
use music_room_bot.Db.{User, Booking, Db, has_user_id, has_booking_id}
use music_room_bot.Prelude.Rows.{select, count_rows, delete_rows}
use music_room_bot.Session.{
  booking_cancelled_by_admin, slot_cancelled, sent, registered, Env, Exec, pure, lift, branch,
  query, scalar_one_or_none, scalar_one, try_log, modify, emit, commit, rollback, slot_start, ◌>>=◌,
  ◌>>◌,
}
use music_room_bot.Session.Send.{send_to_user}
use music_room_bot.Time.{hour_us, get_current_week_dates}
use music_room_bot.Warnings.{add_warning}

-- DELETE of bookings; the foreign key of gift offers cascades.
abbrev pub delete_bookings : (ℕ → Bool) → Db → Db
delete_bookings has_key db = record db {
  bookings = delete_rows (λ b. has_key b.id) db.bookings;
  gift_offers = delete_rows (λ o. has_key o.booking_id) db.gift_offers;
}

-- `user.full_name or user.tg_username`, the empty text being false.
abbrev pub or_text : Option Text → Option Text → Option Text
or_text none t = t
or_text (some []) t = t
or_text (some (c ∷ s)) t = some (c ∷ s)

abbrev pub truthy_chat : Option ℤ → Option ℤ
truthy_chat none = none
truthy_chat (some (pos zero)) = none
truthy_chat (some (pos (suc n))) = some (pos (suc n))
truthy_chat (some (negsuc n)) = some (negsuc n)

-- The notice to the members' chat, whose message is registered for the flash booking button.
notify_chat : Env → Booking → User → Option ℤ → Exec (Unit {0})
notify_chat env booking user none = pure tt
notify_chat env booking user (some chat) =
    let topic = truthy_chat env.member_topic_id in
    let notice =
      slot_cancelled chat topic (or_text user.full_name user.tg_username) booking.date
        booking.hour in
    branch (env.delivers notice)
      (do emit (sent notice); emit (registered booking.date booking.hour chat topic)) (pure tt)

unfoldable pub notify_cancelled_slot : Env → Booking → User → Exec (Unit {0})
unfolding notify_chat
notify_cancelled_slot env booking user =
    notify_chat env booking user (truthy_chat env.member_chat_id)

-- `booking_dt - now <= timedelta(hours=1)`
abbrev pub is_late : ℕ → ℕ → Bool
is_late booking_dt now = leb booking_dt (now + hour_us)

-- What follows the commit: the warning for a late cancellation, and the notice.
unfoldable pub after_deletion : Env → Booking → User → Bool → Bool → Bool → Exec Bool
after_deletion env booking user bot is_admin_cancel send_warning = do
  branch (send_warning && bot)
      (try_log (
        add_warning env booking.user_id "Late cancellation (less than 1 hour before booking)"
          false))
      (pure tt)
  branch (bot && not is_admin_cancel) (notify_cancelled_slot env booking user) (pure tt)
  pure true

-- The deletion itself, with the check that exactly one row went.
unfoldable pub delete_and_commit : Env → Booking → User → Bool → Bool → Bool → Exec Bool
delete_and_commit env booking user bot is_admin_cancel send_warning = do
  rowcount ← query λ db. count_rows (has_booking_id booking.id) db.bookings
  modify (delete_bookings λ i. i == booking.id)
  branch (not (rowcount == 1)) (do rollback; pure false)
      (do commit; after_deletion env booking user bot is_admin_cancel send_warning)

unfoldable pub do_delete_booking : Env → Booking → Bool → Bool → Exec Bool
do_delete_booking env booking bot is_admin_cancel = do
  booking_dt ← lift (slot_start booking.date booking.hour)
  branch (leb booking_dt env.now && not is_admin_cancel) (pure false) do
    let send_warning = not is_admin_cancel && is_late booking_dt env.now
    rows ← query λ db. select (has_user_id booking.user_id) db.users
    user ← scalar_one rows
    delete_and_commit env booking user bot is_admin_cancel send_warning

delete_found : Env → Bool → Option Booking → Exec Bool
delete_found env bot none = pure false
delete_found env bot (some booking) = do_delete_booking env booking bot false

abbrev pub is_own_booking : ℕ → ℕ → Booking → Bool
is_own_booking booking_id user_id b = b.id == booking_id && b.user_id == user_id

unfoldable pub delete_booking : Env → ℕ → ℕ → Bool → Exec Bool
unfolding delete_found
delete_booking env booking_id user_id bot = do
  rows ← query λ db. select (is_own_booking booking_id user_id) db.bookings
  booking ← scalar_one_or_none rows
  delete_found env bot booking

-- `if success and bot and user.tg_user_id`
cancel_found : Env → Bool → String → Option Booking → Exec Bool
cancel_found env bot notify_reason none = pure false
cancel_found env bot notify_reason (some booking) = do
  rows ← query λ db. select (has_user_id booking.user_id) db.users
  user ← scalar_one rows
  cancels ← do_delete_booking env booking bot true
  branch (cancels && bot)
      (send_to_user env user.tg_user_id
        λ tg. booking_cancelled_by_admin tg booking.date booking.hour notify_reason)
      (pure tt)
  pure cancels

unfoldable pub cancel_booking_by_admin : Env → ℕ → Bool → String → Exec Bool
unfolding cancel_found
cancel_booking_by_admin env booking_id bot notify_reason = do
  rows ← query λ db. select (has_booking_id booking_id) db.bookings
  booking ← scalar_one_or_none rows
  cancel_found env bot notify_reason booking

abbrev pub is_stale : ℕ → Booking → Bool
is_stale cutoff_date b = not b.is_weekly && ltb b.date cutoff_date

abbrev pub is_listed : List Booking → ℕ → Bool
is_listed [] i = false
is_listed (b ∷ bs) i = i == b.id || is_listed bs i

unfoldable pub weekly_reset : Env → Exec (Unit {0})
weekly_reset env = do
  let cutoff_date = get_or (get_current_week_dates env.now) 0 0
  old ← query λ db. select (is_stale cutoff_date) db.bookings
  modify (delete_bookings (is_listed old))
  commit
