-- ===== src/Attendance/Location.antt =====
-- `handle_location` of app/bot/handlers/location.py: a member sends a location.
use Prim.Native.String.{String}
use music_room_bot.Prelude.{ℕ, ◌+◌, ◌*◌, Bool, true, Option, none, some, leb, if◌then◌else◌}
use music_room_bot.Attendance.{record_absence, get_current_booking, mark_attendance_chain_verified}
use music_room_bot.Db.{User, Booking}
use music_room_bot.Prelude.Rows.{select}
use music_room_bot.Session.{
  Env, Exec, pure, lift, branch, query, scalar_one_or_none, slot_start, ◌>>=◌, ◌>>◌,
}
use music_room_bot.Time.{minute_us}
use music_room_bot.Users.{has_tg_id, is_admin}
use music_room_bot.Warnings.{add_warning}

pub data Reply : Type 0 where
  distance_check : Bool → Reply
  not_registered no_booking already_checked_in check_in_closed too_far check_in_confirmed : Reply

-- What a message with a location comes with: the distance from the room is a float, and is read by
-- two comparisons with the radius.
pub record Place : Type 0 where
  pub lat : ℕ
  pub lon : ℕ
  pub is_inside : Bool  -- `distance <= geo_config.radius`
  pub is_outside : Bool  -- `distance > geo_config.radius`

-- From the check of the deadline on.
unfoldable pub check_in : Env → String → ℕ → Place → User → Booking → Exec Reply
check_in env reason late_minutes place user booking = do
  start ← lift (slot_start booking.date booking.hour)
  branch (leb (start + late_minutes * minute_us) env.now)
      (do
        record_absence env booking.id user.id true
        add_warning env user.id reason true
        pure check_in_closed)
      (branch place.is_outside (pure too_far) do
        mark_attendance_chain_verified env user booking place.lat place.lon true
        pure check_in_confirmed)

unfoldable pub locate_booking :
    Env → (ℕ → ℕ → String) → ℕ → Place → User → Option Booking → Exec Reply
unfolding check_in
locate_booking env reason late_minutes place user none = pure no_booking
locate_booking env reason late_minutes place user (some booking) =
    branch booking.absence_reported
      (pure (if booking.attendance_verified then already_checked_in else check_in_closed))
      (check_in env (reason booking.date booking.hour) late_minutes place user booking)

unfoldable pub locate_user : Env → (ℕ → ℕ → String) → ℕ → ℕ → Place → Option User → Exec Reply
unfolding locate_booking
locate_user env reason slot_length late_minutes place none = pure not_registered
locate_user env reason slot_length late_minutes place (some user) = do
  booking ← get_current_booking env slot_length user.id
  locate_booking env reason late_minutes place user booking

unfoldable pub handle_location : Env → (ℕ → ℕ → String) → ℕ → ℕ → ℕ → Place → Exec Reply
unfolding locate_user is_admin
handle_location env reason slot_length late_minutes tg_id place = do
  admin_flag ← is_admin tg_id
  branch admin_flag (pure (distance_check place.is_inside)) do
    rows ← query λ db. select (has_tg_id tg_id) db.users
    user ← scalar_one_or_none rows
    locate_user env reason slot_length late_minutes place user
