-- ===== src/Attendance.antt =====
-- app/services/attendance_service.py, and the chains of consecutive bookings in
-- app/services/geo_service.py. A float (a coordinate) is a number that is only stored. The loops
-- over hours run on fuel: one more than the rows of the table, since each round finds a row of a
-- new hour.
pub mod Chains
pub mod Absences
pub mod Expiry
pub mod Once
pub mod Runs
pub mod Current
pub mod CheckIns
pub mod Located
pub mod Checks
pub mod Location
use music_room_bot.Prelude.{
  ℕ, zero, suc, ◌+◌, ◌*◌, Bool, true, false, not, ◌&&◌, Option, none, some, List, [], ◌∷◌, ltb, leb,
  ◌==◌, if◌then◌else◌, is_some, length,
}
use music_room_bot.Bookings.Cancel.{is_own_booking}
use music_room_bot.Bookings.Gifts.{update_bookings}
use music_room_bot.Db.{User, Booking, Db, has_booking_id}
use music_room_bot.Prelude.Rows.{select}
use music_room_bot.Reminders.{of_user_on}
use music_room_bot.Session.{
  Outcome, ok, raised, Env, Exec, pure, lift, branch, query, scalar_one_or_none, scalar_one, modify,
  commit, slot_start, ◌>>=◌, ◌>>◌,
}
use music_room_bot.Time.{minute_us, date_of}

abbrev pub write_attendance : Bool → Option ℕ → Option ℕ → ℕ → Booking → Booking
write_attendance verified lat lon now b = record b {
  attendance_verified = verified;
  attendance_lat = lat;
  attendance_lon = lon;
  attendance_recorded_at = some now;
  absence_reported = true;
  location_prompted = true;
}

abbrev pub set_attendance : (Booking → Booking) → Booking → Db → Db
set_attendance f booking = update_bookings (has_booking_id booking.id) f

-- `commit()`, or `flush()`, which only writes.
abbrev pub commit_if : Bool → Exec (Unit {0})
commit_if commits = branch commits commit (pure tt)

-- `verified`, or the comparison of the distance with `geo_radius`, two floats.
abbrev pub verified_or : Option Bool → Bool → Bool
verified_or none within_radius = within_radius
verified_or (some verified) within_radius = verified

unfoldable pub record_attendance : Env → ℕ → ℕ → ℕ → ℕ → Bool → Bool → Option Bool → Exec Booking
record_attendance env booking_id user_id lat lon within_radius commits verified = do
  rows ← query λ db. select (is_own_booking booking_id user_id) db.bookings
  booking ← scalar_one rows
  let write = write_attendance (verified_or verified within_radius) (some lat) (some lon) env.now
  modify (set_attendance write booking)
  commit_if commits
  pure (write booking)

unfoldable pub record_absence : Env → ℕ → ℕ → Bool → Exec Booking
record_absence env booking_id user_id commits = do
  rows ← query λ db. select (is_own_booking booking_id user_id) db.bookings
  booking ← scalar_one rows
  let write = write_attendance false none none env.now
  modify (set_attendance write booking)
  commit_if commits
  pure (write booking)

-- `booking_dt <= now < booking_dt + slot_length`, of each row.
unfoldable pub active_of : ℕ → ℕ → List Booking → Outcome (List Booking)
active_of now slot_length [] = ok []
active_of now slot_length (b ∷ bs) =
    let rest = active_of now slot_length bs in
    elim (slot_start b.date b.hour) [
      | raised e ↦ raised e
      | ok start ↦ elim rest [
        | raised e ↦ raised e
        | ok active ↦ ok (
            if leb start now && ltb now (start + slot_length * minute_us)
            then b ∷ active
            else active)
      ]
    ]

-- `max(…, key=lambda booking: booking.hour)`: the first of the largest.
abbrev pub latest_of : Booking → List Booking → Booking
latest_of b [] = b
latest_of b (c ∷ cs) = if ltb b.hour c.hour then latest_of c cs else latest_of b cs

abbrev pub latest : List Booking → Option Booking
latest [] = none
latest (b ∷ bs) = some (latest_of b bs)

-- `slot_length` is the integer that the configuration holds.
unfoldable pub get_current_booking : Env → ℕ → ℕ → Exec (Option Booking)
unfolding active_of
get_current_booking env slot_length user_id = do
  rows ← query λ db. select (of_user_on user_id (date_of env.now)) db.bookings
  active ← lift (active_of env.now slot_length rows)
  pure (latest active)

abbrev pub of_user_at : ℕ → ℕ → ℕ → Booking → Bool
of_user_at user_id d h b = of_user_on user_id d b && b.hour == h

abbrev pub is_unprocessed_at : ℕ → ℕ → ℕ → Booking → Bool
is_unprocessed_at user_id d h b = of_user_at user_id d h b && not b.absence_reported

-- The loop of `mark_attendance_chain_verified` from `next_hour` on.
unfoldable pub mark_following : ℕ → Env → ℕ → ℕ → ℕ → ℕ → ℕ → Exec (Unit {0})
mark_following zero env user_id d next_hour lat lon = pure tt
mark_following (suc fuel) env user_id d next_hour lat lon = do
  rows ← query λ db. select (is_unprocessed_at user_id d next_hour) db.bookings
  next_booking ← scalar_one_or_none rows
  elim next_booking [
    | none ↦ pure tt
    | some b ↦ do
      record_attendance env b.id user_id lat lon true false (some true)
      mark_following fuel env user_id d (next_hour + 1) lat lon
  ]

-- `if not booking.absence_reported`
unfoldable pub mark_first : Env → User → Booking → ℕ → ℕ → Bool → Exec (Unit {0})
mark_first env user booking lat lon true = pure tt
mark_first env user booking lat lon false = do
  record_attendance env booking.id user.id lat lon true false (some true)
  pure tt

unfoldable pub mark_attendance_chain_verified :
    Env → User → Booking → ℕ → ℕ → Bool → Exec (Unit {0})
mark_attendance_chain_verified env user booking lat lon commits = do
  mark_first env user booking lat lon booking.absence_reported
  fuel ← query λ db. length db.bookings + 1
  mark_following fuel env user.id booking.date (booking.hour + 1) lat lon
  commit_if commits

-- `hour - 1 < 0`
unfoldable pub is_first_in_chain : ℕ → ℕ → ℕ → Exec Bool
is_first_in_chain user_id d zero = pure true
is_first_in_chain user_id d (suc prev_hour) = do
  rows ← query λ db. select (of_user_at user_id d prev_hour) db.bookings
  found ← scalar_one_or_none rows
  pure (not (is_some found))

-- The loop from hour `h` on. The id 0 would end it, too.
unfoldable pub chain_ids_from : ℕ → ℕ → ℕ → ℕ → Exec (List ℕ)
chain_ids_from zero user_id d h = pure []
chain_ids_from (suc fuel) user_id d h = do
  rows ← query λ db. select (of_user_at user_id d h) db.bookings
  found ← scalar_one_or_none rows
  elim found [
    | none ↦ pure []
    | some b ↦
        branch (b.id == 0) (pure [])
          do rest ← chain_ids_from fuel user_id d (h + 1); pure (b.id ∷ rest)
  ]

unfoldable pub get_chain_booking_ids : ℕ → ℕ → ℕ → Exec (List ℕ)
get_chain_booking_ids user_id d start_hour = do
  fuel ← query λ db. length db.bookings + 1
  chain_ids_from fuel user_id d start_hour
