-- ===== src/Attendance/Checks.antt =====
-- `process_geo_checks` of app/services/geo_service.py, which a scheduler runs every minute: the
-- requests for a location, and the absences of those who sent none in time. The code opens a session
-- for each part, and each part commits; they are one session here.
use Prim.Native.String.{String}
use music_room_bot.Prelude.{
  ℕ, ◌+◌, ◌-◌, ◌*◌, ◌/◌, Bool, true, false, not, ◌&&◌, ◌||◌, List, [], ◌∷◌, ltb, ◌==◌,
  if◌then◌else◌,
}
use music_room_bot.Attendance.{record_absence, is_first_in_chain, get_chain_booking_ids}
use music_room_bot.Bookings.Gifts.{update_bookings}
use music_room_bot.Db.{User, Booking, at_slot}
use music_room_bot.Prelude.Rows.{select}
use music_room_bot.Reminders.{join_users, is_account, account}
use music_room_bot.Session.{
  check_in_open, check_in_expired, sent, Env, Exec, pure, lift, branch, query, try_log, modify,
  emit, commit, try_send, slot_start, ◌>>=◌, ◌>>◌,
}
use music_room_bot.Time.{minute_us, hour_us, date_of, hour_of}
use music_room_bot.Warnings.{add_warning}

abbrev pub is_to_prompt : ℕ → ℕ → Booking → Bool
is_to_prompt d h b = at_slot d h b && (not b.location_prompted && not b.absence_reported)

abbrev pub is_to_expire : ℕ → ℕ → Booking → Bool
is_to_expire d h b =
    at_slot d h b && (b.location_prompted && (not b.absence_reported && not b.attendance_verified))

abbrev pub is_listed_id : List ℕ → Booking → Bool
is_listed_id [] b = false
is_listed_id (i ∷ ids) b = b.id == i || is_listed_id ids b

-- The first loop: the rows to prompt.
unfoldable pub rows_to_prompt : ℕ → ℕ → List (Booking × User) → Exec (List (Booking × User))
rows_to_prompt d h [] = pure []
rows_to_prompt d h ((b, u) ∷ rows) =
    branch (not (is_account u.tg_user_id)) (rows_to_prompt d h rows) do
      first ← is_first_in_chain b.user_id d h
      rest ← rows_to_prompt d h rows
      pure (if first then (b, u) ∷ rest else rest)

-- The second loop: the ids of those whom Telegram has reached.
unfoldable pub send_prompts : Env → ℕ → List (Booking × User) → Exec (List ℕ)
send_prompts env deadline [] = pure []
send_prompts env deadline ((b, u) ∷ rows) =
    let notice = check_in_open (account u.tg_user_id) deadline in
    branch (env.delivers notice)
      (do emit (sent notice); rest ← send_prompts env deadline rows; pure (b.id ∷ rest))
      (send_prompts env deadline rows)

abbrev pub set_prompted : Booking → Booking
set_prompted b = record b { location_prompted = true }

abbrev pub close_check_in : Booking → Booking
close_check_in b = record b { absence_reported = true; location_prompted = true }

unfoldable pub flip_prompted : List ℕ → Exec (Unit {0})
flip_prompted [] = pure tt
flip_prompted (i ∷ ids) = do modify (update_bookings (is_listed_id (i ∷ ids)) set_prompted); commit

-- Phase A, for the current hour.
unfoldable pub prompt_hour : Env → ℕ → ℕ → ℕ → Exec (Unit {0})
prompt_hour env late_minutes today cur_hour = do
  start ← lift (slot_start today cur_hour)
  let deadline = start + late_minutes * minute_us
  branch (not (ltb (env.now / minute_us * minute_us) deadline)) (pure tt) do
    rows ← query λ db. join_users (select (is_to_prompt today cur_hour) db.bookings) db.users
    prompted ← rows_to_prompt today cur_hour rows
    ids ← send_prompts env deadline prompted
    flip_prompted ids

-- `record_absence` of each, whose exceptions are logged.
unfoldable pub record_absences : Env → List ℕ → ℕ → Exec (Unit {0})
record_absences env [] user_id = pure tt
record_absences env (i ∷ ids) user_id = do
  try_log (record_absence env i user_id false)
  record_absences env ids user_id

-- What follows for a chain that is not empty; `reason` is the text of the warning.
unfoldable pub expire_chain : Env → String → ℕ → List ℕ → Exec Bool
expire_chain env reason user_id [] = pure false
expire_chain env reason user_id (i ∷ ids) = do
  record_absences env (i ∷ ids) user_id
  modify (update_bookings (is_listed_id (i ∷ ids)) close_check_in)
  commit
  try_log (add_warning env user_id reason true)
  pure true

-- The loop over the candidates: the accounts to notify.
unfoldable pub expire_rows : Env → String → ℕ → ℕ → List (Booking × User) → Exec (List ℕ)
expire_rows env reason d h [] = pure []
expire_rows env reason d h ((b, u) ∷ rows) =
    branch (not (is_account u.tg_user_id)) (expire_rows env reason d h rows) do
      first ← is_first_in_chain b.user_id d h
      branch (not first) (expire_rows env reason d h rows) do
        ids ← get_chain_booking_ids b.user_id d h
        was_absent ← expire_chain env reason b.user_id ids
        rest ← expire_rows env reason d h rows
        pure (if was_absent then account u.tg_user_id ∷ rest else rest)

unfoldable pub notify_expired : Env → ℕ → ℕ → List ℕ → Exec (Unit {0})
notify_expired env d h [] = pure tt
notify_expired env d h (tg ∷ rest) = do
  try_send env (check_in_expired tg d h)
  notify_expired env d h rest

-- Phase B, for one hour.
unfoldable pub expire_hour : Env → (ℕ → ℕ → String) → ℕ → ℕ → ℕ → Exec (Unit {0})
expire_hour env reason late_minutes d h = do
  start ← lift (slot_start d h)
  branch (ltb (env.now / minute_us * minute_us) (start + late_minutes * minute_us)) (pure tt) do
    rows ← query λ db. join_users (select (is_to_expire d h) db.bookings) db.users
    accounts ← expire_rows env (reason d h) d h rows
    notify_expired env d h accounts

-- `late_minutes` is the integer that the configuration holds; `reason` formats the text of a
-- warning.
unfoldable pub process_geo_checks : Env → (ℕ → ℕ → String) → ℕ → Exec (Unit {0})
process_geo_checks env reason late_minutes = do
  let now = env.now / minute_us * minute_us
  let prev = now - hour_us
  prompt_hour env late_minutes (date_of now) (hour_of now)
  expire_hour env reason late_minutes (date_of now) (hour_of now)
  branch (date_of prev == date_of now && hour_of prev == hour_of now) (pure tt)
      (expire_hour env reason late_minutes (date_of prev) (hour_of prev))
