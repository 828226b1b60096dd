-- ===== src/Session.antt =====
-- A SQLAlchemy session and what a service does in it: every service function is an action of
-- `Exec`, from the session before to its result, or the exception that it raises, and the session
-- after. Writes go to `current`; COMMIT copies it to `committed`, and ROLLBACK copies it back.
-- The file also holds the environment that an action reads: the clock, the runtime configuration,
-- the parts of Python's `str` and `datetime` that are not repository code, and Telegram.
pub mod Laws
pub mod Send
use Prim.Native.String.{String}
use music_room_bot.Prelude.{
  ℕ, Bool, true, false, Option, none, some, List, [], ◌∷◌, ltb, if◌then◌else◌, ℤ, Text,
}
use music_room_bot.Db.{Db}
use music_room_bot.Time.{combine}

-- The exceptions that the services raise or meet.
pub data PyError : Type 0 where
  value_error attribute_error integrity_error multiple_results_found no_result_found : PyError

pub data Outcome {ℓ} (A : Type ℓ) : Type ℓ where
  ok : A → Outcome A
  raised : PyError → Outcome A

-- What `safe_create_booking` reports.
pub data BookingStatus : Type 0 where
  success taken limit : BookingStatus

-- A message to Telegram, by what its text says. The first field is the chat or the user.
pub data Notice : Type 0 where
  booking_cancelled_by_admin : ℕ → ℕ → ℕ → String → Notice
  slot_cancelled : ℤ → Option ℤ → Option Text → ℕ → ℕ → Notice
  warned : ℕ → String → ℕ → Bool → Notice
  banned_for_warnings : ℕ → String → ℕ → ℕ → ℕ → Bool → Notice
  warning_issued : ℤ → ℕ → ℕ → String → Notice
  user_auto_banned : ℤ → ℕ → ℕ → ℕ → ℕ → Notice
  access_suspended : ℕ → Option String → ℕ → ℕ → Notice
  ban_lifted : ℕ → Notice
  warning_reverted : ℕ → Bool → ℕ → Notice
  access_granted : ℕ → Bool → Notice
  reminder : ℕ → Bool → ℕ → List ℕ → Notice
  check_in_open : ℕ → ℕ → Notice
  check_in_expired : ℕ → ℕ → ℕ → Notice

-- What an action does outside the database: `bot.send_message`, the booking counter of
-- app/core/metrics.py, and `register` of app/bot/flash_book_store.py.
pub data Event : Type 0 where
  sent : Notice → Event
  counted : String → BookingStatus → Event
  registered : ℕ → ℕ → ℤ → Option ℤ → Event

-- A value of the runtime configuration.
pub data RuntimeConfigValue : Type 0 where
  none_value : RuntimeConfigValue
  int_value : ℤ → RuntimeConfigValue
  str_value : Text → RuntimeConfigValue

-- Year, month and day of a date.
pub record Civil : Type 0 where
  pub year : ℕ
  pub month : ℕ
  pub day : ℕ

-- The clock is read once for each action. `delivers` says whether Telegram takes a message, and
-- `rejects`, of one that it does not take, whether the failure is permanent.
pub record Env : Type 0 where
  pub now : ℕ
  pub weekly_limit : RuntimeConfigValue
  pub member_chat_id : Option ℤ
  pub member_topic_id : Option ℤ
  pub warning_chat_id : Option ℤ
  pub admin_chat_id : Option ℤ
  pub int_of_text : Text → Option ℤ
  pub is_space : ℕ → Bool
  pub lower : Text → Text
  pub civil : ℕ → Civil
  pub ordinal : ℕ → ℕ → ℕ → ℕ
  pub month_length : ℕ → ℕ → ℕ
  pub lock_digest : ℕ → ℕ → ℕ
  pub delivers : Notice → Bool
  pub rejects : Notice → Bool

pub record Session : Type 0 where
  pub committed : Db
  pub current : Db
  pub locks : List ℕ
  pub events : List Event

-- A session as the pool hands it out.
abbrev pub fresh_session : Db → Session
fresh_session db = record { committed = db; current = db; locks = []; events = [] }

abbrev pub Exec {ℓ} : Type ℓ → Type ℓ
Exec A = Session → Outcome A × Session

module _ {ℓ} {A : Type ℓ} where
  abbrev pub pure : A → Exec A
  pure a s = (ok a, s)

  abbrev pub raise : PyError → Exec A
  raise e s = (raised e, s)

  abbrev pub lift : Outcome A → Exec A
  lift r s = (r, s)

  -- `if test: return m`, and `n` for what follows.
  abbrev pub branch : Bool → Exec A → Exec A → Exec A
  branch true m n s = m s
  branch false m n s = n s

  -- A query.
  abbrev pub query : (Db → A) → Exec A
  query f s = (ok (f s.current), s)

module _ {ℓ} {A : Type ℓ} where
  -- `Result.scalar_one_or_none` and `Result.scalar_one`
  abbrev pub scalar_one_or_none : List A → Exec (Option A)
  scalar_one_or_none [] = pure none
  scalar_one_or_none (x ∷ []) = pure (some x)
  scalar_one_or_none (x ∷ y ∷ r) = raise multiple_results_found

  abbrev pub scalar_one : List A → Exec A
  scalar_one [] = raise no_result_found
  scalar_one (x ∷ []) = pure x
  scalar_one (x ∷ y ∷ r) = raise multiple_results_found

  -- `try: m except e: handler`, and `except Exception`.
  abbrev pub catch_integrity : Outcome A × Session → Exec A → Outcome A × Session
  catch_integrity (ok a, s) handler = (ok a, s)
  catch_integrity (raised integrity_error, s) handler = handler s
  catch_integrity (raised value_error, s) handler = (raised value_error, s)
  catch_integrity (raised attribute_error, s) handler = (raised attribute_error, s)
  catch_integrity (raised multiple_results_found, s) handler = (raised multiple_results_found, s)
  catch_integrity (raised no_result_found, s) handler = (raised no_result_found, s)

  abbrev pub try_integrity : Exec A → Exec A → Exec A
  try_integrity m handler s = catch_integrity (m s) handler

infixl 5 ◌>>=◌ ◌>>◌
abbrev pub ◌>>=◌ {ℓ κ} : {A : Type ℓ} {B : Type κ} → Exec A → (A → Exec B) → Exec B
◌>>=◌ m f s = let (r, s') = m s in elim r [ ok a ↦ f a s' | raised e ↦ (raised e, s') ]

abbrev pub ◌>>◌ {ℓ κ} : {A : Type ℓ} {B : Type κ} → Exec A → Exec B → Exec B
m >> k = m >>= λ _. k

-- `except Exception: log.exception(…)`: the action's failure is only logged.
abbrev pub try_log {ℓ} : {A : Type ℓ} → Exec A → Exec (Unit {0})
try_log m s = (ok tt, (m s).1)

abbrev pub modify : (Db → Db) → Exec (Unit {0})
modify f s = (ok tt, record s { current = f s.current })

abbrev pub emit : Event → Exec (Unit {0})
emit e s = (ok tt, record s { events = e ∷ s.events })

-- Locks of a transaction end with it.
abbrev pub commit : Exec (Unit {0})
commit s = (ok tt, record s { committed = s.current; locks = [] })

abbrev pub rollback : Exec (Unit {0})
rollback s = (ok tt, record s { current = s.committed; locks = [] })

-- A message that Telegram takes leaves a trace; a failure is an exception that every caller logs.
abbrev pub try_send : Env → Notice → Exec (Unit {0})
try_send env n = branch (env.delivers n) (emit (sent n)) (pure tt)

-- app/services/time_service.py: `time(hour)` raises outside 0..23.
unfoldable pub slot_start : ℕ → ℕ → Outcome ℕ
slot_start slot_date hour = if ltb hour 24 then ok (combine slot_date hour) else raised value_error
