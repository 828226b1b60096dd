-- ===== src/Lib.antt =====
-- Verification of the Music Room Bot, a Telegram bot that runs the bookings of a practice room:
-- the business rules in app/services over the tables in app/models.
--
-- The parts and how they interact. Handlers of Telegram updates (app/bot) and scheduled jobs call
-- service functions; each takes a SQLAlchemy session, reads and writes rows, commits, and sends
-- messages. The rules are in the services, and are what is modelled here.
--
-- Prelude.antt      shared names, Boolean tests, lists, Python strings; Prelude/Rows and
--                   Prelude/Keys: SELECT, UPDATE, DELETE and count on tables, with their lemmas.
-- Time.antt         app/services/time_service.py, date_service.py, admin_booking_service.py and
--                   the week arithmetic of booking_limits.py.
-- Db.antt           app/models: the rows as records and the database as its tables. Db/Invariant
--                   states the constraints of the schema as `IsConsistent`.
-- Session.antt      the session: a service function is an action of the monad `Exec`, which carries
--                   the committed and the current tables, the advisory locks and the events that
--                   leave the process, and ends with a result or an exception. Session/Send has the
--                   best-effort messages.
-- Limits.antt       app/services/booking_limits.py: the weekly limit, its lock and its count.
-- Warnings.antt     app/services/warning_service.py: `add_warning`, bans and their end; Bans has the
--                   pure part, Revert the operations that take warnings back, and Laws, Durations,
--                   Reverting and Lifting the theorems.
-- Bookings.antt     app/services/booking_service.py: Queries (with the differing versions of
--                   booking_queries.py and two queries of club_service.py), Create
--                   (`safe_create_booking`), Cancel (`delete_booking`, `cancel_booking_by_admin`,
--                   `weekly_reset`), Gifts (`gift_booking_to_username`, `accept_gift_offer`,
--                   `decline_gift_offer`) and Consecutive (`get_consecutive_slot_option`), each with
--                   the theorems in its Laws, Limits, Offer or Keeps. Concurrent has the statements
--                   of booking requests in sessions that run at once as a step relation; its
--                   theorems are in Commits and Alone.
-- Swaps.antt        app/services/swap_service.py: `accept_swap_offer`, `decline_swap_offer`; Create
--                   has `create_swap_offer`; Laws and Keeps have the theorems.
-- Clubs.antt        app/services/club_service.py: `cancel_club_slot_occurrence`; Slots has the
--                   assignment, naming and deletion of recurring slots; Laws have the theorems.
-- Equipment.antt    app/services/equipment_request_service.py: the operations on a request;
--                   Ranges has `check_equipment_ranges_overlap` and `parse_equipment_ranges_text`
--                   with their theorems in Laws; Decisions has the calls as a step relation.
-- Reminders.antt    app/services/reminder_service.py: `process_reminders`; Chains, Firsts and Hours
--                   have the theorems on chains of consecutive hours, Due on the time of a reminder,
--                   Sent and Once on what is sent and recorded.
-- Attendance.antt   app/services/attendance_service.py and the chains of app/services/geo_service.py;
--                   Checks has `process_geo_checks`, Location `handle_location` of
--                   app/bot/handlers/location.py. Chains and Runs have the theorems on the loops,
--                   Absences, Expiry and Once on the job, Current, CheckIns and Located on the
--                   handler, and on the handler and the job together.
-- Users.antt        app/services/user_service.py: `resolve_start_user`, whose theorems are in Start,
--                   Resolve and Registered; Access has app/services/admin_user_commands.py and
--                   admin_service.py, with theorems in Sync and Deletion; Grants has the grant of
--                   access by username, `grant_form_pass_access` of
--                   app/services/form_pass_service.py and `allow_or_add_user`.
-- Settings.antt     app/services/config_service.py and config_runtime.py: the table of settings and
--                   the cache; Laws has the lemmas, Kinds reads the texts in the table,
--                   Coherence and Changes have the theorems.
-- Throttle.antt     app/core/rate_limit.py: the cooldown of each user; Cooldown has the theorem.
-- Tests.antt        a sample club at which the theorems are applied.
--
-- How the code is read. A date is its ordinal and a datetime the microseconds of its wall clock:
-- all datetimes carry the same tzinfo object, and Python compares such datetimes by the wall clock.
-- The clock is read once for each action. A query result is the rows in the order of the table,
-- which no theorem depends on; an object that the identity map shares is the row with its key, and a
-- write to it is an UPDATE by that key. INSERT checks the constraints that the code can meet and
-- raises IntegrityError. `Exec` follows one session at a time: `FOR UPDATE` and the advisory lock
-- matter to other sessions only, and the lock is recorded; Bookings/Concurrent follows any number. A rollback restores the sequence of a
-- key, whose gaps have no meaning. Floats are only stored, and a number stands for each. Loops of
-- the code run over result rows and are recursion on the list; the two loops over hours of
-- geo_service.py run on fuel, one more than the bookings of the table, and are proved to end before.
--
-- Parameters. The calendar (year, month and day of a date, lengths of months), `str.lower`,
-- `str.isspace`, `int()` of a text, the digest of the lock key, the values of the runtime
-- configuration, and whether Telegram takes a message are fields of `Env`; `str.splitlines`, the
-- split at "->" and `strptime` are fields of `TextTools`, and `strftime` is an argument. The working
-- hours of a weekday and the texts of warnings are arguments, too, and `Site` has what Settings takes
-- from the process's environment. No law is assumed of them except where a theorem's condition says
-- so.
--
-- Not modelled: texts of messages and logs; metrics beyond the booking counter; handlers other
-- than that of locations, and keyboards, which converse; scheduling, start-up and configuration of
-- the libraries; geographic distance, which is floating-point; and, so far, creating clubs and their leaders, the listings and
-- texts of equipment requests, the parser of the form's command, and working hours; and app/core/limits.py
-- and reset_gate.py, which only wrap asyncio.
pub mod Prelude
pub mod Time
pub mod Db
pub mod Session
pub mod Limits
pub mod Warnings
pub mod Bookings
pub mod Swaps
pub mod Clubs
pub mod Equipment
pub mod Throttle
pub mod Settings
pub mod Users
pub mod Attendance
pub mod Reminders
pub mod Tests
