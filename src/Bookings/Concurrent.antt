-- ===== src/Bookings/Concurrent.antt =====
-- `_safe_create_booking` of app/services/booking_service.py in sessions that run at once, cut where
-- the statements of other sessions can fall: PostgreSQL reads committed rows, an advisory lock is
-- free if no other transaction holds its key, and the unique index makes an INSERT wait for the
-- row of the same slot that another transaction has not committed yet. Sequences count outside of
-- transactions. Other transactions that delete bookings happen at any time.
pub mod Laws
pub mod Commits
pub mod Alone
use Prim.Native.String.{String}
use music_room_bot.Prelude.{
  ℕ, ◌+◌, ◌<◌, ◌≡◌, ◌≢◌, Bool, true, false, ◌&&◌, Option, none, some, ◌∷◌, ◌==◌, if◌then◌else◌,
  reaches,
}
use music_room_bot.Bookings.Cancel.{delete_bookings}
use music_room_bot.Bookings.Create.{new_booking, refuses_booking}
use music_room_bot.Bookings.Queries.Laws.{is_reserved}
use music_room_bot.Db.{Booking, Db}
use music_room_bot.Limits.{weekly_limit_value, user_week_lock_key, count_user_bookings_in_week}
use music_room_bot.Session.{Env}
use music_room_bot.Time.{start_and_end_of_week}

pub record Request : Type 0 where
  pub user_id : ℕ
  pub b_date : ℕ
  pub b_hour : ℕ
  pub source : String

-- Where a session stands, with what it knows there.
pub data Phase : Type 0 where
  idle : Phase
  asked : Request → Phase  -- before `lock_user_week_booking_limit`
  locking : Request → Phase  -- before the count
  allowed_in : Request → Phase  -- before the INSERT
  inserted : Request → ℕ → Phase  -- before the COMMIT, with the new key

abbrev pub start_of : Request → ℕ
start_of r = (start_and_end_of_week r.b_date).0

abbrev pub key_of : Env → Request → ℕ
key_of env r = user_week_lock_key env r.user_id (start_of r)

-- The key that a session's transaction holds.
abbrev pub held : Env → Phase → Option ℕ
held env idle = none
held env (asked r) = none
held env (locking r) = some (key_of env r)
held env (allowed_in r) = some (key_of env r)
held env (inserted r i) = some (key_of env r)

-- The count of the request's user in the week of its date.
abbrev pub week_count : Request → Db → ℕ
week_count r db =
    let (start, end) = start_and_end_of_week r.b_date in
    count_user_bookings_in_week r.user_id start end db

-- A row that the session's transaction has inserted and not committed.
abbrev pub is_inserted_at : ℕ → ℕ → Phase → Bool
is_inserted_at d h idle = false
is_inserted_at d h (asked r) = false
is_inserted_at d h (locking r) = false
is_inserted_at d h (allowed_in r) = false
is_inserted_at d h (inserted r i) = r.b_date == d && r.b_hour == h

pub record System : Type 0 where
  pub committed : Db
  pub phase : ℕ → Phase

abbrev pub put : ℕ → Phase → (ℕ → Phase) → ℕ → Phase
put i p f j = if i == j then p else f j

abbrev pub next_key : Db → Db
next_key db = record db { next_booking_id = db.next_booking_id + 1 }

abbrev pub commit_row : Booking → Db → Db
commit_row b db = record db { bookings = b ∷ db.bookings }

-- One statement of session `i`, or another transaction.
pub data Step (env : Env) (s : System) : System → Type 0 where
  ask :
      (i : ℕ) (r : Request)
      → s.phase i ≡ idle
      → 0 < r.b_date
      → is_reserved r.b_date r.b_hour s.committed ≡ false
      → Step env s (record s { phase = put i (asked r) s.phase })
  take_lock :
      (i : ℕ) (r : Request)
      → s.phase i ≡ asked r
      → ((j : ℕ) → held env (s.phase j) ≢ some (key_of env r))
      → Step env s (record s { phase = put i (locking r) s.phase })
  refuse_limit :
      (i : ℕ) (r : Request)
      → s.phase i ≡ locking r
      → reaches (week_count r s.committed) (weekly_limit_value env) ≡ true
      → Step env s (record s { phase = put i idle s.phase })
  pass_limit :
      (i : ℕ) (r : Request)
      → s.phase i ≡ locking r
      → reaches (week_count r s.committed) (weekly_limit_value env) ≡ false
      → Step env s (record s { phase = put i (allowed_in r) s.phase })
  insert_row :
      (i : ℕ) (r : Request)
      → s.phase i ≡ allowed_in r
      → refuses_booking r.user_id r.b_date r.b_hour s.committed ≡ false
      → ((j : ℕ) → is_inserted_at r.b_date r.b_hour (s.phase j) ≡ false)
      → Step env s (record {
        committed = next_key s.committed;
        phase = put i (inserted r s.committed.next_booking_id) s.phase;
      })
  violate :
      (i : ℕ) (r : Request)
      → s.phase i ≡ allowed_in r
      → refuses_booking r.user_id r.b_date r.b_hour s.committed ≡ true
      → Step env s (record s { phase = put i idle s.phase })
  commit_booking :
      (i : ℕ) (r : Request) (new_id : ℕ)
      → s.phase i ≡ inserted r new_id
      → Step env s (record {
        committed =
            commit_row (new_booking env r.user_id r.b_date r.b_hour r.source new_id) s.committed;
        phase = put i idle s.phase;
      })
  abandon : (i : ℕ) → Step env s (record s { phase = put i idle s.phase })
  delete_others :
      (has_key : ℕ → Bool)
      → Step env s (record s { committed = delete_bookings has_key s.committed })

-- All sessions idle at first.
abbrev pub quiet : Db → System
quiet db = record { committed = db; phase = λ _. idle }

pub data Reach (env : Env) (db : Db) : System → Type 0 where
  at_first : Reach env db (quiet db)
  and_then : {s t : System} → Reach env db s → Step env s t → Reach env db t
