-- ===== src/Tests/Sessions.antt =====
-- The theorems on sessions that run at once, at the sample club: Ann asks for Tuesday at two in two
-- sessions.
use music_room_bot.Prelude.{ℕ, ◌≤◌, ◌≡◌, refl, false, some, arith}
use music_room_bot.Bookings.Concurrent.{
  Request, idle, asked, locking, held, System, put, ask, take_lock, Reach, at_first, and_then,
}
use music_room_bot.Bookings.Concurrent.Alone.{AloneFrom, asking, AloneFrom-safe_create_booking}
use music_room_bot.Bookings.Concurrent.Commits.{Reach-IsWithinLimit}
use music_room_bot.Bookings.Create.{safe_create_booking}
use music_room_bot.Bookings.Create.Limits.{IsWithinLimit}
use music_room_bot.Bookings.Queries.Laws.{is_reserved}
use music_room_bot.Db.{at_slot}
use music_room_bot.Prelude.Rows.{count_rows}
use music_room_bot.Session.{fresh_session}
use music_room_bot.Tests.{env, db, db-IsConsistent, limit_is_two, db-IsWithinLimit}

abbrev tuesday_at_two : Request
tuesday_at_two = record { user_id = 1; b_date = 702; b_hour = 14; source = "regular" }

two_is_free : is_reserved 702 14 db ≡ false
unfolding count_rows is_reserved
two_is_free = refl

abbrev two_ask : System
two_ask = record {
  committed = db;
  phase =
      put 0 (locking tuesday_at_two)
        (put 1 (asked tuesday_at_two) (put 0 (asked tuesday_at_two) (λ _. idle)));
}

both_ask : Reach env db two_ask
both_ask =
    and_then
      (and_then (and_then at_first (ask 0 tuesday_at_two refl (omega arith) two_is_free))
        (ask 1 tuesday_at_two refl (omega arith) two_is_free))
      (take_lock 0 tuesday_at_two refl (λ j. ground arith))

Reach-IsWithinLimit_example :
    IsWithinLimit 2 db
    × ((d h : ℕ) → count_rows (at_slot d h) db.bookings ≤ 1)
    × ((i j k : ℕ)
        → held env (two_ask.phase i) ≡ some k
        → held env (two_ask.phase j) ≡ some k
        → i ≡ j)
Reach-IsWithinLimit_example =
    Reach-IsWithinLimit env 2 limit_is_two db db-IsWithinLimit
      db-IsConsistent.bookings_ok.slot_unique both_ask

AloneFrom-safe_create_booking_example :
    ((t : System)
      → AloneFrom env 0 (asking 0 tuesday_at_two db) t
      → t.phase 0 ≡ idle
      → t.committed ≡ (safe_create_booking env 1 702 14 "regular" (fresh_session db)).1.committed)
    × ((t : System) × AloneFrom env 0 (asking 0 tuesday_at_two db) t × (t.phase 0 ≡ idle))
AloneFrom-safe_create_booking_example =
    AloneFrom-safe_create_booking env 0 tuesday_at_two db two_is_free db-IsConsistent
