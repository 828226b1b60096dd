-- ===== src/Bookings/Create/Limits.antt =====
-- `safe_create_booking` of app/services/booking_service.py, the constraints of the tables and the
-- weekly limit.
use Prim.Native.String.{String}
use music_room_bot.Prelude.{ℕ, ◌+◌, ◌≤◌, ◌≡◌, refl, inl, inr, arith, pos, Bool-cases}
use music_room_bot.Bookings.Create.{new_booking, refuses_booking, safe_create_booking}
use music_room_bot.Bookings.Create.Laws.{
  booking_status, after_request, requested, safe_create_booking_lem,
}
use music_room_bot.Db.{Db}
use music_room_bot.Db.Invariant.{IsConsistent, insert-IsBookingTable}
use music_room_bot.Limits.{weekly_limit_value, count_user_bookings_in_week}
use music_room_bot.Prelude.Rows.{count_rows}
use music_room_bot.Session.{Env, fresh_session}
use music_room_bot.Time.{weekday, start_and_end_of_week}

-- Every user has at most `most` bookings in every week from Monday to Sunday.
abbrev pub IsWithinLimit : ℕ → Db → Type 0
IsWithinLimit most db =
    (user_id monday : ℕ)
    → weekday monday ≡ 0
    → count_user_bookings_in_week user_id monday (monday + 7) db ≤ most

-- The limit speaks of the bookings alone.
pub same_bookings-IsWithinLimit :
    (most : ℕ) (db db' : Db)
    → db'.bookings ≡ db.bookings
    → IsWithinLimit most db
    → IsWithinLimit most db'
unfolding count_user_bookings_in_week
same_bookings-IsWithinLimit most db db' e within u w mon = rw e (within u w mon)

module _ (env : Env) (user_id d h : ℕ) (source : String) (db : Db) where
  after_request-IsConsistent :
      IsConsistent db
      → IsConsistent (
          after_request
            (booking_status env user_id d h db)
            db
            (requested env user_id d h source db))
  unfolding after_request booking_status new_booking
  after_request-IsConsistent v = elim (Bool-cases (refuses_booking user_id d h db)) [
    | inl e ↦ ground arith
    | inr e ↦ ground (
      arith,
      insert-IsBookingTable (requested env user_id d h source db) db.next_booking_id db.bookings
          refl (ground arith) v.bookings_ok,
    )
  ]

  -- A request for a booking, whatever its outcome, keeps the constraints of the committed tables.
  pub safe_create_booking-IsConsistent :
      IsConsistent db
      → IsConsistent (safe_create_booking env user_id d h source (fresh_session db)).1.committed
  safe_create_booking-IsConsistent v =
      rw (safe_create_booking_lem env user_id d h source db v).1 (after_request-IsConsistent v)

  after_request-IsWithinLimit :
      (most : ℕ)
      → weekly_limit_value env ≡ pos most
      → IsWithinLimit most db
      → IsWithinLimit most (
          after_request
            (booking_status env user_id d h db)
            db
            (requested env user_id d h source db))
  unfolding after_request booking_status new_booking count_user_bookings_in_week count_rows
      start_and_end_of_week
  after_request-IsWithinLimit most e within u w mon = ground (arith, within u w mon)

  -- On consistent tables and with a configured limit that is a natural number, a request for a
  -- booking, whatever its outcome, keeps every user within the weekly limit, if all were within it.
  pub safe_create_booking-IsWithinLimit :
      (most : ℕ)
      → IsConsistent db
      → weekly_limit_value env ≡ pos most
      → IsWithinLimit most db
      → IsWithinLimit most
          (safe_create_booking env user_id d h source (fresh_session db)).1.committed
  safe_create_booking-IsWithinLimit most v e within =
      rw (safe_create_booking_lem env user_id d h source db v).1
        (after_request-IsWithinLimit most e within)
