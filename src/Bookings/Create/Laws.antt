-- ===== src/Bookings/Create/Laws.antt =====
-- `safe_create_booking` of app/services/booking_service.py against a reference that reads the tables.
use Prim.Native.String.{String}
use music_room_bot.Prelude.{
  ℕ, ◌≡◌, refl, Option, none, some, [], ◌∷◌, arith, if◌then◌else◌, reaches,
}
use music_room_bot.Bookings.Create.{
  new_booking, refuses_booking, with_booking, insert_and_commit, safe_create_booking,
}
use music_room_bot.Bookings.Queries.Laws.{is_reserved, is_weekly_reserved_on_date_lem}
use music_room_bot.Db.{Booking, Db, has_booking_id}
use music_room_bot.Db.Invariant.{IsConsistent}
use music_room_bot.Limits.{weekly_limit_value, user_week_lock_key, count_user_bookings_in_week}
use music_room_bot.Prelude.Rows.{select, select_none}
use music_room_bot.Session.{
  integrity_error, ok, raised, BookingStatus, success, taken, limit, counted, Env, Session,
  fresh_session,
}
use music_room_bot.Time.{start_and_end_of_week}

-- The status that a request deserves, read off the tables.
unfoldable pub booking_status : Env → ℕ → ℕ → ℕ → Db → BookingStatus
booking_status env user_id d h db =
    let (start, end) = start_and_end_of_week d in
    if is_reserved d h db
    then taken
    else if reaches (count_user_bookings_in_week user_id start end db) (weekly_limit_value env)
    then limit
    else if refuses_booking user_id d h db
    then taken
    else success

-- What the request leaves in the database.
unfoldable pub after_request : BookingStatus → Db → Booking → Db
after_request success db b = with_booking b db
after_request taken db b = db
after_request limit db b = db

abbrev pub created : BookingStatus → Booking → Option Booking
created success b = some b
created taken b = none
created limit b = none

module _ (env : Env) (user_id d h : ℕ) (source : String) (db : Db) where
  abbrev pub requested : Booking
  requested = new_booking env user_id d h source db.next_booking_id

  select_new :
      IsConsistent db
      → select (has_booking_id db.next_booking_id) (requested ∷ db.bookings) ≡ requested ∷ []
  unfolding select new_booking
  select_new v =
      rw
        (select_none (has_booking_id db.next_booking_id) db.bookings
          (v.bookings_ok.keyed.fresh db.next_booking_id (omega arith)))
        (ground arith)

  insert_and_commit_lem :
      (s : Session)
      → s.current ≡ db
      → IsConsistent db
      → insert_and_commit env user_id d h source s ≡ (
          if refuses_booking user_id d h db then (raised integrity_error, s) else (
            ok (success, some requested),
            record {
              committed = with_booking requested db;
              current = with_booking requested db;
              locks = [];
              events = counted source success ∷ s.events;
            },
          ))
  unfolding insert_and_commit new_booking
  insert_and_commit_lem s e v = rw e (ground (arith, select_new v, v.bookings_ok.started))

  -- On consistent tables the request ends without an exception, with the status that the tables
  -- call for; it returns the new row and commits it exactly when that is `success`.
  pub safe_create_booking_lem :
      IsConsistent db
      → let status = booking_status env user_id d h db in
        let (r, s) = safe_create_booking env user_id d h source (fresh_session db) in
        (r ≡ ok (status, created status requested))
        × (s.committed ≡ after_request status db requested)
  unfolding safe_create_booking booking_status after_request
  safe_create_booking_lem v = ground (
    arith,
    is_weekly_reserved_on_date_lem (fresh_session db) d h v.weekly_ok,
    insert_and_commit_lem
        (record (fresh_session db) {
          locks = user_week_lock_key env user_id (start_and_end_of_week d).0 ∷ [];
        })
        refl v,
  )
