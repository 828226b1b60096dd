-- ===== src/Bookings/Queries/Laws.antt =====
-- The queries of app/services/booking_service.py against what they mean for the tables.
use music_room_bot.Prelude.{ℕ, ◌≤◌, ◌<◌, ◌≡◌, inl, inr, Bool, false, not, [], ◌∷◌, arith, ◌==◌}
use music_room_bot.Bookings.Queries.{
  is_slot_free, is_weekly_slot_cancelled, is_weekly_reserved_on_date, in_user_days,
  count_user_bookings_this_week, count_before_next_monday,
}
use music_room_bot.Db.{Booking, Db, at_slot, in_user_week, at_weekly_slot, is_cancellation_of}
use music_room_bot.Db.Invariant.{IsWeeklyTable}
use music_room_bot.Prelude.Rows.{select, count_rows, count_rows_congr, select_count}
use music_room_bot.Session.{ok, Session}
use music_room_bot.Session.Laws.{scalar_cases}
use music_room_bot.Time.{date_of, weekday, week_bounds, start_and_end_of_week}
use music_room_bot.Time.Laws.{get_current_week_date_add, bookable_week_lem}

-- Whether a recurring slot that is not cancelled for the date takes the hour.
unfoldable pub is_reserved : ℕ → ℕ → Db → Bool
unfolding select count_rows
is_reserved target_date hour db =
    elim (select (at_weekly_slot (weekday target_date) hour) db.weekly_slots) [
      | [] ↦ false
      | slot ∷ _ ↦ count_rows (is_cancellation_of slot.id target_date) db.cancellations == 0
    ]

module _ (s : Session) where
  -- With at most one booking in the slot, the query returns whether the slot has none, and changes
  -- nothing.
  pub is_slot_free_lem :
      (d h : ℕ)
      → count_rows (at_slot d h) s.current.bookings ≤ 1
      → is_slot_free d h s ≡ (ok (count_rows (at_slot d h) s.current.bookings == 0), s)
  unfolding is_slot_free
  is_slot_free_lem d h u =
      let p = at_slot d h in
      let rows = s.current.bookings in ground (arith, scalar_cases p rows u, select_count p rows)

  is_weekly_slot_cancelled_lem :
      (i d : ℕ)
      → count_rows (is_cancellation_of i d) s.current.cancellations ≤ 1
      → is_weekly_slot_cancelled i d s
        ≡ (ok (not (count_rows (is_cancellation_of i d) s.current.cancellations == 0)), s)
  unfolding is_weekly_slot_cancelled
  is_weekly_slot_cancelled_lem i d u =
      let p = is_cancellation_of i d in
      let rows = s.current.cancellations in
      ground (arith, scalar_cases p rows u, select_count p rows)

  -- On recurring slots and cancellations that keep their unique constraints, the query returns
  -- whether a recurring slot takes the hour without a cancellation for the date, and changes
  -- nothing.
  pub is_weekly_reserved_on_date_lem :
      (d h : ℕ)
      → IsWeeklyTable s.current.weekly_slots s.current.cancellations
      → is_weekly_reserved_on_date d h s ≡ (ok (is_reserved d h s.current), s)
  unfolding is_weekly_reserved_on_date is_reserved
  is_weekly_reserved_on_date_lem d h v =
      elim (scalar_cases (at_weekly_slot (weekday d) h) s.current.weekly_slots
        (v.weekly_unique (weekday d) h)) [
          | inl e ↦ ground arith
          | inr (slot, e, _) ↦
              ground
                (arith, is_weekly_slot_cancelled_lem slot.id d (v.cancellation_unique slot.id d))
        ]

week_test_lem :
    (now user_id : ℕ) (b : Booking)
    → 0 < date_of now
    → in_user_days user_id (week_bounds now).0 (week_bounds now).1 b
      ≡ in_user_week user_id (week_bounds now).0 (start_and_end_of_week (week_bounds now).0).1 b
unfolding week_bounds start_and_end_of_week
week_test_lem now user_id b h =
    ground (arith, get_current_week_date_add now 6, (bookable_week_lem now h).0)

-- From day 1 on, the two versions of the count of a user's bookings in the bookable week, that of
-- booking_service.py and that of booking_queries.py, agree.
pub count_user_bookings_this_week_lem :
    (now user_id : ℕ) (db : Db)
    → 0 < date_of now
    → count_user_bookings_this_week now user_id db ≡ count_before_next_monday now user_id db
unfolding count_user_bookings_this_week count_before_next_monday
count_user_bookings_this_week_lem now user_id db h =
    count_rows_congr _ _ db.bookings (λ b. week_test_lem now user_id b h)
