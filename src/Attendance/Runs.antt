-- ===== src/Attendance/Runs.antt =====
-- The loop of `mark_attendance_chain_verified` of app/services/geo_service.py.
-- A user's bookings of a day from hour `h` on, for `k` hours.
use music_room_bot.Prelude.{
  ℕ, zero, suc, ◌+◌, ◌≤◌, ◌<◌, ◌≡◌, refl, sym, ap, ◌∙◌, inl, inr, Bool, true, false, not, ◌&&◌,
  ◌||◌, some, List, [], ◌∷◌, arith, ltb, leb, length,
}
use music_room_bot.Attendance.{
  write_attendance, record_attendance, of_user_at, is_unprocessed_at, mark_following,
}
use music_room_bot.Bookings.Cancel.{is_own_booking}
use music_room_bot.Bookings.Gifts.{update_bookings}
use music_room_bot.Db.{Booking, has_booking_id, at_slot}
use music_room_bot.Prelude.Members.{update_rows-found, update_rows_congr, count_rows-update_apart}
use music_room_bot.Prelude.Rows.{
  select, count_rows, update_rows, count_rows-update_rows, count_rows_unique, select_nil,
  select_cons, select_count, select_unique,
}
use music_room_bot.Prelude.Updates.{update_rows-or, update_rows-nowhere}
use music_room_bot.Reminders.{of_user_on}
use music_room_bot.Session.{ok, Env, Session}
use music_room_bot.Session.Laws.{scalar_cases, bind_step}

abbrev pub in_run : ℕ → ℕ → ℕ → ℕ → Booking → Bool
in_run user_id d h k b = of_user_on user_id d b && (leb h b.hour && ltb b.hour (h + k))

-- In each of `k` hours from `h` on, the user has a booking with no attendance yet, and has none such
-- in the hour after.
abbrev pub IsOpenRun : ℕ → ℕ → List Booking → ℕ → ℕ → Type 0
IsOpenRun user_id d bs h zero = count_rows (is_unprocessed_at user_id d h) bs ≡ 0
IsOpenRun user_id d bs h (suc k) =
    (count_rows (is_unprocessed_at user_id d h) bs ≡ 1) × IsOpenRun user_id d bs (h + 1) k

abbrev pub present : ℕ → ℕ → ℕ → Booking → Booking
present lat lon now = write_attendance true (some lat) (some lon) now

abbrev pub open_from : ℕ → ℕ → ℕ → Booking → Bool
open_from user_id d h b = of_user_on user_id d b && (leb h b.hour && not b.absence_reported)

count_open_from :
    (user_id d h : ℕ) (bs : List Booking)
    → count_rows (open_from user_id d h) bs
      ≡ count_rows (is_unprocessed_at user_id d h) bs + count_rows (open_from user_id d (h + 1)) bs
unfolding count_rows
count_open_from user_id d h [] = refl
count_open_from user_id d h (b ∷ bs) = ground (arith, count_open_from user_id d h bs)

module _ (env : Env) (user_id d lat lon : ℕ) where
  abbrev now_present : Booking → Booking
  now_present = present lat lon env.now

  -- The hours after one that is written.
  pub IsOpenRun-later :
      (g h k : ℕ) (bs : List Booking)
      → g < h
      → IsOpenRun user_id d (update_rows (of_user_at user_id d g) now_present bs) h k
      → IsOpenRun user_id d bs h k
  IsOpenRun-later g h zero bs l o =
      sym (
        count_rows-update_apart (is_unprocessed_at user_id d h) (of_user_at user_id d g) now_present
          bs (λ x e. ground (arith, l)))
      ∙ o
  IsOpenRun-later g h (suc k) bs l (one, o) = (
    sym (
          count_rows-update_apart (is_unprocessed_at user_id d h) (of_user_at user_id d g)
            now_present bs (λ x e. ground (arith, l)))
        ∙ one,
    IsOpenRun-later g (h + 1) k bs (omega (arith, l)) o,
  )

  abbrev marked : (Booking → Bool) → Session → Session
  marked p s = record s { current = update_bookings p now_present s.current }

  -- One booking is written, the only one of its user at its hour.
  pub record_attendance_lem :
      (s : Session) (b : Booking) (h : ℕ)
      → ((i : ℕ) → count_rows (has_booking_id i) s.current.bookings ≤ 1)
      → select (of_user_at user_id d h) s.current.bookings ≡ b ∷ []
      → record_attendance env b.id user_id lat lon true false (some true) s
        ≡ (ok (now_present b), marked (of_user_at user_id d h) s)
  unfolding record_attendance
  record_attendance_lem s b h key found =
      let at_hour = of_user_at user_id d h in
      let rows = s.current.bookings in
      let there = select_cons at_hour rows b [] found in
      let by_key : select (has_booking_id b.id) rows ≡ b ∷ [] =
        select_unique at_hour (has_booking_id b.id) rows b [] (ground arith) (key b.id) found in
      let mine : select (is_own_booking b.id user_id) rows ≡ b ∷ [] =
        select_unique at_hour (is_own_booking b.id user_id) rows b [] (ground (arith, there))
          (count_rows_unique (is_own_booking b.id user_id) (has_booking_id b.id) rows
            (λ x e. ground arith) (key b.id))
          found in
      rw mine (
        ap (λ bs. (ok (now_present b), record s { current = record s.current { bookings = bs } }))
          (update_rows-found (has_booking_id b.id) at_hour now_present rows b by_key found
            (ground arith) there))

  abbrev session_rows : Session → List Booking → Session
  session_rows s bs = record s { current = record s.current { bookings = bs } }

  nothing_marked : (h : ℕ) (s : Session) → s ≡ marked (in_run user_id d h 0) s
  nothing_marked h s = sym (
      ap (session_rows s) (
        update_rows_congr (in_run user_id d h 0) (λ x. false) now_present s.current.bookings
          (λ x. ground arith)
        ∙ update_rows-nowhere now_present s.current.bookings))

  pub marked-marked :
      (h k : ℕ) (s : Session)
      → marked (in_run user_id d (h + 1) k) (marked (of_user_at user_id d h) s)
        ≡ marked (in_run user_id d h (suc k)) s
  marked-marked h k s =
      let both : Booking → Bool = λ x. of_user_at user_id d h x || in_run user_id d (h + 1) k x in
      ap (session_rows s) (
        update_rows-or (in_run user_id d (h + 1) k) (of_user_at user_id d h) now_present
          s.current.bookings (λ x. refl) (λ x. refl)
        ∙ update_rows_congr both (in_run user_id d h (suc k)) now_present s.current.bookings
            (λ x. ground arith))

  -- Fuel above the number of the user's bookings of the day with no attendance yet, from the hour on.
  pub mark_following_lem :
      (fuel h : ℕ) (s : Session)
      → ((i : ℕ) → count_rows (has_booking_id i) s.current.bookings ≤ 1)
      → ((d h : ℕ) → count_rows (at_slot d h) s.current.bookings ≤ 1)
      → count_rows (open_from user_id d h) s.current.bookings < fuel
      → (k : ℕ) × IsOpenRun user_id d s.current.bookings h k
        × (mark_following fuel env user_id d h lat lon s ≡ (ok tt, marked (in_run user_id d h k) s))
  unfolding mark_following
  mark_following_lem zero h s key slots enough = absurd (omega (arith, enough))
  mark_following_lem (suc fuel) h s key slots enough =
      let rows = s.current.bookings in
      let at_hour = of_user_at user_id d h in
      elim (scalar_cases (is_unprocessed_at user_id d h) rows (
        count_rows_unique (is_unprocessed_at user_id d h) (at_slot d h) rows (λ x e. ground arith)
          (slots d h))) [
            | inl none_there ↦ (
              0,
              select_nil (is_unprocessed_at user_id d h) rows none_there,
              rw none_there (ap (λ t. (ok tt, t)) (nothing_marked h s)),
            )
            | inr (b, found, open_there) ↦
                let here : select at_hour rows ≡ b ∷ [] =
                  select_unique (is_unprocessed_at user_id d h) at_hour rows b []
                    (ground (arith, open_there))
                    (count_rows_unique at_hour (at_slot d h) rows (λ x e. ground arith) (slots d h))
                    found in
                let one : count_rows (is_unprocessed_at user_id d h) rows ≡ 1 =
                  ground
                    (arith, select_count (is_unprocessed_at user_id d h) rows, ap length found) in
                let (k, o, e) =
                  mark_following_lem fuel (h + 1) (marked at_hour s)
                    (λ i. omega (
                      arith,
                      key i,
                      count_rows-update_rows (has_booking_id i) at_hour now_present rows
                          (λ x. refl),
                    ))
                    (λ d' h'. omega (
                      arith,
                      slots d' h',
                      count_rows-update_rows (at_slot d' h') at_hour now_present rows (λ x. refl),
                    ))
                    (omega (
                      arith,
                      enough,
                      one,
                      count_open_from user_id d h rows,
                      count_rows-update_apart (open_from user_id d (h + 1)) at_hour now_present rows
                          (λ x e. ground arith),
                    )) in
                (
                  suc k,
                  (one, IsOpenRun-later h (h + 1) k rows (omega arith) o),
                  rw found (
                      bind_step (record_attendance env b.id user_id lat lon true false (some true))
                        (λ _. mark_following fuel env user_id d (h + 1) lat lon) s
                        (ok (now_present b), marked at_hour s)
                        (record_attendance_lem s b h key here)
                      ∙ e
                      ∙ ap (λ t. (ok tt, t)) (marked-marked h k s)),
                )
          ]
