-- ===== src/Attendance/Absences.antt =====
-- What `process_geo_checks` of app/services/geo_service.py writes for a chain of bookings whose
-- member sent no location in time.
use Prim.Native.String.{String}
use music_room_bot.Prelude.{
  ℕ, ◌+◌, ◌≤◌, ◌≡◌, refl, ap, ◌∙◌, Bool, true, false, none, some, List, [], ◌∷◌, map, arith,
  if◌then◌else◌, All,
}
use music_room_bot.Attendance.{record_absence, of_user_at}
use music_room_bot.Attendance.Chains.{IsChain}
use music_room_bot.Attendance.Checks.{is_listed_id, close_check_in, record_absences, expire_chain}
use music_room_bot.Bookings.Cancel.{is_own_booking}
use music_room_bot.Bookings.Gifts.{update_bookings}
use music_room_bot.Db.{Booking, Db, has_booking_id}
use music_room_bot.Prelude.Rows.{
  select, count_rows, update_rows, count_rows_unique, select_cons, update_rows-update_rows,
  select-update_other, select_unique,
}
use music_room_bot.Prelude.Updates.{update_rows-or, update_rows-nowhere}
use music_room_bot.Session.{
  ok, Env, Session, fresh_session, Exec, pure, try_log, modify, commit, ◌>>◌,
}
use music_room_bot.Session.Laws.{bind_step}
use music_room_bot.Warnings.{add_warning}

-- A booking that is marked absent.
abbrev pub absent : ℕ → Booking → Booking
absent now b = record b {
  location_prompted = true;
  absence_reported = true;
  attendance_verified = false;
  attendance_lat = none;
  attendance_lon = none;
  attendance_recorded_at = some now;
}

abbrev pub with_absences : ℕ → List ℕ → Db → Db
with_absences now ids db = update_bookings (is_listed_id ids) (absent now) db

abbrev pub AllOwned : ℕ → List Booking → List ℕ → Type 0
AllOwned user_id bs ids =
    All (λ i. (b : Booking) × (select (is_own_booking i user_id) bs ≡ b ∷ []) × (b.id ≡ i)) ids

pub listed_by_id :
    (ids : List ℕ) (x y : Booking) → y.id ≡ x.id → is_listed_id ids y ≡ is_listed_id ids x
listed_by_id [] x y e = refl
listed_by_id (i ∷ ids) x y e = ground (arith, e, listed_by_id ids x y e)

module _ (env : Env) (user_id : ℕ) where
  record_absence_lem :
      (i : ℕ) (s : Session) (b : Booking)
      → select (is_own_booking i user_id) s.current.bookings ≡ b ∷ []
      → b.id ≡ i
      → (record_absence env i user_id false s).1
        ≡ record s { current = update_bookings (has_booking_id i) (absent env.now) s.current }
  unfolding record_absence
  record_absence_lem i s b found same = rw (found, same) refl

  AllOwned-absent :
      (i : ℕ) (bs : List Booking) (ids : List ℕ)
      → AllOwned user_id bs ids
      → AllOwned user_id (update_rows (has_booking_id i) (absent env.now) bs) ids
  AllOwned-absent i bs [] a = tt
  AllOwned-absent i bs (j ∷ ids) ((b, found, same), a) = (
    (
      if has_booking_id i b then absent env.now b else b,
      select-update_other (is_own_booking j user_id) (has_booking_id i) (absent env.now) bs
            (λ x. refl)
          ∙ ap (map (λ x. if has_booking_id i x then absent env.now x else x)) found,
      ground (arith, same),
    ),
    AllOwned-absent i bs ids a,
  )

  record_absences_lem :
      (ids : List ℕ) (s : Session)
      → AllOwned user_id s.current.bookings ids
      → record_absences env ids user_id s
        ≡ (ok tt, record s { current = with_absences env.now ids s.current })
  unfolding record_absences
  record_absences_lem [] s a = rw (update_rows-nowhere (absent env.now) s.current.bookings) refl
  record_absences_lem (i ∷ ids) s ((b, found, same), a) =
      let s1 : Session = record s {
        current = update_bookings (has_booking_id i) (absent env.now) s.current;
      } in
      rw (record_absence_lem i s b found same) (
        record_absences_lem ids s1 (AllOwned-absent i s.current.bookings ids a)
        ∙ ap (λ bs. (ok tt, record s { current = record s.current { bookings = bs } }))
            (update_rows-or (is_listed_id ids) (has_booking_id i) (absent env.now)
              s.current.bookings (λ x. listed_by_id ids x (absent env.now x) refl) (λ x. refl)))

  pub IsChain-AllOwned :
      (d h : ℕ) (db : Db) (ids : List ℕ)
      → ((i : ℕ) → count_rows (has_booking_id i) db.bookings ≤ 1)
      → IsChain user_id d db h ids
      → AllOwned user_id db.bookings ids
  IsChain-AllOwned d h db [] key c = tt
  IsChain-AllOwned d h db (i ∷ ids) key ((b, found, same), c) =
      let there = select_cons (of_user_at user_id d h) db.bookings b [] found in
      (
        (
          b,
          select_unique (of_user_at user_id d h) (is_own_booking i user_id) db.bookings b []
              (ground (arith, there, same))
              (count_rows_unique (is_own_booking i user_id) (has_booking_id i) db.bookings
                (λ x e. ground arith) (key i))
              found,
          same,
        ),
        IsChain-AllOwned d (h + 1) db ids key c,
      )

  abbrev closing : String → List ℕ → Exec Bool
  closing reason ids = do
    modify (update_bookings (is_listed_id ids) close_check_in)
    commit
    try_log (add_warning env user_id reason true)
    pure true

  -- Each booking of the chain is marked absent, and one warning follows.
  pub expire_chain_lem :
      (reason : String) (i : ℕ) (ids : List ℕ) (db : Db)
      → AllOwned user_id db.bookings (i ∷ ids)
      → expire_chain env reason user_id (i ∷ ids) (fresh_session db) ≡ (
        ok true,
        (add_warning env user_id reason true
            (fresh_session (with_absences env.now (i ∷ ids) db))).1,
      )
  unfolding expire_chain
  expire_chain_lem reason i ids db a =
      bind_step (record_absences env (i ∷ ids) user_id) (λ _. closing reason (i ∷ ids))
        (fresh_session db)
        (ok tt, record (fresh_session db) { current = with_absences env.now (i ∷ ids) db })
        (record_absences_lem (i ∷ ids) (fresh_session db) a)
      ∙ ap
          (λ bs. (
            ok true,
            (add_warning env user_id reason true (fresh_session (record db { bookings = bs }))).1,
          ))
          (update_rows-update_rows (is_listed_id (i ∷ ids)) close_check_in (absent env.now)
            db.bookings (λ x l. listed_by_id (i ∷ ids) x (absent env.now x) refl ∙ l))
