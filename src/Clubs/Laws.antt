-- ===== src/Clubs/Laws.antt =====
-- `cancel_club_slot_occurrence` of app/services/club_service.py: its ends and its effect on
-- reservations.
use music_room_bot.Prelude.{
  ℕ, ◌≤◌, ◌<◌, ◌≡◌, ◌⊎◌, inl, inr, Bool, true, false, not, ◌&&◌, ◌||◌, some, [], ◌∷◌, arith, ltb,
  ◌==◌, Bool-cases,
}
use music_room_bot.Bookings.Queries.Laws.{is_reserved}
use music_room_bot.Clubs.{
  ClubCancelStatus, slot_not_found, invalid_date, not_allowed, past_slot, booking_exists,
  already_cancelled, occurrence_cancelled, of_club, is_leader_row, is_club_leader, may_cancel,
  refuses_cancellation, with_cancellation, insert_cancellation, cancel_occurrence,
  cancel_club_slot_occurrence,
}
use music_room_bot.Db.{
  WeeklySlot, Db, at_slot, at_weekly_slot, has_weekly_slot_id, is_cancellation_of,
}
use music_room_bot.Db.Invariant.{IsWeeklyTable, IsConsistent}
use music_room_bot.Prelude.Rows.{select, count_rows, select_count, select_unique}
use music_room_bot.Session.{Outcome, ok, raised, Env, Session, fresh_session, slot_start}
use music_room_bot.Session.Laws.{scalar_cases}
use music_room_bot.Time.{weekday, combine}

abbrev pub cancels : Outcome ClubCancelStatus → Bool
cancels (ok occurrence_cancelled) = true
cancels (ok already_cancelled) = false
cancels (ok slot_not_found) = false
cancels (ok invalid_date) = false
cancels (ok not_allowed) = false
cancels (ok past_slot) = false
cancels (ok booking_exists) = false
cancels (raised e) = false

module _ (env : Env) (club_id weekly_slot_id d user_id : ℕ) (require_leader : Bool) (db : Db) where
  -- The recurring slot `w` is given up for the date.
  pub record IsGivenUp (w : WeeklySlot) (out : Outcome ClubCancelStatus × Session) : Type 0 where
    pub done : cancels out.0 ≡ true
    pub committed : out.1.committed ≡ with_cancellation env w d user_id db
    pub slot : select (has_weekly_slot_id weekly_slot_id) db.weekly_slots ≡ w ∷ []
    pub same_day : w.weekday ≡ weekday d
    pub club : require_leader ≡ true → of_club club_id w.club_id ≡ true
    pub leader :
        require_leader ≡ true → 1 ≤ count_rows (is_leader_row club_id user_id) db.club_leaders
    pub future : env.now < combine d w.hour
    pub unbooked : count_rows (at_slot d w.hour) db.bookings ≡ 0
    pub first : count_rows (is_cancellation_of w.id d) db.cancellations ≡ 0

  pub record IsNotGivenUp (out : Outcome ClubCancelStatus × Session) : Type 0 where
    pub done : cancels out.0 ≡ false
    pub committed : out.1.committed ≡ db

  abbrev pub GiveUpEnds : Outcome ClubCancelStatus × Session → Type 0
  GiveUpEnds out = ((w : WeeklySlot) × IsGivenUp w out) ⊎ IsNotGivenUp out

  may_cancel_lem :
      count_rows (is_leader_row club_id user_id) db.club_leaders ≤ 1
      → may_cancel require_leader club_id user_id (fresh_session db) ≡ (
        ok (
            not require_leader
            || not (count_rows (is_leader_row club_id user_id) db.club_leaders == 0)),
        fresh_session db,
      )
  unfolding may_cancel is_club_leader
  may_cancel_lem u =
      let p = is_leader_row club_id user_id in
      ground (arith, scalar_cases p db.club_leaders u, select_count p db.club_leaders)

  cancel_occurrence-GiveUpEnds :
      (w : WeeklySlot)
      → IsConsistent db
      → count_rows (is_leader_row club_id user_id) db.club_leaders ≤ 1
      → select (has_weekly_slot_id weekly_slot_id) db.weekly_slots ≡ w ∷ []
      → GiveUpEnds
          (cancel_occurrence env club_id d user_id require_leader (some w) (fresh_session db))
  unfolding cancel_occurrence insert_cancellation slot_start
  cancel_occurrence-GiveUpEnds w v u ew =
      let p = at_slot d w.hour in
      let one_booking = scalar_cases p db.bookings (v.bookings_ok.slot_unique d w.hour) in
      let leads = not (count_rows (is_leader_row club_id user_id) db.club_leaders == 0) in
      elim (Bool-cases (
        ((not require_leader || (of_club club_id w.club_id && leads)) && w.weekday == weekday d)
        && ((ltb w.hour 24 && ltb env.now (combine d w.hour))
            && (count_rows p db.bookings == 0 && not (refuses_cancellation w.id d user_id db))))) [
              | inr no_way ↦
                  inr (ground (arith, may_cancel_lem u, one_booking, select_count p db.bookings))
              | inl way ↦ inl (
                w,
                record {
                  done = ground (arith, may_cancel_lem u, one_booking, select_count p db.bookings);
                  committed =
                      ground (arith, may_cancel_lem u, one_booking, select_count p db.bookings);
                  slot = ew;
                  same_day = ground arith;
                  club = ground arith;
                  leader = ground arith;
                  future = ground arith;
                  unbooked = ground arith;
                  first = ground arith;
                },
              )
            ]

  found_slot :
      (w : WeeklySlot)
      → select (has_weekly_slot_id weekly_slot_id) db.weekly_slots ≡ w ∷ []
      → cancel_club_slot_occurrence env club_id weekly_slot_id d user_id require_leader
          (fresh_session db)
        ≡ cancel_occurrence env club_id d user_id require_leader (some w) (fresh_session db)
  unfolding cancel_club_slot_occurrence
  found_slot w ew = ground arith

  -- On consistent tables where a user leads a club at most once: a cancellation of a club's slot
  -- for a date is entered for a future date of the slot's weekday that has neither a booking nor a
  -- cancellation, and, where the caller must be a leader, by a leader of the slot's club;
  -- otherwise, an exception included, the committed tables stay as they were.
  pub cancel_club_slot_occurrence_lem :
      IsConsistent db
      → count_rows (is_leader_row club_id user_id) db.club_leaders ≤ 1
      → GiveUpEnds (
          cancel_club_slot_occurrence env club_id weekly_slot_id d user_id require_leader
            (fresh_session db))
  unfolding cancel_club_slot_occurrence cancel_occurrence
  cancel_club_slot_occurrence_lem v u =
      elim (scalar_cases (has_weekly_slot_id weekly_slot_id) db.weekly_slots
        (v.weekly_ok.weekly_key weekly_slot_id)) [
          | inl nothing ↦ inr (ground arith)
          | inr (w, ew, _) ↦ rw (found_slot w ew) (cancel_occurrence-GiveUpEnds w v u ew)
        ]

  with_cancellation-frees :
      (w : WeeklySlot)
      → select (at_weekly_slot (weekday d) w.hour) db.weekly_slots ≡ w ∷ []
      → count_rows (at_slot d w.hour) db.bookings ≡ 0
      → count_rows (is_cancellation_of w.id d) db.cancellations ≡ 0
      → let t = with_cancellation env w d user_id db in
        (is_reserved d w.hour db ≡ true)
        × (is_reserved d w.hour t ≡ false)
        × (count_rows (at_slot d w.hour) t.bookings ≡ 0)
  unfolding is_reserved count_rows
  with_cancellation-frees w ew free first = ground arith

  module _ (v : IsConsistent db)
      (u : count_rows (is_leader_row club_id user_id) db.club_leaders ≤ 1) where
    abbrev after : Db
    after =
        (cancel_club_slot_occurrence env club_id weekly_slot_id d user_id require_leader
          (fresh_session db)).1.committed

    -- On consistent tables where a user leads a club at most once, a cancellation of a club's slot,
    -- whatever its outcome, keeps recurring slots and their cancellations unique.
    pub cancel_club_slot_occurrence-IsWeeklyTable :
        IsWeeklyTable after.weekly_slots after.cancellations
    unfolding count_rows
    cancel_club_slot_occurrence-IsWeeklyTable = elim (cancel_club_slot_occurrence_lem v u) [
      | inl (w, a) ↦ record {
        weekly_unique = λ day h. rw a.committed (v.weekly_ok.weekly_unique day h);
        weekly_key = λ i. rw a.committed (v.weekly_ok.weekly_key i);
        cancellation_unique =
            λ i e. rw a.committed (ground (arith, a.first, v.weekly_ok.cancellation_unique i e));
      }
      | inr k ↦ rw k.committed v.weekly_ok
    ]

    by_hour :
        (w : WeeklySlot)
        → IsGivenUp w (
            cancel_club_slot_occurrence env club_id weekly_slot_id d user_id require_leader
              (fresh_session db))
        → select (at_weekly_slot (weekday d) w.hour) db.weekly_slots ≡ w ∷ []
    by_hour w a =
        select_unique (has_weekly_slot_id weekly_slot_id) (at_weekly_slot (weekday d) w.hour)
          db.weekly_slots w [] (ground (arith, a.same_day))
          (v.weekly_ok.weekly_unique (weekday d) w.hour) a.slot

    -- On consistent tables where a user leads a club at most once, an entered cancellation frees
    -- the hour for members: a recurring slot took the hour of the date before and none does after,
    -- and no booking has it.
    pub cancel_club_slot_occurrence-frees :
        (w : WeeklySlot)
        → select (has_weekly_slot_id weekly_slot_id) db.weekly_slots ≡ w ∷ []
        → cancels
            (cancel_club_slot_occurrence env club_id weekly_slot_id d user_id require_leader
              (fresh_session db)).0
          ≡ true
        → (is_reserved d w.hour db ≡ true)
          × (is_reserved d w.hour after ≡ false)
          × (count_rows (at_slot d w.hour) after.bookings ≡ 0)
    cancel_club_slot_occurrence-frees w ew done = elim (cancel_club_slot_occurrence_lem v u) [
      | inl (x, a) ↦
          let same : w ≡ x = ground (arith, ew, a.slot) in
          rw (same, a.committed) (with_cancellation-frees x (by_hour x a) a.unbooked a.first)
      | inr k ↦ absurd (ground (arith, k.done))
    ]
