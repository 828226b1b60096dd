-- ===== src/Clubs.antt =====
-- `cancel_club_slot_occurrence` of app/services/club_service.py: a club gives up its recurring slot
-- for one date.
pub mod Laws
pub mod Slots
use music_room_bot.Prelude.{
  ℕ, ◌+◌, Bool, true, false, not, ◌&&◌, ◌||◌, Option, none, some, ◌∷◌, leb, ◌==◌, is_some,
}
use music_room_bot.Db.{
  WeeklySlot, ClubLeader, Db, has_user_id, at_slot, has_weekly_slot_id, is_cancellation_of,
}
use music_room_bot.Prelude.Rows.{select, count_rows}
use music_room_bot.Session.{
  integrity_error, Env, Exec, pure, raise, lift, branch, query, scalar_one_or_none, try_integrity,
  modify, commit, rollback, slot_start, ◌>>=◌, ◌>>◌,
}
use music_room_bot.Time.{weekday}

pub data ClubCancelStatus : Type 0 where
  slot_not_found invalid_date not_allowed past_slot booking_exists : ClubCancelStatus
  already_cancelled occurrence_cancelled : ClubCancelStatus

-- `column == club_id`, false on NULL
abbrev pub of_club : ℕ → Option ℕ → Bool
of_club club_id none = false
of_club club_id (some i) = i == club_id

abbrev pub is_leader_row : ℕ → ℕ → ClubLeader → Bool
is_leader_row club_id user_id l = of_club club_id l.club_id && l.user_id == user_id

unfoldable pub is_club_leader : ℕ → ℕ → Exec Bool
is_club_leader club_id user_id = do
  rows ← query λ db. select (is_leader_row club_id user_id) db.club_leaders
  row ← scalar_one_or_none rows
  pure (is_some row)

-- `not require_leader or await is_club_leader(…)`
unfoldable pub may_cancel : Bool → ℕ → ℕ → Exec Bool
may_cancel require_leader club_id user_id =
    branch (not require_leader) (pure true) (is_club_leader club_id user_id)

-- `uq_club_slot_cancellation_slot_date` or the foreign key to `users` refuses the row.
abbrev pub refuses_cancellation : ℕ → ℕ → ℕ → Db → Bool
refuses_cancellation weekly_slot_id target_date user_id db =
    not (count_rows (is_cancellation_of weekly_slot_id target_date) db.cancellations == 0)
    || (count_rows (has_user_id user_id) db.users == 0)

-- `db.add(ClubSlotCancellation(…))`; `weekly_slot_id` is the key by which the slot was found.
abbrev pub with_cancellation : Env → WeeklySlot → ℕ → ℕ → Db → Db
with_cancellation env slot target_date user_id db = record db {
  cancellations =
      record {
        id = db.next_cancellation_id;
        club_id = slot.club_id;
        weekly_slot_id = slot.id;
        date = target_date;
        cancelled_by_user_id = user_id;
        cancelled_at = env.now;
      }
      ∷ db.cancellations;
  next_cancellation_id = db.next_cancellation_id + 1;
}

-- The commit, which sends the INSERT, and the handler of its IntegrityError.
unfoldable pub insert_cancellation : Env → WeeklySlot → ℕ → ℕ → Exec ClubCancelStatus
insert_cancellation env slot target_date user_id =
    try_integrity
      (do
        refused ← query (refuses_cancellation slot.id target_date user_id)
        branch refused (raise integrity_error) do
          modify (with_cancellation env slot target_date user_id)
          commit
          pure occurrence_cancelled)
      (do rollback; pure already_cancelled)

unfoldable pub cancel_occurrence :
    Env → ℕ → ℕ → ℕ → Bool → Option WeeklySlot → Exec ClubCancelStatus
cancel_occurrence env club_id target_date user_id require_leader none = pure slot_not_found
cancel_occurrence env club_id target_date user_id require_leader (some slot) =
    branch (require_leader && not (of_club club_id slot.club_id)) (pure slot_not_found) (
      branch (not (slot.weekday == weekday target_date)) (pure invalid_date) do
        permitted ← may_cancel require_leader club_id user_id
        branch (not permitted) (pure not_allowed) do
          booking_dt ← lift (slot_start target_date slot.hour)
          branch (leb booking_dt env.now) (pure past_slot) do
            rows ← query λ db. select (at_slot target_date slot.hour) db.bookings
            existing_booking ← scalar_one_or_none rows
            branch (is_some existing_booking) (pure booking_exists)
                (insert_cancellation env slot target_date user_id))

unfoldable pub cancel_club_slot_occurrence : Env → ℕ → ℕ → ℕ → ℕ → Bool → Exec ClubCancelStatus
cancel_club_slot_occurrence env club_id weekly_slot_id target_date user_id require_leader = do
  rows ← query λ db. select (has_weekly_slot_id weekly_slot_id) db.weekly_slots
  slot ← scalar_one_or_none rows
  cancel_occurrence env club_id target_date user_id require_leader slot
