-- ===== src/Tests/Rehearsals.antt =====
-- The theorems on club slots at the sample club: Ann gives up Friday's recurring slot at six.
use music_room_bot.Prelude.{◌≤◌, ◌≡◌, refl, true, false, [], ◌∷◌, arith}
use music_room_bot.Bookings.Queries.Laws.{is_reserved}
use music_room_bot.Clubs.{
  is_leader_row, is_club_leader, may_cancel, insert_cancellation, cancel_occurrence,
  cancel_club_slot_occurrence,
}
use music_room_bot.Clubs.Laws.{
  cancels, GiveUpEnds, cancel_club_slot_occurrence_lem, cancel_club_slot_occurrence-frees,
}
use music_room_bot.Clubs.Slots.{has_club_id}
use music_room_bot.Db.{Club, at_slot, has_weekly_slot_id}
use music_room_bot.Db.Invariant.{IsKeyed}
use music_room_bot.Prelude.Rows.{select, count_rows}
use music_room_bot.Session.{fresh_session, slot_start}
use music_room_bot.Tests.{env, friday_six, db, db-IsConsistent}

one_leader : count_rows (is_leader_row 1 1) db.club_leaders ≤ 1
unfolding count_rows
one_leader = omega arith

friday_slot : select (has_weekly_slot_id 1) db.weekly_slots ≡ friday_six ∷ []
unfolding select
friday_slot = refl

friday_given_up :
    cancels (cancel_club_slot_occurrence env 1 1 705 1 true (fresh_session db)).0 ≡ true
unfolding cancel_club_slot_occurrence cancel_occurrence may_cancel is_club_leader
    insert_cancellation slot_start select count_rows
friday_given_up = refl

cancel_club_slot_occurrence_lem_example :
    GiveUpEnds env 1 1 705 1 true db
      (cancel_club_slot_occurrence env 1 1 705 1 true (fresh_session db))
cancel_club_slot_occurrence_lem_example =
    cancel_club_slot_occurrence_lem env 1 1 705 1 true db db-IsConsistent one_leader

cancel_club_slot_occurrence-frees_example :
    let t = (cancel_club_slot_occurrence env 1 1 705 1 true (fresh_session db)).1.committed in
    (is_reserved 705 18 db ≡ true)
    × (is_reserved 705 18 t ≡ false)
    × (count_rows (at_slot 705 18) t.bookings ≡ 0)
cancel_club_slot_occurrence-frees_example =
    cancel_club_slot_occurrence-frees env 1 1 705 1 true db db-IsConsistent one_leader friday_six
      friday_slot friday_given_up

abbrev chess : Club
chess = record { id = 1; name = 67 ∷ []; created_at = 0 }

chess_is_known : select (has_club_id 1) db.clubs ≡ chess ∷ []
unfolding select
chess_is_known = refl

weekly_slots-IsKeyed : IsKeyed has_weekly_slot_id db.next_weekly_slot_id db.weekly_slots
unfolding count_rows
weekly_slots-IsKeyed = record { key = λ i. ground arith; fresh = λ i h. ground arith }
